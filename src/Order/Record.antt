-- ===== src/Order/Record.antt =====
-- The order, what its constructor accepts, and what a commit writes: `Order`, `__post_init__` and
-- the parts of `_commit` (src/quantiqmt/order/domain/model.py).
use quanti_qmt.Base.{
  ℕ, ◌+◌, max, String, Bool, true, not, Option, none, some, List, [], ◌∷◌, ◌++◌, Result, ok, err,
  blank, is_some, nat_beq, ltb, if◌then◌else◌, all, contains, ◌==◌, string_eq,
}
use quanti_qmt.Base.Dict.{Dict, lookup, insert}
use quanti_qmt.Order.States.{OrderState, OrderEvent, OrderAction, is_trade_event}
use quanti_qmt.Order.Catalog.{Definition}
use quanti_qmt.Order.Evidence.{
  Error, value_error, invalid_order_transition, FactIdentity, identity_eq, ExternalFact,
  ProcessedFact,
}
use quanti_qmt.Order.Guards.{validate_trade_guard, validate_state_quantity}

pub record Order : Type 0 where
  pub order_id : String
  pub quantity : ℕ
  pub state : OrderState
  pub cumulative_quantity : ℕ
  pub version : ℕ
  pub processed_facts : Dict FactIdentity ProcessedFact
  pub fact_conflicts : Dict FactIdentity (List String)
  pub broker_sequences : Dict String ℕ

pub record TransitionResult : Type 0 where
  pub previous : OrderState
  pub current : OrderState
  pub event : OrderEvent
  pub action : OrderAction
  pub version : ℕ

-- What a call of `transition` gives: an exception, or the result, where `none` is an idempotent
-- no-op; and the order after it.
abbrev pub Outcome : Type 0
Outcome = Result Error (Option TransitionResult) × Order

-- A value that may be `None`, or 0.
abbrev pub amount : Option ℕ → ℕ
amount none = 0
amount (some q) = q

abbrev pub trade_of : ProcessedFact → ℕ
trade_of f = amount f.trade_quantity

-- The sum of the unique trade facts.
unfoldable pub trade_sum : Dict FactIdentity ProcessedFact → ℕ
trade_sum [] = 0
trade_sum ((_, f) ∷ facts) = trade_of f + trade_sum facts

abbrev pub conflict_is_valid : FactIdentity × List String → Bool
conflict_is_valid (_, prints) = all (λ p. not (blank p)) prints

abbrev pub sequence_is_valid : String × ℕ → Bool
sequence_is_valid (stream, _) = not (stream == "")

-- `Order.__post_init__`: what a restored order has to satisfy.
unfoldable pub post_init : Order → Result Error (Unit {0})
unfolding trade_sum
post_init o =
    if nat_beq o.quantity 0
    then err value_error
    else (if ltb o.version 1
        then err value_error
        else (if ltb o.quantity o.cumulative_quantity
            then err value_error
            else (if not (nat_beq (trade_sum o.processed_facts) o.cumulative_quantity)
                then err value_error
                else (elim (validate_state_quantity o.state o.quantity o.cumulative_quantity) [
                  | err e ↦ err e
                  | ok _ ↦
                      if not (all conflict_is_valid o.fact_conflicts)
                      then err value_error
                      else (if not (all sequence_is_valid o.broker_sequences)
                          then err value_error
                          else ok tt)
                ]))))

-- `Order(order_id, quantity)`, with the defaults of the other fields.
unfoldable pub new_order : String → ℕ → Order
new_order order_id quantity = record {
  order_id = order_id;
  quantity = quantity;
  state = OrderState.registered;
  cumulative_quantity = 0;
  version = 1;
  processed_facts = [];
  fact_conflicts = [];
  broker_sequences = [];
}

-- `ProcessedFact(fact.fingerprint, fact.trade_quantity)`
abbrev pub processed : ExternalFact → ProcessedFact
processed f = record { fingerprint = f.fingerprint; trade_quantity = f.trade_quantity }

-- `next_facts`
unfoldable pub next_facts : Order → Option ExternalFact → Bool → Dict FactIdentity ProcessedFact
next_facts o (some f) true = insert f.identity (processed f) o.processed_facts
next_facts o _ _ = o.processed_facts

abbrev pub observed : String → Dict String ℕ → ℕ
observed stream sequences = amount (lookup stream sequences)

abbrev pub observe : Option ℕ → Option String → Dict String ℕ → Dict String ℕ
observe (some n) (some stream) sequences =
    insert stream (max n (observed stream sequences)) sequences
observe _ _ sequences = sequences

-- `next_sequences`
unfoldable pub next_sequences : Order → Option ExternalFact → Bool → Dict String ℕ
next_sequences o (some f) true = observe f.broker_sequence f.stream o.broker_sequences
next_sequences o _ _ = o.broker_sequences

abbrev pub or_empty : Option (List String) → List String
or_empty none = []
or_empty (some ps) = ps

-- `self.fact_conflicts.get(identity, frozenset())`
unfoldable pub conflicts_of : FactIdentity → Dict FactIdentity (List String) → List String
conflicts_of identity conflicts = or_empty (lookup identity conflicts)

-- `fingerprints.add(fingerprint)`
unfoldable pub add_fingerprint : String → List String → List String
add_fingerprint p ps = if contains p ps then ps else ps ++ p ∷ []

-- `next_conflicts`
unfoldable pub next_conflicts : Order → Option ExternalFact → Dict FactIdentity (List String)
next_conflicts o none = o.fact_conflicts
next_conflicts o (some f) =
    insert f.identity (add_fingerprint f.fingerprint (conflicts_of f.identity o.fact_conflicts))
      o.fact_conflicts

abbrev with_trade : Order → Definition → Option ℕ → Result Error ℕ
with_trade o d none = err invalid_order_transition
with_trade o d (some q) =
    elim (validate_trade_guard o.quantity o.cumulative_quantity d.guard
      (o.cumulative_quantity + q)) [ err e ↦ err e | ok _ ↦ ok (o.cumulative_quantity + q) ]

-- The candidate for a single-trade quantity that may be missing.
unfoldable pub candidate_of : Order → OrderEvent → Definition → Option ℕ → Result Error ℕ
unfolding is_trade_event
candidate_of o event d trade =
    if is_trade_event event
    then with_trade o d trade
    else (if is_some trade then err invalid_order_transition else ok o.cumulative_quantity)

abbrev pub trade_in : Option ExternalFact → Option ℕ
trade_in none = none
trade_in (some f) = f.trade_quantity

-- The cumulative quantity after the event, from the single-trade quantity of its fact.
unfoldable pub candidate : Order → OrderEvent → Definition → Option ExternalFact → Result Error ℕ
unfolding candidate_of
candidate o event d fact = candidate_of o event d (trade_in fact)

-- The assignments at the end of `_commit`.
unfoldable pub apply_commit :
    Order → OrderEvent → Definition → Option ExternalFact → Bool → Option ExternalFact → ℕ → Outcome
apply_commit o event d fact remember conflict value = (
  ok (
      some (record {
        previous = o.state;
        current = d.target;
        event = event;
        action = d.action;
        version = o.version + 1;
      })),
  record o {
    state = d.target;
    cumulative_quantity = value;
    processed_facts = next_facts o fact remember;
    fact_conflicts = next_conflicts o conflict;
    broker_sequences = next_sequences o fact remember;
    version = o.version + 1;
  },
)
