-- ===== src/Order/Accounting.antt =====
-- What makes an order valid, and the sum of its trades (src/quantiqmt/order/domain/model.py).
use quanti_qmt.Base.{
  ℕ, ◌+◌, ◌≤◌, ◌≡◌, Bool, true, Option, none, some, [], ◌∷◌, ◌++◌, ok, all, arith, string_eq,
}
use quanti_qmt.Base.Dict.{Dict, lookup, insert_new}
use quanti_qmt.Order.States.{OrderEvent}
use quanti_qmt.Order.Catalog.{Definition, transitions}
use quanti_qmt.Order.Evidence.{
  FactIdentity, identity_eq, ExternalFact, ProcessedFact, GuardEvidence, fact_is_valid,
}
use quanti_qmt.Order.Guards.{guard_passes, validate_trade_guard, validate_state_quantity}
use quanti_qmt.Order.StateQuantity.{guard-keeps_fit, trade-keeps_fit}
use quanti_qmt.Order.Record.{
  Order, trade_of, trade_sum, conflict_is_valid, sequence_is_valid, post_init, next_facts,
  candidate, processed, candidate_of, amount,
}

pub record IsValid (o : Order) : Type 0 where
  pub quantity_positive : 1 ≤ o.quantity
  pub version_positive : 1 ≤ o.version
  pub within : o.cumulative_quantity ≤ o.quantity
  pub accounted : trade_sum o.processed_facts ≡ o.cumulative_quantity
  pub fits : validate_state_quantity o.state o.quantity o.cumulative_quantity ≡ ok tt
  pub conflicts_valid : all conflict_is_valid o.fact_conflicts ≡ true
  pub sequences_valid : all sequence_is_valid o.broker_sequences ≡ true

pub IsValid-of_post_init : (o : Order) → post_init o ≡ ok tt → IsValid o
unfolding post_init
IsValid-of_post_init o h = ground arith

pub post_init_of_IsValid : (o : Order) → IsValid o → post_init o ≡ ok tt
unfolding post_init
post_init_of_IsValid o v = ground arith

-- The fact that comes with an event has passed its constructor.
abbrev pub FactIsValid : Option ExternalFact → Type 0
FactIsValid none = Unit
FactIsValid (some f) = fact_is_valid f ≡ true

-- The fact is new to the order, and is remembered.
abbrev pub IsFresh : Order → Option ExternalFact → Bool → Type 0
IsFresh o none remember = Unit
IsFresh o (some f) remember = (lookup f.identity o.processed_facts ≡ none) × (remember ≡ true)

trade_sum-append :
    (facts : Dict FactIdentity ProcessedFact) (k : FactIdentity) (p : ProcessedFact)
    → trade_sum (facts ++ (k, p) ∷ []) ≡ trade_sum facts + trade_of p
unfolding trade_sum
trade_sum-append [] k p = omega arith
trade_sum-append ((j, q) ∷ facts) k p = omega (arith, trade_sum-append facts k p)

-- A new fact adds its trade quantity to the sum.
pub trade_sum-next_facts :
    (o : Order) (f : ExternalFact)
    → lookup f.identity o.processed_facts ≡ none
    → trade_sum (next_facts o (some f) true) ≡ trade_sum o.processed_facts + trade_of (processed f)
unfolding next_facts
trade_sum-next_facts o f h =
    rw (insert_new f.identity (processed f) o.processed_facts h)
      (trade_sum-append o.processed_facts f.identity (processed f))

candidate_of-adds :
    (o : Order) (e : OrderEvent) (d : Definition) (trade : Option ℕ) (value : ℕ)
    → candidate_of o e d trade ≡ ok value
    → o.cumulative_quantity + amount trade ≡ value
unfolding candidate_of
candidate_of-adds o e d none value h = ground arith
candidate_of-adds o e d (some q) value h = ground arith

candidate-adds :
    (o : Order) (e : OrderEvent) (d : Definition) (f : ExternalFact) (value : ℕ)
    → trade_sum o.processed_facts ≡ o.cumulative_quantity
    → candidate o e d (some f) ≡ ok value
    → trade_sum o.processed_facts + trade_of (processed f) ≡ value
unfolding candidate
candidate-adds o e d f value a h =
    rw a (unfold candidate in candidate_of-adds o e d f.trade_quantity value h)

-- The cumulative quantity after a commit is again the sum of the unique trade facts.
pub candidate-accounted :
    (o : Order) (e : OrderEvent) (d : Definition) (fact : Option ExternalFact) (remember : Bool)
    (value : ℕ)
    → trade_sum o.processed_facts ≡ o.cumulative_quantity
    → IsFresh o fact remember
    → candidate o e d fact ≡ ok value
    → trade_sum (next_facts o fact remember) ≡ value
unfolding candidate next_facts
candidate-accounted o e d none r value a fr h = ground arith
candidate-accounted o e d (some f) r value a fr h =
    rw (fr.1, trade_sum-next_facts o f fr.0) (candidate-adds o e d f value a h)

-- The new cumulative quantity does not fall, and stays within the quantity of the order.
pub candidate_bounds :
    (o : Order) (e : OrderEvent) (d : Definition) (fact : Option ExternalFact) (value : ℕ)
    → o.cumulative_quantity ≤ o.quantity
    → candidate o e d fact ≡ ok value
    → (o.cumulative_quantity ≤ value) × (value ≤ o.quantity)
unfolding candidate validate_trade_guard
candidate_bounds o e d fact value w h = ground arith

pub candidate-fits :
    (o : Order) (e : OrderEvent) (d : Definition) (ev : GuardEvidence) (c : Bool)
    (fact : Option ExternalFact) (value : ℕ)
    → transitions o.state e ≡ some d
    → guard_passes o.state o.quantity o.cumulative_quantity o.version d.guard ev c ≡ true
    → validate_state_quantity o.state o.quantity o.cumulative_quantity ≡ ok tt
    → candidate o e d fact ≡ ok value
    → validate_state_quantity d.target o.quantity value ≡ ok tt
unfolding candidate
candidate-fits o e d ev c fact value t g h k = ground (
  arith,
  guard-keeps_fit o.state e o.quantity o.cumulative_quantity o.version ev c d,
  trade-keeps_fit o.state e o.quantity o.cumulative_quantity value d,
)
