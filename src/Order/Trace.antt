-- ===== src/Order/Trace.antt =====
-- The life of an order: a sequence of calls of `Order.transition`
-- (src/quantiqmt/order/domain/model.py), each with its event, evidence and fact.
use quanti_qmt.Base.{
  ℕ, ◌+◌, ◌≤◌, ◌≡◌, String, Option, none, some, Result, ok, err, List, [], ◌∷◌, arith,
}
use quanti_qmt.Order.States.{OrderState, OrderEvent, OrderAction}
use quanti_qmt.Order.Catalog.{Definition, transitions}
use quanti_qmt.Order.Evidence.{Error, GuardEvidence, ExternalFact, identity_eq}
use quanti_qmt.Order.Record.{Order, TransitionResult, Outcome, post_init, new_order, trade_sum}
use quanti_qmt.Order.Aggregate.{transition}
use quanti_qmt.Order.Accounting.{FactIsValid, IsValid, IsValid-of_post_init}
use quanti_qmt.Order.Effects.{Effect, transition-Effect, transition-post_init}

-- The arguments of one call.
pub record Input : Type 0 where
  pub event : OrderEvent
  pub evidence : GuardEvidence
  pub fact : Option ExternalFact

abbrev pub call : Order → Input → Outcome
call o i = transition o i.event i.evidence i.fact

-- The results that the calls return, exceptions and no-ops left out.
abbrev pub add_result :
    Result Error (Option TransitionResult) → List TransitionResult → List TransitionResult
add_result (ok (some t)) ts = t ∷ ts
add_result _ ts = ts

-- The calls in their order, and the order after them.
unfoldable pub run : Order → List Input → List TransitionResult × Order
run o [] = ([], o)
run o (i ∷ is) = let (r, o') = call o i in let (ts, last) = run o' is in (add_result r ts, last)

-- Every fact of the sequence has passed its constructor.
abbrev pub AllFactsValid : List Input → Type 0
AllFactsValid [] = Unit
AllFactsValid (i ∷ is) = FactIsValid i.fact × AllFactsValid is

run-post_init :
    (o : Order) (is : List Input)
    → AllFactsValid is
    → post_init o ≡ ok tt
    → post_init (run o is).1 ≡ ok tt
unfolding run
run-post_init o [] v h = h
run-post_init o (i ∷ is) v h =
    run-post_init (call o i).1 is v.1 (transition-post_init o i.event i.evidence i.fact v.0 h)

new_order-post_init : (id : String) (q : ℕ) → 1 ≤ q → post_init (new_order id q) ≡ ok tt
unfolding post_init new_order quanti_qmt.Order.Guards.validate_state_quantity
new_order-post_init id q h = ground arith

-- After any calls on a new order of a positive quantity, the cumulative quantity is the sum of the
-- distinct trade facts, and at most the quantity of the order.
pub run-accounted :
    (id : String) (q : ℕ) (is : List Input)
    → 1 ≤ q
    → AllFactsValid is
    → let o = (run (new_order id q) is).1 in
      (trade_sum o.processed_facts ≡ o.cumulative_quantity) × (o.cumulative_quantity ≤ o.quantity)
run-accounted id q is h v =
    let o = (run (new_order id q) is).1 in
    let valid : IsValid o =
      IsValid-of_post_init o (run-post_init (new_order id q) is v (new_order-post_init id q h)) in
    (valid.accounted, valid.within)

-- The execution attempts that the results ask for.
abbrev is_attempt : OrderAction → ℕ
is_attempt OrderAction.start_execution_attempt = 1
is_attempt _ = 0

unfoldable pub attempts : List TransitionResult → ℕ
attempts [] = 0
attempts (t ∷ ts) = is_attempt t.action + attempts ts

-- One attempt is left before the dispatch, and none after it.
abbrev attempts_left : OrderState → ℕ
attempts_left OrderState.registered = 1
attempts_left OrderState.risk_pending = 1
attempts_left OrderState.approved = 1
attempts_left _ = 0

row_attempts :
    (s : OrderState) (e : OrderEvent) (d : Definition)
    → transitions s e ≡ some d
    → is_attempt d.action + attempts_left d.target ≤ attempts_left s
unfolding transitions
row_attempts OrderState.registered e d t = ground arith
row_attempts s e d t = ground arith

abbrev Spends : Order → Outcome → Type 0
Spends o r = attempts (add_result r.0 []) + attempts_left r.1.state ≤ attempts_left o.state

Effect-Spends : (o : Order) (r : Outcome) → Effect o r → Spends o r
unfolding attempts
Effect-Spends o (err x, o') h = rw h (omega arith)
Effect-Spends o (ok none, o') h = rw h (omega arith)
Effect-Spends o (ok (some t), o') c =
    rw (c.state, c.current, c.action)
      (omega (arith, row_attempts o.state t.event c.definition c.row))

attempts-add_result :
    (r : Result Error (Option TransitionResult)) (ts : List TransitionResult)
    → attempts (add_result r ts) ≡ attempts (add_result r []) + attempts ts
unfolding attempts
attempts-add_result (ok (some t)) ts = omega arith
attempts-add_result (ok none) ts = omega arith
attempts-add_result (err x) ts = omega arith

run-attempts : (o : Order) (is : List Input) → attempts (run o is).0 ≤ attempts_left o.state
unfolding run attempts
run-attempts o [] = omega arith
run-attempts o (i ∷ is) = omega (
  arith,
  Effect-Spends o (call o i) (transition-Effect o i.event i.evidence i.fact),
  run-attempts (call o i).1 is,
  attempts-add_result (call o i).0 (run (call o i).1 is).0,
)

-- However the calls go, a new order asks for at most one execution attempt: an uncertain outcome
-- never leads to a second submission.
pub run-attempts-le_one :
    (id : String) (q : ℕ) (is : List Input) → attempts (run (new_order id q) is).0 ≤ 1
unfolding new_order
run-attempts-le_one id q is = run-attempts (new_order id q) is
