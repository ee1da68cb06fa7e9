-- ===== src/Order/Final.antt =====
-- The states SUSPENDED and FILLED under any sequence of calls
-- (src/quantiqmt/order/domain/model.py).
use quanti_qmt.Base.{
  ◌≡◌, refl, inl, inr, ◌⊎◌, Bool, false, Option, none, some, ok, err, List, [], ◌∷◌, arith,
}
use quanti_qmt.Order.States.{OrderState, OrderEvent, is_trade_event}
use quanti_qmt.Order.Catalog.{Definition, transitions}
use quanti_qmt.Order.Evidence.{GuardEvidence, ExternalFact, no_evidence}
use quanti_qmt.Order.Record.{Order, Outcome, candidate, apply_commit}
use quanti_qmt.Order.Aggregate.{commit, transition}
use quanti_qmt.Order.Wellformed.{commit-cases}
use quanti_qmt.Order.Routes.{transition-cases}
use quanti_qmt.Order.Effects.{Effect, transition-Effect}
use quanti_qmt.Order.Trace.{Input, call, add_result, run}

suspended-row : (e : OrderEvent) → transitions OrderState.suspended e ≡ none
unfolding transitions
suspended-row OrderEvent.start_risk = refl
suspended-row _ = refl

suspended-Effect :
    (o : Order) (r : Outcome)
    → o.state ≡ OrderState.suspended
    → Effect o r
    → (r.1 ≡ o) × ((ts : List _) → add_result r.0 ts ≡ ts)
suspended-Effect o (err x, o') s h = (h, λ ts. refl)
suspended-Effect o (ok none, o') s h = (h, λ ts. refl)
suspended-Effect o (ok (some t), o') s c =
    let r : transitions OrderState.suspended t.event ≡ some c.definition = rw s at c.row in
    cc (suspended-row t.event)

-- SUSPENDED is final: after any calls the order is the same, and no result has been returned.
pub run-suspended :
    (o : Order) (is : List Input) → o.state ≡ OrderState.suspended → run o is ≡ ([], o)
unfolding run
run-suspended o [] s = refl
run-suspended o (i ∷ is) s =
    let (same, silent) =
      suspended-Effect o (call o i) s (transition-Effect o i.event i.evidence i.fact) in
    rw (silent (run (call o i).1 is).0, same) (run-suspended o is s)

abbrev StaysFilled : Order → Outcome → Type 0
StaysFilled o r =
    (r.1 ≡ o)
    ⊎ ((r.1.state ≡ OrderState.suspended) × (r.1.cumulative_quantity ≡ o.cumulative_quantity))

filled-row :
    (e : OrderEvent) (d : Definition)
    → transitions OrderState.filled e ≡ some d
    → (d.target ≡ OrderState.suspended) × (is_trade_event e ≡ false)
unfolding transitions is_trade_event
filled-row OrderEvent.start_risk d t = ground arith
filled-row e d t = ground arith

commit-StaysFilled :
    (o : Order) (e : OrderEvent) (ev : GuardEvidence) (fact conflict : Option ExternalFact)
    (remember : Bool)
    → o.state ≡ OrderState.filled
    → StaysFilled o (commit o e ev fact remember conflict)
unfolding apply_commit candidate
commit-StaysFilled o e ev fact conflict remember s =
    commit-cases (StaysFilled o) o e ev fact conflict remember (λ _. inl refl) (inl refl)
      λ d value t g k.
        let (target, trade) = filled-row e d (rw s at t) in inr (target, ground arith)

-- A filled order takes no more trades: after a call it is unchanged, or it is SUSPENDED with the
-- same cumulative quantity.
pub transition-filled :
    (o : Order) (e : OrderEvent) (ev : GuardEvidence) (fact : Option ExternalFact)
    → o.state ≡ OrderState.filled
    → let o' = (transition o e ev fact).1 in
      (o' ≡ o)
      ⊎ ((o'.state ≡ OrderState.suspended) × (o'.cumulative_quantity ≡ o.cumulative_quantity))
transition-filled o e ev fact s =
    transition-cases (StaysFilled o) o e ev fact (λ _. inl refl) (inl refl)
      (λ f c. commit-StaysFilled o OrderEvent.fact_conflict no_evidence none (some f) false s)
      (λ e' remember _ _. commit-StaysFilled o e' ev fact none remember s)
