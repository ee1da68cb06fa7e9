-- ===== src/Order/Authority.antt =====
-- Which calls of `Order.transition` may commit which transitions
-- (src/quantiqmt/order/domain/model.py): the authority behind a dispatch and an approval, the
-- evidence of an absent order, and the states that are left no more.
use quanti_qmt.Base.{ℕ, ◌≡◌, inl, ◌⊎◌, Bool, true, false, Option, none, some, ok, arith}
use mathlib.Core.Path.{subst}
use quanti_qmt.Order.States.{OrderState, OrderEvent}
use quanti_qmt.Order.Catalog.{Definition, transitions}
use quanti_qmt.Order.Evidence.{GuardEvidence, ReconciliationEvidence, ExternalFact, no_evidence}
use quanti_qmt.Order.Guards.{guard_passes}
use quanti_qmt.Order.Record.{Order, TransitionResult, Outcome, apply_commit}
use quanti_qmt.Order.Aggregate.{commit, transition}
use quanti_qmt.Order.Wellformed.{commit-cases}
use quanti_qmt.Order.Routes.{transition-cases}

-- No match, after the window, and confirmed again.
abbrev pub IsAbsent : Option ReconciliationEvidence → Type 0
IsAbsent none = ⊥
IsAbsent (some r) =
    (r.visibility_window_passed ≡ true)
    × (r.repeated_absence_confirmed ≡ true)
    × (r.match_count ≡ 0)

-- What a committed event has behind it, in the order and in the evidence.
record IsBacked (o : Order) (ev : GuardEvidence) (t : TransitionResult) : Type 0 where
  dispatched :
      t.event ≡ OrderEvent.dispatch
      → (o.state ≡ OrderState.approved)
        × (ev.is_leader ≡ true)
        × (ev.fencing_token_valid ≡ true)
        × (ev.system_trading_allowed ≡ true)
        × (ev.account_trading_allowed ≡ true)
  decided :
      (t.event ≡ OrderEvent.risk_passed) ⊎ (t.event ≡ OrderEvent.risk_rejected)
      → (o.state ≡ OrderState.risk_pending) × (ev.expected_order_version ≡ some o.version)
  submitting : t.current ≡ OrderState.submitting → t.event ≡ OrderEvent.dispatch
  approved : t.current ≡ OrderState.approved → t.event ≡ OrderEvent.risk_passed
  failed :
      t.current ≡ OrderState.failed
      → (o.state ≡ OrderState.submit_unknown) × IsAbsent ev.reconciliation

abbrev Backed : Order → GuardEvidence → Outcome → Type 0
Backed o ev (ok (some t), o') = IsBacked o ev t
Backed o ev _ = Unit

-- The same of a row and its guard.
record RowIsBacked (s : OrderState) (e : OrderEvent) (version : ℕ) (ev : GuardEvidence)
    (target : OrderState) : Type 0 where
  dispatched :
      e ≡ OrderEvent.dispatch
      → (s ≡ OrderState.approved)
        × (ev.is_leader ≡ true)
        × (ev.fencing_token_valid ≡ true)
        × (ev.system_trading_allowed ≡ true)
        × (ev.account_trading_allowed ≡ true)
  decided :
      (e ≡ OrderEvent.risk_passed) ⊎ (e ≡ OrderEvent.risk_rejected)
      → (s ≡ OrderState.risk_pending) × (ev.expected_order_version ≡ some version)
  submitting : target ≡ OrderState.submitting → e ≡ OrderEvent.dispatch
  approved : target ≡ OrderState.approved → e ≡ OrderEvent.risk_passed
  failed : target ≡ OrderState.failed → (s ≡ OrderState.submit_unknown) × IsAbsent ev.reconciliation

row-IsBacked :
    (s : OrderState) (e : OrderEvent) (total cum version : ℕ) (ev : GuardEvidence) (c : Bool)
    (d : Definition)
    → transitions s e ≡ some d
    → guard_passes s total cum version d.guard ev c ≡ true
    → RowIsBacked s e version ev d.target
unfolding transitions guard_passes
row-IsBacked OrderState.registered e total cum version ev c d t g = ground arith
row-IsBacked s e total cum version ev c d t g = ground arith

commit-Backed :
    (o : Order) (e : OrderEvent) (ev : GuardEvidence) (fact : Option ExternalFact) (remember : Bool)
    → Backed o ev (commit o e ev fact remember none)
unfolding apply_commit
commit-Backed o e ev fact remember =
    commit-cases (Backed o ev) o e ev fact none remember (λ _. tt) tt
      λ d value t g k.
        let b = row-IsBacked o.state e o.quantity o.cumulative_quantity o.version ev false d t g in
        record {
          dispatched = b.dispatched;
          decided = b.decided;
          submitting = b.submitting;
          approved = b.approved;
          failed = b.failed;
        }

conflict_target :
    (s : OrderState) (d : Definition)
    → transitions s OrderEvent.fact_conflict ≡ some d
    → d.target ≡ OrderState.suspended
unfolding transitions
conflict_target s d t = ground arith

conflict-Backed :
    (o : Order) (ev : GuardEvidence) (f : ExternalFact)
    → Backed o ev (commit o OrderEvent.fact_conflict no_evidence none false (some f))
unfolding apply_commit
conflict-Backed o ev f =
    commit-cases (Backed o ev) o OrderEvent.fact_conflict no_evidence none (some f) false (λ _. tt)
      tt
      λ d value t g k. record {
        dispatched = λ e. cc;
        decided = λ e. ground arith;
        submitting = λ e. cc (conflict_target o.state d t);
        approved = λ e. cc (conflict_target o.state d t);
        failed = λ e. cc (conflict_target o.state d t);
      }

transition-Backed :
    (o : Order) (e : OrderEvent) (ev : GuardEvidence) (fact : Option ExternalFact)
    → Backed o ev (transition o e ev fact)
transition-Backed o e ev fact =
    transition-cases (Backed o ev) o e ev fact (λ _. tt) tt (λ f c. conflict-Backed o ev f)
      (λ e' remember _ _. commit-Backed o e' ev fact remember)

transition-IsBacked :
    (o o' : Order) (e : OrderEvent) (ev : GuardEvidence) (fact : Option ExternalFact)
    (t : TransitionResult)
    → transition o e ev fact ≡ (ok (some t), o')
    → IsBacked o ev t
transition-IsBacked o o' e ev fact t h = subst (Backed o ev) h (transition-Backed o e ev fact)

-- SUBMITTING is entered by a dispatch alone, from an approved order, by the leader with a valid
-- fencing token, while both the system and the account may trade.
pub submitting_needs_authority :
    (o o' : Order) (e : OrderEvent) (ev : GuardEvidence) (fact : Option ExternalFact)
    (t : TransitionResult)
    → transition o e ev fact ≡ (ok (some t), o')
    → t.current ≡ OrderState.submitting
    → (t.event ≡ OrderEvent.dispatch)
      × (o.state ≡ OrderState.approved)
      × (ev.is_leader ≡ true)
      × (ev.fencing_token_valid ≡ true)
      × (ev.system_trading_allowed ≡ true)
      × (ev.account_trading_allowed ≡ true)
submitting_needs_authority o o' e ev fact t h c =
    let b = transition-IsBacked o o' e ev fact t h in
    let d = b.submitting c in
    let (state, leader, token, system, account) = b.dispatched d in
    (d, state, leader, token, system, account)

-- APPROVED is entered by a passed risk evaluation alone, from RISK_PENDING, whose evidence names the
-- version that the order has.
pub approved_needs_risk :
    (o o' : Order) (e : OrderEvent) (ev : GuardEvidence) (fact : Option ExternalFact)
    (t : TransitionResult)
    → transition o e ev fact ≡ (ok (some t), o')
    → t.current ≡ OrderState.approved
    → (t.event ≡ OrderEvent.risk_passed)
      × (o.state ≡ OrderState.risk_pending)
      × (ev.expected_order_version ≡ some o.version)
approved_needs_risk o o' e ev fact t h c =
    let b = transition-IsBacked o o' e ev fact t h in
    let p = b.approved c in let (state, version) = b.decided (inl p) in (p, state, version)

-- FAILED is entered only from SUBMIT_UNKNOWN, with evidence of a reconciliation that found no match
-- after the visibility window and confirmed the absence again.
pub failed_needs_absence :
    (o o' : Order) (e : OrderEvent) (ev : GuardEvidence) (fact : Option ExternalFact)
    (t : TransitionResult)
    → transition o e ev fact ≡ (ok (some t), o')
    → t.current ≡ OrderState.failed
    → (o.state ≡ OrderState.submit_unknown) × IsAbsent ev.reconciliation
failed_needs_absence o o' e ev fact t h c = (transition-IsBacked o o' e ev fact t h).failed c
