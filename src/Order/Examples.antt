-- ===== src/Order/Examples.antt =====
-- The theorems about the order aggregate at concrete orders, and runs of it.
use quanti_qmt.Base.{
  ◌+◌, ◌≤◌, ◌≡◌, refl, true, false, Option, none, some, ok, err, String, List, [], ◌∷◌, arith, ◌⊎◌,
}
use quanti_qmt.Order.States.{OrderState, OrderEvent, OrderAction}
use quanti_qmt.Order.Evidence.{
  invalid_order_transition, FactIdentity, identity_eq, ExternalFact, ProcessedFact, GuardEvidence,
  no_evidence, risk_snapshots, expected_version, trading_authority, ReconciliationEvidence,
}
use quanti_qmt.Order.Record.{Order, TransitionResult, new_order, trade_sum}
use quanti_qmt.Order.Aggregate.{transition}
use quanti_qmt.Order.Authority.{
  IsAbsent, submitting_needs_authority, approved_needs_risk, failed_needs_absence,
}
use quanti_qmt.Order.Trace.{Input, run, attempts, run-accounted, run-attempts-le_one}
use quanti_qmt.Order.TradeExamples.{opened, at_state, trade}

abbrev dispatched : Order
dispatched = record (at_state OrderState.submitting) { version = 5 }

abbrev dispatch_result : TransitionResult
dispatch_result = record {
  previous = OrderState.approved;
  current = OrderState.submitting;
  event = OrderEvent.dispatch;
  action = OrderAction.start_execution_attempt;
  version = 5;
}

transition-dispatch :
    transition (at_state OrderState.approved) OrderEvent.dispatch trading_authority none
    ≡ (ok (some dispatch_result), dispatched)
unfolding opened
transition-dispatch = refl

-- Without the authority the dispatch is refused.
transition-dispatch_refused :
    transition (at_state OrderState.approved) OrderEvent.dispatch no_evidence none
    ≡ (err invalid_order_transition, at_state OrderState.approved)
unfolding opened
transition-dispatch_refused = refl

submitting_needs_authority_example :
    (OrderEvent.dispatch ≡ OrderEvent.dispatch)
    × (OrderState.approved ≡ OrderState.approved)
    × (true ≡ true)
    × (true ≡ true)
    × (true ≡ true)
    × (true ≡ true)
submitting_needs_authority_example =
    submitting_needs_authority (at_state OrderState.approved) dispatched OrderEvent.dispatch
      trading_authority none dispatch_result transition-dispatch refl

abbrev approve_result : TransitionResult
approve_result = record {
  previous = OrderState.risk_pending;
  current = OrderState.approved;
  event = OrderEvent.risk_passed;
  action = OrderAction.persist_order_approved;
  version = 5;
}

transition-approve :
    transition (at_state OrderState.risk_pending) OrderEvent.risk_passed (expected_version 4) none
    ≡ (ok (some approve_result), record (at_state OrderState.approved) { version = 5 })
unfolding opened
transition-approve = refl

approved_needs_risk_example :
    (OrderEvent.risk_passed ≡ OrderEvent.risk_passed)
    × (OrderState.risk_pending ≡ OrderState.risk_pending)
    × ((expected_version 4).expected_order_version ≡ some 4)
approved_needs_risk_example =
    approved_needs_risk (at_state OrderState.risk_pending)
      (record (at_state OrderState.approved) { version = 5 }) OrderEvent.risk_passed
      (expected_version 4) none approve_result transition-approve refl

abbrev absence : GuardEvidence
absence = record no_evidence {
  reconciliation = some (record {
    match_count = 0;
    status = none;
    visibility_window_passed = true;
    repeated_absence_confirmed = true;
    cancel_rejected = false;
  });
}

abbrev fail_result : TransitionResult
fail_result = record {
  previous = OrderState.submit_unknown;
  current = OrderState.failed;
  event = OrderEvent.reconcile_confirmed_absent;
  action = OrderAction.persist_submit_failed;
  version = 5;
}

transition-fail :
    transition
      (at_state OrderState.submit_unknown)
      OrderEvent.reconcile_confirmed_absent
      absence
      none
    ≡ (ok (some fail_result), record (at_state OrderState.failed) { version = 5 })
unfolding opened
transition-fail = refl

failed_needs_absence_example :
    (OrderState.submit_unknown ≡ OrderState.submit_unknown) × IsAbsent absence.reconciliation
failed_needs_absence_example =
    failed_needs_absence (at_state OrderState.submit_unknown)
      (record (at_state OrderState.failed) { version = 5 }) OrderEvent.reconcile_confirmed_absent
      absence none fail_result transition-fail refl

abbrev input : OrderEvent → GuardEvidence → Option ExternalFact → Input
input event evidence fact = record { event = event; evidence = evidence; fact = fact }

-- An order that is approved, sent, of unknown outcome, sent again in vain, and traded.
abbrev life : List Input
life =
    input OrderEvent.start_risk (risk_snapshots "a" "p" "m") none
    ∷ input OrderEvent.risk_passed (expected_version 2) none
    ∷ input OrderEvent.dispatch trading_authority none
    ∷ input OrderEvent.outcome_unknown no_evidence none
    ∷ input OrderEvent.dispatch trading_authority none
    ∷ input OrderEvent.partial_trade no_evidence (some trade)
    ∷ input OrderEvent.partial_trade no_evidence (some trade)
    ∷ []

run-accounted_example :
    let o = (run (new_order "order-1" 100) life).1 in
    (trade_sum o.processed_facts ≡ o.cumulative_quantity) × (o.cumulative_quantity ≤ o.quantity)
run-accounted_example = run-accounted "order-1" 100 life (omega arith) (
    unfold quanti_qmt.Order.Evidence.fact_is_valid quanti_qmt.Base.blank in
    (tt, (tt, (tt, (tt, (tt, (refl, (refl, tt))))))))

run-attempts-le_one_example : attempts (run (new_order "order-1" 100) life).0 ≤ 1
run-attempts-le_one_example = run-attempts-le_one "order-1" 100 life
