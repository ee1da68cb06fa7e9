-- ===== src/Order/Aggregate.antt =====
-- `transition` and `_commit` of `Order` (src/quantiqmt/order/domain/model.py). A method that
-- assigns to `self` returns the order after it, also where it raises, so that what was written
-- before an exception stays visible.
use quanti_qmt.Base.{
  Bool, true, false, ◌&&◌, not, Option, none, some, Result, ok, err, is_some, is_none, nat_beq, leb,
  ltb, if◌then◌else◌, contains, ◌==◌, string_eq,
}
use quanti_qmt.Base.Dict.{lookup}
use quanti_qmt.Order.States.{
  OrderState, OrderEvent, is_fact_event, is_normal_report_event, is_reconciliation_event,
}
use quanti_qmt.Order.Catalog.{Definition, transitions}
use quanti_qmt.Order.Evidence.{
  Error, invalid_order_transition, identity_eq, ExternalFact, ProcessedFact, GuardEvidence,
  no_evidence,
}
use quanti_qmt.Order.Guards.{
  holds, is_ambiguous, is_mismatch, guard_passes, guard_failure, is_stale_non_regressive_report,
}
use quanti_qmt.Order.Record.{Order, Outcome, conflicts_of, candidate, apply_commit}

abbrev pub no_op : Order → Outcome
no_op o = (ok none, o)

abbrev pub raise : Error → Order → Outcome
raise e o = (err e, o)

-- `_commit` once the guard has passed.
unfoldable pub commit_guarded :
    Order → OrderEvent → Definition → Option ExternalFact → Bool → Option ExternalFact → Outcome
commit_guarded o event d fact remember conflict = elim (candidate o event d fact) [
  | err e ↦ raise e o
  | ok value ↦ apply_commit o event d fact remember conflict value
]

abbrev guard_failed : Order → Result Error (Unit {0}) → Outcome
guard_failed o (err e) = raise e o
guard_failed o (ok _) = no_op o

-- `Order._commit(event, evidence, fact=…, remember_fact=…, conflict=…)`
unfoldable pub commit :
    Order → OrderEvent → GuardEvidence → Option ExternalFact → Bool → Option ExternalFact → Outcome
commit o event evidence fact remember conflict = elim (transitions o.state event) [
  | none ↦ raise invalid_order_transition o
  | some d ↦
      if guard_passes o.state o.quantity o.cumulative_quantity o.version d.guard evidence
        (is_some conflict)
      then commit_guarded o event d fact remember conflict
      else guard_failed o (guard_failure d.guard)
]

-- A fact whose identity has been processed before.
unfoldable pub repeat_fact : Order → ExternalFact → ProcessedFact → Outcome
repeat_fact o fact accepted =
    if accepted.fingerprint == fact.fingerprint
    then no_op o
    else (if contains fact.fingerprint (conflicts_of fact.identity o.fact_conflicts)
        then no_op o
        else commit o OrderEvent.fact_conflict no_evidence none false (some fact))

abbrev is_stale_sequence : Order → ExternalFact → Bool
is_stale_sequence o f =
    holds (λ n. holds (λ stream. holds (leb n) (lookup stream o.broker_sequences)) f.stream)
      f.broker_sequence

-- A report whose sequence has been observed, and that says nothing new. `-1`, the default of the
-- source for a stream not seen, is below every sequence.
unfoldable pub is_stale : Order → OrderEvent → GuardEvidence → Option ExternalFact → Bool
is_stale o event evidence fact =
    is_normal_report_event event
    && holds (λ f. is_none f.trade_quantity && is_stale_sequence o f) fact
    && is_stale_non_regressive_report o.state o.quantity o.cumulative_quantity event
        evidence.broker_report

unfoldable pub commit_fresh : Order → OrderEvent → GuardEvidence → Option ExternalFact → Outcome
commit_fresh o event evidence fact =
    if is_stale o event evidence fact
    then no_op o
    else commit o event evidence fact (is_some fact) none

-- A reconciliation with several matches, and one with none while the window is open.
abbrev pub is_several : OrderEvent → GuardEvidence → Bool
is_several event evidence =
    is_reconciliation_event event && holds (λ r. ltb 1 r.match_count) evidence.reconciliation

abbrev pub is_unseen : OrderEvent → GuardEvidence → Bool
is_unseen event evidence =
    is_reconciliation_event event
    && holds (λ r. nat_beq r.match_count 0 && not r.visibility_window_passed)
        evidence.reconciliation

-- The checks of a reconciliation event.
unfoldable pub check_reconciliation :
    Order → OrderEvent → GuardEvidence → Option ExternalFact → Outcome
check_reconciliation o event evidence fact =
    if is_several event evidence
    then commit o OrderEvent.reconcile_ambiguous evidence fact true none
    else (if is_unseen event evidence then no_op o else commit_fresh o event evidence fact)

-- A broker report that is ambiguous, and one whose cumulative quantity is not the order's.
abbrev pub is_uncorrelated : OrderEvent → GuardEvidence → Bool
is_uncorrelated event evidence =
    is_normal_report_event event
    && holds (λ r. is_ambiguous r evidence.reconciliation) evidence.broker_report

abbrev pub is_mismatched : Order → OrderEvent → GuardEvidence → Bool
is_mismatched o event evidence =
    is_normal_report_event event && holds (is_mismatch o.cumulative_quantity) evidence.broker_report

unfoldable pub check_mismatch : Order → OrderEvent → GuardEvidence → Option ExternalFact → Outcome
check_mismatch o event evidence fact =
    if is_mismatched o event evidence
    then commit o OrderEvent.report_cumulative_mismatch evidence fact true none
    else check_reconciliation o event evidence fact

-- The checks of a broker report.
unfoldable pub check_report : Order → OrderEvent → GuardEvidence → Option ExternalFact → Outcome
check_report o event evidence fact =
    if is_uncorrelated event evidence
    then commit o OrderEvent.report_correlation_ambiguous evidence fact true none
    else check_mismatch o event evidence fact

abbrev pub is_late_cancel : OrderState → OrderEvent → Bool
is_late_cancel OrderState.filled OrderEvent.cancel_confirmed = true
is_late_cancel _ _ = false

-- An event without a fact, or with one not seen before. A fill wins the cancel race: the later
-- cancellation report is stale.
unfoldable pub transition_new : Order → OrderEvent → GuardEvidence → Option ExternalFact → Outcome
transition_new o event evidence fact =
    if is_late_cancel o.state event then no_op o else check_report o event evidence fact

abbrev pub known : Order → Option ExternalFact → Option (ExternalFact × ProcessedFact)
known o none = none
known o (some f) = elim (lookup f.identity o.processed_facts) [ none ↦ none | some p ↦ some (f, p) ]

-- `Order.transition(event, evidence, fact=…)`
unfoldable pub transition : Order → OrderEvent → GuardEvidence → Option ExternalFact → Outcome
transition o event evidence fact =
    if is_fact_event event && is_none fact
    then raise invalid_order_transition o
    else (if not (is_fact_event event) && is_some fact
        then raise invalid_order_transition o
        else (elim (known o fact) [
          | some (f, p) ↦ repeat_fact o f p
          | none ↦ transition_new o event evidence fact
        ]))
