-- ===== src/Order/Guards.antt =====
-- The guards of the transition table: `Order._guard_passes`, `_guard_failure`,
-- `_validate_trade_guard`, `_is_stale_non_regressive_report` and the sets that they test
-- (src/quantiqmt/order/domain/model.py).
use quanti_qmt.Base.{
  ℕ, String, Bool, true, false, ◌&&◌, ◌||◌, not, Option, none, some, Result, ok, err, blank,
  nat_beq, leb, ltb, if◌then◌else◌,
}
use quanti_qmt.Order.States.{
  OrderState, OrderEvent, BrokerStatus, is_terminal, needs_zero_cumulative,
}
use quanti_qmt.Order.Catalog.{Guard, is_quantity_guard, is_partial_guard, is_full_guard}
use quanti_qmt.Order.Evidence.{
  Error, value_error, invalid_order_transition, order_version_conflict, risk_snapshot_unavailable,
  BrokerReportEvidence, ReconciliationEvidence, GuardEvidence,
}

-- `status in {ACTIVE, ACCEPTED}`
unfoldable pub is_live : BrokerStatus → Bool
is_live BrokerStatus.active = true
is_live BrokerStatus.accepted = true
is_live _ = false

-- `status in {ACTIVE, PARTIALLY_FILLED}`
unfoldable pub is_part_live : BrokerStatus → Bool
is_part_live BrokerStatus.active = true
is_part_live BrokerStatus.partially_filled = true
is_part_live _ = false

unfoldable pub is_rejected : BrokerStatus → Bool
is_rejected BrokerStatus.rejected = true
is_rejected _ = false

unfoldable pub is_canceled : BrokerStatus → Bool
is_canceled BrokerStatus.canceled = true
is_canceled _ = false

unfoldable pub is_expired : BrokerStatus → Bool
is_expired BrokerStatus.expired = true
is_expired _ = false

-- A test of a value that may be `None`, which fails it.
abbrev pub holds : {A : Type 0} → (A → Bool) → Option A → Bool
holds p none = false
holds p (some a) = p a

-- `report.correlation_count == 1`, and the same of a match
abbrev pub is_unique : BrokerReportEvidence → Bool
is_unique r = nat_beq r.correlation_count 1

abbrev pub is_unique_match : ReconciliationEvidence → Bool
is_unique_match r = nat_beq r.match_count 1

-- The two ways in which a report is ambiguous: several matches, or none after the window.
unfoldable pub is_ambiguous : BrokerReportEvidence → Option ReconciliationEvidence → Bool
is_ambiguous report reconciliation =
    ltb 1 report.correlation_count
    || (nat_beq report.correlation_count 0
        && holds (λ r. r.visibility_window_passed) reconciliation)

-- A unique report whose cumulative quantity is not the order's.
unfoldable pub is_mismatch : ℕ → BrokerReportEvidence → Bool
is_mismatch cumulative report =
    is_unique report && not (nat_beq report.reported_cumulative cumulative)

abbrev all_given : Option (String × String × String) → Bool
all_given none = false
all_given (some (a, b, c)) = not (blank a) && not (blank b) && not (blank c)

-- `0 < cumulative < quantity`
abbrev between : ℕ → ℕ → Bool
between cumulative quantity = ltb 0 cumulative && ltb cumulative quantity

-- `Order._guard_passes`: of the order it reads the state, the two quantities and the version.
-- A quantity guard is evaluated later, from the trade.
unfoldable pub guard_passes : OrderState → ℕ → ℕ → ℕ → Guard → GuardEvidence → Bool → Bool
unfolding is_live is_part_live is_rejected is_canceled is_expired is_ambiguous is_mismatch
    is_terminal
guard_passes s total cum version Guard.unconditional ev c = true
guard_passes s total cum version Guard.snapshots_available ev c =
    ev.snapshots_usable && all_given ev.snapshot_ids
guard_passes s total cum version Guard.expected_version_matches ev c =
    holds (λ v. nat_beq v version) ev.expected_order_version
guard_passes s total cum version Guard.leader_and_trading_allowed ev c =
    ev.is_leader && ev.fencing_token_valid && ev.system_trading_allowed
    && ev.account_trading_allowed
guard_passes s total cum version Guard.order_not_terminal ev c = not (is_terminal s)
guard_passes s total cum version Guard.leaves_positive ev c = ltb cum total
guard_passes s total cum version Guard.cum_between_zero_and_quantity ev c = true
guard_passes s total cum version Guard.cum_strictly_increases_below_quantity ev c = true
guard_passes s total cum version Guard.cum_equals_quantity ev c = true
guard_passes s total cum version Guard.late_trade_strictly_increases_below_quantity ev c = true
guard_passes s total cum version Guard.late_trade_completes_quantity ev c = true
guard_passes s total cum version Guard.report_uniquely_correlated ev c =
    holds (λ r. is_unique r && is_live r.status) ev.broker_report
guard_passes s total cum version Guard.outcome_definite ev c =
    holds (λ r. is_unique r && r.definite && is_rejected r.status) ev.broker_report
guard_passes s total cum version Guard.broker_confirms_canceled ev c =
    holds (λ r. is_unique r && r.definite && is_canceled r.status) ev.broker_report
guard_passes s total cum version Guard.broker_confirms_expired ev c =
    holds (λ r. r.definite && is_unique r && is_expired r.status && nat_beq r.reported_cumulative 0)
      ev.broker_report
guard_passes s total cum version Guard.broker_confirms_expired_and_leaves_positive ev c =
    holds (λ r. r.definite && is_unique r && is_expired r.status && ltb cum total) ev.broker_report
guard_passes s total cum version Guard.conflicting_same_identity ev c = c
guard_passes s total cum version Guard.report_cumulative_mismatch ev c =
    holds (is_mismatch cum) ev.broker_report
guard_passes s total cum version Guard.report_correlation_ambiguous ev c =
    holds (λ r. is_ambiguous r ev.reconciliation) ev.broker_report
guard_passes s total cum version Guard.unique_broker_match ev c =
    holds (λ r. is_unique_match r && holds is_live r.status) ev.reconciliation
guard_passes s total cum version Guard.visibility_window_passed ev c =
    holds
      (λ r. r.visibility_window_passed && r.repeated_absence_confirmed && nat_beq r.match_count 0)
      ev.reconciliation
guard_passes s total cum version Guard.unique_broker_match_and_definite_rejection ev c =
    holds (λ r. is_unique_match r && holds is_rejected r.status) ev.reconciliation
guard_passes s total cum version Guard.unique_broker_match_and_definite_canceled ev c =
    holds (λ r. is_unique_match r && holds is_canceled r.status) ev.reconciliation
guard_passes s total cum version Guard.unique_broker_match_and_definite_expired ev c =
    holds (λ r. is_unique_match r && holds is_expired r.status) ev.reconciliation
guard_passes s total cum version Guard.unique_broker_match_and_cum_zero ev c =
    holds (λ r. is_unique_match r && holds is_live r.status && nat_beq cum 0) ev.reconciliation
guard_passes s total cum version Guard.unique_broker_match_and_cum_between_zero_and_quantity ev c =
    holds (λ r. is_unique_match r && holds is_part_live r.status && between cum total)
      ev.reconciliation
guard_passes s total cum version Guard.cancel_rejected_and_trade_derived_cum_zero ev c =
    holds (λ r. is_unique_match r && holds is_live r.status && r.cancel_rejected && nat_beq cum 0)
      ev.reconciliation
guard_passes s total cum version
      Guard.cancel_rejected_and_trade_derived_cum_between_zero_and_quantity ev c =
    holds
      (λ r.
        is_unique_match r && holds is_part_live r.status && r.cancel_rejected && between cum total)
      ev.reconciliation
guard_passes s total cum version Guard.original_order_rejected_after_cancel_history ev c =
    holds (λ r. is_unique_match r && holds is_rejected r.status) ev.reconciliation

-- `Order._guard_failure`: a failed guard raises, but for the one whose window is still open.
unfoldable pub guard_failure : Guard → Result Error (Unit {0})
guard_failure Guard.snapshots_available = err risk_snapshot_unavailable
guard_failure Guard.expected_version_matches = err order_version_conflict
guard_failure Guard.visibility_window_passed = ok tt
guard_failure _ = err invalid_order_transition

-- `Order._validate_trade_guard`, with the order's two quantities and the candidate.
unfoldable pub validate_trade_guard : ℕ → ℕ → Guard → ℕ → Result Error (Unit {0})
unfolding is_quantity_guard is_partial_guard is_full_guard
validate_trade_guard total current guard value =
    if not (is_quantity_guard guard)
    then err invalid_order_transition
    else (if leb value current || ltb total value
        then err invalid_order_transition
        else (if is_partial_guard guard && not (between value total)
            then err invalid_order_transition
            else (if is_full_guard guard && not (nat_beq value total)
                then err invalid_order_transition
                else ok tt)))

-- `compatible_states` of `_is_stale_non_regressive_report`
unfoldable pub is_compatible_state : OrderEvent → OrderState → Bool
is_compatible_state OrderEvent.broker_accepted OrderState.submitted = true
is_compatible_state OrderEvent.broker_accepted OrderState.partially_filled = true
is_compatible_state OrderEvent.broker_accepted OrderState.cancel_pending = true
is_compatible_state OrderEvent.broker_accepted OrderState.cancel_unknown = true
is_compatible_state OrderEvent.broker_accepted OrderState.canceled = true
is_compatible_state OrderEvent.broker_accepted OrderState.expired = true
is_compatible_state OrderEvent.broker_accepted OrderState.filled = true
is_compatible_state OrderEvent.broker_rejected OrderState.rejected = true
is_compatible_state OrderEvent.broker_expired OrderState.expired = true
is_compatible_state OrderEvent.cancel_confirmed OrderState.canceled = true
is_compatible_state OrderEvent.cancel_confirmed OrderState.filled = true
is_compatible_state _ _ = false

-- `compatible_statuses` of `_is_stale_non_regressive_report`
unfoldable pub is_compatible_status : OrderEvent → BrokerStatus → Bool
is_compatible_status OrderEvent.broker_accepted BrokerStatus.accepted = true
is_compatible_status OrderEvent.broker_accepted BrokerStatus.active = true
is_compatible_status OrderEvent.broker_rejected BrokerStatus.rejected = true
is_compatible_status OrderEvent.broker_expired BrokerStatus.expired = true
is_compatible_status OrderEvent.cancel_confirmed BrokerStatus.canceled = true
is_compatible_status _ _ = false

-- `Order._is_stale_non_regressive_report`. It is called with the four report events alone.
unfoldable pub is_stale_non_regressive_report :
    OrderState → ℕ → ℕ → OrderEvent → Option BrokerReportEvidence → Bool
unfolding is_compatible_state is_compatible_status
is_stale_non_regressive_report s total cum event none = false
is_stale_non_regressive_report s total cum event (some r) =
    is_unique r
    && leb cum r.reported_cumulative
    && leb r.reported_cumulative total
    && is_compatible_state event s
    && is_compatible_status event r.status

-- `Order._validate_state_quantity`
unfoldable pub validate_state_quantity : OrderState → ℕ → ℕ → Result Error (Unit {0})
unfolding needs_zero_cumulative
validate_state_quantity s total value =
    if (elim s [ OrderState.filled ↦ not (nat_beq value total) | _ ↦ false ])
    then err value_error
    else (if (elim s [ OrderState.partially_filled ↦ not (between value total) | _ ↦ false ])
        then err value_error
        else (if needs_zero_cumulative s && not (nat_beq value 0) then err value_error else ok tt))
