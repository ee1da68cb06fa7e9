-- ===== src/Order/Catalog.antt =====
-- The transition table SM-ORDER of src/quantiqmt/order/domain/model.py. The names of the guards are
-- texts in the source; here they are the constructors of a type, `unconditional` for "true".
use quanti_qmt.Base.{Bool, true, false, Option, none, some, if◌then◌else◌}
use quanti_qmt.Order.States.{
  OrderState, OrderEvent, OrderAction, is_conflict_state, is_report_state,
}

pub data Guard : Type 0 where
  snapshots_available : Guard
  expected_version_matches : Guard
  leader_and_trading_allowed : Guard
  report_uniquely_correlated : Guard
  outcome_definite : Guard
  unconditional : Guard
  unique_broker_match : Guard
  unique_broker_match_and_definite_rejection : Guard
  unique_broker_match_and_definite_canceled : Guard
  unique_broker_match_and_definite_expired : Guard
  cum_strictly_increases_below_quantity : Guard
  cum_equals_quantity : Guard
  visibility_window_passed : Guard
  cum_between_zero_and_quantity : Guard
  broker_confirms_expired : Guard
  broker_confirms_expired_and_leaves_positive : Guard
  order_not_terminal : Guard
  leaves_positive : Guard
  broker_confirms_canceled : Guard
  unique_broker_match_and_cum_zero : Guard
  unique_broker_match_and_cum_between_zero_and_quantity : Guard
  cancel_rejected_and_trade_derived_cum_zero : Guard
  cancel_rejected_and_trade_derived_cum_between_zero_and_quantity : Guard
  original_order_rejected_after_cancel_history : Guard
  late_trade_strictly_increases_below_quantity : Guard
  late_trade_completes_quantity : Guard
  conflicting_same_identity : Guard
  report_cumulative_mismatch : Guard
  report_correlation_ambiguous : Guard

-- `_Definition`
pub record Definition : Type 0 where
  pub target : OrderState
  pub guard : Guard
  pub action : OrderAction

abbrev pub define : OrderState → Guard → OrderAction → Definition
define t g a = record { target = t; guard = g; action = a }

-- The lines of `_ROWS`.
unfoldable pub row : OrderState → OrderEvent → Option Definition
row OrderState.registered OrderEvent.start_risk =
    some (define OrderState.risk_pending snapshots_available OrderAction.request_risk_evaluation)
row OrderState.risk_pending OrderEvent.risk_passed =
    some (define OrderState.approved expected_version_matches OrderAction.persist_order_approved)
row OrderState.risk_pending OrderEvent.risk_rejected =
    some (define OrderState.rejected expected_version_matches OrderAction.persist_order_rejected)
row OrderState.approved OrderEvent.dispatch =
    some
      (define OrderState.submitting leader_and_trading_allowed OrderAction.start_execution_attempt)
row OrderState.submitting OrderEvent.broker_accepted =
    some (define OrderState.submitted report_uniquely_correlated OrderAction.merge_broker_report)
row OrderState.submitting OrderEvent.broker_rejected =
    some (define OrderState.rejected outcome_definite OrderAction.merge_broker_report)
row OrderState.submitting OrderEvent.outcome_unknown =
    some (define OrderState.submit_unknown unconditional OrderAction.schedule_reconciliation)
row OrderState.submit_unknown OrderEvent.reconcile_found_active =
    some (define OrderState.submitted unique_broker_match OrderAction.import_broker_facts)
row OrderState.submit_unknown OrderEvent.reconcile_found_rejected = some (
    define OrderState.rejected unique_broker_match_and_definite_rejection
      OrderAction.import_broker_facts)
row OrderState.submit_unknown OrderEvent.reconcile_found_canceled = some (
    define OrderState.canceled unique_broker_match_and_definite_canceled
      OrderAction.import_broker_facts)
row OrderState.submit_unknown OrderEvent.reconcile_found_expired = some (
    define OrderState.expired unique_broker_match_and_definite_expired
      OrderAction.import_broker_facts)
row OrderState.submit_unknown OrderEvent.partial_trade = some (
    define OrderState.partially_filled cum_strictly_increases_below_quantity
      OrderAction.record_trade)
row OrderState.submit_unknown OrderEvent.full_trade =
    some (define OrderState.filled cum_equals_quantity OrderAction.record_trade)
row OrderState.submit_unknown OrderEvent.reconcile_confirmed_absent =
    some (define OrderState.failed visibility_window_passed OrderAction.persist_submit_failed)
row OrderState.submit_unknown OrderEvent.reconcile_ambiguous =
    some (define OrderState.suspended unconditional OrderAction.open_reconciliation_case)
row OrderState.submitted OrderEvent.partial_trade =
    some (define OrderState.partially_filled cum_between_zero_and_quantity OrderAction.record_trade)
row OrderState.partially_filled OrderEvent.partial_trade = some (
    define OrderState.partially_filled cum_strictly_increases_below_quantity
      OrderAction.record_trade)
row OrderState.submitted OrderEvent.full_trade =
    some (define OrderState.filled cum_equals_quantity OrderAction.record_trade)
row OrderState.partially_filled OrderEvent.full_trade =
    some (define OrderState.filled cum_equals_quantity OrderAction.record_trade)
row OrderState.submitted OrderEvent.broker_expired =
    some (define OrderState.expired broker_confirms_expired OrderAction.merge_broker_report)
row OrderState.partially_filled OrderEvent.broker_expired = some (
    define OrderState.expired broker_confirms_expired_and_leaves_positive
      OrderAction.merge_broker_report)
row OrderState.submitted OrderEvent.request_cancel =
    some (define OrderState.cancel_pending order_not_terminal OrderAction.start_cancel_attempt)
row OrderState.partially_filled OrderEvent.request_cancel =
    some (define OrderState.cancel_pending leaves_positive OrderAction.start_cancel_attempt)
row OrderState.cancel_pending OrderEvent.cancel_confirmed =
    some (define OrderState.canceled broker_confirms_canceled OrderAction.merge_broker_report)
row OrderState.cancel_pending OrderEvent.partial_trade = some (
    define OrderState.cancel_pending cum_strictly_increases_below_quantity OrderAction.record_trade)
row OrderState.cancel_pending OrderEvent.outcome_unknown =
    some (define OrderState.cancel_unknown unconditional OrderAction.schedule_reconciliation)
row OrderState.cancel_pending OrderEvent.full_trade =
    some (define OrderState.filled cum_equals_quantity OrderAction.record_trade)
row OrderState.cancel_pending OrderEvent.broker_expired = some (
    define OrderState.expired broker_confirms_expired_and_leaves_positive
      OrderAction.merge_broker_report)
row OrderState.cancel_unknown OrderEvent.reconcile_found_active =
    some
      (define OrderState.submitted unique_broker_match_and_cum_zero OrderAction.import_broker_facts)
row OrderState.cancel_unknown OrderEvent.reconcile_found_partial = some (
    define OrderState.partially_filled unique_broker_match_and_cum_between_zero_and_quantity
      OrderAction.import_broker_facts)
row OrderState.cancel_unknown OrderEvent.reconcile_found_expired = some (
    define OrderState.expired unique_broker_match_and_definite_expired
      OrderAction.import_broker_facts)
row OrderState.cancel_unknown OrderEvent.reconcile_cancel_rejected_active = some (
    define OrderState.submitted cancel_rejected_and_trade_derived_cum_zero
      OrderAction.import_broker_facts)
row OrderState.cancel_unknown OrderEvent.reconcile_cancel_rejected_partial = some (
    define OrderState.partially_filled
      cancel_rejected_and_trade_derived_cum_between_zero_and_quantity
      OrderAction.import_broker_facts)
row OrderState.cancel_unknown OrderEvent.reconcile_found_rejected = some (
    define OrderState.suspended original_order_rejected_after_cancel_history
      OrderAction.open_reconciliation_case)
row OrderState.cancel_unknown OrderEvent.reconcile_canceled =
    some (define OrderState.canceled broker_confirms_canceled OrderAction.import_broker_facts)
row OrderState.cancel_unknown OrderEvent.partial_trade = some (
    define OrderState.cancel_unknown cum_strictly_increases_below_quantity OrderAction.record_trade)
row OrderState.cancel_unknown OrderEvent.full_trade =
    some (define OrderState.filled cum_equals_quantity OrderAction.record_trade)
row OrderState.cancel_unknown OrderEvent.reconcile_ambiguous =
    some (define OrderState.suspended unconditional OrderAction.open_reconciliation_case)
row OrderState.canceled OrderEvent.partial_trade = some (
    define OrderState.partially_filled late_trade_strictly_increases_below_quantity
      OrderAction.record_trade_and_open_difference_case)
row OrderState.canceled OrderEvent.full_trade = some (
    define OrderState.filled late_trade_completes_quantity
      OrderAction.record_trade_and_open_difference_case)
row OrderState.expired OrderEvent.partial_trade = some (
    define OrderState.partially_filled late_trade_strictly_increases_below_quantity
      OrderAction.record_trade_and_open_difference_case)
row OrderState.expired OrderEvent.full_trade = some (
    define OrderState.filled late_trade_completes_quantity
      OrderAction.record_trade_and_open_difference_case)
row OrderState.rejected OrderEvent.partial_trade = some (
    define OrderState.partially_filled late_trade_strictly_increases_below_quantity
      OrderAction.record_trade_and_open_difference_case)
row OrderState.rejected OrderEvent.full_trade = some (
    define OrderState.filled late_trade_completes_quantity
      OrderAction.record_trade_and_open_difference_case)
row OrderState.failed OrderEvent.partial_trade = some (
    define OrderState.partially_filled late_trade_strictly_increases_below_quantity
      OrderAction.record_trade_and_open_difference_case)
row OrderState.failed OrderEvent.full_trade = some (
    define OrderState.filled late_trade_completes_quantity
      OrderAction.record_trade_and_open_difference_case)
row _ _ = none

-- A transition to SUSPENDED under `guard`, from the states of a set.
abbrev suspend_if : Bool → Guard → Option Definition
suspend_if allowed guard =
    if allowed
    then some (define OrderState.suspended guard OrderAction.open_reconciliation_case)
    else none

-- `_TRANSITIONS.get((state, event))`: the rows, and the entries that the loops of
-- `_base_transitions` add for the three events which no row has.
unfoldable pub transitions : OrderState → OrderEvent → Option Definition
unfolding row is_conflict_state is_report_state
transitions s OrderEvent.fact_conflict = suspend_if (is_conflict_state s) conflicting_same_identity
transitions s OrderEvent.report_cumulative_mismatch =
    suspend_if (is_report_state s) report_cumulative_mismatch
transitions s OrderEvent.report_correlation_ambiguous =
    suspend_if (is_report_state s) report_correlation_ambiguous
transitions s e = row s e

-- `_QUANTITY_GUARDS`
unfoldable pub is_quantity_guard : Guard → Bool
is_quantity_guard cum_between_zero_and_quantity = true
is_quantity_guard cum_strictly_increases_below_quantity = true
is_quantity_guard cum_equals_quantity = true
is_quantity_guard late_trade_strictly_increases_below_quantity = true
is_quantity_guard late_trade_completes_quantity = true
is_quantity_guard _ = false

-- The guards of a partial trade and those of a full one, in `_validate_trade_guard`.
unfoldable pub is_partial_guard : Guard → Bool
is_partial_guard cum_between_zero_and_quantity = true
is_partial_guard cum_strictly_increases_below_quantity = true
is_partial_guard late_trade_strictly_increases_below_quantity = true
is_partial_guard _ = false

unfoldable pub is_full_guard : Guard → Bool
is_full_guard cum_equals_quantity = true
is_full_guard late_trade_completes_quantity = true
is_full_guard _ = false
