-- ===== src/Order/States.antt =====
-- The enumerations of the order aggregate (src/quantiqmt/order/domain/model.py) and the sets of
-- their members that the code tests.
use quanti_qmt.Base.{Bool, true, false}

pub data OrderState : Type 0 where
  registered risk_pending approved submitting submit_unknown submitted partially_filled : OrderState
  cancel_pending cancel_unknown suspended rejected canceled filled expired failed : OrderState

pub data OrderEvent : Type 0 where
  start_risk risk_passed risk_rejected dispatch : OrderEvent
  broker_accepted broker_rejected broker_expired outcome_unknown : OrderEvent
  reconcile_found_active reconcile_found_partial reconcile_found_rejected : OrderEvent
  reconcile_found_canceled reconcile_found_expired reconcile_cancel_rejected_active : OrderEvent
  reconcile_cancel_rejected_partial reconcile_confirmed_absent reconcile_canceled : OrderEvent
  reconcile_ambiguous partial_trade full_trade request_cancel cancel_confirmed : OrderEvent
  fact_conflict report_cumulative_mismatch report_correlation_ambiguous : OrderEvent

pub data OrderAction : Type 0 where
  request_risk_evaluation persist_order_approved persist_order_rejected : OrderAction
  start_execution_attempt merge_broker_report schedule_reconciliation : OrderAction
  import_broker_facts persist_submit_failed open_reconciliation_case record_trade : OrderAction
  record_trade_and_open_difference_case start_cancel_attempt : OrderAction

pub data BrokerStatus : Type 0 where
  active accepted partially_filled filled rejected canceled expired : BrokerStatus

-- `_TRADE_EVENTS`
unfoldable pub is_trade_event : OrderEvent → Bool
is_trade_event partial_trade = true
is_trade_event full_trade = true
is_trade_event _ = false

-- `_FACT_EVENTS`
unfoldable pub is_fact_event : OrderEvent → Bool
is_fact_event broker_accepted = true
is_fact_event broker_rejected = true
is_fact_event broker_expired = true
is_fact_event cancel_confirmed = true
is_fact_event partial_trade = true
is_fact_event full_trade = true
is_fact_event fact_conflict = true
is_fact_event report_cumulative_mismatch = true
is_fact_event report_correlation_ambiguous = true
is_fact_event reconcile_found_active = true
is_fact_event reconcile_found_partial = true
is_fact_event reconcile_found_rejected = true
is_fact_event reconcile_found_canceled = true
is_fact_event reconcile_found_expired = true
is_fact_event reconcile_cancel_rejected_active = true
is_fact_event reconcile_cancel_rejected_partial = true
is_fact_event reconcile_canceled = true
is_fact_event reconcile_ambiguous = true
is_fact_event _ = false

-- `normal_report_events` of `Order.transition`
unfoldable pub is_normal_report_event : OrderEvent → Bool
is_normal_report_event broker_accepted = true
is_normal_report_event broker_rejected = true
is_normal_report_event broker_expired = true
is_normal_report_event cancel_confirmed = true
is_normal_report_event _ = false

-- `reconciliation_events` of `Order.transition`
unfoldable pub is_reconciliation_event : OrderEvent → Bool
is_reconciliation_event reconcile_found_active = true
is_reconciliation_event reconcile_found_partial = true
is_reconciliation_event reconcile_found_rejected = true
is_reconciliation_event reconcile_found_canceled = true
is_reconciliation_event reconcile_found_expired = true
is_reconciliation_event reconcile_cancel_rejected_active = true
is_reconciliation_event reconcile_cancel_rejected_partial = true
is_reconciliation_event reconcile_canceled = true
is_reconciliation_event _ = false

-- The terminal states of the guard `order_not_terminal`.
unfoldable pub is_terminal : OrderState → Bool
is_terminal rejected = true
is_terminal canceled = true
is_terminal filled = true
is_terminal expired = true
is_terminal failed = true
is_terminal _ = false

-- `conflict_states`: every state but SUSPENDED.
unfoldable pub is_conflict_state : OrderState → Bool
is_conflict_state suspended = false
is_conflict_state _ = true

-- `report_states` of `_base_transitions`
unfoldable pub is_report_state : OrderState → Bool
is_report_state submitting = true
is_report_state submit_unknown = true
is_report_state submitted = true
is_report_state partially_filled = true
is_report_state cancel_pending = true
is_report_state cancel_unknown = true
is_report_state canceled = true
is_report_state expired = true
is_report_state rejected = true
is_report_state filled = true
is_report_state _ = false

-- The states that `_validate_state_quantity` allows no trade in.
unfoldable pub needs_zero_cumulative : OrderState → Bool
needs_zero_cumulative registered = true
needs_zero_cumulative risk_pending = true
needs_zero_cumulative approved = true
needs_zero_cumulative submitting = true
needs_zero_cumulative submit_unknown = true
needs_zero_cumulative submitted = true
needs_zero_cumulative rejected = true
needs_zero_cumulative failed = true
needs_zero_cumulative _ = false
