-- ===== src/Messaging/Health.antt =====
-- The health of the publication of messages (src/quantiqmt/messaging/outbox/health.py). Times and
-- counts are natural numbers: the constructors refuse negative ones.
use quanti_qmt.Base.{
  ℕ, Bool, true, false, ◌&&◌, not, nat_beq, leb, ltb, Result, ok, err, if◌then◌else◌,
}
use quanti_qmt.Persistence.Call.{StorageError, value_error}

pub record CriticalOutboxLagPolicy : Type 0 where
  pub critical_lag_ms : ℕ
  pub critical_dead_letter_count : ℕ

-- `CriticalOutboxLagPolicy(critical_lag_ms, critical_dead_letter_count)`
unfoldable pub critical_outbox_lag_policy : ℕ → ℕ → Result StorageError CriticalOutboxLagPolicy
critical_outbox_lag_policy lag count =
    if not (leb 1 lag && leb lag 300000)
    then err value_error
    else (if not (nat_beq count 0)
        then err value_error
        else ok (record { critical_lag_ms = lag; critical_dead_letter_count = count }))

pub record OutboxLagSnapshot : Type 0 where
  pub oldest_order_message_lag_ms : ℕ
  pub order_dead_letter_count : ℕ
  pub pending_order_message_count : ℕ

pub data ReasonCode : Type 0 where
  order_outbox_dead_letter_critical order_outbox_lag_critical healthy : ReasonCode

pub record OutboxSafetyAction : Type 0 where
  pub critical : Bool
  pub reject_new_risk : Bool
  pub keep_recovery_barrier_closed : Bool
  pub emit_health_alert : Bool
  pub reason_code : ReasonCode

abbrev action : Bool → ReasonCode → OutboxSafetyAction
action critical reason = record {
  critical = critical;
  reject_new_risk = critical;
  keep_recovery_barrier_closed = critical;
  emit_health_alert = critical;
  reason_code = reason;
}

-- `evaluate_outbox_safety`
unfoldable pub evaluate_outbox_safety :
    OutboxLagSnapshot → CriticalOutboxLagPolicy → OutboxSafetyAction
evaluate_outbox_safety snapshot policy =
    let lag_critical = leb policy.critical_lag_ms snapshot.oldest_order_message_lag_ms in
    let dead_letter_critical = ltb 0 snapshot.order_dead_letter_count in
    if dead_letter_critical
    then action true order_outbox_dead_letter_critical
    else (if lag_critical then action true order_outbox_lag_critical else action false healthy)
