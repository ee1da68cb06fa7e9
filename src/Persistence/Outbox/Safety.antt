-- ===== src/Persistence/Outbox/Safety.antt =====
-- `InMemoryOrderPersistence.evaluate_outbox_safety`
-- (src/quantiqmt/order/infrastructure/memory.py), over the evaluation of
-- src/quantiqmt/messaging/outbox/health.py.
use quanti_qmt.Base.{
  ℕ, suc, ◌-◌, ◌≤◌, ◌≡◌, max, String, Bool, true, false, ◌&&◌, ◌||◌, List, [], ◌∷◌, Result, ok, err,
  leb, ltb, nat_beq, codes, any, if◌then◌else◌, arith,
}
use quanti_qmt.Base.Dict.{Dict}
use quanti_qmt.Shared.Milliseconds.{elapsed_ms}
use quanti_qmt.Persistence.Call.{StorageError, Call, require_deadline}
use quanti_qmt.Persistence.Outbox.Record.{
  OutboxStatus, pending, claimed, dead_letter, OutboxRecord, Outbox,
}
use quanti_qmt.Messaging.Health.{
  CriticalOutboxLagPolicy, OutboxLagSnapshot, OutboxSafetyAction, evaluate_outbox_safety,
}

abbrev starts : List ℕ → List ℕ → Bool
starts cs [] = true
starts [] (d ∷ ds) = false
starts (c ∷ cs) (d ∷ ds) = nat_beq c d && starts cs ds

-- `message_type.startswith("oms.")`
unfoldable pub is_order_record : OutboxRecord → Bool
is_order_record r = starts (codes r.message_type) (codes "oms.")

abbrev is_waiting : OutboxStatus → Bool
is_waiting pending = true
is_waiting claimed = true
is_waiting _ = false

abbrev is_dead : OutboxStatus → Bool
is_dead dead_letter = true
is_dead _ = false

-- The age of a record is `int(delta.total_seconds() * 1000)`.
-- The maximum over the records that are due, 0 if there is none.
unfoldable pub oldest_lag : ℕ → Dict String OutboxRecord → ℕ
oldest_lag now [] = 0
oldest_lag now ((_, r) ∷ d) =
    if is_order_record r && is_waiting r.status && leb r.available_at now
    then max (elapsed_ms (now - r.available_at)) (oldest_lag now d)
    else oldest_lag now d

unfoldable pub count_dead : Dict String OutboxRecord → ℕ
count_dead [] = 0
count_dead ((_, r) ∷ d) =
    if is_order_record r && is_dead r.status then suc (count_dead d) else count_dead d

unfoldable pub count_waiting : Dict String OutboxRecord → ℕ
count_waiting [] = 0
count_waiting ((_, r) ∷ d) =
    if is_order_record r && is_waiting r.status then suc (count_waiting d) else count_waiting d

-- The snapshot that is evaluated.
unfoldable pub lag_snapshot : Outbox → OutboxLagSnapshot
unfolding oldest_lag count_dead count_waiting
lag_snapshot o = record {
  oldest_order_message_lag_ms = oldest_lag o.now o.records;
  order_dead_letter_count = count_dead o.records;
  pending_order_message_count = count_waiting o.records;
}

-- `InMemoryOrderPersistence.evaluate_outbox_safety`
unfoldable pub outbox_safety :
    Call → CriticalOutboxLagPolicy → Outbox → Result StorageError OutboxSafetyAction
unfolding lag_snapshot evaluate_outbox_safety
outbox_safety c policy o = elim (require_deadline c) [
  | err e ↦ err e
  | ok _ ↦ ok (evaluate_outbox_safety (lag_snapshot o) policy)
]

-- A record of an order message that has been due for the critical time, or has been given up.
abbrev pub is_critical : CriticalOutboxLagPolicy → ℕ → String × OutboxRecord → Bool
is_critical policy now (_, r) =
    is_order_record r
    && (is_dead r.status
        || (is_waiting r.status
            && leb r.available_at now
            && leb policy.critical_lag_ms (elapsed_ms (now - r.available_at))))

any-is_critical :
    (policy : CriticalOutboxLagPolicy) (now : ℕ) (d : Dict String OutboxRecord)
    → 1 ≤ policy.critical_lag_ms
    → (ltb 0 (count_dead d) || leb policy.critical_lag_ms (oldest_lag now d))
      ≡ any (is_critical policy now) d
unfolding count_dead oldest_lag
any-is_critical policy now [] h = ground arith
any-is_critical policy now ((k, r) ∷ d) h = ground (arith, any-is_critical policy now d h)

-- The evaluation, before its deadline and under a policy with a positive critical lag, is critical
-- exactly when an order message has been given up, or is waiting and due and its age is at least
-- the critical lag, in milliseconds as the code computes them, in double precision; and then new
-- risk is rejected, the recovery barrier stays closed and an alert is raised, and otherwise none of
-- the three.
pub outbox_safety-critical :
    (c : Call) (policy : CriticalOutboxLagPolicy) (o : Outbox)
    → require_deadline c ≡ ok tt
    → 1 ≤ policy.critical_lag_ms
    → let critical = any (is_critical policy o.now) o.records in
      (a : OutboxSafetyAction) × (outbox_safety c policy o ≡ ok a)
      × (a.critical ≡ critical)
      × (a.reject_new_risk ≡ critical)
      × (a.keep_recovery_barrier_closed ≡ critical)
      × (a.emit_health_alert ≡ critical)
unfolding outbox_safety
outbox_safety-critical c policy o d h =
    let e = any-is_critical policy o.now o.records h in
    (
      evaluate_outbox_safety (lag_snapshot o) policy,
      rw (d, outbox_safety),
      ground (arith, e),
      ground (arith, e),
      ground (arith, e),
      ground (arith, e),
    )
