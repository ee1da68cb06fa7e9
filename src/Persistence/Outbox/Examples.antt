-- ===== src/Persistence/Outbox/Examples.antt =====
-- The theorems about the outbox at concrete messages, and runs of it.
use quanti_qmt.Shared.Milliseconds.{elapsed_ms}
use quanti_qmt.Base.{true, ◌≡◌, ◌≢◌, refl, none, some, ok, String, [], arith, string_eq, any}
use quanti_qmt.Base.Dict.{lookup}
use quanti_qmt.Persistence.Outbox.Record.{Outbox, OutboxStatus, OutboxRecord}
use quanti_qmt.Persistence.Outbox.Claim.{claim}
use quanti_qmt.Persistence.Outbox.Settle.{mark_published, renew, release_failed}
use quanti_qmt.Persistence.Outbox.Entries.{OutboxIsValid, entry_is_valid}
use quanti_qmt.Persistence.Outbox.Grants.{IsGranted}
use quanti_qmt.Persistence.Outbox.Fencing.{granted_fences}
use quanti_qmt.Persistence.Outbox.Safety.{
  is_order_record, is_critical, outbox_safety, outbox_safety-critical,
}
use quanti_qmt.Messaging.Health.{CriticalOutboxLagPolicy, OutboxSafetyAction}
use quanti_qmt.Persistence.Outbox.ClaimExamples.{
  whole, in_time, policy, outbox_of, waiting, tokens, held, handed_out, opened, deadline_ok,
  held-owned, held-found, failure,
}

held-IsGranted : IsGranted 100 "w1" policy (outbox_of held).records handed_out
held-IsGranted = record {
  granted = held;
  found = held-found;
  owned = held-owned;
  holder = refl;
  leased = refl;
  counted = refl;
  permitted = omega arith;
}

t0≢t1 : ◌≢◌ {A = String} "t0" "t1"
t0≢t1 e = cc ((string_eq.same_iff "t0" "t1").1 e)

granted_fences_example :
    ((mark_published in_time "m1" "t0" (outbox_of held)).1 ≡ outbox_of held)
    × ((renew in_time "m1" "t0" policy (outbox_of held)).1 ≡ outbox_of held)
    × ((release_failed whole in_time "m1" "t0" failure (outbox_of held)).1 ≡ outbox_of held)
granted_fences_example =
    granted_fences whole in_time 100 "w1" "t0" policy failure handed_out (outbox_of held)
      held-IsGranted t0≢t1

abbrev last_try : OutboxRecord
last_try = record held { attempt_count = 3 }

-- The last try, after its lease.
abbrev spent : OutboxRecord
spent = record last_try { lease_until = some 100 }

abbrev buried : OutboxRecord
buried = record spent {
  status = OutboxStatus.dead_letter;
  claimed_by = none;
  claim_token = none;
  lease_until = none;
  last_error_code = some "MAX_ATTEMPTS_REACHED";
  last_error_detail = some "outbox max_attempts reached before claim";
  updated_at = 100;
}

claim-spent : claim in_time "w2" policy tokens (outbox_of spent) ≡ (ok [], outbox_of buried)
unfolding opened
claim-spent = refl

spent-IsValid : OutboxIsValid (outbox_of spent)
unfolding entry_is_valid lookup
spent-IsValid = record { keys = (refl, tt); entries = refl }

-- Two seconds after the start, with 1.5 seconds as the critical lag.
abbrev late : Outbox
late = record waiting { now = 2000000 }

abbrev lag_policy : CriticalOutboxLagPolicy
lag_policy = record { critical_lag_ms = 1500; critical_dead_letter_count = 0 }

is_late : any (is_critical lag_policy late.now) late.records ≡ true
unfolding elapsed_ms is_order_record
is_late = refl

outbox_safety-critical_example :
    let critical = any (is_critical lag_policy late.now) late.records in
    (a : OutboxSafetyAction) × (outbox_safety in_time lag_policy late ≡ ok a)
    × (a.critical ≡ critical)
    × (a.reject_new_risk ≡ critical)
    × (a.keep_recovery_barrier_closed ≡ critical)
    × (a.emit_health_alert ≡ critical)
outbox_safety-critical_example =
    outbox_safety-critical in_time lag_policy late deadline_ok (omega arith)
