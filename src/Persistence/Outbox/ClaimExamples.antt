-- ===== src/Persistence/Outbox/ClaimExamples.antt =====
-- The theorems about claims at concrete messages, with the messages and runs
-- (src/quantiqmt/order/infrastructure/memory.py).
use quanti_qmt.Base.{
  ℕ, ◌+◌, ◌*◌, ◌^◌, ◌≤◌, ◌≡◌, ◌≢◌, refl, min, inl, inr, true, false, Option, none, some, Result, ok,
  err, String, List, [], ◌∷◌, arith, All, length, if◌then◌else◌, ◌==◌, string_eq, any,
}
use quanti_qmt.Base.Int.{pos}
use quanti_qmt.Base.Dict.{lookup, insert}
use quanti_qmt.Persistence.Json.{Fields}
use quanti_qmt.Persistence.Call.{Call, require_deadline}
use quanti_qmt.Persistence.Outbox.Record.{
  OutboxStatus, OutboxRecord, Outbox, ClaimPolicy, ClaimedMessage, PublishFailure,
  policy_is_bounded,
}
use quanti_qmt.Persistence.Outbox.Claim.{
  is_exhausted, bury, sweep, selected, hold, hold_all, claimed_message, take_claims, claim,
}
use quanti_qmt.Persistence.Outbox.Settle.{
  owns_live_claim, mark_published, renew, DecimalModule, release_failed,
}
use quanti_qmt.Persistence.Outbox.Entries.{OutboxIsValid, entry_is_valid}
use quanti_qmt.Persistence.Outbox.Invariant.{outbox-IsValid}
use quanti_qmt.Persistence.Outbox.Grants.{IsGranted, claim-IsGranted}
use quanti_qmt.Persistence.Outbox.Fencing.{claim-keeps_live, outbox-keeps_final}

pub min_right : (x n : ℕ) → min x n ≤ n
min_right x n = omega arith

-- Whole numbers in place of decimals.
abbrev pub whole : DecimalModule
whole = record {
  Decimal = ℕ;
  parse = λ s. if s == "0" then 0 else (if s == "1" then 1 else 2);
  of_int = λ n. n;
  times = λ x y. x * y;
  plus = λ x y. x + y;
  power = λ x n. x ^ n;
  minimum = λ x y. min x y;
  ceiling = λ x. x;
  ceiling-minimum = min_right;
}

abbrev pub in_time : Call
in_time = record { deadline = pos 10; monotonic = 5 }

abbrev pub policy : ClaimPolicy
policy = record {
  batch_size = 2;
  lease_duration_ms = 1000;
  max_attempts = 3;
  initial_retry_delay_ms = 10;
  max_retry_delay_ms = 100;
  backoff_multiplier = "2";
  jitter_ratio = "0";
}

abbrev message : String → OutboxRecord
message id = record {
  message_id = id;
  message_type = "oms.order_registered.v1";
  schema_version = pos 1;
  aggregate_id = some "order-1";
  aggregate_version = some (pos 1);
  partition_key = "order-1";
  envelope = Fields.end;
  status = OutboxStatus.pending;
  attempt_count = 0;
  available_at = 50;
  created_at = 50;
  updated_at = 50;
  claim_max_attempts = none;
  claim_initial_retry_delay_ms = none;
  claim_max_retry_delay_ms = none;
  claim_backoff_multiplier = none;
  claim_jitter_ratio = none;
  claimed_by = none;
  claim_token = none;
  lease_until = none;
  published_at = none;
  last_error_code = none;
  last_error_detail = none;
}

abbrev pub outbox_of : OutboxRecord → Outbox
outbox_of r = record { records = (r.message_id, r) ∷ []; now = 100 }

abbrev pub waiting : Outbox
waiting = outbox_of (message "m1")

abbrev pub tokens : ℕ → String
tokens n = "t1"

-- The message under the claim of "w1", at 100.
abbrev pub held : OutboxRecord
held = record (message "m1") {
  status = OutboxStatus.claimed;
  attempt_count = 1;
  updated_at = 100;
  claim_max_attempts = some 3;
  claim_initial_retry_delay_ms = some 10;
  claim_max_retry_delay_ms = some 100;
  claim_backoff_multiplier = some "2";
  claim_jitter_ratio = some "0";
  claimed_by = some "w1";
  claim_token = some "t1";
  lease_until = some 1000100;
}

abbrev pub handed_out : ClaimedMessage
handed_out = record {
  message_id = "m1";
  message_type = "oms.order_registered.v1";
  aggregate_id = some "order-1";
  aggregate_version = some (pos 1);
  partition_key = "order-1";
  envelope = Fields.end;
  claim_token = "t1";
  lease_until = 1000100;
  attempt_count = 1;
}

unfoldable pub opened : Unit {0}
unfolding claim take_claims sweep bury is_exhausted selected hold_all hold claimed_message insert
    lookup require_deadline quanti_qmt.Base.blank
opened = tt

claim-waiting : claim in_time "w1" policy tokens waiting ≡ (ok (handed_out ∷ []), outbox_of held)
unfolding opened
claim-waiting = refl

pub deadline_ok : require_deadline in_time ≡ ok tt
unfolding require_deadline
deadline_ok = refl

waiting-IsValid : OutboxIsValid waiting
unfolding entry_is_valid lookup
waiting-IsValid = record { keys = (refl, tt); entries = refl }

held-IsValid : OutboxIsValid (outbox_of held)
unfolding entry_is_valid lookup
held-IsValid = record { keys = (refl, tt); entries = refl }

pub held-owned : owns_live_claim 100 "t1" held ≡ true
unfolding owns_live_claim
held-owned = refl

pub held-found : lookup "m1" (outbox_of held).records ≡ some held
unfolding lookup
held-found = refl

abbrev pub failure : PublishFailure
failure = record { error_code = "TIMEOUT"; error_detail = "no answer"; retryable = true }

outbox-IsValid_example :
    OutboxIsValid (claim in_time "w1" policy tokens waiting).1
    × OutboxIsValid (mark_published in_time "m1" "t1" waiting).1
    × OutboxIsValid (renew in_time "m1" "t1" policy waiting).1
    × OutboxIsValid (release_failed whole in_time "m1" "t1" failure waiting).1
outbox-IsValid_example =
    outbox-IsValid whole in_time "w1" "m1" "t1" policy failure tokens waiting waiting-IsValid

claim-IsGranted_example :
    (length (handed_out ∷ []) ≤ 2)
    × All (IsGranted 100 "w1" policy (outbox_of held).records) (handed_out ∷ [])
claim-IsGranted_example =
    claim-IsGranted in_time "w1" policy tokens waiting (outbox_of held) (handed_out ∷ [])
      (unfold policy_is_bounded in refl) waiting-IsValid claim-waiting

claim-keeps_live_example :
    lookup "m1" (claim in_time "w2" policy tokens (outbox_of held)).1.records ≡ some held
claim-keeps_live_example =
    claim-keeps_live in_time "w2" policy tokens (outbox_of held) "m1" "t1" held held-IsValid
      held-found held-owned

abbrev done : OutboxRecord
done = record (message "m1") { status = OutboxStatus.published; published_at = some 90 }

done-IsValid : OutboxIsValid (outbox_of done)
unfolding entry_is_valid lookup
done-IsValid = record { keys = (refl, tt); entries = refl }

outbox-keeps_final_example :
    (lookup "m1" (claim in_time "w1" policy tokens (outbox_of done)).1.records ≡ some done)
    × (lookup "m1" (mark_published in_time "m1" "t1" (outbox_of done)).1.records ≡ some done)
    × (lookup "m1" (renew in_time "m1" "t1" policy (outbox_of done)).1.records ≡ some done)
    × (lookup "m1" (release_failed whole in_time "m1" "t1" failure (outbox_of done)).1.records
        ≡ some done)
outbox-keeps_final_example =
    outbox-keeps_final whole in_time "w1" "m1" "t1" policy failure tokens (outbox_of done) "m1" done
      done-IsValid (unfold lookup in refl) refl
