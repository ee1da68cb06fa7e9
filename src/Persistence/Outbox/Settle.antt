-- ===== src/Persistence/Outbox/Settle.antt =====
-- The end of a claim: `mark_published`, `release_failed` and `renew`
-- (src/quantiqmt/order/infrastructure/memory.py).
use quanti_qmt.Base.{
  ℕ, ◌+◌, ◌-◌, ◌≤◌, max, String, Bool, false, ◌&&◌, not, Option, none, some, Result, ok, err, ltb,
  nat_beq, if◌then◌else◌, ◌==◌, string_eq,
}
use quanti_qmt.Base.Dict.{lookup, insert}
use quanti_qmt.Persistence.Call.{StorageError, Call, require_deadline}
use quanti_qmt.Persistence.Outbox.Record.{
  pending, published, dead_letter, is_claimed, OutboxRecord, Outbox, ClaimPolicy, PublishFailure,
  OutboxMutationResult, applied, claim_lost, milliseconds,
}

abbrev pub token_is : String → Option String → Bool
token_is token none = false
token_is token (some t) = t == token

abbrev ends_after : ℕ → Option ℕ → Bool
ends_after now none = false
ends_after now (some t) = ltb now t

-- `_owns_live_claim` of a record that is there
unfoldable pub owns_live_claim : ℕ → String → OutboxRecord → Bool
owns_live_claim now token r =
    is_claimed r.status && token_is token r.claim_token && ends_after now r.lease_until

-- The shape that the three operations share: a claim that is not owned or not live changes nothing.
unfoldable pub settle :
    Call
    → String
    → String
    → (OutboxRecord → OutboxRecord)
    → Outbox
    → Result StorageError OutboxMutationResult × Outbox
unfolding require_deadline owns_live_claim
settle c message_id token update o = elim (require_deadline c) [
  | err e ↦ (err e, o)
  | ok _ ↦ elim (lookup message_id o.records) [
    | none ↦ (ok claim_lost, o)
    | some r ↦
        if owns_live_claim o.now token r
        then (ok applied, record o { records = insert message_id (update r) o.records })
        else (ok claim_lost, o)
  ]
]

abbrev pub publish : ℕ → OutboxRecord → OutboxRecord
publish now r = record r {
  status = published;
  claimed_by = none;
  claim_token = none;
  lease_until = none;
  published_at = some now;
  updated_at = now;
}

-- `InMemoryOrderPersistence.mark_published`
unfoldable pub mark_published :
    Call → String → String → Outbox → Result StorageError OutboxMutationResult × Outbox
unfolding settle
mark_published c message_id token o = settle c message_id token (publish o.now) o

abbrev pub extend : ℕ → ClaimPolicy → OutboxRecord → OutboxRecord
extend now policy r = record r {
  lease_until = some (now + milliseconds policy.lease_duration_ms);
  updated_at = now;
}

-- `InMemoryOrderPersistence.renew`
unfoldable pub renew :
    Call
    → String
    → String
    → ClaimPolicy
    → Outbox
    → Result StorageError OutboxMutationResult × Outbox
unfolding settle
renew c message_id token policy o = settle c message_id token (extend o.now policy) o

-- `n or default`, for an optional int
abbrev pub or_default : Option ℕ → ℕ → ℕ
or_default none d = d
or_default (some n) d = if nat_beq n 0 then d else n

abbrev or_text : Option String → String → String
or_text none d = d
or_text (some s) d = if s == "" then d else s

-- The arithmetic of Python's `decimal` that `_retry_delay_ms` uses: numbers of 28 digits, which the
-- module rounds. `ceiling` is `int(x.to_integral_value(rounding=ROUND_CEILING))`.
pub record DecimalModule : Type 1 where
  pub Decimal : Type 0
  pub parse : String → Decimal
  pub of_int : ℕ → Decimal
  pub times : Decimal → Decimal → Decimal
  pub plus : Decimal → Decimal → Decimal
  pub power : Decimal → ℕ → Decimal
  pub minimum : Decimal → Decimal → Decimal
  pub ceiling : Decimal → ℕ
  -- The smaller of a number and a small integer, rounded up, is at most that integer.
  pub ceiling-minimum : (x : Decimal) (n : ℕ) → ceiling (minimum x (of_int n)) ≤ n

module _ (dec : DecimalModule) where
  open dec use {Decimal, parse, of_int, times, plus, power, minimum, ceiling}

  -- `_retry_delay_ms`
  unfoldable pub retry_delay_ms : OutboxRecord → ℕ
  retry_delay_ms r =
      let initial = or_default r.claim_initial_retry_delay_ms 10 in
      let maximum = or_default r.claim_max_retry_delay_ms initial in
      let multiplier = parse (or_text r.claim_backoff_multiplier "1") in
      let jitter = parse (or_text r.claim_jitter_ratio "0") in
      let exponent = max (r.attempt_count - 1) 0 in
      let delay =
        times (times (of_int initial) (power multiplier exponent)) (plus (parse "1") jitter) in
      ceiling (minimum delay (of_int maximum))

  unfoldable pub should_retry : PublishFailure → OutboxRecord → Bool
  should_retry failure r =
      failure.retryable && ltb r.attempt_count (or_default r.claim_max_attempts 1)

  -- The record after `release_failed`.
  unfoldable pub fail : ℕ → PublishFailure → OutboxRecord → OutboxRecord
  unfolding should_retry
  fail now failure r = record r {
    status = if should_retry failure r then pending else dead_letter;
    claimed_by = none;
    claim_token = none;
    lease_until = none;
    available_at =
        if should_retry failure r then now + milliseconds (retry_delay_ms r) else r.available_at;
    last_error_code = some (
        if failure.retryable && not (should_retry failure r)
        then "MAX_ATTEMPTS_REACHED"
        else failure.error_code);
    last_error_detail = some failure.error_detail;
    updated_at = now;
  }

  -- `InMemoryOrderPersistence.release_failed`
  unfoldable pub release_failed :
      Call
      → String
      → String
      → PublishFailure
      → Outbox
      → Result StorageError OutboxMutationResult × Outbox
  unfolding settle fail
  release_failed c message_id token failure o = settle c message_id token (fail o.now failure) o
