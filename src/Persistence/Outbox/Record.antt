-- ===== src/Persistence/Outbox/Record.antt =====
-- An outbox record, and the DTOs of the outbox port
-- (src/quantiqmt/order/infrastructure/memory.py and
-- src/quantiqmt/order/application/persistence/model.py). A point in time is an ℕ of microseconds,
-- the resolution of `datetime`.
use quanti_qmt.Base.{
  ℕ, ◌*◌, String, Bool, true, false, ◌&&◌, ◌||◌, Option, none, some, Result, ok, err, leb, ltb,
  blank, codes, length, if◌then◌else◌,
}
use quanti_qmt.Base.Int.{ℤ}
use quanti_qmt.Base.Dict.{Dict}
use quanti_qmt.Persistence.Json.{Fields}
use quanti_qmt.Persistence.Call.{StorageError, value_error}

pub data OutboxStatus : Type 0 where
  pending claimed published dead_letter : OutboxStatus

abbrev pub is_pending : OutboxStatus → Bool
is_pending pending = true
is_pending _ = false

abbrev pub is_claimed : OutboxStatus → Bool
is_claimed claimed = true
is_claimed _ = false

pub record OutboxRecord : Type 0 where
  pub message_id : String
  pub message_type : String
  pub schema_version : ℤ
  pub aggregate_id : Option String
  pub aggregate_version : Option ℤ
  pub partition_key : String
  pub envelope : Fields
  pub status : OutboxStatus
  pub attempt_count : ℕ
  pub available_at : ℕ
  pub created_at : ℕ
  pub updated_at : ℕ
  pub claim_max_attempts : Option ℕ
  pub claim_initial_retry_delay_ms : Option ℕ
  pub claim_max_retry_delay_ms : Option ℕ
  pub claim_backoff_multiplier : Option String
  pub claim_jitter_ratio : Option String
  pub claimed_by : Option String
  pub claim_token : Option String
  pub lease_until : Option ℕ
  pub published_at : Option ℕ
  pub last_error_code : Option String
  pub last_error_detail : Option String

-- The part of the adapter's state that the outbox port works on: `_outbox` and `_now`.
pub record Outbox : Type 0 where
  pub records : Dict String OutboxRecord
  pub now : ℕ

pub record ClaimPolicy : Type 0 where
  pub batch_size : ℕ
  pub lease_duration_ms : ℕ
  pub max_attempts : ℕ
  pub initial_retry_delay_ms : ℕ
  pub max_retry_delay_ms : ℕ
  pub backoff_multiplier : String
  pub jitter_ratio : String

abbrev within : ℕ → ℕ → ℕ → Bool
within low high n = leb low n && leb n high

-- The integer bounds of `ClaimPolicy.__post_init__`; the two decimal texts are not read here.
unfoldable pub policy_is_bounded : ClaimPolicy → Bool
policy_is_bounded p =
    within 1 1000 p.batch_size
    && within 1000 300000 p.lease_duration_ms
    && within 1 100 p.max_attempts
    && within 10 60000 p.initial_retry_delay_ms
    && within 10 3600000 p.max_retry_delay_ms
    && leb p.initial_retry_delay_ms p.max_retry_delay_ms

pub record ClaimedMessage : Type 0 where
  pub message_id : String
  pub message_type : String
  pub aggregate_id : Option String
  pub aggregate_version : Option ℤ
  pub partition_key : String
  pub envelope : Fields
  pub claim_token : String
  pub lease_until : ℕ
  pub attempt_count : ℕ

pub record PublishFailure : Type 0 where
  pub error_code : String
  pub error_detail : String
  pub retryable : Bool

-- `PublishFailure(error_code, error_detail, retryable)`
unfoldable pub publish_failure : String → String → Bool → Result StorageError PublishFailure
publish_failure error_code error_detail retryable =
    if blank error_code || ltb 2048 (length (codes error_detail))
    then err value_error
    else ok (record { error_code = error_code; error_detail = error_detail; retryable = retryable })

-- `OutboxMutationResult`: the code is "OK" where it is applied, and QQ-STORAGE-7004 where not.
pub data OutboxMutationResult : Type 0 where
  applied : OutboxMutationResult
  claim_lost : OutboxMutationResult

-- `timedelta(milliseconds=ms)`
abbrev pub milliseconds : ℕ → ℕ
milliseconds ms = ms * 1000

-- `_expired`
abbrev pub expired : Option ℕ → ℕ → Bool
expired none now = true
expired (some t) now = leb t now
