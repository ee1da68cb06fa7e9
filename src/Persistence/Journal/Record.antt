-- ===== src/Persistence/Journal/Record.antt =====
-- `JournalAppend`, `OrderSnapshot` and `OrderCommit`
-- (src/quantiqmt/order/application/persistence/model.py), and their payloads and checksums
-- (serialization.py beside it).
use quanti_qmt.Base.{
  ℕ, String, Bool, true, ◌&&◌, Option, none, some, Result, ok, err, List, ◌∷◌, ◌++◌, codes, leb,
  length, nat_beq, ◌==◌, string_eq, if◌then◌else◌,
}
use quanti_qmt.Base.Int.{pos}
use quanti_qmt.Shared.Platform.{Platform}
use quanti_qmt.Shared.Time.{format_utc}
use quanti_qmt.Persistence.Json.{int, str, obj, Fields, end, field}
use quanti_qmt.Persistence.Call.{StorageError, value_error}
use quanti_qmt.Persistence.Payload.{get, set_field, normalize, normalize_fields}
use quanti_qmt.Persistence.Canonical.{canonical_json, digest}
use quanti_qmt.Persistence.Registration.{PersistedOrder, is_sha256_hex}
use quanti_qmt.Persistence.StatePayload.{optional_text}

pub data JournalEvent : Type 0 where
  order_registered order_transition_applied : JournalEvent

unfoldable pub event_value : JournalEvent → String
event_value order_registered = "ORDER_REGISTERED"
event_value order_transition_applied = "ORDER_TRANSITION_APPLIED"

pub record JournalAppend : Type 0 where
  pub journal_id : String
  pub order_id : String
  pub aggregate_version : ℕ
  pub event_type : JournalEvent
  pub payload : Fields
  pub occurred_at : ℕ
  pub correlation_id : String
  pub causation_id : Option String

abbrev id_length_is_valid : String → Bool
id_length_is_valid text = leb 16 (length (codes text)) && leb (length (codes text)) 64

abbrev optional_id_is_valid : Option String → Bool
optional_id_is_valid none = true
optional_id_is_valid (some text) = id_length_is_valid text

-- What `JournalAppend.__post_init__` accepts.
unfoldable pub append_is_valid : JournalAppend → Bool
append_is_valid a =
    leb 1 a.aggregate_version
    && id_length_is_valid a.correlation_id
    && optional_id_is_valid a.causation_id

-- `JournalAppend(...)`
unfoldable pub journal_append : JournalAppend → Result StorageError JournalAppend
unfolding append_is_valid
journal_append a = if append_is_valid a then ok a else err value_error

pub record OrderCommit : Type 0 where
  pub persisted_order : PersistedOrder
  pub journal : JournalAppend
  pub outbox_messages : List Fields  -- each as its `to_primitive()` gives it

-- What `OrderCommit.__post_init__` accepts.
unfoldable pub commit_is_valid : OrderCommit → Bool
commit_is_valid c =
    c.journal.order_id == c.persisted_order.registration.order_id
    && nat_beq c.journal.aggregate_version c.persisted_order.order.version

pub record OrderSnapshot : Type 0 where
  pub snapshot_id : String
  pub order_id : String
  pub aggregate_version : ℕ
  pub schema_version : ℕ
  pub state_payload : Fields
  pub journal_head_checksum : String
  pub snapshot_checksum : String
  pub created_at : ℕ

-- What `OrderSnapshot.__post_init__` accepts.
unfoldable pub snapshot_is_valid : OrderSnapshot → Bool
unfolding is_sha256_hex
snapshot_is_valid s =
    leb 1 s.aggregate_version
    && nat_beq s.schema_version 1
    && is_sha256_hex s.journal_head_checksum
    && is_sha256_hex s.snapshot_checksum

-- `GENESIS_PREVIOUS_COMPONENT`
abbrev pub genesis : String
genesis = "0000000000000000000000000000000000000000000000000000000000000000"

-- `previous_entry_checksum or GENESIS_PREVIOUS_COMPONENT`
unfoldable pub previous_component : Option String → String
previous_component none = genesis
previous_component (some s) = if s == "" then genesis else s

module _ (platform : Platform) where
  -- `journal_payload_without_checksums`
  unfoldable pub journal_payload : JournalAppend → Fields
  unfolding event_value
  journal_payload a = field "journal_id" (str a.journal_id) (
      field "order_id" (str a.order_id) (
        field "aggregate_version" (int (pos a.aggregate_version)) (
          field "event_type" (str (event_value a.event_type)) (
            field "schema_version" (int (pos 1)) (
              field "payload" (normalize platform (obj a.payload)) (
                field "occurred_at" (str (format_utc platform a.occurred_at)) (
                  field "correlation_id" (str a.correlation_id)
                    (field "causation_id" (optional_text a.causation_id) end))))))))

  -- `journal_checksum`
  unfoldable pub journal_checksum : JournalAppend → Option String → String
  unfolding canonical_json journal_payload previous_component
  journal_checksum a previous =
      platform.sha256
        (codes (previous_component previous) ++ 10 ∷ canonical_json platform (journal_payload a))

  -- `journal_with_registration_fingerprint`; a payload of this model is always an object.
  unfoldable pub journal_with_registration_fingerprint :
      JournalAppend → String → Result StorageError JournalAppend
  unfolding normalize get set_field journal_append
  journal_with_registration_fingerprint a fingerprint =
      let payload = normalize_fields platform end a.payload in
      elim (get "post_state" payload) [
        | some (obj post_state) ↦ journal_append (record a {
          payload =
              set_field "post_state"
                (obj (set_field "registration_fingerprint" (str fingerprint) post_state)) payload;
        })
        | _ ↦ err value_error
      ]

  -- `snapshot_payload_without_checksum`
  unfoldable pub snapshot_payload : OrderSnapshot → Fields
  snapshot_payload s = field "snapshot_id" (str s.snapshot_id) (
      field "order_id" (str s.order_id) (
        field "aggregate_version" (int (pos s.aggregate_version)) (
          field "schema_version" (int (pos s.schema_version)) (
            field "state_payload" (normalize platform (obj s.state_payload)) (
              field "journal_head_checksum" (str s.journal_head_checksum)
                (field "created_at" (str (format_utc platform s.created_at)) end))))))

  -- `snapshot_checksum`, of a snapshot
  unfoldable pub snapshot_checksum : OrderSnapshot → String
  unfolding digest snapshot_payload
  snapshot_checksum s = digest platform (snapshot_payload s)
