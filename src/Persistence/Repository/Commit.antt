-- ===== src/Persistence/Repository/Commit.antt =====
-- `register` and `save` of `InMemoryOrderPersistence`
-- (src/quantiqmt/order/infrastructure/memory.py). A call that raises gives no store: every raise
-- stands before the first assignment, so the store stays as it was.
use quanti_qmt.Base.{
  ℕ, ◌+◌, String, Bool, true, false, ◌&&◌, Option, none, some, Result, ok, err, ◌>>=◌, ◌>>◌, ensure,
  or_raise, is_none, List, [], ◌∷◌, nat_beq, ◌==◌, string_eq,
}
use quanti_qmt.Base.Int.{ℤ}
use quanti_qmt.Base.Dict.{Dict, lookup, insert}
use quanti_qmt.Shared.Platform.{Platform}
use quanti_qmt.Persistence.Json.{Json, null, int, Fields, obj}
use quanti_qmt.Persistence.Call.{
  StorageError, type_error, key_error, idempotency_conflict, journal_commit_failed,
  unique_identifier_collision, order_version_conflict, Call, require_deadline,
}
use quanti_qmt.Persistence.Payload.{get, index, text_of}
use quanti_qmt.Persistence.Registration.{PersistedOrder}
use quanti_qmt.Persistence.Restore.{text_at}
use quanti_qmt.Persistence.Journal.Record.{
  JournalEvent, order_registered, order_transition_applied, OrderCommit,
}
use quanti_qmt.Persistence.Journal.Chain.{JournalRecord, prepare_journal}
use quanti_qmt.Persistence.Outbox.Record.{OutboxRecord, OutboxStatus}
use quanti_qmt.Persistence.Repository.Store.{Store, RegisterOutcome}

-- `_required_int`
unfoldable pub required_int : Json → Result StorageError ℤ
required_int (int z) = ok z
required_int _ = err type_error

-- `_optional_int`
unfoldable pub optional_int : Option Json → Result StorageError (Option ℤ)
unfolding required_int
optional_int none = ok none
optional_int (some null) = ok none
optional_int (some v) = do n ← required_int v; ok (some n)

-- What `records.update(new)` leaves.
unfoldable pub update {ℓ} : {V : Type ℓ} → Dict String V → Dict String V → Dict String V
update d [] = d
update d ((k, v) ∷ new) = update (insert k v d) new

abbrev pub is_registered : JournalEvent → Bool
is_registered order_registered = true
is_registered _ = false

abbrev pub is_transition : JournalEvent → Bool
is_transition order_transition_applied = true
is_transition _ = false

abbrev pub or_no_records : Option (List JournalRecord) → List JournalRecord
or_no_records none = []
or_no_records (some records) = records

-- `self._journal.get(order_id, ())`
abbrev pub records_of : String → Store → List JournalRecord
records_of order_id s = or_no_records (lookup order_id s.journal)

abbrev pub has_messages : List Fields → Bool
has_messages [] = false
has_messages _ = true

module _ (platform : Platform) where
  -- `_optional_str`
  unfoldable pub optional_str : Option Json → Option String
  unfolding text_of
  optional_str none = none
  optional_str (some null) = none
  optional_str (some v) = some (text_of platform v)

  -- The record of one message.
  unfoldable pub outbox_record : ℕ → String → Fields → Result StorageError OutboxRecord
  unfolding text_at index get required_int optional_str optional_int
  outbox_record now message_id m = do
    message_type ← text_at platform "message_type" (obj m)
    listed_version ← index "schema_version" (obj m)
    schema_version ← required_int listed_version
    aggregate_version ← optional_int (get "aggregate_version" m)
    partition_key ← text_at platform "partition_key" (obj m)
    ok (record {
      message_id = message_id;
      message_type = message_type;
      schema_version = schema_version;
      aggregate_id = optional_str (get "aggregate_id" m);
      aggregate_version = aggregate_version;
      partition_key = partition_key;
      envelope = m;
      status = OutboxStatus.pending;
      attempt_count = 0;
      available_at = now;
      created_at = now;
      updated_at = now;
      claim_max_attempts = none;
      claim_initial_retry_delay_ms = none;
      claim_max_retry_delay_ms = none;
      claim_backoff_multiplier = none;
      claim_jitter_ratio = none;
      claimed_by = none;
      claim_token = none;
      lease_until = none;
      published_at = none;
      last_error_code = none;
      last_error_detail = none;
    })

  -- `_prepare_outbox`, from the messages that are prepared already
  unfoldable pub prepare_outbox :
      Store
      → Dict String OutboxRecord
      → List Fields
      → Result StorageError (Dict String OutboxRecord)
  unfolding text_at outbox_record
  prepare_outbox s prepared [] = ok prepared
  prepare_outbox s prepared (m ∷ ms) = do
    message_id ← text_at platform "message_id" (obj m)
    ensure (is_none (lookup message_id s.outbox.records) && is_none (lookup message_id prepared))
        journal_commit_failed
    prepared_record ← outbox_record s.outbox.now message_id m
    prepare_outbox s (insert message_id prepared_record prepared) ms

  -- The writes at the end of `register` and `save`.
  abbrev pub with_commit :
      Store → PersistedOrder → List JournalRecord → Dict String OutboxRecord → Store
  with_commit s persisted records outbox = record s {
    orders = insert persisted.registration.order_id persisted s.orders;
    journal = insert persisted.registration.order_id records s.journal;
    outbox = record (s.outbox) { records = update s.outbox.records outbox };
  }

  -- The part of `register` for an intent that is new.
  unfoldable pub register_new : OrderCommit → Store → Result StorageError (RegisterOutcome × Store)
  unfolding prepare_journal prepare_outbox update
  register_new c s = do
    ensure
        (is_none (lookup c.persisted_order.registration.order_id s.orders)
          && is_none (lookup c.persisted_order.registration.client_order_id s.client_index))
        unique_identifier_collision
    ensure (nat_beq c.persisted_order.order.version 1 && nat_beq c.journal.aggregate_version 1)
        journal_commit_failed
    ensure (is_registered c.journal.event_type) journal_commit_failed
    ensure (has_messages c.outbox_messages) journal_commit_failed
    records ←
        prepare_journal platform s.outbox.now (records_of c.persisted_order.registration.order_id s)
          c.journal c.persisted_order.registration_fingerprint
    outbox ← prepare_outbox s [] c.outbox_messages
    ok (
      record { persisted_order = c.persisted_order; created = true },
      record (with_commit s c.persisted_order records outbox) {
        intent_index =
            insert c.persisted_order.registration.intent_id c.persisted_order.registration.order_id
              s.intent_index;
        client_index =
            insert c.persisted_order.registration.client_order_id
              c.persisted_order.registration.order_id s.client_index;
      },
    )

  -- The part of `register` for an intent that an order has.
  unfoldable pub register_again :
      OrderCommit → PersistedOrder → Store → Result StorageError (RegisterOutcome × Store)
  register_again c existing s = do
    ensure (existing.registration_fingerprint == c.persisted_order.registration_fingerprint)
        idempotency_conflict
    ok (record { persisted_order = existing; created = false }, s)

  -- `register`
  unfoldable pub register :
      Call → OrderCommit → Store → Result StorageError (RegisterOutcome × Store)
  unfolding require_deadline register_new register_again
  register call c s = do
    require_deadline call
    elim (lookup c.persisted_order.registration.intent_id s.intent_index) [
      | none ↦ register_new c s
      | some order_id ↦ do
        existing ← or_raise (lookup order_id s.orders) key_error
        register_again c existing s
    ]

  -- The part of `save` for an order that is there.
  unfoldable pub save_existing :
      OrderCommit → ℕ → PersistedOrder → Store → Result StorageError (PersistedOrder × Store)
  unfolding prepare_journal prepare_outbox update
  save_existing c expected_version existing s = do
    ensure (nat_beq existing.order.version expected_version) order_version_conflict
    ensure (nat_beq c.persisted_order.order.version (expected_version + 1)) journal_commit_failed
    ensure (is_transition c.journal.event_type) journal_commit_failed
    records ←
        prepare_journal platform s.outbox.now (records_of c.persisted_order.registration.order_id s)
          c.journal c.persisted_order.registration_fingerprint
    outbox ← prepare_outbox s [] c.outbox_messages
    ok (c.persisted_order, with_commit s c.persisted_order records outbox)

  -- `save`
  unfoldable pub save :
      Call → OrderCommit → ℕ → Store → Result StorageError (PersistedOrder × Store)
  unfolding require_deadline save_existing
  save call c expected_version s = do
    require_deadline call
    existing ←
        or_raise (lookup c.persisted_order.registration.order_id s.orders) journal_commit_failed
    save_existing c expected_version existing s
