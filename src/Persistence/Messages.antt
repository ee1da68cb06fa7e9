-- ===== src/Persistence/Messages.antt =====
-- The message builders (src/quantiqmt/order/application/persistence/messages.py). A message is the
-- primitive form of its envelope. Whether the registry of schemas accepts an envelope is an argument,
-- and a status or reason is given by the text of its value.
use mathlib.Core.Path.{subst}
use quanti_qmt.Base.{
  arith, ◌>>◌, ℕ, suc, ◌-◌, ◌≡◌, refl, String, Bool, true, false, ◌&&◌, Option, none, some, Result,
  ok, err, [], ◌∷◌, codes, leb, string_eq, if◌then◌else◌, ensure, is_none,
}
use quanti_qmt.Base.Int.{ℤ, pos, negsuc}
use quanti_qmt.Base.Dict.{Dict, lookup, insert}
use quanti_qmt.Shared.Platform.{Platform}
use quanti_qmt.Shared.Numerals.{◌⧺◌, decimal}
use quanti_qmt.Shared.Time.{format_utc}
use quanti_qmt.Persistence.Json.{int, str, obj, Fields, end, field}
use quanti_qmt.Persistence.Call.{StorageError, value_error, journal_commit_failed}
use quanti_qmt.Persistence.Payload.{get, index}
use quanti_qmt.Persistence.Registration.{OrderRegistration, PersistedOrder}
use quanti_qmt.Persistence.StatePayload.{optional_text}
use quanti_qmt.Persistence.Journal.Record.{JournalAppend}
use quanti_qmt.Persistence.Outbox.Record.{OutboxRecord, OutboxStatus}
use quanti_qmt.Persistence.Restore.{text_at}
use quanti_qmt.Persistence.Repository.Store.{Store}
use quanti_qmt.Persistence.Repository.Commit.{
  prepare_outbox, outbox_record, optional_str, required_int, optional_int,
}

-- `total_quantity - cumulative_quantity`
abbrev pub leaves : ℕ → ℕ → ℤ
leaves total cumulative =
    if leb cumulative total then pos (total - cumulative) else negsuc (cumulative - suc total)

-- The arguments of `build_order_status_changed_envelope`.
pub record StatusChange : Type 0 where
  pub order_id : String
  pub aggregate_version : ℕ
  pub from_status : String
  pub to_status : String
  pub reason_code : String
  pub cumulative_quantity : ℕ
  pub total_quantity : ℕ
  pub broker_order_id : Option String
  pub average_price : Option String
  pub source_report_id : Option String

-- What a message tells: a registration, or a change of status.
pub data Subject : Type 0 where
  registered : PersistedOrder → Subject
  changed : StatusChange → Subject

abbrev pub message_type_of : Subject → String
message_type_of (registered _) = "oms.order_registered.v1"
message_type_of (changed _) = "oms.order_status_changed.v1"

abbrev pub order_id_of : Subject → String
order_id_of (registered p) = p.order.order_id
order_id_of (changed c) = c.order_id

abbrev pub version_of : Subject → ℕ
version_of (registered _) = 1
version_of (changed c) = c.aggregate_version

module _ (platform : Platform) where
  -- `deterministic_message_id`
  unfoldable pub deterministic_message_id : String → String → ℕ → String
  deterministic_message_id message_type order_id version =
      platform.sha256 (codes ("outbox:v1|" ⧺ message_type ⧺ "|" ⧺ order_id ⧺ "|" ⧺ decimal version))

  -- `_envelope`
  unfoldable pub envelope : String → String → ℕ → String → JournalAppend → Fields → Fields
  envelope message_type order_id version occurred_at journal payload =
      field "message_id" (str (deterministic_message_id message_type order_id version)) (
        field "message_type" (str message_type) (
          field "schema_version" (int (pos 1)) (
            field "occurred_at" (str occurred_at) (
              field "received_at" (str occurred_at) (
                field "correlation_id" (str journal.correlation_id) (
                  field "causation_id" (optional_text journal.causation_id) (
                    field "aggregate_id" (str order_id) (
                      field "aggregate_version" (int (pos version)) (
                        field "source" (str "OMS") (
                          field "partition_key" (str order_id) (
                            field "idempotency_key"
                              (str (order_id ⧺ ":" ⧺ decimal version ⧺ ":" ⧺ message_type))
                              (field "payload" (obj payload) end))))))))))))

  -- `MessageEnvelope.create`, which raises a ContractValidationError, a ValueError.
  abbrev pub create : (Fields → Bool) → Fields → Result StorageError Fields
  create accepts message = if accepts message then ok message else err value_error

  unfoldable pub registered_payload : OrderRegistration → Fields
  unfolding format_utc
  registered_payload r = field "order_id" (str r.order_id) (
      field "intent_id" (str r.intent_id) (
        field "account_id" (str r.account_id) (
          field "instrument_id" (str r.instrument_id) (
            field "side" r.side (
              field "position_effect" r.position_effect (
                field "order_type" r.order_type (
                  field "quantity" (int (pos r.quantity)) (
                    field "limit_price" (optional_text r.limit_price) (
                      field "time_in_force" r.time_in_force (
                        field "owner_strategy_id" (str r.owner_strategy_id) (
                          field "owner_strategy_version" (str r.owner_strategy_version) (
                            field "registered_at" (str (format_utc platform r.registered_at))
                              end))))))))))))

  unfoldable pub build_order_registered_envelope :
      (Fields → Bool) → PersistedOrder → JournalAppend → Result StorageError Fields
  unfolding envelope registered_payload format_utc
  build_order_registered_envelope accepts p journal = create accepts (
      envelope "oms.order_registered.v1" p.order.order_id 1
        (format_utc platform p.registration.registered_at) journal
        (registered_payload p.registration))

  unfoldable pub status_payload : StatusChange → String → Fields
  status_payload c changed_at = field "order_id" (str c.order_id) (
      field "from_status" (str c.from_status) (
        field "to_status" (str c.to_status) (
          field "reason_code" (str c.reason_code) (
            field "broker_order_id" (optional_text c.broker_order_id) (
              field "cum_quantity" (int (pos c.cumulative_quantity)) (
                field "leaves_quantity" (int (leaves c.total_quantity c.cumulative_quantity)) (
                  field "average_price" (optional_text c.average_price) (
                    field "source_report_id" (optional_text c.source_report_id)
                      (field "changed_at" (str changed_at) end)))))))))

  unfoldable pub build_order_status_changed_envelope :
      (Fields → Bool) → StatusChange → JournalAppend → Result StorageError Fields
  unfolding envelope status_payload format_utc
  build_order_status_changed_envelope accepts c journal = create accepts (
      envelope "oms.order_status_changed.v1" c.order_id c.aggregate_version
        (format_utc platform journal.occurred_at) journal
        (status_payload c (format_utc platform journal.occurred_at)))

  -- The record of a message that waits.
  abbrev pub waiting : ℕ → String → String → ℕ → Fields → OutboxRecord
  waiting now message_type order_id version message = record {
    message_id = deterministic_message_id message_type order_id version;
    message_type = message_type;
    schema_version = pos 1;
    aggregate_id = some order_id;
    aggregate_version = some (pos version);
    partition_key = order_id;
    envelope = message;
    status = OutboxStatus.pending;
    attempt_count = 0;
    available_at = now;
    created_at = now;
    updated_at = now;
    claim_max_attempts = none;
    claim_initial_retry_delay_ms = none;
    claim_max_retry_delay_ms = none;
    claim_backoff_multiplier = none;
    claim_jitter_ratio = none;
    claimed_by = none;
    claim_token = none;
    lease_until = none;
    published_at = none;
    last_error_code = none;
    last_error_detail = none;
  }

  outbox_record-envelope :
      (now : ℕ) (message_type order_id : String) (version : ℕ) (occurred_at : String)
      (journal : JournalAppend) (payload : Fields)
      → outbox_record platform now
          (deterministic_message_id message_type order_id version)
          (envelope message_type order_id version occurred_at journal payload)
        ≡ ok (
            waiting now message_type order_id version
              (envelope message_type order_id version occurred_at journal payload))
  unfolding outbox_record envelope text_at index get required_int optional_int optional_str
  outbox_record-envelope now message_type order_id version occurred_at journal payload = refl

  prepare_outbox-envelope :
      (s : Store) (message_type order_id : String) (version : ℕ) (occurred_at : String)
      (journal : JournalAppend) (payload : Fields)
      → prepare_outbox platform s []
          (envelope message_type order_id version occurred_at journal payload ∷ [])
        ≡ (if is_none
              (lookup (deterministic_message_id message_type order_id version) s.outbox.records)
            then ok (
                (
                  deterministic_message_id message_type order_id version,
                  waiting s.outbox.now message_type order_id version
                      (envelope message_type order_id version occurred_at journal payload),
                )
                ∷ [])
            else err journal_commit_failed)
  unfolding prepare_outbox outbox_record envelope text_at index get required_int optional_int
      optional_str lookup insert
  prepare_outbox-envelope s message_type order_id version occurred_at journal payload =
      when_free
        (is_none (lookup (deterministic_message_id message_type order_id version) s.outbox.records))
        ((
          deterministic_message_id message_type order_id version,
          waiting s.outbox.now message_type order_id version
              (envelope message_type order_id version occurred_at journal payload),
        )
          ∷ [])
    where
      when_free :
          (b : Bool) (prepared : Dict String OutboxRecord)
          → (ensure (b && true) journal_commit_failed >> ok prepared)
            ≡ (if b then ok prepared else err journal_commit_failed)
      when_free true prepared = refl
      when_free false prepared = refl

  -- A message of one of the builders, as built.
  abbrev pub build : (Fields → Bool) → JournalAppend → Subject → Result StorageError Fields
  build accepts journal (registered p) = build_order_registered_envelope accepts p journal
  build accepts journal (changed c) = build_order_status_changed_envelope accepts c journal

  abbrev pub message_id_of : Subject → String
  message_id_of s = deterministic_message_id (message_type_of s) (order_id_of s) (version_of s)

  -- What becomes of a store that prepares the message alone.
  abbrev pub Prepares : Store → Subject → Fields → Type 0
  Prepares s subject m = prepare_outbox platform s [] (m ∷ []) ≡ (
      if is_none (lookup (message_id_of subject) s.outbox.records)
      then ok (
          (
            message_id_of subject,
            waiting s.outbox.now (message_type_of subject) (order_id_of subject)
                (version_of subject) m,
          )
          ∷ [])
      else err journal_commit_failed)

  create-ok : (accepts : Fields → Bool) (built m : Fields) → create accepts built ≡ ok m → built ≡ m
  create-ok accepts built m h = ground arith

  -- A message of either builder that the registry accepts becomes one waiting record of the outbox,
  -- under its deterministic id, with the type, order id, version and envelope that it was built with,
  -- keyed by its order; where the id is already in the outbox the preparation raises and nothing is
  -- prepared.
  pub prepare_outbox-built :
      (accepts : Fields → Bool) (journal : JournalAppend) (subject : Subject) (m : Fields)
      (s : Store)
      → build accepts journal subject ≡ ok m
      → Prepares s subject m
  unfolding build_order_registered_envelope build_order_status_changed_envelope
  prepare_outbox-built accepts journal (registered p) m s h =
      subst (Prepares s (registered p)) (create-ok accepts _ m h) (
        prepare_outbox-envelope s "oms.order_registered.v1" p.order.order_id 1
          (format_utc platform p.registration.registered_at) journal
          (registered_payload p.registration))
  prepare_outbox-built accepts journal (changed c) m s h =
      subst (Prepares s (changed c)) (create-ok accepts _ m h) (
        prepare_outbox-envelope s "oms.order_status_changed.v1" c.order_id c.aggregate_version
          (format_utc platform journal.occurred_at) journal
          (status_payload c (format_utc platform journal.occurred_at)))
