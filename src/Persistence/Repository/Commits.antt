-- ===== src/Persistence/Repository/Commits.antt =====
-- What a call of `register` or `save` that does not raise has checked and written
-- (src/quantiqmt/order/infrastructure/memory.py).
use quanti_qmt.Base.{
  is_none-true, ℕ, ◌+◌, ◌≡◌, ◌⊎◌, inl, inr, String, Bool, true, false, ◌&&◌, none, some, ok, >>=-ok,
  >>-ok, ensure->>-ok, or_raise-ok, is_none, List, [], nat_beq, string_eq, arith, Option-cases,
  ==-true,
}
use quanti_qmt.Base.Dict.{Dict, lookup, insert}
use quanti_qmt.Shared.Platform.{Platform}
use quanti_qmt.Persistence.Call.{
  key_error, idempotency_conflict, journal_commit_failed, unique_identifier_collision,
  order_version_conflict, Call, require_deadline,
}
use quanti_qmt.Persistence.Registration.{PersistedOrder}
use quanti_qmt.Persistence.Journal.Record.{OrderCommit}
use quanti_qmt.Persistence.Journal.Chain.{JournalRecord, prepare_journal}
use quanti_qmt.Persistence.Outbox.Record.{OutboxRecord}
use quanti_qmt.Persistence.Repository.Store.{Store, RegisterOutcome}
use quanti_qmt.Persistence.Repository.Commit.{
  records_of, with_commit, prepare_outbox, register_new, register_again, register, save_existing,
  save, is_registered, has_messages,
}

module _ (platform : Platform) where
  -- The journal and the outbox of the commit.
  pub record IsPrepared (c : OrderCommit) (s : Store) (records : List JournalRecord)
      (messages : Dict String OutboxRecord) : Type 0 where
    pub journal_prepared :
        prepare_journal platform s.outbox.now
          (records_of c.persisted_order.registration.order_id s)
          c.journal
          c.persisted_order.registration_fingerprint
        ≡ ok records
    pub outbox_prepared : prepare_outbox platform s [] c.outbox_messages ≡ ok messages

  abbrev pub with_registration :
      OrderCommit → List JournalRecord → Dict String OutboxRecord → Store → Store
  with_registration c records messages s =
      record (with_commit platform s c.persisted_order records messages) {
        intent_index =
            insert c.persisted_order.registration.intent_id c.persisted_order.registration.order_id
              s.intent_index;
        client_index =
            insert c.persisted_order.registration.client_order_id
              c.persisted_order.registration.order_id s.client_index;
      }

  pub record IsRegistration (c : OrderCommit) (s : Store) (out : RegisterOutcome × Store)
      : Type 0 where
    pub records : List JournalRecord
    pub messages : Dict String OutboxRecord
    pub prepared : IsPrepared c s records messages
    pub order_new : lookup c.persisted_order.registration.order_id s.orders ≡ none
    pub client_new : lookup c.persisted_order.registration.client_order_id s.client_index ≡ none
    pub first_version : c.persisted_order.order.version ≡ 1
    pub outcome : out ≡ (
      record { persisted_order = c.persisted_order; created = true },
      with_registration c records messages s,
    )

  both_true : (a b : Bool) → (a && b) ≡ true → (a ≡ true) × (b ≡ true)
  both_true a b h = (ground arith, ground arith)

  abbrev is_fresh : OrderCommit → Store → Bool
  is_fresh c s =
      is_none (lookup c.persisted_order.registration.order_id s.orders)
      && is_none (lookup c.persisted_order.registration.client_order_id s.client_index)

  abbrev is_first : OrderCommit → Bool
  is_first c = nat_beq c.persisted_order.order.version 1 && nat_beq c.journal.aggregate_version 1

  first_is_one : (c : OrderCommit) → is_first c ≡ true → c.persisted_order.order.version ≡ 1
  first_is_one c h = ground arith

  pub register_new-ok :
      (c : OrderCommit) (s : Store) {out : RegisterOutcome × Store}
      → register_new platform c s ≡ ok out
      → IsRegistration c s out
  unfolding register_new
  register_new-ok c s {out} h =
      let (fresh, h1) = ensure->>-ok (is_fresh c s) unique_identifier_collision h in
      let (first, h2) = ensure->>-ok (is_first c) journal_commit_failed h1 in
      let (_, h3) = ensure->>-ok (is_registered c.journal.event_type) journal_commit_failed h2 in
      let (_, h4) = ensure->>-ok (has_messages c.outbox_messages) journal_commit_failed h3 in
      let (records, (prepared, h5)) = >>=-ok _ h4 in
      let (outbox, (published, h6)) = >>=-ok _ h5 in
      record {
        records = records;
        messages = outbox;
        prepared = record { journal_prepared = prepared; outbox_prepared = published };
        order_new = is_none-true _ (both_true _ _ fresh).0;
        client_new = is_none-true _ (both_true _ _ fresh).1;
        first_version = first_is_one c first;
        outcome = cc;
      }

  pub record IsSave (c : OrderCommit) (expected : ℕ) (s : Store) (out : PersistedOrder × Store)
      : Type 0 where
    pub records : List JournalRecord
    pub messages : Dict String OutboxRecord
    pub existing : PersistedOrder
    pub prepared : IsPrepared c s records messages
    pub order_there : lookup c.persisted_order.registration.order_id s.orders ≡ some existing
    pub expected_version : existing.order.version ≡ expected
    pub next_version : c.persisted_order.order.version ≡ expected + 1
    pub outcome :
        out ≡ (c.persisted_order, with_commit platform s c.persisted_order records messages)

  pub save-ok :
      (call : Call) (c : OrderCommit) (expected : ℕ) (s : Store) {out : PersistedOrder × Store}
      → save platform call c expected s ≡ ok out
      → IsSave c expected s out
  unfolding save save_existing
  save-ok call c expected s {out} h =
      let (existing, (there, h1)) = >>=-ok _ (>>-ok (require_deadline call) h) in
      let (current, h2) = ensure->>-ok _ order_version_conflict h1 in
      let (next, h3) = ensure->>-ok _ journal_commit_failed h2 in
      let (event, h4) = ensure->>-ok _ journal_commit_failed h3 in
      let (records, (prepared, h5)) = >>=-ok _ h4 in
      let (outbox, (published, h6)) = >>=-ok _ h5 in
      record {
        records = records;
        messages = outbox;
        existing = existing;
        prepared = record { journal_prepared = prepared; outbox_prepared = published };
        order_there = or_raise-ok _ journal_commit_failed there;
        expected_version = ground arith;
        next_version = ground arith;
        outcome = cc;
      }

  -- A call of `register` that does not raise has found the intent, or has written the order.
  pub register-ok :
      (call : Call) (c : OrderCommit) (s : Store) {out : RegisterOutcome × Store}
      → register platform call c s ≡ ok out
      → ((existing : PersistedOrder) × ((order_id : String) × ((lookup
                  c.persisted_order.registration.intent_id s.intent_index
                ≡ some order_id)
              × ((lookup order_id s.orders ≡ some existing)
                  × ((existing.registration_fingerprint
                        ≡ c.persisted_order.registration_fingerprint)
                      × (out ≡ (record { persisted_order = existing; created = false }, s)))))))
        ⊎ ((lookup c.persisted_order.registration.intent_id s.intent_index ≡ none)
            × IsRegistration c s out)
  unfolding register register_again
  register-ok call c s {out} h =
      elim (Option-cases (lookup c.persisted_order.registration.intent_id s.intent_index)) [
        | inl missing ↦
            inr (missing, register_new-ok c s (rw missing at (>>-ok (require_deadline call) h)))
        | inr (order_id, found) ↦
            let (existing, (there, h1)) =
              >>=-ok _ (rw found at (>>-ok (require_deadline call) h)) in
            let (same, done) = ensure->>-ok _ idempotency_conflict h1 in
            inl (
              existing,
              (order_id, (found, (or_raise-ok _ key_error there, (==-true _ _ same, cc)))),
            )
      ]
