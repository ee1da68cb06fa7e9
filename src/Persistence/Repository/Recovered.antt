-- ===== src/Persistence/Repository/Recovered.antt =====
-- What recovery gives after a commit (src/quantiqmt/order/infrastructure/memory.py).
use quanti_qmt.Persistence.Repository.Invariant.{IsConsistent}
use quanti_qmt.Persistence.Repository.Commits.{register-ok, save-ok, with_registration}
use quanti_qmt.Base.Sort.{sorted}
use mathlib.Core.Path.{subst}
use quanti_qmt.Base.{
  length-append, ℕ, ◌≤◌, ◌≡◌, sym, ap, ◌∙◌, inl, inr, String, true, false, none, some, ok, map_ok,
  List, [], ◌∷◌, ◌++◌, length, string_eq, arith,
}
use quanti_qmt.Base.Dict.{lookup-insert_self}
use quanti_qmt.Shared.Platform.{Platform}
use quanti_qmt.Shared.Time.{WritesOffset}
use quanti_qmt.Persistence.Call.{Call, require_deadline}
use quanti_qmt.Persistence.Registration.{PersistedOrder}
use quanti_qmt.Persistence.RoundTrip.Order.{listed}
use quanti_qmt.Persistence.RoundTrip.Whole.{IsPersisted}
use quanti_qmt.Persistence.RoundTrip.View.{view, view-listed}
use quanti_qmt.Persistence.Journal.Record.{OrderCommit}
use quanti_qmt.Persistence.Journal.Chain.{
  prepare_journal, JournalRecord, head_of, chained, verify_journal_records,
}
use quanti_qmt.Persistence.Journal.Verified.{
  prepare_journal-Chained, Chained, prepare_journal-ok, verify_journal_records-Chained,
}
use quanti_qmt.Persistence.Repository.Store.{
  absent, RegisterOutcome, Store, RecoveryLoad, full_journal,
}
use quanti_qmt.Persistence.Repository.Commit.{
  register, save, or_no_records, with_commit, records_of,
}
use quanti_qmt.Persistence.Repository.Recovery.{
  snapshots_of, persisted_from_journal_records, latest_for_recovery, load_for_recovery,
  newest_first,
}
use quanti_qmt.Persistence.Repository.Restored.{CarriesState, persisted_of_journal}

module _ (platform : Platform) where
  latest-absent :
      (later : Call) (order_id : String) (s : Store)
      → require_deadline later ≡ ok tt
      → snapshots_of order_id s ≡ []
      → latest_for_recovery platform later order_id s ≡ ok absent
  unfolding latest_for_recovery newest_first sorted
  latest-absent later order_id s e missing = rw (e, missing)

  load-no_snapshot :
      (call later : Call) (order_id : String) (s : Store) {p : PersistedOrder}
      → require_deadline call ≡ ok tt
      → require_deadline later ≡ ok tt
      → snapshots_of order_id s ≡ []
      → verify_journal_records platform (records_of order_id s) ≡ ok (records_of order_id s)
      → persisted_from_journal_records platform (records_of order_id s) ≡ ok (some p)
      → load_for_recovery platform call later order_id s
        ≡ ok (record { persisted_order = p; source = full_journal; snapshot_diagnostic = none })
  unfolding load_for_recovery
  load-no_snapshot call later order_id s {p} d e none_there verified restored =
      rw (d, verified, latest-absent later order_id s e none_there, restored)

  -- A journal that a prepared entry ends, of an order without snapshots.
  load-prepared :
      (call later : Call) (c : OrderCommit) (s : Store) (now : ℕ) (current : List JournalRecord)
      {records : List JournalRecord}
      → WritesOffset platform
      → IsPersisted platform c.persisted_order
      → CarriesState platform c
      → require_deadline call ≡ ok tt
      → require_deadline later ≡ ok tt
      → snapshots_of c.persisted_order.registration.order_id s ≡ []
      → prepare_journal platform now current c.journal c.persisted_order.registration_fingerprint
        ≡ ok records
      → records_of c.persisted_order.registration.order_id s ≡ records
      → Chained platform 1 none records
      → load_for_recovery platform call later c.persisted_order.registration.order_id s
        ≡ ok (record {
          persisted_order = record (c.persisted_order) { order = listed c.persisted_order.order };
          source = full_journal;
          snapshot_diagnostic = none;
        })
  load-prepared call later c s now current {records} law v carried d e missing prepared at chain =
      let (entry, (given, (fits, same))) =
        prepare_journal-ok platform now current c.journal c.persisted_order.registration_fingerprint
          prepared in
      let all_records : records_of c.persisted_order.registration.order_id s
          ≡ current ++ chained platform entry (head_of none current) now ∷ [] =
        at ∙ same in
      load-no_snapshot call later c.persisted_order.registration.order_id s d e missing
        ((verify_journal_records-Chained platform _).1 (
          subst (Chained platform 1 none) (sym at) chain,
          subst (λ rs. 1 ≤ length rs) (sym all_records) (one_more current _),
        ))
        (ap (persisted_from_journal_records platform) all_records
          ∙ persisted_of_journal platform law c current (head_of none current) now v carried given)
    where
      one_more : (rs : List JournalRecord) (r : JournalRecord) → 1 ≤ length (rs ++ r ∷ [])
      one_more rs r = omega (arith, length-append rs (r ∷ []))

  -- After a registration of a new valid order into a consistent store that has no snapshot of it, a
  -- load_for_recovery whose two deadline checks pass gives an order that its readers cannot tell from
  -- the registered one. Conditions: the payload of the journal entry, with its texts in the normal
  -- form NFC that the journal stores, carries the state payload of the order as it is; fromisoformat
  -- reads what isoformat writes.
  pub load-register :
      (call : Call) (c : OrderCommit) (s : Store) {out : RegisterOutcome × Store}
      (first second : Call)
      → WritesOffset platform
      → IsConsistent platform s
      → IsPersisted platform c.persisted_order
      → CarriesState platform c
      → register platform call c s ≡ ok out
      → out.0.created ≡ true
      → snapshots_of c.persisted_order.registration.order_id s ≡ []
      → require_deadline first ≡ ok tt
      → require_deadline second ≡ ok tt
      → map_ok
          (λ (l : RecoveryLoad). view l.persisted_order)
          (load_for_recovery platform first second c.persisted_order.registration.order_id out.1)
        ≡ ok (view c.persisted_order)
  load-register call c s {out} first second law h v carried r created missing d e =
      elim (register-ok platform call c s r) [
        | inl (_, (_, (_, (_, (_, done))))) ↦ absurd (
            let no : false ≡ true =
              ap (λ (x : RegisterOutcome × Store). x.0.created) (sym done) ∙ created in
            cc no)
        | inr (_, new) ↦
            let o : String = c.persisted_order.registration.order_id in
            let grown =
              prepare_journal-Chained platform s.outbox.now (records_of o s) c.journal
                c.persisted_order.registration_fingerprint
                (subst (Chained platform 1 none) (sym (h.unjournaled o new.order_new)) tt)
                new.prepared.journal_prepared in
            subst
              (λ (x : RegisterOutcome × Store).
                map_ok (λ (l : RecoveryLoad). view l.persisted_order)
                  (load_for_recovery platform first second o x.1)
                ≡ ok (view c.persisted_order))
              (sym new.outcome)
              (ap (map_ok (λ (l : RecoveryLoad). view l.persisted_order)) (
                  load-prepared first second c
                    (with_registration platform c new.records new.messages s) s.outbox.now
                    (records_of o s) law v carried d e missing new.prepared.journal_prepared
                    (ap or_no_records (lookup-insert_self o new.records s.journal)) grown.0)
                ∙ ap ok (view-listed platform c.persisted_order v))
      ]

  -- After a save of a valid order into a consistent store that has no snapshot of it, a
  -- load_for_recovery whose two deadline checks pass gives an order that its readers cannot tell from
  -- the saved one. Conditions: the payload of the journal entry, with its texts in the normal form
  -- NFC that the journal stores, carries the state payload of the order as it is; fromisoformat reads
  -- what isoformat writes.
  pub load-save :
      (call : Call) (c : OrderCommit) (expected : ℕ) (s : Store) {out : PersistedOrder × Store}
      (first second : Call)
      → WritesOffset platform
      → IsConsistent platform s
      → IsPersisted platform c.persisted_order
      → CarriesState platform c
      → save platform call c expected s ≡ ok out
      → snapshots_of c.persisted_order.registration.order_id s ≡ []
      → require_deadline first ≡ ok tt
      → require_deadline second ≡ ok tt
      → map_ok
          (λ (l : RecoveryLoad). view l.persisted_order)
          (load_for_recovery platform first second c.persisted_order.registration.order_id out.1)
        ≡ ok (view c.persisted_order)
  load-save call c expected s {out} first second law h v carried done missing d e =
      let r = save-ok platform call c expected s done in
      let o : String = c.persisted_order.registration.order_id in
      let grown =
        prepare_journal-Chained platform s.outbox.now (records_of o s) c.journal
          c.persisted_order.registration_fingerprint (h.journaled o r.order_there).0
          r.prepared.journal_prepared in
      subst
        (λ (x : PersistedOrder × Store).
          map_ok (λ (l : RecoveryLoad). view l.persisted_order)
            (load_for_recovery platform first second o x.1)
          ≡ ok (view c.persisted_order))
        (sym r.outcome)
        (ap (map_ok (λ (l : RecoveryLoad). view l.persisted_order)) (
            load-prepared first second c
              (with_commit platform s c.persisted_order r.records r.messages) s.outbox.now
              (records_of o s) law v carried d e missing r.prepared.journal_prepared
              (ap or_no_records (lookup-insert_self o r.records s.journal)) grown.0)
          ∙ ap ok (view-listed platform c.persisted_order v))
