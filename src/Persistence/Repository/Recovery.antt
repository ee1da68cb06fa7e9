-- ===== src/Persistence/Repository/Recovery.antt =====
-- Snapshots and recovery: `write`, `latest_for_recovery`, `load_for_recovery` and
-- `rebuild_projection_from_journal` of `InMemoryOrderPersistence`
-- (src/quantiqmt/order/infrastructure/memory.py).
use quanti_qmt.Base.{
  ℕ, String, Bool, true, false, not, Option, none, some, Result, ok, err, ◌>>=◌, ◌>>◌, ensure,
  or_raise, List, [], ◌∷◌, ◌++◌, leb, ltb, nat_beq, ◌==◌, string_eq, if◌then◌else◌,
}
use quanti_qmt.Base.Int.{ℤ, pos}
use quanti_qmt.Base.Dict.{lookup, insert}
use quanti_qmt.Base.Sort.{sorted}
use quanti_qmt.Shared.Platform.{Platform}
use quanti_qmt.Persistence.Json.{int, Fields, obj}
use quanti_qmt.Persistence.Call.{
  StorageError, journal_commit_failed, order_version_conflict, Call, require_deadline,
}
use quanti_qmt.Persistence.Payload.{get, text_of}
use quanti_qmt.Persistence.Registration.{PersistedOrder}
use quanti_qmt.Persistence.Restore.{persisted_from_state_payload}
use quanti_qmt.Persistence.Journal.Record.{OrderSnapshot, snapshot_checksum}
use quanti_qmt.Persistence.Journal.Chain.{
  JournalRecord, head_of, same_optional, verify_journal_records,
}
use quanti_qmt.Persistence.Repository.Store.{
  Store, RecoveryLoad, snapshot_plus_journal, full_journal, SnapshotLookup, valid, absent,
  invalid_discarded,
}
use quanti_qmt.Persistence.Repository.Commit.{records_of}

-- `self._snapshots.get(order_id, ())`
abbrev pub snapshots_of : String → Store → List OrderSnapshot
snapshots_of order_id s = elim (lookup order_id s.snapshots) [ none ↦ [] | some xs ↦ xs ]

-- `write`
unfoldable pub write : Call → OrderSnapshot → Store → Result StorageError Store
unfolding require_deadline
write call snapshot s = do
  require_deadline call
  ok (record s {
    snapshots =
        insert snapshot.order_id (snapshots_of snapshot.order_id s ++ snapshot ∷ []) s.snapshots;
  })

-- `sorted(candidates, key=lambda item: item.aggregate_version, reverse=True)`: the newest first,
-- those of one version in the order of their writing.
unfoldable pub newest_first : List OrderSnapshot → List OrderSnapshot
newest_first = sorted (λ a b. leb b.aggregate_version a.aggregate_version)

-- The checksum of the first record of a version.
unfoldable pub checksum_at : ℕ → List JournalRecord → Option String
checksum_at version [] = none
checksum_at version (r ∷ rs) =
    let rest = checksum_at version rs in
    if nat_beq r.append.aggregate_version version then some r.entry_checksum else rest

-- `_snapshot_state_version`
unfoldable pub snapshot_state_version : OrderSnapshot → Option ℤ
unfolding get
snapshot_state_version s = elim (get "aggregate_version" s.state_payload) [
  | some (int z) ↦ some z
  | _ ↦ none
]

abbrev pub is_version : Option ℤ → ℕ → Bool
is_version (some (pos n)) version = nat_beq n version
is_version _ version = false

-- The records of a version above the snapshot's.
unfoldable pub later_than : ℕ → List JournalRecord → List JournalRecord
later_than version [] = []
later_than version (r ∷ rs) =
    let rest = later_than version rs in
    if ltb version r.append.aggregate_version then r ∷ rest else rest

-- `records[-1]`
unfoldable pub last_record : List JournalRecord → Option JournalRecord
last_record [] = none
last_record (r ∷ []) = some r
last_record (r ∷ q ∷ rs) = last_record (q ∷ rs)

module _ (platform : Platform) where
  -- The tests of `latest_for_recovery` on the newest snapshot.
  unfoldable pub check_snapshot : List JournalRecord → OrderSnapshot → SnapshotLookup
  unfolding checksum_at snapshot_state_version snapshot_checksum
  check_snapshot records s =
      if not (snapshot_checksum platform s == s.snapshot_checksum)
      then invalid_discarded "snapshot checksum mismatch" s.snapshot_id s.aggregate_version
      else (if not
            (same_optional (some s.journal_head_checksum) (checksum_at s.aggregate_version records))
          then invalid_discarded "snapshot journal head checksum mismatch" s.snapshot_id
              s.aggregate_version
          else (if not (is_version (snapshot_state_version s) s.aggregate_version)
              then invalid_discarded "snapshot state aggregate_version mismatch" s.snapshot_id
                  s.aggregate_version
              else valid s))

  abbrev pub check_newest : List JournalRecord → List OrderSnapshot → SnapshotLookup
  check_newest records [] = absent
  check_newest records (s ∷ _) = check_snapshot records s

  -- `latest_for_recovery`
  unfoldable pub latest_for_recovery : Call → String → Store → Result StorageError SnapshotLookup
  unfolding require_deadline newest_first check_snapshot
  latest_for_recovery call order_id s = do
    require_deadline call
    ok (check_newest (records_of order_id s) (newest_first (snapshots_of order_id s)))

  abbrev pub fingerprint_in : Fields → String
  fingerprint_in fs = elim (get "registration_fingerprint" fs) [
    | none ↦ ""
    | some v ↦ text_of platform v
  ]

  -- `record.append.payload.get("post_state")`, which has to be an object
  unfoldable pub post_state_of : JournalRecord → Result StorageError Fields
  unfolding get
  post_state_of r = elim (get "post_state" r.append.payload) [
    | some (obj fs) ↦ ok fs
    | _ ↦ err journal_commit_failed
  ]

  -- The order in a post state, none where it has no fingerprint.
  unfoldable pub persisted_or_none : Fields → Result StorageError (Option PersistedOrder)
  unfolding persisted_from_state_payload text_of
  persisted_or_none post_state =
      let restored = persisted_from_state_payload platform post_state (fingerprint_in post_state) in
      if fingerprint_in post_state == "" then ok none else (do p ← restored; ok (some p))

  -- `_persisted_from_journal_records`
  unfoldable pub persisted_from_journal_records :
      List JournalRecord → Result StorageError (Option PersistedOrder)
  unfolding last_record post_state_of persisted_or_none
  persisted_from_journal_records records = elim (last_record records) [
    | none ↦ ok none
    | some r ↦ do post_state ← post_state_of r; persisted_or_none post_state
  ]

  -- The payload that `_persisted_from_snapshot_and_later_journal_records` restores: the
  -- snapshot's, or that of the last later record.
  unfoldable pub replay : Fields → List JournalRecord → Result StorageError Fields
  unfolding post_state_of text_of
  replay payload [] = do
    ensure (not (fingerprint_in payload == "")) journal_commit_failed
    ok payload
  replay payload (r ∷ rs) = do
    ensure (not (fingerprint_in payload == "")) journal_commit_failed
    post_state ← post_state_of r
    replay post_state rs

  -- `_persisted_from_snapshot_and_later_journal_records`
  unfoldable pub persisted_from_snapshot :
      OrderSnapshot → List JournalRecord → Result StorageError PersistedOrder
  unfolding replay persisted_from_state_payload text_of
  persisted_from_snapshot s later = do
    payload ← replay s.state_payload later
    persisted_from_state_payload platform payload (fingerprint_in payload)

  -- The diagnostic code of a snapshot that was discarded.
  abbrev diagnostic : SnapshotLookup → Option String
  diagnostic (invalid_discarded _ _ _) = some "QQ-STORAGE-7003"
  diagnostic _ = none

  abbrev recover : SnapshotLookup → List JournalRecord → Result StorageError RecoveryLoad
  recover (valid snapshot) records = do
    p ← persisted_from_snapshot snapshot (later_than snapshot.aggregate_version records)
    ok (record { persisted_order = p; source = snapshot_plus_journal; snapshot_diagnostic = none })
  recover found records = do
    restored ← persisted_from_journal_records records
    p ← or_raise restored journal_commit_failed
    ok (record {
      persisted_order = p;
      source = full_journal;
      snapshot_diagnostic = diagnostic found;
    })

  -- `load_for_recovery`; `later` is the deadline again, and the clock that the call of
  -- `latest_for_recovery` reads.
  unfoldable pub load_for_recovery : Call → Call → String → Store → Result StorageError RecoveryLoad
  unfolding require_deadline verify_journal_records latest_for_recovery later_than
      persisted_from_snapshot persisted_from_journal_records
  load_for_recovery call later order_id s = do
    require_deadline call
    verified ← verify_journal_records platform (records_of order_id s)
    found ← latest_for_recovery later order_id s
    recover found verified

  -- `expected_journal_head_checksum`, when it is given
  abbrev is_expected_head : Option String → Option String → Bool
  is_expected_head none head = true
  is_expected_head expected head = same_optional expected head

  -- `rebuild_projection_from_journal`
  unfoldable pub rebuild_projection_from_journal :
      Call → String → Option String → Store → Result StorageError (RecoveryLoad × Store)
  unfolding require_deadline verify_journal_records persisted_from_journal_records head_of
  rebuild_projection_from_journal call order_id expected s = do
    require_deadline call
    records ← verify_journal_records platform (records_of order_id s)
    ensure (is_expected_head expected (head_of none records)) order_version_conflict
    restored ← persisted_from_journal_records records
    p ← or_raise restored journal_commit_failed
    ok (
      record { persisted_order = p; source = full_journal; snapshot_diagnostic = none },
      record s { orders = insert order_id p s.orders },
    )
