-- ===== src/Persistence/Repository/SnapshotExamples.antt =====
-- Witnesses of the properties of snapshots (src/quantiqmt/order/infrastructure/memory.py): a
-- snapshot of the newest version of the order of the tests, and one of its first version.
use quanti_qmt.Persistence.Repository.Invariant.{IsConsistent}
use quanti_qmt.Base.{
  string_eq, ◌≡◌, refl, String, true, Option, none, some, ok, List, [], ◌∷◌, map_ok, all, leb, ◌≤◌,
  arith,
}
use quanti_qmt.Base.Dict.{lookup, insert}
use quanti_qmt.Base.Sort.{sorted}
use quanti_qmt.Persistence.Payload.{get, text_of, normalize_fields, set_field}
use quanti_qmt.Persistence.StatePayload.{order_state_payload, registration_to_payload}
use quanti_qmt.Persistence.ExamplePlatform.{platform}
use quanti_qmt.Persistence.Journal.Record.{OrderSnapshot, snapshot_checksum}
use quanti_qmt.Persistence.Journal.Chain.{JournalRecord, head_of}
use quanti_qmt.Persistence.Journal.Verified.{Chained}
use quanti_qmt.Persistence.Repository.Store.{Store, new_store, valid}
use quanti_qmt.Persistence.Repository.Commit.{records_of, register, save}
use quanti_qmt.Persistence.Repository.Calls.{save-IsConsistent}
use quanti_qmt.Persistence.Repository.Recovery.{
  snapshots_of, latest_for_recovery, later_than, post_state_of, persisted_from_snapshot,
  persisted_from_journal_records,
}
use quanti_qmt.Persistence.Repository.Snapshots.{IsTrusted, latest_for_recovery-valid}
use quanti_qmt.Persistence.Repository.Replay.{AllFilled, record_at, persisted_from_snapshot-journal}
use quanti_qmt.Persistence.Repository.ExampleData.{
  first_state, second_state, first_commit, second_commit, call, registered, saved, saves,
  registered-IsConsistent, keeps_ids,
}

abbrev order_id : String
order_id = "00000000-0000-4000-8000-000000000001"

abbrev head_text : Option String → String
head_text none = ""
head_text (some s) = s

unfoldable second_draft : OrderSnapshot
unfolding order_state_payload saved head_of
second_draft = record {
  snapshot_id = "00000000-0000-4000-8000-000000000021";
  order_id = order_id;
  aggregate_version = 2;
  schema_version = 1;
  state_payload = order_state_payload platform second_state;
  journal_head_checksum = head_text (head_of none (records_of order_id saved.1));
  snapshot_checksum = "";
  created_at = 5;
}

unfoldable second_snapshot : OrderSnapshot
unfolding second_draft snapshot_checksum
second_snapshot = record second_draft {
  snapshot_checksum = snapshot_checksum platform second_draft;
}

unfoldable snapshot_store : Store
unfolding saved second_snapshot
snapshot_store = record (saved.1) { snapshots = (order_id, second_snapshot ∷ []) ∷ [] }

takes : latest_for_recovery platform call order_id snapshot_store ≡ ok (valid second_snapshot)
unfolding latest_for_recovery snapshot_store second_snapshot second_draft snapshot_checksum saved
    registered save register first_commit second_commit platform new_store lookup insert sorted
    order_state_payload
takes = refl

latest_for_recovery-valid_example :
    IsTrusted platform (records_of order_id snapshot_store) second_snapshot
    × (all
          (λ other. leb other.aggregate_version second_snapshot.aggregate_version)
          (snapshots_of order_id snapshot_store)
        ≡ true)
latest_for_recovery-valid_example =
    latest_for_recovery-valid platform call order_id snapshot_store takes

unfoldable first_snapshot : OrderSnapshot
unfolding second_draft order_state_payload
first_snapshot = record second_draft {
  aggregate_version = 1;
  state_payload = order_state_payload platform first_state;
}

abbrev saved_records : List JournalRecord
saved_records = records_of order_id saved.1

second_there : lookup order_id saved.1.orders ≡ some second_state
unfolding saved registered save register first_commit second_commit platform new_store lookup insert
second_there = refl

saved_chain : Chained platform 1 none saved_records
saved_chain =
    (IsConsistent.journaled
      (save-IsConsistent platform call second_commit 1 registered.1 registered-IsConsistent
        keeps_ids saves)
      order_id second_there).0

saved_filled : AllFilled platform saved_records
unfolding saved registered save register first_commit second_commit platform new_store lookup insert
    get set_field normalize_fields order_state_payload registration_to_payload sorted post_state_of
    text_of
saved_filled = (
  record {
    state = order_state_payload platform first_state;
    is_state = refl;
    has_fingerprint = refl;
  },
  (
    record {
      state = order_state_payload platform second_state;
      is_state = refl;
      has_fingerprint = refl;
    },
    tt,
  ),
)

abbrev record_or : JournalRecord → Option JournalRecord → JournalRecord
record_or r none = r
record_or r (some q) = q

abbrev filler : JournalRecord
filler = record {
  append = first_commit.journal;
  previous_entry_checksum = none;
  entry_checksum = "";
  recorded_at = 0;
}

unfoldable first_record : JournalRecord
unfolding saved record_at
first_record = record_or filler (record_at 1 saved_records)

first_there : record_at first_snapshot.aggregate_version saved_records ≡ some first_record
unfolding first_record first_snapshot record_at saved registered save register first_commit
    second_commit platform new_store lookup insert
first_there = refl

first_is_state : post_state_of platform first_record ≡ ok first_snapshot.state_payload
unfolding first_record first_snapshot record_at saved registered save register first_commit
    second_commit platform new_store lookup insert get set_field normalize_fields
    order_state_payload registration_to_payload sorted post_state_of
first_is_state = refl

first_version : 1 ≤ first_snapshot.aggregate_version
unfolding first_snapshot
first_version = omega arith

persisted_from_snapshot-journal_example :
    map_ok some (
      persisted_from_snapshot platform first_snapshot
        (later_than first_snapshot.aggregate_version saved_records))
    ≡ persisted_from_journal_records platform saved_records
persisted_from_snapshot-journal_example =
    persisted_from_snapshot-journal platform first_snapshot saved_records first_record saved_chain
      saved_filled first_version first_there first_is_state
