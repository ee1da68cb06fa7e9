-- ===== src/Persistence/Repository/Examples.antt =====
-- Witnesses of the repository's properties (src/quantiqmt/order/infrastructure/memory.py).
use quanti_qmt.Base.Sort.{sorted, IsOrdered}
use quanti_qmt.Base.{
  text_le, contains, List, String, suc, ◌≡◌, refl, true, false, none, ok, err, [], length, map_ok,
  ◌>>◌, ◌==◌, string_eq, if◌then◌else◌, ◌≤◌, ◌↔◌, all, IsDistinct,
}
use quanti_qmt.Base.Dict.{lookup, insert}
use quanti_qmt.Persistence.Call.{require_deadline, idempotency_conflict, order_version_conflict}
use quanti_qmt.Persistence.Payload.{normalize_fields, set_field, get}
use quanti_qmt.Persistence.StatePayload.{registration_to_payload, order_state_payload}
use quanti_qmt.Persistence.Restore.{persisted_from_state_payload}
use quanti_qmt.Persistence.RoundTrip.View.{view, persisted-roundtrip}
use quanti_qmt.Persistence.ExamplePlatform.{platform, platform-WritesOffset}
use quanti_qmt.Persistence.Journal.Chain.{verify_journal_records}
use quanti_qmt.Persistence.Journal.Verified.{Chained, verify_journal_records-Chained}
use quanti_qmt.Persistence.Outbox.Entries.{OutboxIsValid}
use quanti_qmt.Persistence.Repository.Store.{RecoveryLoad, get_by_intent, new_store}
use quanti_qmt.Persistence.Repository.Commit.{records_of, register, save}
use quanti_qmt.Persistence.Repository.Invariant.{IsConsistent}
use quanti_qmt.Persistence.Repository.Calls.{
  register-IsConsistent, save-IsConsistent, search, get_by_intent-search,
}
use quanti_qmt.Persistence.Repository.Again.{register-again, save-once}
use quanti_qmt.Persistence.Repository.Recovery.{load_for_recovery, snapshots_of}
use quanti_qmt.Persistence.Repository.Restored.{CarriesState}
use quanti_qmt.Persistence.Repository.Recovered.{load-register, load-save}
use quanti_qmt.Persistence.Repository.Pages.{active_or_unknown, ids_in}
use quanti_qmt.Persistence.Repository.Paging.{walk}
use quanti_qmt.Persistence.Repository.Ids.{is_listed, walk-all}
use quanti_qmt.Persistence.Repository.Published.{IsPublished, register-publishes, save-publishes}
use quanti_qmt.Persistence.Repository.ExampleData.{
  first_state, second_state, first_commit, second_commit, call, start, registered, registers, saved,
  saves, created, empty-IsConsistent, registered-IsConsistent, keeps_ids, in_time,
  first-IsPersisted, second-IsPersisted,
}

register-IsConsistent_example : IsConsistent platform registered.1
register-IsConsistent_example =
    register-IsConsistent platform call first_commit start empty-IsConsistent registers

save-IsConsistent_example : IsConsistent platform saved.1
save-IsConsistent_example =
    save-IsConsistent platform call second_commit 1 registered.1 registered-IsConsistent keeps_ids
      saves

persisted-roundtrip_example :
    map_ok view (
      persisted_from_state_payload platform
        (order_state_payload platform second_state)
        second_state.registration_fingerprint)
    ≡ ok (view second_state)
persisted-roundtrip_example =
    persisted-roundtrip platform platform-WritesOffset second_state second-IsPersisted

get_by_intent-search_example :
    get_by_intent call "00000000-0000-4000-8000-000000000002" registered.1 ≡ (
      require_deadline call
      >> ok (
          search
            (λ p. p.registration.intent_id == "00000000-0000-4000-8000-000000000002")
            registered.1.orders))
get_by_intent-search_example =
    get_by_intent-search platform call "00000000-0000-4000-8000-000000000002" registered.1
      registered-IsConsistent

register-again_example : register platform call first_commit registered.1 ≡ (
    if registered.0.persisted_order.registration_fingerprint
      == first_commit.persisted_order.registration_fingerprint
    then ok
        (record { persisted_order = registered.0.persisted_order; created = false }, registered.1)
    else err idempotency_conflict)
register-again_example =
    register-again platform call first_commit start call first_commit registers in_time refl

save-once_example : save platform call second_commit 1 saved.1 ≡ err order_version_conflict
save-once_example =
    save-once platform call second_commit 1 registered.1 call second_commit saves in_time refl

first_carries : CarriesState platform first_commit
unfolding first_commit get platform normalize_fields set_field registration_to_payload sorted
first_carries = refl

second_carries : CarriesState platform second_commit
unfolding second_commit get platform normalize_fields set_field registration_to_payload sorted
second_carries = refl

no_snapshots : snapshots_of first_state.registration.order_id start ≡ []
unfolding new_store lookup
no_snapshots = refl

none_registered : snapshots_of second_state.registration.order_id registered.1 ≡ []
unfolding registered register first_commit platform new_store lookup insert
none_registered = refl

load-register_example :
    map_ok
      (λ (l : RecoveryLoad). view l.persisted_order)
      (load_for_recovery platform call call first_state.registration.order_id registered.1)
    ≡ ok (view first_state)
unfolding first_commit
load-register_example =
    load-register platform call first_commit start call call platform-WritesOffset
      empty-IsConsistent first-IsPersisted first_carries registers created no_snapshots in_time
      in_time

load-save_example :
    map_ok
      (λ (l : RecoveryLoad). view l.persisted_order)
      (load_for_recovery platform call call second_state.registration.order_id saved.1)
    ≡ ok (view second_state)
unfolding second_commit
load-save_example =
    load-save platform call second_commit 1 registered.1 call call platform-WritesOffset
      registered-IsConsistent second-IsPersisted second_carries saves none_registered in_time
      in_time

verify_journal_records-Chained_example :
    (verify_journal_records platform (records_of first_state.registration.order_id saved.1)
      ≡ ok (records_of first_state.registration.order_id saved.1))
    ↔ (Chained platform 1 none (records_of first_state.registration.order_id saved.1)
        × (1 ≤ length (records_of first_state.registration.order_id saved.1)))
verify_journal_records-Chained_example =
    verify_journal_records-Chained platform (records_of first_state.registration.order_id saved.1)

ids_valid : all platform.is_canonical_uuid (ids_in active_or_unknown saved.1) ≡ true
unfolding ids_in saved registered save register first_commit second_commit platform new_store lookup
    insert
ids_valid = refl

walk-all_example :
    (ids : List String) × (walk platform call active_or_unknown 1 saved.1 (suc (length ids)) none
      ≡ ok ids)
    × IsDistinct ids
    × IsOrdered text_le ids
    × ((i : String) → contains i ids ≡ is_listed active_or_unknown saved.1 i)
walk-all_example = walk-all platform call active_or_unknown 0 saved.1 in_time refl ids_valid

start-OutboxIsValid : OutboxIsValid start.outbox
unfolding new_store
start-OutboxIsValid = record { keys = tt; entries = refl }

registered-OutboxIsValid : OutboxIsValid registered.1.outbox
registered-OutboxIsValid =
    (register-publishes platform call first_commit start start-OutboxIsValid registers created).0

save-publishes_example :
    OutboxIsValid saved.1.outbox × IsPublished second_commit registered.1.outbox saved.1.outbox
save-publishes_example =
    save-publishes platform call second_commit 1 registered.1 registered-OutboxIsValid saves
