-- ===== src/Persistence/Repository/Published.antt =====
-- The messages of a commit in the outbox: `_prepare_outbox` and the update of `_outbox`
-- (src/quantiqmt/order/infrastructure/memory.py).
use quanti_qmt.Persistence.Journal.Chain.{JournalRecord}
use mathlib.Core.Path.{subst}
use quanti_qmt.Base.{
  is_none-true, Option-cases, ℕ, suc, ◌+◌, ◌≡◌, refl, sym, ap, ◌∙◌, inl, inr, String, Bool, true,
  false, ◌&&◌, none, some, ok, >>=-ok, ensure->>-ok, is_none, List, [], ◌∷◌, length, length-append,
  all, nat_beq, ◌==◌, string_eq, arith, Bool-cases, ==-true, ==-refl,
}
use quanti_qmt.Base.Dict.{
  Dict, IsDict, lookup, insert, insert_new, insert-IsDict, all-insert, all-lookup, lookup-insert,
}
use quanti_qmt.Shared.Platform.{Platform}
use quanti_qmt.Persistence.Json.{obj, Fields}
use quanti_qmt.Persistence.Call.{journal_commit_failed, Call}
use quanti_qmt.Persistence.Registration.{PersistedOrder}
use quanti_qmt.Persistence.Journal.Record.{OrderCommit}
use quanti_qmt.Persistence.Restore.{text_at}
use quanti_qmt.Persistence.Outbox.Record.{Outbox, OutboxRecord, is_pending}
use quanti_qmt.Persistence.Outbox.Entries.{OutboxIsValid, entry_is_valid, claim_fits}
use quanti_qmt.Persistence.Repository.Store.{RegisterOutcome, Store}
use quanti_qmt.Persistence.Repository.Commit.{register, update, outbox_record, prepare_outbox, save}
use quanti_qmt.Persistence.Repository.Commits.{register-ok, IsPrepared, save-ok}

-- A message that waits for its first claim, under an id that the outbox does not have.
abbrev pub is_new_entry : Dict String OutboxRecord → String × OutboxRecord → Bool
is_new_entry old (k, r) =
    is_none (lookup k old)
    && (entry_is_valid (k, r) && (is_pending r.status && nat_beq r.attempt_count 0))

both_new :
    {A B : Type 0} (id : String) (prepared : Dict String A) (old : Dict String B)
    → (is_none (lookup id old) && is_none (lookup id prepared)) ≡ true
    → (is_none (lookup id old) ≡ true) × (lookup id prepared ≡ none)
both_new id prepared old h = (ground arith, is_none-true _ (ground arith))

module _ (platform : Platform) where
  outbox_record-new :
      (now : ℕ) (id : String) (m : Fields) {r : OutboxRecord}
      → outbox_record platform now id m ≡ ok r
      → (entry_is_valid (id, r) && (is_pending r.status && nat_beq r.attempt_count 0)) ≡ true
  unfolding outbox_record entry_is_valid claim_fits
  outbox_record-new now id m h = ground (arith, ==-refl id)

  pub prepare_outbox-new :
      (s : Store) (prepared : Dict String OutboxRecord) (ms : List Fields)
      {messages : Dict String OutboxRecord}
      → all (is_new_entry s.outbox.records) prepared ≡ true
      → IsDict prepared
      → prepare_outbox platform s prepared ms ≡ ok messages
      → (all (is_new_entry s.outbox.records) messages ≡ true)
        × IsDict messages
        × (length messages ≡ length prepared + length ms)
  unfolding prepare_outbox
  prepare_outbox-new s prepared [] h d e = ground arith
  prepare_outbox-new s prepared (m ∷ ms) {messages} h d e =
      let (id, (_, e1)) = >>=-ok (text_at platform "message_id" (obj m)) e in
      let (fresh, e2) =
        ensure->>-ok (is_none (lookup id s.outbox.records) && is_none (lookup id prepared))
          journal_commit_failed e1 in
      let (r, (made, e3)) = >>=-ok (outbox_record platform s.outbox.now id m) e2 in
      let valid = outbox_record-new s.outbox.now id m made in
      let (a, b) = both_new id prepared s.outbox.records fresh in
      let (all_new, once, counted) =
        prepare_outbox-new s (insert id r prepared) ms {messages = messages}
          (all-insert (is_new_entry s.outbox.records) id r prepared (ground (arith, a, valid)) h)
          (insert-IsDict id r prepared d) e3 in
      (all_new, once, counted ∙ grown id r prepared b)
    where
      grown :
          (id : String) (r : OutboxRecord) (d : Dict String OutboxRecord)
          → lookup id d ≡ none
          → length (insert id r d) + length ms ≡ length d + suc (length ms)
      grown id r d b =
          ap (λ l. length l + length ms) (insert_new id r d b)
          ∙ omega (arith, length-append d ((id, r) ∷ []))

module _ {V : Type 0} where
  -- What a dict holds after an update: the new entry, or the old one.
  lookup-update :
      (k : String) (d new : Dict String V)
      → IsDict new
      → (lookup k new ≡ none → lookup k (update d new) ≡ lookup k d)
        × ((v : V) → lookup k new ≡ some v → lookup k (update d new) ≡ some v)
  unfolding update lookup
  lookup-update k d [] h = ((λ e. refl), (λ v e. cc))
  lookup-update k d ((j, w) ∷ new) h = elim (Bool-cases (j == k)) [
    | inl e ↦
        let rest = lookup-update k (insert j w d) new h.1 in
        let gone : lookup k new ≡ none = ap (λ i. lookup i new) (sym (==-true j k e)) ∙ h.0 in
        rw e ((λ n. cc), (λ v same. rest.0 gone ∙ (lookup-insert k j w d ∙ rw e same)))
    | inr n ↦
        let rest = lookup-update k (insert j w d) new h.1 in
        rw n (
          (λ missing. rest.0 missing ∙ (lookup-insert k j w d ∙ rw n)),
          (λ v there. rest.1 v there),
        )
  ]

  update-all :
      (p : String × V → Bool) (d new : Dict String V)
      → all p d ≡ true
      → all p new ≡ true
      → all p (update d new) ≡ true
  unfolding update
  update-all p d [] h a = h
  update-all p d ((k, v) ∷ new) h a =
      update-all p (insert k v d) new (all-insert p k v d (ground arith) h) (ground arith)

  update-IsDict : (d new : Dict String V) → IsDict d → IsDict (update d new)
  unfolding update
  update-IsDict d [] h = h
  update-IsDict d ((k, v) ∷ new) h = update-IsDict (insert k v d) new (insert-IsDict k v d h)

-- The outbox after a commit: a waiting message for each message of the commit, and every message
-- that was there as it was.
pub record IsPublished (c : OrderCommit) (before after : Outbox) : Type 0 where
  pub messages : Dict String OutboxRecord
  pub counted : length messages ≡ length c.outbox_messages
  pub once : IsDict messages
  pub waiting : all (is_new_entry before.records) messages ≡ true
  pub added :
      (k : String) (r : OutboxRecord) → lookup k messages ≡ some r → lookup k after.records ≡ some r
  pub kept :
      (k : String) (r : OutboxRecord)
      → lookup k before.records ≡ some r
      → lookup k after.records ≡ some r
  pub same_now : after.now ≡ before.now

not_new :
    (old : Dict String OutboxRecord) (k : String) (r q : OutboxRecord)
    → lookup k old ≡ some r
    → is_new_entry old (k, q) ≡ true
    → false ≡ true
not_new old k r q h n = let missing : lookup k old ≡ none = is_none-true _ (ground arith) in cc

all_entries :
    (old new : Dict String OutboxRecord)
    → all (is_new_entry old) new ≡ true
    → all entry_is_valid new ≡ true
all_entries old [] h = refl
all_entries old ((k, r) ∷ new) h = ground (arith, all_entries old new)

module _ (platform : Platform) where
  published :
      (c : OrderCommit) (s : Store) {records : List JournalRecord}
      {messages : Dict String OutboxRecord} {after : Outbox}
      → OutboxIsValid s.outbox
      → IsPrepared platform c s records messages
      → after ≡ record (s.outbox) { records = update s.outbox.records messages }
      → OutboxIsValid after × IsPublished c s.outbox after
  published c s {records} {messages} {after} v prepared same =
      let (waiting, once, counted) =
        prepare_outbox-new platform s [] c.outbox_messages {messages = messages} refl tt
          prepared.outbox_prepared in
      subst (λ o. OutboxIsValid o × IsPublished c s.outbox o) (sym same)
        (
          record {
            keys = update-IsDict s.outbox.records messages v.keys;
            entries =
                update-all entry_is_valid s.outbox.records messages v.entries
                  (all_entries s.outbox.records messages waiting);
          },
          record {
            messages = messages;
            counted = counted ∙ omega arith;
            once = once;
            waiting = waiting;
            added = λ k r h. (lookup-update k s.outbox.records messages once).1 r h;
            kept = λ k r h. elim (Option-cases (lookup k messages)) [
              | inl none_new ↦ (lookup-update k s.outbox.records messages once).0 none_new ∙ h
              | inr (q, new) ↦ absurd (
                  let no : false ≡ true =
                    not_new s.outbox.records k r q h
                      (all-lookup (is_new_entry s.outbox.records) k messages waiting new) in
                  cc no)
            ];
            same_now = refl;
          },
        )

  pub register-publishes :
      (call : Call) (c : OrderCommit) (s : Store) {out : RegisterOutcome × Store}
      → OutboxIsValid s.outbox
      → register platform call c s ≡ ok out
      → out.0.created ≡ true
      → OutboxIsValid out.1.outbox × IsPublished c s.outbox out.1.outbox
  register-publishes call c s {out} v r created = elim (register-ok platform call c s r) [
    | inl (_, (_, (_, (_, (_, done))))) ↦ absurd (
        let no : false ≡ true =
          ap (λ (x : RegisterOutcome × Store). x.0.created) (sym done) ∙ created in
        cc no)
    | inr (_, new) ↦
        published c s v new.prepared (ap (λ (x : RegisterOutcome × Store). x.1.outbox) new.outcome)
  ]

  -- A successful save keeps the outbox well formed, adds one waiting message for each message of the
  -- commit under a new id, and leaves every message that was there as it was.
  pub save-publishes :
      (call : Call) (c : OrderCommit) (expected : ℕ) (s : Store) {out : PersistedOrder × Store}
      → OutboxIsValid s.outbox
      → save platform call c expected s ≡ ok out
      → OutboxIsValid out.1.outbox × IsPublished c s.outbox out.1.outbox
  save-publishes call c expected s {out} v done =
      let r = save-ok platform call c expected s done in
      published c s v r.prepared (ap (λ (x : PersistedOrder × Store). x.1.outbox) r.outcome)
