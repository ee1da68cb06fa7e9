-- ===== src/Persistence/Repository/Replay.antt =====
-- Recovery from a snapshot and the later records gives the order that the whole journal gives
-- (`_persisted_from_snapshot_and_later_journal_records`,
-- src/quantiqmt/order/infrastructure/memory.py).
use quanti_qmt.Persistence.Repository.Restored.{persisted_of_last}
use quanti_qmt.Base.{
  ℕ, ◌+◌, ◌≤◌, ◌<◌, ◌≡◌, refl, sym, ap, ◌∙◌, inl, inr, String, true, false, Option, none, some,
  Result, ok, err, ◌>>=◌, map_ok, List, [], ◌∷◌, ltb, nat_beq, ◌==◌, string_eq, if◌then◌else◌,
  arith, Bool-cases,
}
use quanti_qmt.Shared.Platform.{Platform}
use quanti_qmt.Persistence.Json.{Fields}
use quanti_qmt.Persistence.Call.{StorageError}
use quanti_qmt.Persistence.Registration.{PersistedOrder}
use quanti_qmt.Persistence.Journal.Record.{OrderSnapshot}
use quanti_qmt.Persistence.Journal.Chain.{JournalRecord}
use quanti_qmt.Persistence.Journal.Verified.{Chained}
use quanti_qmt.Persistence.Repository.Recovery.{
  later_than, last_record, fingerprint_in, post_state_of, persisted_or_none,
  persisted_from_journal_records, replay, persisted_from_snapshot,
}

-- The first record of a version.
unfoldable pub record_at : ℕ → List JournalRecord → Option JournalRecord
record_at version [] = none
record_at version (r ∷ rs) =
    let rest = record_at version rs in
    if nat_beq r.append.aggregate_version version then some r else rest

module _ (platform : Platform) where
  -- The post state of a record has a fingerprint, as `_prepare_journal` writes it.
  pub record IsFilled (r : JournalRecord) : Type 0 where
    pub state : Fields
    pub is_state : post_state_of platform r ≡ ok state
    pub has_fingerprint : (fingerprint_in platform state == "") ≡ false

  abbrev pub AllFilled : List JournalRecord → Type 0
  AllFilled [] = Unit
  AllFilled (r ∷ rs) = IsFilled r × AllFilled rs

  later_than-all :
      (version start : ℕ) (previous : Option String) (rs : List JournalRecord)
      → Chained platform start previous rs
      → version < start
      → later_than version rs ≡ rs
  unfolding later_than
  later_than-all version start previous [] c h = refl
  later_than-all version start previous (r ∷ rs) c h =
      rw (after_start r.append.aggregate_version c.0.0) (
        ap (λ l. r ∷ l)
          (later_than-all version (start + 1) (some r.entry_checksum) rs c.1 (omega (arith, h))))
    where
      after_start : (n : ℕ) → n ≡ start → ltb version n ≡ true
      after_start n e = ground arith

  -- The records after a state lead to the post state of the last one.
  replay-last :
      (payload : Fields) (r : JournalRecord) (rs : List JournalRecord)
      → (fingerprint_in platform payload == "") ≡ false
      → AllFilled (r ∷ rs)
      → (last : Fields) × (q : JournalRecord) × (last_record (r ∷ rs) ≡ some q)
        × (post_state_of platform q ≡ ok last)
        × ((fingerprint_in platform last == "") ≡ false)
        × (replay platform payload (r ∷ rs) ≡ ok last)
  unfolding replay last_record
  replay-last payload r [] h f = (
    f.0.state,
    r,
    refl,
    f.0.is_state,
    f.0.has_fingerprint,
    rw (h, f.0.is_state, f.0.has_fingerprint),
  )
  replay-last payload r (q ∷ rs) h f =
      let (last, p, there, state, filled, given) =
        replay-last f.0.state q rs f.0.has_fingerprint f.1 in
      (last, p, there, state, filled, rw (h, f.0.is_state, given))

  last_record-cons :
      (r : JournalRecord) (rs : List JournalRecord) {q : JournalRecord}
      → last_record rs ≡ some q
      → last_record (r ∷ rs) ≡ some q
  unfolding last_record
  last_record-cons r [] h = cc
  last_record-cons r (p ∷ rs) h = h

  filled-by :
      (r : JournalRecord) (payload : Fields)
      → IsFilled r
      → post_state_of platform r ≡ ok payload
      → (fingerprint_in platform payload == "") ≡ false
  filled-by r payload f h =
      let same : f.state ≡ payload = cc (f.is_state, h) in
      ap (λ fs. fingerprint_in platform fs == "") (sym same) ∙ f.has_fingerprint

  replay-after :
      (r : JournalRecord) (rs : List JournalRecord) (payload : Fields)
      → AllFilled (r ∷ rs)
      → post_state_of platform r ≡ ok payload
      → (last : Fields) × (q : JournalRecord) × (last_record (r ∷ rs) ≡ some q)
        × (post_state_of platform q ≡ ok last)
        × ((fingerprint_in platform last == "") ≡ false)
        × (replay platform payload rs ≡ ok last)
  unfolding replay last_record
  replay-after r [] payload f h =
      let filled = filled-by r payload f.0 h in (payload, r, refl, h, filled, rw filled)
  replay-after r (q ∷ rs) payload f h =
      let (last, p, there, state, filled, given) =
        replay-last payload q rs (filled-by r payload f.0 h) f.1 in
      (last, p, there, state, filled, given)

  later_than-skip :
      (version : ℕ) (r : JournalRecord) (rs : List JournalRecord)
      → r.append.aggregate_version ≤ version
      → later_than version (r ∷ rs) ≡ later_than version rs
  unfolding later_than
  later_than-skip version r rs h = rw (not_later r.append.aggregate_version h)
    where
      not_later : (n : ℕ) → n ≤ version → ltb version n ≡ false
      not_later n e = ground arith

  -- From the state at a version of the chain, the later records lead to the state of the last one.
  replay-later :
      (version start : ℕ) (previous : Option String) (rs : List JournalRecord) (at : JournalRecord)
      (payload : Fields)
      → Chained platform start previous rs
      → AllFilled rs
      → start ≤ version
      → record_at version rs ≡ some at
      → post_state_of platform at ≡ ok payload
      → (last : Fields) × (q : JournalRecord) × (last_record rs ≡ some q)
        × (post_state_of platform q ≡ ok last)
        × ((fingerprint_in platform last == "") ≡ false)
        × (replay platform payload (later_than version rs) ≡ ok last)
  unfolding record_at
  replay-later version start previous [] at payload c f h there state = cc
  replay-later version start previous (r ∷ rs) at payload c f h there state =
      elim (Bool-cases (nat_beq r.append.aggregate_version version)) [
        | inl e ↦
            let same : r ≡ at = some_eq (rw e at there) in
            let (last, q, lasts, is_last, filled, given) =
              replay-after r rs payload f (ap (post_state_of platform) same ∙ state) in
            (
              last,
              q,
              lasts,
              is_last,
              filled,
              ap (replay platform payload) (
                    later_than-skip version r rs (at_most r.append.aggregate_version c.0.0)
                    ∙ later_than-all version (start + 1) (some r.entry_checksum) rs c.1
                        (below r.append.aggregate_version c.0.0 e))
                  ∙ given,
            )
        | inr n ↦
            let found : record_at version rs ≡ some at = rw n at there in
            let (last, q, lasts, is_last, filled, given) =
              replay-later version (start + 1) (some r.entry_checksum) rs at payload c.1 f.1
                (above r.append.aggregate_version c.0.0 n) found state in
            (
              last,
              q,
              last_record-cons r rs lasts,
              is_last,
              filled,
              ap (replay platform payload)
                    (later_than-skip version r rs (at_most r.append.aggregate_version c.0.0))
                  ∙ given,
            )
      ]
    where
      some_eq : {x y : JournalRecord} → some x ≡ some y → x ≡ y
      some_eq e = cc

      at_most : (n : ℕ) → n ≡ start → n ≤ version
      at_most n e = omega (arith, e, h)

      below : (n : ℕ) → n ≡ start → nat_beq n version ≡ true → version < start + 1
      below n e g = ground arith

      above : (n : ℕ) → n ≡ start → nat_beq n version ≡ false → start + 1 ≤ version
      above n e g = ground arith

  -- On a chain of records with filled states, a snapshot of version 1 or more whose state is that of
  -- the record at its version, with the later records, restores what the whole journal restores.
  pub persisted_from_snapshot-journal :
      (s : OrderSnapshot) (records : List JournalRecord) (at : JournalRecord)
      → Chained platform 1 none records
      → AllFilled records
      → 1 ≤ s.aggregate_version
      → record_at s.aggregate_version records ≡ some at
      → post_state_of platform at ≡ ok s.state_payload
      → map_ok some (persisted_from_snapshot platform s (later_than s.aggregate_version records))
        ≡ persisted_from_journal_records platform records
  unfolding persisted_from_snapshot persisted_or_none
  persisted_from_snapshot-journal s records at c f h there state =
      let (last, q, lasts, is_last, filled, given) =
        replay-later s.aggregate_version 1 none records at s.state_payload c f h there state in
      rw (given, persisted_of_last platform records lasts is_last, filled) (map_some _)
    where
      map_some : (r : Result StorageError PersistedOrder) → map_ok some r ≡ (do p ← r; ok (some p))
      map_some (ok p) = refl
      map_some (err e) = refl
