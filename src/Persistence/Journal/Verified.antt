-- ===== src/Persistence/Journal/Verified.antt =====
-- What `_verify_journal_records` decides, and that `_prepare_journal` extends a chain
-- (src/quantiqmt/order/infrastructure/memory.py).
use mathlib.Core.Path.{subst}
use quanti_qmt.Base.{
  >>=-ok, ensure->>-ok, ◌≤◌, ℕ, suc, ◌+◌, ◌≡◌, ◌↔◌, refl, sym, ap, ◌∙◌, String, true, Option, none,
  some, ok, ◌>>◌, List, [], ◌∷◌, ◌++◌, length, length-append, nat_beq, string_eq, arith, ==-true,
  ==-refl,
}
use quanti_qmt.Shared.Platform.{Platform}
use quanti_qmt.Persistence.Call.{journal_commit_failed}
use quanti_qmt.Persistence.Journal.Record.{
  JournalAppend, journal_append, journal_checksum, journal_with_registration_fingerprint,
}
use quanti_qmt.Persistence.Journal.Chain.{
  JournalRecord, head_of, same_optional, chained, prepare_journal, verify_from,
  verify_journal_records,
}

pub same_optional_iff : (s t : Option String) → (same_optional s t ≡ true) ↔ (s ≡ t)
same_optional_iff none none = ((λ h. refl), (λ h. refl))
same_optional_iff none (some t) = ((λ h. cc), (λ h. cc))
same_optional_iff (some s) none = ((λ h. cc), (λ h. cc))
same_optional_iff (some s) (some t) =
    ((λ h. ap some (==-true s t h)), (λ h. let e : s ≡ t = cc in rw e (==-refl t)))

add_zero : (n : ℕ) → n + 0 ≡ n
add_zero n = omega arith

add_suc : (n m : ℕ) → n + suc m ≡ n + 1 + m
add_suc n m = omega arith

module _ (platform : Platform) where
  -- The records carry consecutive versions, each the checksum of the one before, and each the
  -- checksum of its own entry.
  abbrev pub Chained : ℕ → Option String → List JournalRecord → Type 0
  Chained version previous [] = Unit
  Chained version previous (r ∷ rs) =
      ((r.append.aggregate_version ≡ version)
        × (r.previous_entry_checksum ≡ previous)
        × (r.entry_checksum ≡ journal_checksum platform r.append previous))
      × Chained (version + 1) (some r.entry_checksum) rs

  pub verify_from-Chained :
      (version : ℕ) (previous : Option String) (rs : List JournalRecord)
      → verify_from platform version previous rs ≡ ok tt
      → Chained version previous rs
  unfolding verify_from
  verify_from-Chained version previous [] h = tt
  verify_from-Chained version previous (r ∷ rs) h = (
    (
      ground arith,
      (same_optional_iff r.previous_entry_checksum previous).0 (ground arith),
      sym (==-true (journal_checksum platform r.append previous) r.entry_checksum (ground arith)),
    ),
    verify_from-Chained (version + 1) (some r.entry_checksum) rs (ground arith),
  )

  pub Chained-verify_from :
      (version : ℕ) (previous : Option String) (rs : List JournalRecord)
      → Chained version previous rs
      → verify_from platform version previous rs ≡ ok tt
  unfolding verify_from
  Chained-verify_from version previous [] h = refl
  Chained-verify_from version previous (r ∷ rs) h = ground (
    arith,
    (same_optional_iff r.previous_entry_checksum previous).1 h.0.1,
    ==-refl r.entry_checksum,
    Chained-verify_from (version + 1) (some r.entry_checksum) rs h.1,
  )

  pub Chained-append :
      (version : ℕ) (previous : Option String) (rs : List JournalRecord) (r : JournalRecord)
      → Chained version previous rs
      → Chained (version + length rs) (head_of previous rs) (r ∷ [])
      → Chained version previous (rs ++ r ∷ [])
  unfolding head_of
  Chained-append version previous [] r h e =
      subst (λ v. Chained v previous (r ∷ [])) (add_zero version) e
  Chained-append version previous (q ∷ rs) r h e = (
    h.0,
    Chained-append (version + 1) (some q.entry_checksum) rs r h.1 (
        subst (λ v. Chained v (head_of (some q.entry_checksum) rs) (r ∷ []))
          (add_suc version (length rs)) e),
  )

  -- A journal is verified exactly where it has a record, its versions are consecutive from 1, each
  -- record names the checksum of the one before and carries the checksum of its own entry.
  pub verify_journal_records-Chained :
      (rs : List JournalRecord)
      → (verify_journal_records platform rs ≡ ok rs) ↔ (Chained 1 none rs × (1 ≤ length rs))
  unfolding verify_journal_records
  verify_journal_records-Chained [] = ((λ h. cc), (λ h. absurd (omega (arith, h.1))))
  verify_journal_records-Chained (r ∷ rs) = (
    (λ h. (verify_from-Chained 1 none (r ∷ rs) (verified h), omega arith)),
    (λ h. rw (Chained-verify_from 1 none (r ∷ rs) h.0)),
  )
    where
      verified :
          (verify_from platform 1 none (r ∷ rs) >> ok (r ∷ rs)) ≡ ok (r ∷ rs)
          → verify_from platform 1 none (r ∷ rs) ≡ ok tt
      verified h = ground arith

  with_fingerprint-version :
      (a : JournalAppend) (fingerprint : String) {entry : JournalAppend}
      → journal_with_registration_fingerprint platform a fingerprint ≡ ok entry
      → entry.aggregate_version ≡ a.aggregate_version
  unfolding journal_with_registration_fingerprint journal_append
  with_fingerprint-version a fingerprint h = ground arith

  -- What `_prepare_journal` gives where it does not raise.
  pub prepare_journal-ok :
      (now : ℕ) (current : List JournalRecord) (a : JournalAppend) (fingerprint : String)
      {records : List JournalRecord}
      → prepare_journal platform now current a fingerprint ≡ ok records
      → (entry : JournalAppend) × ((journal_with_registration_fingerprint platform a fingerprint
            ≡ ok entry)
          × ((a.aggregate_version ≡ length current + 1)
              × (records ≡ current ++ chained platform entry (head_of none current) now ∷ [])))
  unfolding prepare_journal
  prepare_journal-ok now current a fingerprint {records} h =
      let (fits, rest) =
        ensure->>-ok (nat_beq a.aggregate_version (length current + 1)) journal_commit_failed h in
      let (entry, (e, done)) =
        >>=-ok (journal_with_registration_fingerprint platform a fingerprint) rest in
      (entry, (e, (ground arith, cc)))

  -- An entry that `_prepare_journal` accepts extends the chain by one record.
  pub prepare_journal-Chained :
      (now : ℕ) (current : List JournalRecord) (a : JournalAppend) (fingerprint : String)
      {records : List JournalRecord}
      → Chained 1 none current
      → prepare_journal platform now current a fingerprint ≡ ok records
      → Chained 1 none records × (length records ≡ length current + 1)
  prepare_journal-Chained now current a fingerprint {records} c h =
      let (entry, (e, (fits, done))) = prepare_journal-ok now current a fingerprint h in
      let r : JournalRecord = chained platform entry (head_of none current) now in
      subst (λ rs. Chained 1 none rs × (length rs ≡ length current + 1)) (sym done)
        (
          Chained-append 1 none current r c
              (((with_fingerprint-version a fingerprint e ∙ omega (arith, fits), refl, refl), tt)),
          length-append current (r ∷ []),
        )
