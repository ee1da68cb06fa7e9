-- ===== src/Persistence/Repository/Restored.antt =====
-- The order that the last entry of a journal gives (src/quantiqmt/order/infrastructure/memory.py).
use quanti_qmt.Base.{
  ℕ, ◌≡◌, refl, sym, ap, ◌∙◌, inl, inr, String, true, false, Option, some, ok, List, [], ◌∷◌, ◌++◌,
  ◌==◌, string_eq, arith, Bool-cases, ==-refl, ==-true,
}
use quanti_qmt.Shared.Platform.{Platform}
use quanti_qmt.Shared.Time.{WritesOffset}
use quanti_qmt.Persistence.Json.{Json, obj, str, Fields, end, field}
use quanti_qmt.Persistence.Payload.{get, set_field, text_of, normalize_fields}
use quanti_qmt.Persistence.Registration.{PersistedOrder, persisted_is_valid, is_sha256_hex}
use quanti_qmt.Persistence.StatePayload.{order_state_payload}
use quanti_qmt.Persistence.RoundTrip.Order.{listed}
use quanti_qmt.Persistence.RoundTrip.Whole.{IsPersisted, persisted-roundtrip_listed}
use quanti_qmt.Persistence.Journal.Record.{
  JournalAppend, journal_append, OrderCommit, journal_with_registration_fingerprint,
}
use quanti_qmt.Persistence.Journal.Chain.{JournalRecord, chained}
use quanti_qmt.Persistence.Repository.Recovery.{
  last_record, fingerprint_in, post_state_of, persisted_or_none, persisted_from_journal_records,
}

get-set_field : (key : String) (v : Json) (fs : Fields) → get key (set_field key v fs) ≡ some v
unfolding get set_field
get-set_field key v end = ground (arith, ==-refl key)
get-set_field key v (field k w fs) = ground (arith, get-set_field key v fs)

last_record-append :
    (rs : List JournalRecord) (r : JournalRecord) → last_record (rs ++ r ∷ []) ≡ some r
unfolding last_record
last_record-append [] r = refl
last_record-append (q ∷ []) r = refl
last_record-append (q ∷ p ∷ rs) r = last_record-append (p ∷ rs) r

module _ (platform : Platform) where
  -- The entry carries the state of the commit's order, in normal form.
  abbrev pub CarriesState : OrderCommit → Type 0
  CarriesState c =
      get "post_state" (normalize_fields platform end c.journal.payload)
      ≡ some (obj (order_state_payload platform c.persisted_order))

  same_fingerprint :
      (p : PersistedOrder)
      → set_field "registration_fingerprint"
          (str p.registration_fingerprint)
          (order_state_payload platform p)
        ≡ order_state_payload platform p
  unfolding set_field order_state_payload
  same_fingerprint p = refl

  fingerprint_of_state :
      (p : PersistedOrder)
      → fingerprint_in platform (order_state_payload platform p) ≡ p.registration_fingerprint
  unfolding get text_of order_state_payload
  fingerprint_of_state p = refl

  entry-payload :
      (c : OrderCommit) {entry : JournalAppend}
      → CarriesState c
      → journal_with_registration_fingerprint platform c.journal
          c.persisted_order.registration_fingerprint
        ≡ ok entry
      → entry.payload
        ≡ set_field "post_state"
            (obj (
              set_field "registration_fingerprint"
                (str c.persisted_order.registration_fingerprint)
                (order_state_payload platform c.persisted_order)))
            (normalize_fields platform end c.journal.payload)
  unfolding journal_with_registration_fingerprint journal_append
  entry-payload c {entry} carried h = ground (arith, carried)

  entry-post_state :
      (c : OrderCommit) {entry : JournalAppend} (previous : Option String) (now : ℕ)
      → CarriesState c
      → journal_with_registration_fingerprint platform c.journal
          c.persisted_order.registration_fingerprint
        ≡ ok entry
      → post_state_of platform (chained platform entry previous now)
        ≡ ok (order_state_payload platform c.persisted_order)
  unfolding post_state_of
  entry-post_state c {entry} previous now carried h = rw (
    entry-payload c carried h,
    get-set_field "post_state"
        (obj (
          set_field "registration_fingerprint" (str c.persisted_order.registration_fingerprint)
            (order_state_payload platform c.persisted_order)))
        (normalize_fields platform end c.journal.payload),
    same_fingerprint c.persisted_order,
  )

  fingerprint-filled : (text : String) → is_sha256_hex text ≡ true → (text == "") ≡ false
  unfolding is_sha256_hex
  fingerprint-filled text h = elim (Bool-cases (text == "")) [
    | inl e ↦
        absurd (
          let no : is_sha256_hex "" ≡ true = ap is_sha256_hex (sym (==-true text "" e)) ∙ h in
          cc no)
    | inr n ↦ n
  ]

  sha_valid :
      (p : PersistedOrder)
      → persisted_is_valid p ≡ true
      → is_sha256_hex p.registration_fingerprint ≡ true
  unfolding persisted_is_valid
  sha_valid p h = ground arith

  persisted_of_state :
      WritesOffset platform
      → (p : PersistedOrder) → IsPersisted platform p
      → persisted_or_none platform (order_state_payload platform p)
        ≡ ok (some (record p { order = listed p.order }))
  unfolding persisted_or_none
  persisted_of_state law p v = rw (
    fingerprint_of_state p,
    fingerprint-filled _ (sha_valid p v.persisted_valid),
    persisted-roundtrip_listed platform law p v,
  )

  pub persisted_of_last :
      (rs : List JournalRecord) {r : JournalRecord} {payload : Fields}
      → last_record rs ≡ some r
      → post_state_of platform r ≡ ok payload
      → persisted_from_journal_records platform rs ≡ persisted_or_none platform payload
  unfolding persisted_from_journal_records
  persisted_of_last rs h e = rw (h, e, persisted_from_journal_records)

  -- The order that a journal gives whose last entry is the commit's.
  pub persisted_of_journal :
      WritesOffset platform
      → (c : OrderCommit) (current : List JournalRecord) {entry : JournalAppend}
        (previous : Option String) (now : ℕ)
      → IsPersisted platform c.persisted_order
      → CarriesState c
      → journal_with_registration_fingerprint platform c.journal
          c.persisted_order.registration_fingerprint
        ≡ ok entry
      → persisted_from_journal_records platform
          (current ++ chained platform entry previous now ∷ [])
        ≡ ok (some (record (c.persisted_order) { order = listed c.persisted_order.order }))
  persisted_of_journal law c current {entry} previous now v carried h =
      persisted_of_last (current ++ chained platform entry previous now ∷ [])
        (last_record-append current (chained platform entry previous now))
        (entry-post_state c previous now carried h)
      ∙ persisted_of_state law c.persisted_order v
