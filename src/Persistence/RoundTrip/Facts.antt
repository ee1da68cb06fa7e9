-- ===== src/Persistence/RoundTrip/Facts.antt =====
-- Reading back the facts, the conflicts and the sequences of a state payload.
use quanti_qmt.Base.{
  All, IsDistinct, contains-IsDistinct_next, ℕ, ◌≡◌, refl, sym, ap, ◌∙◌, String, Bool, true, false,
  not, ◌||◌, ◌&&◌, ok, List, [], ◌∷◌, ◌++◌, all, contains, string_eq, text_le, arith, append_shift,
  blank,
}
use mathlib.Core.Path.{subst}
use mathlib.Core.List.{append-nil}
use quanti_qmt.Base.Int.{ℤ, pos}
use quanti_qmt.Base.Sort.{sorted, sorted-IsDistinct}
use quanti_qmt.Base.Dict.{Dict, IsDict, insert-IsDict_next}
use quanti_qmt.Shared.Platform.{Platform}
use quanti_qmt.Order.Evidence.{
  FactIdentity, identity_eq, fact_identity, ProcessedFact, processed_is_valid,
}
use quanti_qmt.Order.Record.{add_fingerprint}
use quanti_qmt.Persistence.Json.{str, arr}
use quanti_qmt.Persistence.Payload.{index, text_of, int_of, get, iterate}
use quanti_qmt.Persistence.StatePayload.{
  items_of, processed_fact_to_payload, conflict_to_payload, sequence_to_payload,
}
use quanti_qmt.Persistence.Restore.{
  text_at, int_at, quantity_of, identity_from_payload, processed_from_payload, facts_from_payload,
  fingerprints_from, conflicts_from_payload, sequences_from_payload, non_negative_values,
}

abbrev pub identity_is_valid : FactIdentity → Bool
identity_is_valid i = not (blank i.namespace || blank i.key)

abbrev pub fact_entry_is_valid : FactIdentity × ProcessedFact → Bool
fact_entry_is_valid (i, f) = identity_is_valid i && processed_is_valid f

abbrev pub conflict_entry_is_valid : FactIdentity × List String → Bool
conflict_entry_is_valid (i, _) = identity_is_valid i

-- The sequences as integers, and the sets of fingerprints in the order of their texts.
abbrev pub as_integers : Dict String ℕ → Dict String ℤ
as_integers [] = []
as_integers ((s, n) ∷ rest) = (s, pos n) ∷ as_integers rest

abbrev pub sorted_sets : Dict FactIdentity (List String) → Dict FactIdentity (List String)
sorted_sets [] = []
sorted_sets ((i, ps) ∷ rest) = (i, sorted text_le ps) ∷ sorted_sets rest

pub non_negative_values-as_integers :
    (d : Dict String ℕ) → non_negative_values (as_integers d) ≡ ok d
unfolding non_negative_values quantity_of
non_negative_values-as_integers [] = refl
non_negative_values-as_integers ((s, n) ∷ d) = rw (non_negative_values-as_integers d)

add_fingerprint-new :
    (p : String) (ps : List String) → contains p ps ≡ false → add_fingerprint p ps ≡ ps ++ p ∷ []
unfolding add_fingerprint
add_fingerprint-new p ps h = rw h

module _ (platform : Platform) where
  identity_of_fact :
      (i : FactIdentity) (f : ProcessedFact)
      → identity_is_valid i ≡ true
      → identity_from_payload platform (processed_fact_to_payload (i, f)) ≡ ok i
  unfolding identity_from_payload processed_fact_to_payload text_at index get text_of fact_identity
  identity_of_fact i f h = ground arith

  processed_of_fact :
      (i : FactIdentity) (f : ProcessedFact)
      → processed_is_valid f ≡ true
      → processed_from_payload platform (processed_fact_to_payload (i, f)) ≡ ok f
  unfolding processed_from_payload processed_fact_to_payload text_at index get text_of int_of
      quantity_of
  processed_of_fact i f h = ground arith

  pub facts-roundtrip :
      (done facts : Dict FactIdentity ProcessedFact)
      → all fact_entry_is_valid facts ≡ true
      → IsDict (done ++ facts)
      → facts_from_payload platform done (items_of processed_fact_to_payload facts)
        ≡ ok (done ++ facts)
  unfolding facts_from_payload
  facts-roundtrip done [] v h = ap ok (sym (append-nil done))
  facts-roundtrip done ((i, f) ∷ facts) v h =
      rw
        (
          identity_of_fact i f (ground arith),
          processed_of_fact i f (ground arith),
          insert-IsDict_next i f done facts h,
          append_shift done (i, f) facts,
        )
        (facts-roundtrip (done ++ (i, f) ∷ []) facts (ground arith)
          (subst IsDict (append_shift done (i, f) facts) h))

  stream_of_sequence :
      (s : String) (n : ℕ) → text_at platform "stream" (sequence_to_payload (s, n)) ≡ ok s
  unfolding sequence_to_payload text_at index get text_of
  stream_of_sequence s n = refl

  number_of_sequence :
      (s : String) (n : ℕ)
      → int_at platform "last_observed_sequence" (sequence_to_payload (s, n)) ≡ ok (pos n)
  unfolding sequence_to_payload int_at index get int_of
  number_of_sequence s n = refl

  pub sequences-roundtrip :
      (done : Dict String ℤ) (sequences : Dict String ℕ)
      → IsDict (done ++ as_integers sequences)
      → sequences_from_payload platform done (items_of sequence_to_payload sequences)
        ≡ ok (done ++ as_integers sequences)
  unfolding sequences_from_payload
  sequences-roundtrip done [] h = ap ok (sym (append-nil done))
  sequences-roundtrip done ((s, n) ∷ sequences) h =
      rw
        (
          stream_of_sequence s n,
          number_of_sequence s n,
          insert-IsDict_next s (pos n) done (as_integers sequences) h,
          append_shift done (s, pos n) (as_integers sequences),
        )
        (sequences-roundtrip (done ++ (s, pos n) ∷ []) sequences
          (subst IsDict (append_shift done (s, pos n) (as_integers sequences)) h))

  pub fingerprints-roundtrip :
      (done prints : List String)
      → IsDistinct (done ++ prints)
      → fingerprints_from platform done (items_of str prints) ≡ done ++ prints
  unfolding fingerprints_from text_of
  fingerprints-roundtrip done [] h = sym (append-nil done)
  fingerprints-roundtrip done (p ∷ prints) h =
      ap (λ d. fingerprints_from platform d (items_of str prints))
        (add_fingerprint-new p done (contains-IsDistinct_next p done prints h))
      ∙ fingerprints-roundtrip (done ++ p ∷ []) prints
          (subst IsDistinct (append_shift done p prints) h)
      ∙ sym (append_shift done p prints)

  identity_of_conflict :
      (i : FactIdentity) (ps : List String)
      → identity_is_valid i ≡ true
      → identity_from_payload platform (conflict_to_payload (i, ps)) ≡ ok i
  unfolding identity_from_payload conflict_to_payload text_at index get text_of fact_identity
  identity_of_conflict i ps h = ground arith

  values_of_conflict :
      (i : FactIdentity) (ps : List String)
      → index "conflicting_fingerprints" (conflict_to_payload (i, ps))
        ≡ ok (arr (items_of str (sorted text_le ps)))
  unfolding conflict_to_payload index get
  values_of_conflict i ps = refl

  pub conflicts-roundtrip :
      (done conflicts : Dict FactIdentity (List String))
      → all conflict_entry_is_valid conflicts ≡ true
      → All (λ c. IsDistinct c.1) conflicts
      → IsDict (done ++ sorted_sets conflicts)
      → conflicts_from_payload platform done (items_of conflict_to_payload conflicts)
        ≡ ok (done ++ sorted_sets conflicts)
  unfolding conflicts_from_payload iterate
  conflicts-roundtrip done [] v u h = ap ok (sym (append-nil done))
  conflicts-roundtrip done ((i, ps) ∷ conflicts) v u h =
      rw
        (
          identity_of_conflict i ps (ground arith),
          values_of_conflict i ps,
          fingerprints-roundtrip [] (sorted text_le ps) (sorted-IsDistinct text_le ps u.0),
          insert-IsDict_next i (sorted text_le ps) done (sorted_sets conflicts) h,
          append_shift done (i, sorted text_le ps) (sorted_sets conflicts),
        )
        (conflicts-roundtrip (done ++ (i, sorted text_le ps) ∷ []) conflicts (ground arith) u.1
          (subst IsDict (append_shift done (i, sorted text_le ps) (sorted_sets conflicts)) h))
