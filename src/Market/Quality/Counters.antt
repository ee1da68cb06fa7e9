-- ===== src/Market/Quality/Counters.antt =====
-- The agreement of the counters of an instrument, and the bound of its pending set
-- (src/quantiqmt/market/quality.py).
use quanti_qmt.Base.{
  ℕ, zero, suc, ◌≤◌, Bool, true, false, ◌&&◌, is_some, is_none, List, [], ◌∷◌, contains, all,
  nat_beq, leb, string_eq, ◌≡◌, refl, nat_eq, inl, inr, arith, Bool-cases,
}
use quanti_qmt.Market.Quality.State.{Quality, QualityState, gap}
use quanti_qmt.Market.Quality.Drain.{add, remove, drain}

abbrev is_empty : List ℕ → Bool
is_empty [] = true
is_empty _ = false

-- In GAP the ends of the gap are known. In another quality no sequence is missing: the three
-- counters agree, nothing is pending and no gap is on record.
abbrev pub settled : Quality → QualityState → Bool
settled gap s = is_some s.gap_start_sequence && is_some s.gap_end_sequence
settled _ s =
    nat_beq s.contiguous_source_version s.highest_observed_sequence
    && nat_beq s.expected_gap_end_sequence s.highest_observed_sequence
    && nat_beq s.unresolved_gap_count 0
    && is_empty s.pending_backfill_sequences
    && is_none s.gap_start_sequence
    && is_none s.gap_end_sequence

-- The source version is the highest observed sequence, which bounds the contiguous and the pending
-- ones.
unfoldable pub is_coherent : QualityState → Bool
is_coherent s =
    nat_beq s.source_version s.highest_observed_sequence
    && leb s.contiguous_source_version s.highest_observed_sequence
    && all (λ k. leb k s.highest_observed_sequence) s.pending_backfill_sequences
    && settled s.quality s

-- A bound of the pending set under the steps of the drain.
pub all-bound :
    (h h' : ℕ) (p : List ℕ) → h ≤ h' → all (λ k. leb k h) p ≡ true → all (λ k. leb k h') p ≡ true
all-bound h h' [] l a = refl
all-bound h h' (k ∷ p) l a = ground (arith, all-bound h h' p l)

pub all-add :
    (h n : ℕ) (p : List ℕ)
    → n ≤ h
    → all (λ k. leb k h) p ≡ true
    → all (λ k. leb k h) (add n p) ≡ true
all-add h n p l a = ground arith

all-remove :
    (h n : ℕ) (p : List ℕ) → all (λ k. leb k h) p ≡ true → all (λ k. leb k h) (remove n p) ≡ true
unfolding remove
all-remove h n [] a = refl
all-remove h n (m ∷ p) a = ground (arith, all-remove h n p)

contains-bound : (h n : ℕ) (p : List ℕ) → all (λ k. leb k h) p ≡ true → contains n p ≡ true → n ≤ h
contains-bound h n [] a c = cc
contains-bound h n (m ∷ p) a c = ground (arith, contains-bound h n p)

pub drain-bound :
    (h fuel c : ℕ) (p : List ℕ)
    → c ≤ h
    → all (λ k. leb k h) p ≡ true
    → ((drain fuel c p).0 ≤ h) × (all (λ k. leb k h) (drain fuel c p).1 ≡ true)
unfolding drain
drain-bound h zero c p l a = (l, a)
drain-bound h (suc fuel) c p l a = elim (Bool-cases (contains (suc c) p)) [
  | inl e ↦ rw e (
      drain-bound h fuel (suc c) (remove (suc c) p) (contains-bound h (suc c) p a e)
        (all-remove h (suc c) p a))
  | inr n ↦ rw n (l, a)
]
