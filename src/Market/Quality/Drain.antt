-- ===== src/Market/Quality/Drain.antt =====
-- The loop of `_observe_gap_backfill` that takes the sequences next in line out of the pending set
-- (src/quantiqmt/market/quality.py). It runs on fuel, which the caller sets to the size of
-- the set.
use quanti_qmt.Base.{
  ℕ, zero, suc, ◌≤◌, ◌<◌, true, false, not, ◌&&◌, ltb, leb, ◌∙◌, List, [], ◌∷◌, length, contains,
  if◌then◌else◌, nat_eq, nat_beq, ◌≡◌, refl, inl, inr, arith, Bool-cases,
}

-- `set.add`
abbrev pub add : ℕ → List ℕ → List ℕ
add n p = if contains n p then p else n ∷ p

-- `set.remove`
unfoldable pub remove : ℕ → List ℕ → List ℕ
remove n [] = []
remove n (m ∷ p) = if nat_beq m n then remove n p else m ∷ remove n p

-- `while contiguous + 1 in pending`
unfoldable pub drain : ℕ → ℕ → List ℕ → ℕ × List ℕ
drain zero c p = (c, p)
drain (suc fuel) c p =
    let rest = drain fuel (suc c) (remove (suc c) p) in if contains (suc c) p then rest else (c, p)

length-remove_le : (n : ℕ) (p : List ℕ) → length (remove n p) ≤ length p
unfolding remove
length-remove_le n [] = ground arith
length-remove_le n (m ∷ p) = ground (arith, length-remove_le n p)

length-remove : (n : ℕ) (p : List ℕ) → contains n p ≡ true → length (remove n p) < length p
unfolding remove
length-remove n [] h = cc
length-remove n (m ∷ p) h = ground (arith, length-remove n p, length-remove_le n p)

contains-remove : (k n : ℕ) (p : List ℕ) → contains k (remove n p) ≡ true → contains k p ≡ true
unfolding remove
contains-remove k n [] h = h
contains-remove k n (m ∷ p) h = ground (arith, contains-remove k n p)

pub drain_complete :
    (fuel c : ℕ) (p : List ℕ)
    → length p ≤ fuel
    → contains (suc (drain fuel c p).0) (drain fuel c p).1 ≡ false
unfolding drain
drain_complete zero c [] h = refl
drain_complete zero c (m ∷ p) h = ground arith
drain_complete (suc fuel) c p h = elim (Bool-cases (contains (suc c) p)) [
  | inl e ↦
      rw (e) (
        drain_complete fuel (suc c) (remove (suc c) p)
          (omega (arith, h, length-remove (suc c) p e)))
  | inr n ↦ rw (n, n) refl
]

pub drain-grows : (fuel c : ℕ) (p : List ℕ) → c ≤ (drain fuel c p).0
unfolding drain
drain-grows zero c p = ground arith
drain-grows (suc fuel) c p = ground (arith, drain-grows fuel (suc c) (remove (suc c) p))

contains-remove_eq :
    (k n : ℕ) (p : List ℕ) → contains k (remove n p) ≡ (contains k p && not (nat_beq k n))
unfolding remove
contains-remove_eq k n [] = refl
contains-remove_eq k n (m ∷ p) = ground (arith, contains-remove_eq k n p)

-- What the loop leaves is what it has not passed.
pub contains-drain :
    (fuel c : ℕ) (p : List ℕ) (k : ℕ)
    → contains k (drain fuel c p).1 ≡ (contains k p && not (ltb c k && leb k (drain fuel c p).0))
unfolding drain
contains-drain zero c p k = ground arith
contains-drain (suc fuel) c p k = elim (Bool-cases (contains (suc c) p)) [
  | inl e ↦
      let rest = contains-drain fuel (suc c) (remove (suc c) p) k in
      let grown = drain-grows fuel (suc c) (remove (suc c) p) in
      rw (e) (rest ∙ ground (arith, contains-remove_eq k (suc c) p))
  | inr n ↦ rw (n) (ground arith)
]

pub drain-received :
    (fuel c : ℕ) (p : List ℕ) (k : ℕ) → c < k → k ≤ (drain fuel c p).0 → contains k p ≡ true
unfolding drain
drain-received zero c p k l h = ground arith
drain-received (suc fuel) c p k l h = elim (Bool-cases (contains (suc c) p)) [
  | inl e ↦ elim (Bool-cases (nat_beq k (suc c))) [
    | inl q ↦ ground arith
    | inr q ↦
        contains-remove k (suc c) p
          (drain-received fuel (suc c) (remove (suc c) p) k (ground arith) (rw e at h))
  ]
  | inr n ↦ ground arith
]
