-- ===== src/Persistence/Outbox/Selection.antt =====
-- The records that `claim` selects, their order and their number
-- (src/quantiqmt/order/infrastructure/memory.py).
use quanti_qmt.Base.{
  ℕ, zero, suc, ◌≤◌, ◌≡◌, ◌≢◌, sym, inl, inr, String, true, none, some, List, [], ◌∷◌, All, All-imp,
  length, arith, ◌==◌, string_eq, ==-true, ==-refl, Bool-cases,
}
use quanti_qmt.Base.Dict.{Dict, lookup, IsDict}
use quanti_qmt.Persistence.Outbox.Record.{OutboxRecord, ClaimPolicy}
use quanti_qmt.Persistence.Outbox.Claim.{
  is_claimable, comes_before, place, in_order, choose, first, selected,
}

-- Each record stands under its own identity.
abbrev pub IsKeyed : Dict String OutboxRecord → Type 0
IsKeyed [] = Unit
IsKeyed ((k, r) ∷ d) = (r.message_id ≡ k) × IsKeyed d

-- The record is in the dictionary.
abbrev pub Listed : Dict String OutboxRecord → OutboxRecord → Type 0
Listed d r = lookup r.message_id d ≡ some r

abbrev pub Differs : String → OutboxRecord → Type 0
Differs k r = r.message_id ≢ k

-- No identity stands twice.
abbrev pub Distinct : List OutboxRecord → Type 0
Distinct [] = Unit
Distinct (r ∷ rs) = All (Differs r.message_id) rs × Distinct rs

module _ (P : OutboxRecord → Type 0) where
  place-All : (r : OutboxRecord) (rs : List OutboxRecord) → P r → All P rs → All P (place r rs)
  unfolding place
  place-All r [] p a = (p, tt)
  place-All r (s ∷ rs) p a = elim (Bool-cases (comes_before r s)) [
    | inl b ↦ rw b (p, a)
    | inr b ↦ rw b (a.0, place-All r rs p a.1)
  ]

  choose-All :
      (now : ℕ) (policy : ClaimPolicy) (rs : List OutboxRecord)
      → All P rs
      → All P (choose now policy rs)
  unfolding choose
  choose-All now policy [] a = tt
  choose-All now policy (r ∷ rs) a = elim (Bool-cases (is_claimable now policy r)) [
    | inl c ↦ rw c (a.0, choose-All now policy rs a.1)
    | inr c ↦ rw c (choose-All now policy rs a.1)
  ]

  first-All : (n : ℕ) (rs : List OutboxRecord) → All P rs → All P (first n rs)
  unfolding first
  first-All zero rs a = tt
  first-All (suc n) [] a = tt
  first-All (suc n) (r ∷ rs) a = (a.0, first-All n rs a.1)

choose-claimable :
    (now : ℕ) (policy : ClaimPolicy) (rs : List OutboxRecord)
    → All (λ r. is_claimable now policy r ≡ true) (choose now policy rs)
unfolding choose
choose-claimable now policy [] = tt
choose-claimable now policy (r ∷ rs) = elim (Bool-cases (is_claimable now policy r)) [
  | inl c ↦ rw c (c, choose-claimable now policy rs)
  | inr c ↦ rw c (choose-claimable now policy rs)
]

length-first : (n : ℕ) (rs : List OutboxRecord) → length (first n rs) ≤ n
unfolding first
length-first zero rs = omega arith
length-first (suc n) [] = omega arith
length-first (suc n) (r ∷ rs) = omega (arith, length-first n rs)

lookup-old :
    (k j : String) (v : OutboxRecord) (d : Dict String OutboxRecord) {r : OutboxRecord}
    → lookup k d ≡ none
    → lookup j d ≡ some r
    → lookup j ((k, v) ∷ d) ≡ some r
unfolding lookup
lookup-old k j v d new old = elim (Bool-cases (k == j)) [
  | inl e ↦ absurd (let q : lookup j d ≡ none = rw (==-true k j e) at new in cc old)
  | inr n ↦ rw n old
]

lookup-head :
    (j : String) (r : OutboxRecord) (d : Dict String OutboxRecord)
    → r.message_id ≡ j
    → Listed ((j, r) ∷ d) r
unfolding lookup
lookup-head j r d e = let q : (j == r.message_id) ≡ true = rw e (==-refl j) in rw q

pub in_order-Listed :
    (d : Dict String OutboxRecord) → IsDict d → IsKeyed d → All (Listed d) (in_order d)
unfolding in_order
in_order-Listed [] h k = tt
in_order-Listed ((j, r) ∷ d) h k =
    place-All (Listed ((j, r) ∷ d)) r (in_order d) (lookup-head j r d k.0) (
      All-imp (Listed d) (Listed ((j, r) ∷ d)) (in_order d)
        (λ s l. lookup-old j s.message_id r d h.0 l) (in_order-Listed d h.1 k.1))

place-Distinct :
    (r : OutboxRecord) (rs : List OutboxRecord)
    → All (Differs r.message_id) rs
    → Distinct rs
    → Distinct (place r rs)
unfolding place
place-Distinct r [] a d = (tt, tt)
place-Distinct r (s ∷ rs) a d = elim (Bool-cases (comes_before r s)) [
  | inl b ↦ rw b (a, d)
  | inr b ↦
      rw b
        (place-All (Differs s.message_id) r rs (λ e. a.0 (sym e)) d.0, place-Distinct r rs a.1 d.1)
]

in_order-Distinct : (d : Dict String OutboxRecord) → IsDict d → IsKeyed d → Distinct (in_order d)
unfolding in_order
in_order-Distinct [] h k = tt
in_order-Distinct ((j, r) ∷ d) h k =
    place-Distinct r (in_order d)
      (All-imp (Listed d) (Differs r.message_id) (in_order d)
        (λ s l e. let q : lookup s.message_id d ≡ none = rw (e, k.0) h.0 in cc l)
        (in_order-Listed d h.1 k.1))
      (in_order-Distinct d h.1 k.1)

choose-Distinct :
    (now : ℕ) (policy : ClaimPolicy) (rs : List OutboxRecord)
    → Distinct rs
    → Distinct (choose now policy rs)
unfolding choose
choose-Distinct now policy [] d = tt
choose-Distinct now policy (r ∷ rs) d = elim (Bool-cases (is_claimable now policy r)) [
  | inl c ↦
      rw c (choose-All (Differs r.message_id) now policy rs d.0, choose-Distinct now policy rs d.1)
  | inr c ↦ rw c (choose-Distinct now policy rs d.1)
]

first-Distinct : (n : ℕ) (rs : List OutboxRecord) → Distinct rs → Distinct (first n rs)
unfolding first
first-Distinct zero rs d = tt
first-Distinct (suc n) [] d = tt
first-Distinct (suc n) (r ∷ rs) d =
    (first-All (Differs r.message_id) n rs d.0, first-Distinct n rs d.1)

-- What is known of the selected records.
pub record IsSelection (now : ℕ) (policy : ClaimPolicy) (d : Dict String OutboxRecord)
    (rs : List OutboxRecord) : Type 0 where
  pub bounded : length rs ≤ policy.batch_size
  pub listed : All (Listed d) rs
  pub claimable : All (λ r. is_claimable now policy r ≡ true) rs
  pub distinct : Distinct rs

pub selected-IsSelection :
    (now : ℕ) (policy : ClaimPolicy) (d : Dict String OutboxRecord)
    → IsDict d
    → IsKeyed d
    → IsSelection now policy d (selected now policy d)
unfolding selected
selected-IsSelection now policy d h k =
    let chosen = choose now policy (in_order d) in
    record {
      bounded = length-first policy.batch_size chosen;
      listed =
          first-All (Listed d) policy.batch_size chosen
            (choose-All (Listed d) now policy (in_order d) (in_order-Listed d h k));
      claimable =
          first-All (λ r. is_claimable now policy r ≡ true) policy.batch_size chosen
            (choose-claimable now policy (in_order d));
      distinct =
          first-Distinct policy.batch_size chosen
            (choose-Distinct now policy (in_order d) (in_order-Distinct d h k));
    }
