-- ===== src/Persistence/Repository/Ids.antt =====
-- The ids to recover are listed once (`list_recovery_order_ids`,
-- src/quantiqmt/order/infrastructure/memory.py), and so a client that follows the page tokens sees
-- each of them once.
use mathlib.Core.Path.{subst}
use quanti_qmt.Base.{
  ap, Bool, ◌&&◌, not, is_none, ℕ, suc, ◌≡◌, refl, ◌∙◌, inl, inr, String, true, false, ◌||◌, none,
  ok, List, [], ◌∷◌, ◌++◌, IsDistinct, contains, leb, length, ◌==◌, string_eq, text_le, arith,
  Bool-cases, if-cases, all, ==-refl, ==-true,
}
use quanti_qmt.Base.Dict.{Dict, lookup}
use quanti_qmt.Base.Sort.{
  sorted-IsDistinct, contains-sorted, IsOrdered, sorted-IsOrdered, text_le-IsOrder,
}
use quanti_qmt.Shared.Platform.{Platform}
use quanti_qmt.Persistence.Call.{Call, require_deadline}
use quanti_qmt.Persistence.Repository.Store.{Store}
use quanti_qmt.Persistence.Repository.Pages.{
  Scope, all_orders, active_or_unknown, add_keys, recovery_ids, active_ids, to_recover, ids_in,
  remaining,
}
use quanti_qmt.Persistence.Repository.Paging.{walk, walk-from}

contains-append_one :
    (i j : String) (ids : List String) → contains i (ids ++ j ∷ []) ≡ (contains i ids || j == i)
contains-append_one i j [] = ground arith
contains-append_one i j (k ∷ ids) = ground (arith, contains-append_one i j ids)

append_one-IsDistinct :
    (j : String) (ids : List String)
    → contains j ids ≡ false
    → IsDistinct ids
    → IsDistinct (ids ++ j ∷ [])
append_one-IsDistinct j [] n d = (refl, tt)
append_one-IsDistinct j (k ∷ ids) n d = (
  contains-append_one k j ids ∙ ground (arith, d.0, ==-true j k, ==-refl k),
  append_one-IsDistinct j ids (ground arith) d.1,
)

add_keys-IsDistinct {ℓ} :
    {V : Type ℓ} (d : Dict String V) (done : List String)
    → IsDistinct done
    → IsDistinct (add_keys d done)
unfolding add_keys
add_keys-IsDistinct [] done h = h
add_keys-IsDistinct ((k, _) ∷ d) done h = elim (Bool-cases (contains k done)) [
  | inl e ↦ rw e (add_keys-IsDistinct d done h)
  | inr n ↦ rw n (add_keys-IsDistinct d (done ++ k ∷ []) (append_one-IsDistinct k done n h))
]

contains-active_ids :
    (s : Store) (i : String) (ids : List String)
    → contains i ids ≡ false
    → contains i (active_ids s ids) ≡ false
unfolding active_ids
contains-active_ids s i [] h = refl
contains-active_ids s i (j ∷ ids) h = ground (arith, contains-active_ids s i ids)

active_ids-IsDistinct :
    (s : Store) (ids : List String) → IsDistinct ids → IsDistinct (active_ids s ids)
unfolding active_ids
active_ids-IsDistinct s [] d = tt
active_ids-IsDistinct s (i ∷ ids) d =
    if-cases IsDistinct (to_recover (lookup i s.orders)) _ _
      (λ _. (contains-active_ids s i ids d.0, active_ids-IsDistinct s ids d.1))
      (λ _. active_ids-IsDistinct s ids d.1)

pub ids_in-IsDistinct : (scope : Scope) (s : Store) → IsDistinct (ids_in scope s)
unfolding ids_in recovery_ids
ids_in-IsDistinct all_orders s =
    sorted-IsDistinct text_le _
      (add_keys-IsDistinct s.journal _ (add_keys-IsDistinct s.orders [] tt))
ids_in-IsDistinct active_or_unknown s = active_ids-IsDistinct s _ (
    sorted-IsDistinct text_le _
      (add_keys-IsDistinct s.journal _ (add_keys-IsDistinct s.orders [] tt)))

-- The ids that a scope is to list, told by the dictionaries alone: of every order that has a row or
-- a journal; in the narrower scope, of those whose row is missing or in an active or unknown state.
abbrev pub is_key {ℓ} : {V : Type ℓ} → String → Dict String V → Bool
is_key i d = not (is_none (lookup i d))

abbrev pub is_listed : Scope → Store → String → Bool
is_listed all_orders s i = is_key i s.orders || is_key i s.journal
is_listed active_or_unknown s i =
    (is_key i s.orders || is_key i s.journal) && to_recover (lookup i s.orders)

contains-add_keys {ℓ} :
    {V : Type ℓ} (d : Dict String V) (done : List String) (i : String)
    → contains i (add_keys d done) ≡ (contains i done || is_key i d)
unfolding add_keys lookup
contains-add_keys [] done i = ground arith
contains-add_keys ((k, v) ∷ d) done i = elim (Bool-cases (contains k done)) [
  | inl e ↦ rw (e) (
      contains-add_keys d done i ∙ elim (Bool-cases (k == i)) [
        | inl same ↦
            let there : contains i done ≡ true =
              subst (λ x. contains x done ≡ true) (==-true k i same) e in
            rw (same, there) refl
        | inr other ↦ rw other refl
      ])
  | inr n ↦ rw (n) (
      contains-add_keys d (done ++ k ∷ []) i ∙ elim (Bool-cases (k == i)) [
        | inl same ↦ rw (contains-append_one i k done, same) (ground arith)
        | inr other ↦ rw (contains-append_one i k done, other) (ground arith)
      ])
]

contains-recovery_ids :
    (s : Store) (i : String)
    → contains i (recovery_ids s) ≡ (is_key i s.orders || is_key i s.journal)
unfolding recovery_ids
contains-recovery_ids s i =
    contains-sorted text_le i _
    ∙ contains-add_keys s.journal (add_keys s.orders []) i
    ∙ ap (λ b. b || is_key i s.journal) (contains-add_keys s.orders [] i)

contains-active_ids_eq :
    (s : Store) (ids : List String) (i : String)
    → contains i (active_ids s ids) ≡ (contains i ids && to_recover (lookup i s.orders))
unfolding active_ids
contains-active_ids_eq s [] i = refl
contains-active_ids_eq s (j ∷ ids) i = elim (Bool-cases (j == i)) [
  | inl same ↦ elim (Bool-cases (to_recover (lookup i s.orders))) [
    | inl active ↦ rw (==-true j i same, active, ==-refl i) refl
    | inr final ↦
        rw (==-true j i same, final) (contains-active_ids_eq s ids i ∙ rw final (ground arith))
  ]
  | inr other ↦ elim (Bool-cases (to_recover (lookup j s.orders))) [
    | inl active ↦ rw (active, other) (contains-active_ids_eq s ids i)
    | inr final ↦ rw (final, other) (contains-active_ids_eq s ids i)
  ]
]

contains-ids_in :
    (scope : Scope) (s : Store) (i : String) → contains i (ids_in scope s) ≡ is_listed scope s i
unfolding ids_in
contains-ids_in all_orders s i = contains-recovery_ids s i
contains-ids_in active_or_unknown s i =
    contains-active_ids_eq s (recovery_ids s) i
    ∙ ap (λ b. b && to_recover (lookup i s.orders)) (contains-recovery_ids s i)

all-active_ids :
    (p : String → Bool) (s : Store) (ids : List String)
    → all p ids ≡ true
    → all p (active_ids s ids) ≡ true
unfolding active_ids
all-active_ids p s [] h = refl
all-active_ids p s (i ∷ ids) h = ground (arith, all-active_ids p s ids)

active_ids-IsOrdered :
    (s : Store) (ids : List String) → IsOrdered text_le ids → IsOrdered text_le (active_ids s ids)
unfolding active_ids
active_ids-IsOrdered s [] o = tt
active_ids-IsOrdered s (i ∷ ids) o =
    if-cases (IsOrdered text_le) (to_recover (lookup i s.orders)) _ _
      (λ _. (all-active_ids (text_le i) s ids o.0, active_ids-IsOrdered s ids o.1))
      (λ _. active_ids-IsOrdered s ids o.1)

ids_in-IsOrdered : (scope : Scope) (s : Store) → IsOrdered text_le (ids_in scope s)
unfolding ids_in recovery_ids
ids_in-IsOrdered all_orders s =
    sorted-IsOrdered text_le (add_keys s.journal (add_keys s.orders [])) text_le-IsOrder
ids_in-IsOrdered active_or_unknown s =
    active_ids-IsOrdered s _
      (sorted-IsOrdered text_le (add_keys s.journal (add_keys s.orders [])) text_le-IsOrder)

-- A client that follows the page tokens from the start over a store that does not change gets, in
-- at most one page more than there are ids, each id once and in the order of texts, and exactly
-- those that the scope is to list: the orders with a row or a journal, and in the narrower scope
-- those of them whose row is missing or in an active or unknown state. Conditions: the deadline has
-- not expired at any page, the page size is between 1 and 1000 and the ids are UUIDs.
pub walk-all :
    (platform : Platform) (call : Call) (scope : Scope) (size : ℕ) (s : Store)
    → require_deadline call ≡ ok tt
    → leb (suc size) 1000 ≡ true
    → all platform.is_canonical_uuid (ids_in scope s) ≡ true
    → (ids : List String) × (walk platform call scope (suc size) s (suc (length ids)) none ≡ ok ids)
      × IsDistinct ids
      × IsOrdered text_le ids
      × ((i : String) → contains i ids ≡ is_listed scope s i)
unfolding remaining
walk-all platform call scope size s d bound valid = (
  ids_in scope s,
  walk-from platform call scope size s (suc (length (ids_in scope s))) none [] (ids_in scope s) d
      bound valid (ids_in-IsDistinct scope s) refl refl (omega arith),
  ids_in-IsDistinct scope s,
  ids_in-IsOrdered scope s,
  contains-ids_in scope s,
)
