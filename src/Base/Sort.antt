-- ===== src/Base/Sort.antt =====
-- Python's `sorted` on the items of a dict, by their keys; the items stay the same.
use mathlib.Core.Path.{◌≡◌, refl, ◌∙◌}
use mathlib.Core.Bool.{Bool, true, false, ◌&&◌}
use mathlib.Core.Option.{none, some}
use mathlib.Core.List.{List, [], ◌∷◌}
use native.Mathlib.Omega.{arith}
use Prim.Native.Nat.{ℕ}
use quanti_qmt.Base.Texts.{codes, codes_le, text_le}
use quanti_qmt.Base.Tests.{Eq, ◌==◌, ==-refl, ==-true, if◌then◌else◌, if-cases}
use quanti_qmt.Base.Lists.{all, All, contains, IsDistinct}
use quanti_qmt.Base.Dict.{Dict, lookup, IsDict}

module _ {ℓ} {A : Type ℓ} (le : A → A → Bool) where
  -- A stable insertion.
  unfoldable pub put : A → List A → List A
  put x [] = x ∷ []
  put x (y ∷ ys) = let rest = put x ys in if le x y then x ∷ y ∷ ys else y ∷ rest

  unfoldable pub sorted : List A → List A
  unfolding put
  sorted [] = []
  sorted (x ∷ xs) = put x (sorted xs)

  pub all-put : (p : A → Bool) (x : A) (xs : List A) → all p (put x xs) ≡ (p x && all p xs)
  unfolding put
  all-put p x [] = refl
  all-put p x (y ∷ ys) = ground (arith, all-put p x ys)

  pub all-sorted : (p : A → Bool) (xs : List A) → all p (sorted xs) ≡ all p xs
  unfolding sorted
  all-sorted p [] = refl
  all-sorted p (x ∷ xs) = ground (arith, all-put p x (sorted xs), all-sorted p xs)

-- An order of a type by a test.
pub record IsOrder {ℓ} {A : Type ℓ} (le : A → A → Bool) : Type ℓ where
  pub trans : (x y z : A) → le x y ≡ true → le y z ≡ true → le x z ≡ true
  pub total : (x y : A) → le x y ≡ false → le y x ≡ true

module _ {ℓ} {A : Type ℓ} (le : A → A → Bool) where
  -- Each element is before all that follow it.
  abbrev pub IsOrdered : List A → Type 0
  IsOrdered [] = Unit
  IsOrdered (x ∷ xs) = (all (le x) xs ≡ true) × IsOrdered xs

  all-imp :
      (x y : A) (xs : List A)
      → IsOrder le
      → le x y ≡ true
      → all (le y) xs ≡ true
      → all (le x) xs ≡ true
  all-imp x y [] o h a = refl
  all-imp x y (z ∷ xs) o h a = ground (arith, o.trans x y z h, all-imp x y xs o h)

  put-IsOrdered : (x : A) (xs : List A) → IsOrder le → IsOrdered xs → IsOrdered (put le x xs)
  unfolding put
  put-IsOrdered x [] o h = (refl, tt)
  put-IsOrdered x (y ∷ ys) o h =
      if-cases IsOrdered (le x y) _ _ (λ e. (ground (arith, all-imp x y ys o e h.0), h))
        (λ n.
          (all-put le (le y) x ys ∙ ground (arith, o.total x y n, h.0), put-IsOrdered x ys o h.1))

  pub sorted-IsOrdered : (xs : List A) → IsOrder le → IsOrdered (sorted le xs)
  unfolding sorted
  sorted-IsOrdered [] o = tt
  sorted-IsOrdered (x ∷ xs) o = put-IsOrdered x (sorted le xs) o (sorted-IsOrdered xs o)

module _ {ℓ κ} {A : Type ℓ} (P : A → Type κ) (le : A → A → Bool) where
  All-put : (x : A) (xs : List A) → P x → All P xs → All P (put le x xs)
  unfolding put
  All-put x [] p h = (p, tt)
  All-put x (y ∷ ys) p h =
      if-cases (All P) (le x y) _ _ (λ _. (p, h)) (λ _. (h.0, All-put x ys p h.1))

  pub All-sorted : (xs : List A) → All P xs → All P (sorted le xs)
  unfolding sorted
  All-sorted [] h = tt
  All-sorted (x ∷ xs) h = All-put x (sorted le xs) h.0 (All-sorted xs h.1)

module _ {ℓ} {A : Type ℓ} ⦃e : Eq A⦄ (le : A → A → Bool) where
  contains-put : (a x : A) (xs : List A) → contains a (put le x xs) ≡ contains a (x ∷ xs)
  unfolding put
  contains-put a x [] = refl
  contains-put a x (y ∷ ys) = ground (arith, contains-put a x ys)

  pub contains-sorted : (a : A) (xs : List A) → contains a (sorted le xs) ≡ contains a xs
  unfolding sorted
  contains-sorted a [] = refl
  contains-sorted a (x ∷ xs) = ground (arith, contains-put a x (sorted le xs), contains-sorted a xs)

  put-IsDistinct :
      (x : A) (xs : List A) → contains x xs ≡ false → IsDistinct xs → IsDistinct (put le x xs)
  unfolding put
  put-IsDistinct x [] n h = (n, tt)
  put-IsDistinct x (y ∷ ys) n h =
      if-cases IsDistinct (le x y) _ _ (λ _. (n, h))
        (λ _. (
          contains-put y x ys ∙ ground (arith, n, h.0, ==-true x y, ==-refl x),
          put-IsDistinct x ys (ground (arith, n)) h.1,
        ))

  pub sorted-IsDistinct : (xs : List A) → IsDistinct xs → IsDistinct (sorted le xs)
  unfolding sorted
  sorted-IsDistinct [] h = tt
  sorted-IsDistinct (x ∷ xs) h =
      put-IsDistinct x (sorted le xs) (contains-sorted x xs ∙ h.0) (sorted-IsDistinct xs h.1)

codes_le_trans :
    (xs ys zs : List ℕ) → codes_le xs ys ≡ true → codes_le ys zs ≡ true → codes_le xs zs ≡ true
codes_le_trans [] ys zs h g = refl
codes_le_trans (x ∷ xs) (y ∷ ys) [] h g = cc
codes_le_trans (x ∷ xs) [] zs h g = cc
codes_le_trans (x ∷ xs) (y ∷ ys) (z ∷ zs) h g = ground (arith, codes_le_trans xs ys zs)

codes_le_total : (xs ys : List ℕ) → codes_le xs ys ≡ false → codes_le ys xs ≡ true
codes_le_total [] ys h = cc
codes_le_total (x ∷ xs) [] h = refl
codes_le_total (x ∷ xs) (y ∷ ys) h = ground (arith, codes_le_total xs ys)

pub text_le-IsOrder : IsOrder text_le
unfolding text_le
text_le-IsOrder = record {
  trans = λ x y z. codes_le_trans (codes x) (codes y) (codes z);
  total = λ x y. codes_le_total (codes x) (codes y);
}

-- `sorted(d.items(), key=lambda item: item[0])`
abbrev pub by_key {ℓ κ} : {K : Type ℓ} {V : Type κ} → (K → K → Bool) → K × V → K × V → Bool
by_key le (k, _) (j, _) = le k j

module _ {ℓ κ} {K : Type ℓ} {V : Type κ} ⦃e : Eq K⦄ (le : K → K → Bool) where
  lookup-put :
      (j k : K) (v : V) (d : Dict K V)
      → lookup k d ≡ none
      → lookup j (put (by_key le) (k, v) d) ≡ (if k == j then some v else lookup j d)
  unfolding put lookup
  lookup-put j k v [] h = refl
  lookup-put j k v ((i, w) ∷ d) h =
      ground (arith, lookup-put j k v d, ==-true i j, ==-true k j, ==-refl k)

  pub lookup-sorted :
      (j : K) (d : Dict K V) → IsDict d → lookup j (sorted (by_key le) d) ≡ lookup j d
  unfolding sorted lookup
  lookup-sorted j [] h = refl
  lookup-sorted j ((k, v) ∷ d) h =
      lookup-put j k v (sorted (by_key le) d) (lookup-sorted k d h.1 ∙ h.0)
      ∙ ground (arith, lookup-sorted j d h.1)

  IsDict-put :
      (k : K) (v : V) (d : Dict K V)
      → lookup k d ≡ none
      → IsDict d
      → IsDict (put (by_key le) (k, v) d)
  unfolding put lookup
  IsDict-put k v [] n h = (n, tt)
  IsDict-put k v ((j, w) ∷ d) n h =
      if-cases IsDict (le k j) _ _ (λ _. (n, h))
        (λ _. (
          lookup-put j k v d (ground (arith, n)) ∙ ground (arith, n, h.0, ==-true k j, ==-refl k),
          IsDict-put k v d (ground (arith, n)) h.1,
        ))

  pub sorted-IsDict : (d : Dict K V) → IsDict d → IsDict (sorted (by_key le) d)
  unfolding sorted
  sorted-IsDict [] h = tt
  sorted-IsDict ((k, v) ∷ d) h =
      IsDict-put k v (sorted (by_key le) d) (lookup-sorted k d h.1 ∙ h.0) (sorted-IsDict d h.1)
