-- ===== src/Base/Lists.antt =====
-- Lists over the native numbers.
use Prim.Native.Nat.{ℕ, suc, ◌+◌}
use mathlib.Core.Path.{◌≡◌, refl, ap}
use mathlib.Core.Bool.{Bool, true, false, ◌&&◌, ◌||◌}
use mathlib.Core.List.{List, [], ◌∷◌, ◌++◌}
use native.Mathlib.Omega.{arith}
use quanti_qmt.Base.Tests.{Eq, ◌==◌, ==-refl, ==-true}

module _ {ℓ} {A : Type ℓ} where
  abbrev pub length : List A → ℕ
  length [] = 0
  length (_ ∷ xs) = suc (length xs)

  abbrev pub all : (A → Bool) → List A → Bool
  all p [] = true
  all p (x ∷ xs) = p x && all p xs

  abbrev pub any : (A → Bool) → List A → Bool
  any p [] = false
  any p (x ∷ xs) = p x || any p xs

  pub length-append : (xs ys : List A) → length (xs ++ ys) ≡ length xs + length ys
  length-append [] ys = omega arith
  length-append (x ∷ xs) ys = omega (arith, length-append xs ys)

  pub append_shift : (xs : List A) (x : A) (ys : List A) → xs ++ x ∷ ys ≡ (xs ++ x ∷ []) ++ ys
  append_shift [] x ys = refl
  append_shift (z ∷ xs) x ys = ap (λ l. z ∷ l) (append_shift xs x ys)

module _ {ℓ} {A : Type ℓ} ⦃e : Eq A⦄ where
  -- `a in xs`
  abbrev pub contains : A → List A → Bool
  contains a [] = false
  contains a (x ∷ xs) = x == a || contains a xs

  -- Each element is listed once: the list stands for a set.
  abbrev pub IsDistinct : List A → Type ℓ
  IsDistinct [] = Unit
  IsDistinct (x ∷ xs) = (contains x xs ≡ false) × IsDistinct xs

  pub contains-append_head :
      (a b : A) (xs ys : List A) → contains a (xs ++ b ∷ ys) ≡ false → (b == a) ≡ false
  contains-append_head a b [] ys h = ground arith
  contains-append_head a b (x ∷ xs) ys h = ground (arith, contains-append_head a b xs ys)

  pub contains-IsDistinct_next :
      (a : A) (xs ys : List A) → IsDistinct (xs ++ a ∷ ys) → contains a xs ≡ false
  contains-IsDistinct_next a [] ys h = refl
  contains-IsDistinct_next a (x ∷ xs) ys h = ground (
    arith,
    contains-IsDistinct_next a xs ys h.1,
    contains-append_head x a xs ys h.0,
    ==-true x a,
    ==-refl x,
  )

  pub contains-append_self : (a : A) (xs : List A) → contains a (xs ++ a ∷ []) ≡ true
  contains-append_self a [] = ground (arith, ==-refl a)
  contains-append_self a (x ∷ xs) = ground (arith, contains-append_self a xs)

-- `P` at each element, as nested pairs.
abbrev pub All {κ ℓ} : {T : Type ℓ} (P : T → Type κ) → List T → Type κ
All P (y ∷ ys) = P y × All P ys
All P [] = Unit

pub All-imp {ℓ κ} :
    {A : Type ℓ} (P Q : A → Type κ) (xs : List A) → ((x : A) → P x → Q x) → All P xs → All Q xs
All-imp P Q [] f a = tt
All-imp P Q (x ∷ xs) f a = (f x a.0, All-imp P Q xs f a.1)
