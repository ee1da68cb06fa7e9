-- ===== src/Base/Results.antt =====
-- Calls that may raise, and calls that may raise and change an object.
use mathlib.Core.Path.{◌≡◌, refl}
use mathlib.Core.Logic.{◌⊎◌, inl, inr}
use mathlib.Core.Bool.{Bool, true, false}
use mathlib.Core.Option.{Option, none, some}

module _ {ℓ κ} (E : Type ℓ) where
  pub data Result (A : Type κ) : Type (ℓ ⊔ κ) where
    ok : A → Result A
    err : E → Result A

abbrev pub is_some {ℓ} : {A : Type ℓ} → Option A → Bool
is_some none = false
is_some (some _) = true

abbrev pub is_none {ℓ} : {A : Type ℓ} → Option A → Bool
is_none none = true
is_none (some _) = false

abbrev pub is_ok {ℓ κ} : {E : Type ℓ} {A : Type κ} → Result E A → Bool
is_ok (ok _) = true
is_ok (err _) = false

pub Result-cases {ℓ κ} :
    {E : Type ℓ} {A : Type κ} (r : Result E A) → ((a : A) × (r ≡ ok a)) ⊎ ((e : E) × (r ≡ err e))
Result-cases (ok a) = inl (a, refl)
Result-cases (err e) = inr (e, refl)

-- A chain of calls that may raise, for `do` blocks.
infixl 5 ◌>>=◌ ◌>>◌
abbrev pub ◌>>=◌ {ℓ κ ι} :
    {E : Type ℓ} {A : Type κ} {B : Type ι} → Result E A → (A → Result E B) → Result E B
ok a >>= f = f a
err e >>= f = err e

abbrev pub ◌>>◌ {ℓ κ ι} :
    {E : Type ℓ} {A : Type κ} {B : Type ι} → Result E A → Result E B → Result E B
m >> k = m >>= λ _. k

-- `if not ok: raise e`
abbrev pub ensure {ℓ} : {E : Type ℓ} → Bool → E → Result E (Unit {0})
ensure true e = ok tt
ensure false e = err e

-- `d[key]`, which raises
abbrev pub or_raise {ℓ κ} : {E : Type ℓ} {A : Type κ} → Option A → E → Result E A
or_raise none e = err e
or_raise (some a) e = ok a

abbrev pub map_ok {ℓ κ ι} :
    {E : Type ℓ} {A : Type κ} {B : Type ι} → (A → B) → Result E A → Result E B
map_ok f (ok a) = ok (f a)
map_ok f (err e) = err e

-- The steps of a chain that has not raised.
pub >>=-ok {ℓ κ ι} :
    {E : Type ℓ} {A : Type κ} {B : Type ι} {f : A → Result E B} {b : B} (r : Result E A)
    → (r >>= f) ≡ ok b
    → (a : A) × ((r ≡ ok a) × (f a ≡ ok b))
>>=-ok (ok a) h = (a, (refl, h))
>>=-ok (err e) h = cc

pub >>-ok {ℓ κ ι} :
    {E : Type ℓ} {A : Type κ} {B : Type ι} {next : Result E B} {b : B} (r : Result E A)
    → (r >> next) ≡ ok b
    → next ≡ ok b
>>-ok (ok a) h = h
>>-ok (err e) h = cc

pub ensure-ok {ℓ} : {E : Type ℓ} {u : Unit {0}} (b : Bool) (e : E) → ensure b e ≡ ok u → b ≡ true
ensure-ok true e h = refl
ensure-ok false e h = cc

pub ensure->>-ok {ℓ κ} :
    {E : Type ℓ} {B : Type κ} {next : Result E B} {x : B} (b : Bool) (e : E)
    → (ensure b e >> next) ≡ ok x
    → (b ≡ true) × (next ≡ ok x)
ensure->>-ok true e h = (refl, h)
ensure->>-ok false e h = cc

pub or_raise-ok {ℓ κ} :
    {E : Type ℓ} {A : Type κ} {a : A} (o : Option A) (e : E) → or_raise o e ≡ ok a → o ≡ some a
or_raise-ok none e h = cc
or_raise-ok (some a) e h = cc

pub is_none-true {ℓ} : {A : Type ℓ} (o : Option A) → is_none o ≡ true → o ≡ none
is_none-true none h = refl
is_none-true (some a) h = cc
