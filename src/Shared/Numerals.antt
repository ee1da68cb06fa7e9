-- ===== src/Shared/Numerals.antt =====
-- Python's texts and `str(n)` of an integer.
use Prim.Native.Char.{code}
use Prim.Native.String.{String}
use quanti_qmt.Base.{
  ℕ, zero, suc, ◌/◌, ◌%◌, ◌≤◌, ◌≡◌, refl, ap, Bool, true, false, ◌&&◌, ltb, nat_beq, Bool-cases,
  if◌then◌else◌, if-cases, arith, inl, inr, ◌∙◌, sym,
}
use quanti_qmt.Base.Int.{ℤ, pos, negsuc}

infixr 20 ◌⧺◌
-- `s + t`
abbrev pub ◌⧺◌ : String → String → String
String.[] ⧺ t = t
(String.◌∷◌ c s) ⧺ t = String.◌∷◌ c (s ⧺ t)

-- `text.startswith(prefix)`
abbrev pub starts_with : String → String → Bool
starts_with String.[] s = true
starts_with (String.◌∷◌ c p) String.[] = false
starts_with (String.◌∷◌ c p) (String.◌∷◌ d s) = nat_beq (code c) (code d) && starts_with p s

abbrev digit : ℕ → String
digit zero = "0"
digit (suc zero) = "1"
digit (suc (suc zero)) = "2"
digit (suc (suc (suc zero))) = "3"
digit (suc (suc (suc (suc zero)))) = "4"
digit (suc (suc (suc (suc (suc zero))))) = "5"
digit (suc (suc (suc (suc (suc (suc zero)))))) = "6"
digit (suc (suc (suc (suc (suc (suc (suc zero))))))) = "7"
digit (suc (suc (suc (suc (suc (suc (suc (suc zero)))))))) = "8"
digit _ = "9"

-- The digits of `n` before a text; `fuel` bounds their number.
unfoldable pub digits_before : ℕ → ℕ → String → String
digits_before zero n text = text
digits_before (suc fuel) n text = elim (ltb n 10) [
  | true ↦ digit n ⧺ text
  | false ↦ digits_before fuel (n / 10) (digit (n % 10) ⧺ text)
]

-- `str(n)`: a number has at most as many digits as its successor says.
unfoldable pub decimal : ℕ → String
decimal n = digits_before (suc n) n ""

unfoldable pub integer_text : ℤ → String
integer_text (pos n) = decimal n
integer_text (negsuc n) = "-" ⧺ decimal (suc n)

digits_before-none :
    (n : ℕ) (text : String) → digits_before zero n text ≡ digits_before zero n "" ⧺ text
unfolding digits_before
digits_before-none n text = refl

digits_before-one :
    (k n : ℕ) (text : String) → ltb n 10 ≡ true → digits_before (suc k) n text ≡ digit n ⧺ text
unfolding digits_before
digits_before-one k n text e = rw (e, digits_before)

digits_before-more :
    (k n : ℕ) (text : String)
    → ltb n 10 ≡ false
    → digits_before (suc k) n text ≡ digits_before k (n / 10) (digit (n % 10) ⧺ text)
unfolding digits_before
digits_before-more k n text e = rw (e, digits_before)

-- More fuel writes the same digits.
digits_before_fuel :
    (k j n : ℕ) (text : String)
    → suc n ≤ k
    → suc n ≤ j
    → digits_before k n text ≡ digits_before j n text
digits_before_fuel zero j n text h g = absurd (omega arith)
digits_before_fuel (suc k) zero n text h g = absurd (omega arith)
digits_before_fuel (suc k) (suc j) n text h g = elim (Bool-cases (ltb n 10)) [
  | inl e ↦ digits_before-one k n text e ∙ sym (digits_before-one j n text e)
  | inr e ↦
      digits_before-more k n text e
      ∙ digits_before_fuel k j (n / 10) _ (ground arith) (ground arith)
      ∙ sym (digits_before-more j n text e)
]

⧺_assoc : (s t u : String) → (s ⧺ t) ⧺ u ≡ s ⧺ (t ⧺ u)
⧺_assoc String.[] t u = refl
⧺_assoc (String.◌∷◌ c s) t u = ap (String.◌∷◌ c) (⧺_assoc s t u)

⧺_empty : (s : String) → s ⧺ "" ≡ s
⧺_empty String.[] = refl
⧺_empty (String.◌∷◌ c s) = ap (String.◌∷◌ c) (⧺_empty s)

digits_before-append :
    (k n : ℕ) (text : String) → digits_before k n text ≡ digits_before k n "" ⧺ text
digits_before-append zero n text = digits_before-none n text
digits_before-append (suc k) n text = elim (Bool-cases (ltb n 10)) [
  | inl e ↦
      digits_before-one k n text e
      ∙ ap (λ s. s ⧺ text) (sym (digits_before-one k n "" e ∙ ⧺_empty (digit n)))
  | inr e ↦
      digits_before-more k n text e
      ∙ digits_before-append k (n / 10) (digit (n % 10) ⧺ text)
      ∙ sym (⧺_assoc (digits_before k (n / 10) "") (digit (n % 10)) text)
      ∙ ap (λ s. s ⧺ text)
          (sym (
            digits_before-more k n "" e
            ∙ ap (digits_before k (n / 10)) (⧺_empty (digit (n % 10)))
            ∙ digits_before-append k (n / 10) (digit (n % 10))))
]

-- `str(n)` is one digit, or the text of `n // 10` and the digit `n % 10`.
pub decimal-step :
    (n : ℕ) → decimal n ≡ (if ltb n 10 then digit n else decimal (n / 10) ⧺ digit (n % 10))
unfolding decimal
decimal-step n =
    if-cases (λ s. decimal n ≡ s) (ltb n 10) (digit n) (decimal (n / 10) ⧺ digit (n % 10))
      (λ e. digits_before-one n n "" e ∙ ⧺_empty (digit n))
      (λ e.
        digits_before-more n n "" e
        ∙ ap (digits_before n (n / 10)) (⧺_empty (digit (n % 10)))
        ∙ digits_before-append n (n / 10) (digit (n % 10))
        ∙ ap (λ s. s ⧺ digit (n % 10))
            (digits_before_fuel n (suc (n / 10)) (n / 10) "" (ground arith) (ground arith)))
