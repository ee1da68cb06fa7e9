-- ===== src/Shared/Values.antt =====
-- Prices and identifiers by their texts: `Price` of src/quantiqmt/shared/numeric.py, and
-- src/quantiqmt/shared/identifiers.py. A decimal that a canonical text gives prints as that text, so
-- a price is its text here. Every error is a ValueError.
use Prim.Native.String.{String}
use quanti_qmt.Base.{
  ℕ, Bool, true, false, not, ◌&&◌, List, [], ◌∷◌, leb, nat_beq, codes, length, any, is_stripped,
  if◌then◌else◌,
}

abbrev is_digit : ℕ → Bool
is_digit c = leb 48 c && leb c 57

-- `\.[0-9]+` at the end, the point already read.
abbrev is_fraction : List ℕ → Bool
is_fraction [] = false
is_fraction (c ∷ []) = is_digit c
is_fraction (c ∷ d ∷ cs) = is_digit c && is_fraction (d ∷ cs)

abbrev fraction_or_end : List ℕ → Bool
fraction_or_end [] = true
fraction_or_end (c ∷ cs) = nat_beq c 46 && is_fraction cs

abbrev is_whole : List ℕ → Bool
is_whole [] = true
is_whole (c ∷ cs) = if is_digit c then is_whole cs else fraction_or_end (c ∷ cs)

abbrev is_unsigned : List ℕ → Bool
is_unsigned [] = false
is_unsigned (c ∷ cs) = if nat_beq c 48 then fraction_or_end cs else is_digit c && is_whole cs

-- `_CANONICAL_DECIMAL.fullmatch(text)`
unfoldable pub is_canonical_decimal : List ℕ → Bool
is_canonical_decimal [] = false
is_canonical_decimal (c ∷ cs) = if nat_beq c 45 then is_unsigned cs else is_unsigned (c ∷ cs)

-- `_decimal_places`, of a canonical text
unfoldable pub decimal_places : List ℕ → ℕ
decimal_places [] = 0
decimal_places (c ∷ cs) = if nat_beq c 46 then length cs else decimal_places cs

abbrev is_negative : List ℕ → Bool
is_negative [] = false
is_negative (c ∷ _) = nat_beq c 45

-- `Price(text)`: canonical, at most 8 decimal places, and more than zero.
unfoldable pub price_is_valid : String → Bool
unfolding is_canonical_decimal decimal_places
price_is_valid text =
    is_canonical_decimal (codes text)
    && leb (decimal_places (codes text)) 8
    && not (is_negative (codes text))
    && any (λ c. leb 49 c && leb c 57) (codes text)

-- `InstrumentId(text)`
unfoldable pub instrument_is_valid : String → Bool
instrument_is_valid text =
    leb 1 (length (codes text)) && leb (length (codes text)) 64 && is_stripped text
