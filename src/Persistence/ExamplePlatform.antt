-- ===== src/Persistence/ExamplePlatform.antt =====
-- A concrete platform for the tests: an instant prints in unary, and a digest
-- tells only how its text begins.
use Prim.Native.Char.{code}
use Prim.Native.String.{String}
use quanti_qmt.Base.{
  ℕ, zero, suc, ◌≡◌, refl, false, [], ◌∷◌, none, some, List, ap, nat_beq, length, codes,
  if◌then◌else◌,
}
use quanti_qmt.Shared.Platform.{Platform}
use quanti_qmt.Shared.Numerals.{◌⧺◌}
use quanti_qmt.Shared.Time.{WritesOffset, has_plus}

abbrev ones : ℕ → String
ones zero = ""
ones (suc n) = "1" ⧺ ones n

abbrev count_ones : String → ℕ
count_ones String.[] = 0
count_ones (String.◌∷◌ c s) =
    let rest = count_ones s in if nat_beq (code c) 49 then suc rest else rest

abbrev first_digest : List ℕ → String
first_digest [] = "d0"
first_digest (c ∷ cs) = if nat_beq c 123 then "d1" else "d2"

unfoldable pub platform : Platform
platform = record {
  nfc = λ text. text;
  sha256 = first_digest;
  is_canonical_uuid = λ text. nat_beq (length (codes text)) 36;
  isoformat = λ t. ones t ⧺ "+00:00";
  fromisoformat = λ text. some (count_ones text);
  int_of_text = λ text. none;
  repr_list = λ texts. "";
  repr_dict = λ texts. "";
}

ones-plain : (n : ℕ) → has_plus (ones n) ≡ false
ones-plain zero = refl
ones-plain (suc n) = ones-plain n

count_ones-ones : (n : ℕ) → count_ones (ones n ⧺ "+00:00") ≡ n
count_ones-ones zero = refl
count_ones-ones (suc n) = ap suc (count_ones-ones n)

pub platform-WritesOffset : WritesOffset platform
unfolding platform
platform-WritesOffset = record {
  naive = ones;
  plain = ones-plain;
  ends = λ t. refl;
  reads = λ t. ap some (count_ones-ones t);
}
