-- ===== src/Shared/Time.antt =====
-- UTC texts (src/quantiqmt/shared/time.py). An instant is an ℕ of microseconds; that a datetime is
-- aware and of offset zero (`require_utc`) is its type here.
use Prim.Native.String.{String}
use quanti_qmt.Base.{
  ℕ, zero, suc, ◌≡◌, refl, ap, Bool, true, false, not, ◌||◌, Option, none, some, if◌then◌else◌,
  arith,
}
use quanti_qmt.Shared.Platform.{Platform}
use quanti_qmt.Shared.Numerals.{◌⧺◌, starts_with}

-- `text.replace("+00:00", "Z")`; `skip` characters of a match are still to be left out.
unfoldable pub replace_offset : ℕ → String → String
replace_offset skip String.[] = ""
replace_offset (suc skip) (String.◌∷◌ c s) = replace_offset skip s
replace_offset zero (String.◌∷◌ c s) =
    let after_match = replace_offset 5 s in
    let after_other = replace_offset 0 s in
    if starts_with "+00:00" (String.◌∷◌ c s) then "Z" ⧺ after_match else String.◌∷◌ c after_other

-- `text.endswith("Z")`
unfoldable pub ends_with_z : String → Bool
ends_with_z String.[] = false
ends_with_z (String.◌∷◌ c String.[]) = starts_with "Z" (String.◌∷◌ c String.[])
ends_with_z (String.◌∷◌ c (String.◌∷◌ d s)) = ends_with_z (String.◌∷◌ d s)

-- `text[:-1]`
unfoldable pub without_last : String → String
without_last String.[] = ""
without_last (String.◌∷◌ c String.[]) = ""
without_last (String.◌∷◌ c (String.◌∷◌ d s)) = String.◌∷◌ c (without_last (String.◌∷◌ d s))

module _ (platform : Platform) where
  -- `format_utc`
  unfoldable pub format_utc : ℕ → String
  unfolding replace_offset
  format_utc value = replace_offset 0 (platform.isoformat value)

  -- `parse_utc`; every error is a ValueError.
  unfoldable pub parse_utc : String → Option ℕ
  unfolding ends_with_z without_last
  parse_utc value =
      if not (ends_with_z value)
      then none
      else platform.fromisoformat (without_last value ⧺ "+00:00")

-- The offset is replaced at the end of a text that has no "+".
abbrev pub has_plus : String → Bool
has_plus String.[] = false
has_plus (String.◌∷◌ c s) = starts_with "+" (String.◌∷◌ c s) || has_plus s

replace_offset-append :
    (s : String) → has_plus s ≡ false → replace_offset 0 (s ⧺ "+00:00") ≡ s ⧺ "Z"
unfolding replace_offset
replace_offset-append String.[] h = refl
replace_offset-append (String.◌∷◌ c s) h = ground (arith, replace_offset-append s)

ends_with_z-append : (s : String) → ends_with_z (s ⧺ "Z") ≡ true
unfolding ends_with_z
ends_with_z-append String.[] = refl
ends_with_z-append (String.◌∷◌ c String.[]) = refl
ends_with_z-append (String.◌∷◌ c (String.◌∷◌ d s)) = ends_with_z-append (String.◌∷◌ d s)

without_last-append : (s : String) → without_last (s ⧺ "Z") ≡ s
unfolding without_last
without_last-append String.[] = refl
without_last-append (String.◌∷◌ c String.[]) = refl
without_last-append (String.◌∷◌ c (String.◌∷◌ d s)) =
    ap (String.◌∷◌ c) (without_last-append (String.◌∷◌ d s))

-- What the documentation of `datetime` says of an aware value of offset zero: `isoformat` ends with
-- the offset, has no other sign, and `fromisoformat` reads it back.
pub record WritesOffset (platform : Platform) : Type 0 where
  pub naive : ℕ → String
  pub plain : (t : ℕ) → has_plus (naive t) ≡ false
  pub ends : (t : ℕ) → platform.isoformat t ≡ naive t ⧺ "+00:00"
  pub reads : (t : ℕ) → platform.fromisoformat (naive t ⧺ "+00:00") ≡ some t

pub parse_utc-format_utc :
    (platform : Platform)
    → WritesOffset platform
    → (t : ℕ) → parse_utc platform (format_utc platform t) ≡ some t
unfolding format_utc parse_utc
parse_utc-format_utc platform law t =
    rw
      (
        law.ends t,
        replace_offset-append (law.naive t) (law.plain t),
        ends_with_z-append (law.naive t),
        without_last-append (law.naive t),
      )
      (law.reads t)
