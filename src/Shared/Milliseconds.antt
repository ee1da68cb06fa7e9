-- ===== src/Shared/Milliseconds.antt =====
-- `int(delta.total_seconds() * 1000)`, the milliseconds of a span of microseconds as
-- src/quantiqmt/order/infrastructure/memory.py and src/quantiqmt/market/gateway.py compute them: a
-- division and a product of doubles, each rounded to the nearest double, ties to the even one. Two
-- datetimes are less than ten thousand years apart, so every value here is below 2 ^ 53.
use quanti_qmt.Base.{
  ℕ, zero, suc, ◌+◌, ◌*◌, ◌/◌, ◌%◌, ◌^◌, ◌≡◌, refl, true, false, leb, ltb, if◌then◌else◌,
}

-- The integer nearest to n / d, or the even one of two.
abbrev pub nearest_integer : ℕ → ℕ → ℕ
nearest_integer n d =
    if ltb (2 * (n % d)) d
    then n / d
    else (if ltb d (2 * (n % d)) then n / d + 1 else n / d + (n / d) % 2)

-- The least of scale, 2 * scale, … that makes n / d a number of 53 bits; `fuel` bounds their number.
unfoldable scale_of : ℕ → ℕ → ℕ → ℕ → ℕ
scale_of zero n d scale = scale
scale_of (suc fuel) n d scale = elim (leb (2 ^ 52 * d) (n * scale)) [
  | true ↦ scale
  | false ↦ scale_of fuel n d (scale * 2)
]

-- The double nearest to n / d, as a numerator and a power of two. A span has at least a millionth of
-- a second, if it is not zero, which takes 72 doublings.
unfoldable pub double : ℕ → ℕ → ℕ × ℕ
unfolding scale_of
double n d = let scale = scale_of 80 n d 1 in (nearest_integer (n * scale) d, scale)

unfoldable pub elapsed_ms : ℕ → ℕ
unfolding double
elapsed_ms us =
    let (seconds, scale) = double us 1000000 in
    let (product, scale') = double (seconds * 1000) scale in product / scale'

-- A second is a thousand milliseconds, and so is a span of 1.001 seconds.
one_second : elapsed_ms 1000000 ≡ 1000
unfolding elapsed_ms
one_second = refl

loses_one : elapsed_ms 1001000 ≡ 1000
unfolding elapsed_ms
loses_one = refl

next_one : elapsed_ms 1002000 ≡ 1002
unfolding elapsed_ms
next_one = refl
