-- ===== src/Risk/VersionFilter.antt =====
-- `_InputVersionFilter` of src/quantiqmt/risk/runner.py. Its integer is a function from the index
-- of a bit to the bit; the SHA-256 of the ASCII form of a text is a parameter, so a text without
-- such a form is left out.
use quanti_qmt.Base.{
  ℕ, zero, suc, ◌+◌, ◌*◌, ◌%◌, ◌≤◌, String, Bool, true, false, ◌||◌, List, [], ◌∷◌, map, all,
  nat_beq, ltb, ◌≡◌, ◌∙◌, refl, arith, if◌then◌else◌,
}

abbrev pub bits : ℕ
bits = 16384

abbrev pub masks : List ℕ
masks = 0 ∷ 8 ∷ 16 ∷ 24 ∷ []

-- `self._bits`
abbrev pub Bits : Type 0
Bits = ℕ → Bool

-- `_InputVersionFilter()`
abbrev pub no_bits : Bits
no_bits _ = false

-- `bits |= 1 << index`
unfoldable pub set_bit : ℕ → Bits → Bits
set_bit index b i = nat_beq i index || b i

-- `digest[offset : offset + 2]`
abbrev pub drop : ℕ → List ℕ → List ℕ
drop zero xs = xs
drop (suc n) [] = []
drop (suc n) (x ∷ xs) = drop n xs

abbrev pub first_two : List ℕ → List ℕ
first_two (x ∷ y ∷ _) = x ∷ y ∷ []
first_two xs = xs

-- `int.from_bytes(_, "big")`
abbrev pub from_bytes : ℕ → List ℕ → ℕ
from_bytes n [] = n
from_bytes n (x ∷ xs) = from_bytes (n * 256 + x) xs

unfoldable pub set_bits : List ℕ → Bits → Bits
unfolding set_bit
set_bits [] b = b
set_bits (index ∷ indexes) b = set_bits indexes (set_bit index b)

unfoldable pub has_bits : List ℕ → Bits → Bool
has_bits [] b = true
has_bits (index ∷ indexes) b = if b index then has_bits indexes b else false

module _ (sha256 : String → List ℕ) where
  -- `_indexes`
  unfoldable pub indexes : String → List ℕ
  indexes version =
      map (λ offset. from_bytes 0 (first_two (drop offset (sha256 version))) % bits) masks

  unfoldable pub add : String → Bits → Bits
  unfolding indexes set_bits
  add version = set_bits (indexes version)

  unfoldable pub contains : String → Bits → Bool
  unfolding indexes has_bits
  contains version b = has_bits (indexes version) b

  -- The versions of a sequence of runs, added in order.
  unfoldable pub add_all : List String → Bits → Bits
  unfolding add
  add_all [] b = b
  add_all (version ∷ versions) b = add_all versions (add version b)

set_bits-keeps : (is : List ℕ) (b : Bits) (i : ℕ) → b i ≡ true → set_bits is b i ≡ true
unfolding set_bits set_bit
set_bits-keeps [] b i h = h
set_bits-keeps (j ∷ is) b i h = set_bits-keeps is (set_bit j b) i (ground arith)

has_bits-keeps :
    (is js : List ℕ) (b : Bits) → has_bits is b ≡ true → has_bits is (set_bits js b) ≡ true
unfolding has_bits
has_bits-keeps [] js b h = refl
has_bits-keeps (i ∷ is) js b h = ground (arith, set_bits-keeps js b i, has_bits-keeps is js b)

has_bits-set_bits : (is : List ℕ) (b : Bits) → has_bits is (set_bits is b) ≡ true
unfolding has_bits set_bits
has_bits-set_bits [] b = refl
has_bits-set_bits (i ∷ is) b =
    ground (arith, set_bits-keeps is (set_bit i b) i (self i b), has_bits-set_bits is (set_bit i b))
  where
    self : (i : ℕ) (b : Bits) → set_bit i b i ≡ true
    self i b = unfold set_bit in ground arith

add_all-keeps :
    (sha256 : String → List ℕ) (vs : List String) (b : Bits) (v : String)
    → contains sha256 v b ≡ true
    → contains sha256 v (add_all sha256 vs b) ≡ true
unfolding add_all contains add
add_all-keeps sha256 [] b v h = h
add_all-keeps sha256 (w ∷ vs) b v h =
    add_all-keeps sha256 vs (add sha256 w b) v
      (has_bits-keeps (indexes sha256 v) (indexes sha256 w) b h)

abbrev pub listed : ℕ → List ℕ → Bool
listed i [] = false
listed i (j ∷ js) = nat_beq i j || listed i js

set_bits-listed : (js : List ℕ) (b : Bits) (i : ℕ) → set_bits js b i ≡ (listed i js || b i)
unfolding set_bits set_bit
set_bits-listed [] b i = refl
set_bits-listed (j ∷ js) b i = set_bits-listed js (set_bit j b) i ∙ ground arith

-- One of the versions has the index.
abbrev pub covered : (String → List ℕ) → List String → ℕ → Bool
covered sha256 [] i = false
covered sha256 (v ∷ vs) i = listed i (indexes sha256 v) || covered sha256 vs i

add_all-covered :
    (sha256 : String → List ℕ) (vs : List String) (b : Bits) (i : ℕ)
    → add_all sha256 vs b i ≡ (covered sha256 vs i || b i)
unfolding add_all add
add_all-covered sha256 [] b i = refl
add_all-covered sha256 (v ∷ vs) b i =
    add_all-covered sha256 vs (add sha256 v b) i
    ∙ ground (arith, set_bits-listed (indexes sha256 v) b i)

has_bits-covered :
    (sha256 : String → List ℕ) (vs : List String) (is : List ℕ)
    → has_bits is (add_all sha256 vs no_bits) ≡ all (covered sha256 vs) is
unfolding has_bits
has_bits-covered sha256 vs [] = refl
has_bits-covered sha256 vs (i ∷ is) =
    ground (arith, add_all-covered sha256 vs no_bits i, has_bits-covered sha256 vs is)

-- A version that has been added to a filter is found, whatever has been added before and is added
-- after; and a filter of some versions finds a version exactly where each index of it is an index
-- of one of them.
pub contains-add_all :
    (sha256 : String → List ℕ) (v : String) (before after : List String) (u : String)
    → (contains sha256 v (add_all sha256 after (add sha256 v (add_all sha256 before no_bits)))
        ≡ true)
      × (contains sha256 u (add_all sha256 after no_bits)
          ≡ all (covered sha256 after) (indexes sha256 u))
unfolding contains add
contains-add_all sha256 v before after u =
    let b = add_all sha256 before no_bits in
    (
      add_all-keeps sha256 after (add sha256 v b) v (has_bits-set_bits (indexes sha256 v) b),
      has_bits-covered sha256 after (indexes sha256 u),
    )

set_bits-bounded :
    (is : List ℕ) (b : Bits) (i : ℕ)
    → all (λ j. ltb j bits) is ≡ true
    → bits ≤ i
    → set_bits is b i ≡ b i
unfolding set_bits set_bit
set_bits-bounded [] b i h l = refl
set_bits-bounded (j ∷ is) b i h l =
    set_bits-bounded is (set_bit j b) i (ground arith) l ∙ ground arith

indexes_bounded :
    (sha256 : String → List ℕ) (v : String) → all (λ j. ltb j bits) (indexes sha256 v) ≡ true
unfolding indexes
indexes_bounded sha256 v = ground arith

-- The storage is bounded: no sequence of versions touches a bit from 16384 on.
pub add_all-bounded :
    (sha256 : String → List ℕ) (vs : List String) (b : Bits) (i : ℕ)
    → bits ≤ i
    → add_all sha256 vs b i ≡ b i
unfolding add_all add
add_all-bounded sha256 [] b i l = refl
add_all-bounded sha256 (v ∷ vs) b i l =
    add_all-bounded sha256 vs (add sha256 v b) i l
    ∙ set_bits-bounded (indexes sha256 v) b i (indexes_bounded sha256 v) l
