-- ===== src/Persistence/Canonical.antt =====
-- `canonical_json_bytes` (src/quantiqmt/order/application/persistence/serialization.py), by the code
-- points of the text whose UTF-8 bytes it gives, and the digests of it.
use quanti_qmt.Base.{
  ℕ, ◌+◌, ◌/◌, ◌%◌, String, true, false, List, [], ◌∷◌, ◌++◌, codes, text_le, ltb, nat_beq,
  if◌then◌else◌,
}
use quanti_qmt.Base.Sort.{sorted, by_key}
use quanti_qmt.Shared.Platform.{Platform}
use quanti_qmt.Shared.Numerals.{integer_text}
use quanti_qmt.Persistence.Json.{
  Json, null, bool, int, str, arr, obj, Items, nil, cons, Fields, end, field,
}
use quanti_qmt.Persistence.Payload.{normalize}

abbrev hex_digit : ℕ → ℕ
hex_digit n = if ltb n 10 then 48 + n else 87 + n

-- The escapes of `json.dumps` with `ensure_ascii=False`.
unfoldable pub escape_char : ℕ → List ℕ
escape_char c =
    if nat_beq c 34
    then 92 ∷ 34 ∷ []
    else (if nat_beq c 92
        then 92 ∷ 92 ∷ []
        else (if nat_beq c 10
            then 92 ∷ 110 ∷ []
            else (if nat_beq c 13
                then 92 ∷ 114 ∷ []
                else (if nat_beq c 9
                    then 92 ∷ 116 ∷ []
                    else (if nat_beq c 12
                        then 92 ∷ 102 ∷ []
                        else (if nat_beq c 8
                            then 92 ∷ 98 ∷ []
                            else (if ltb c 32
                                then 92
                                  ∷ 117
                                  ∷ 48
                                  ∷ 48
                                  ∷ hex_digit (c / 16)
                                  ∷ hex_digit (c % 16)
                                  ∷ []
                                else c ∷ [])))))))

abbrev escape_all : List ℕ → List ℕ
escape_all [] = []
escape_all (c ∷ cs) = escape_char c ++ escape_all cs

-- A text in double quotes.
unfoldable pub quoted : String → List ℕ
unfolding escape_char
quoted s = 34 ∷ escape_all (codes s) ++ 34 ∷ []

-- `",".join(parts)`
abbrev pub joined : List (List ℕ) → List ℕ
joined [] = []
joined (x ∷ []) = x
joined (x ∷ y ∷ xs) = x ++ 44 ∷ joined (y ∷ xs)

abbrev pairs : List (String × List ℕ) → List (List ℕ)
pairs [] = []
pairs ((k, v) ∷ rest) = (quoted k ++ 58 ∷ v) ∷ pairs rest

-- `json.dumps(value, ensure_ascii=False, separators=(",", ":"), sort_keys=True)`
unfoldable mutual
  unfolding quoted integer_text sorted text_le

  pub dumps : Json → List ℕ
  dumps null = codes "null"
  dumps (bool true) = codes "true"
  dumps (bool false) = codes "false"
  dumps (int z) = codes (integer_text z)
  dumps (str s) = quoted s
  dumps (arr xs) = 91 ∷ joined (dumps_items xs) ++ 93 ∷ []
  dumps (obj fs) = 123 ∷ joined (pairs (sorted (by_key text_le) (dumps_fields fs))) ++ 125 ∷ []

  pub dumps_items : Items → List (List ℕ)
  dumps_items nil = []
  dumps_items (cons x xs) = dumps x ∷ dumps_items xs

  pub dumps_fields : Fields → List (String × List ℕ)
  dumps_fields end = []
  dumps_fields (field k v fs) = (k, dumps v) ∷ dumps_fields fs

module _ (platform : Platform) where
  unfoldable pub canonical_json : Fields → List ℕ
  unfolding normalize dumps
  canonical_json fs = dumps (normalize platform (obj fs))

  -- `sha256_lower_hex(canonical_json_bytes(value))`, which `registration_fingerprint` and, for a
  -- mapping, `snapshot_checksum` are
  unfoldable pub digest : Fields → String
  unfolding canonical_json
  digest fs = platform.sha256 (canonical_json fs)
