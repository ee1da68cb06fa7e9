-- ===== src/Market/Quality/State.antt =====
-- The state and the evidence of the market quality pipeline (src/quantiqmt/market/quality.py).
-- A sequence or version is an ℕ: the schemas of the payloads refuse negative ones.
use quanti_qmt.Base.{
  ℕ, String, Bool, true, false, not, Option, none, some, List, [], ◌∷◌, Result, ok, err, ◌==◌,
  nat_beq, if◌then◌else◌, string_eq, nat_eq, codes, length,
}
use quanti_qmt.Base.Dict.{Dict, lookup}

-- `MarketContractError` and its subclass; a `TypeError` is what `min` and `max` raise on a `None`.
pub data MarketError : Type 0 where
  contract_error : String → MarketError
  baseline_missing : String → MarketError
  must_be_integer : String → MarketError
  policy_missing : String → MarketError
  identity_collision : String → MarketError
  type_error : MarketError

-- The texts that the pipeline keeps in `quality`.
pub data Quality : Type 0 where
  normal : Quality
  degraded : Quality
  stale : Quality
  gap : Quality
  unavailable : Quality
  recovering : Quality

pub record QualityState : Type 0 where
  pub provider : String
  pub instrument_id : String
  pub calendar_id : String
  pub calendar_version : String
  pub session_id : String
  pub quality : Quality
  pub quality_version : ℕ
  pub source_version : ℕ
  pub unresolved_gap_count : ℕ
  pub gap_start_sequence : Option ℕ
  pub gap_end_sequence : Option ℕ
  pub reason_code : String
  pub contiguous_source_version : ℕ
  pub highest_observed_sequence : ℕ
  pub expected_gap_end_sequence : ℕ
  pub pending_backfill_sequences : List ℕ  -- a set
  pub recovery_gap_start_sequence : Option ℕ
  pub recovery_gap_end_sequence : Option ℕ

-- A value of a payload. A value of another type, by its canonical text; the canonical form of a
-- payload has no floats.
pub data Value : Type 0 where
  null : Value
  bool : Bool → Value
  int : ℕ → Value
  text : String → Value
  other : String → Value

-- `Mapping[str, object]`
abbrev pub Payload : Type 0
Payload = Dict String Value

-- `payload.get(field)`
abbrev pub get : String → Payload → Value
get field p = elim (lookup field p) [ none ↦ null | some v ↦ v ]

-- Python's `==` on values: a bool is the integer 0 or 1.
abbrev pub value_beq : Value → Value → Bool
value_beq null null = true
value_beq (bool true) (bool b) = b
value_beq (bool false) (bool b) = not b
value_beq (bool true) (int n) = nat_beq n 1
value_beq (bool false) (int n) = nat_beq n 0
value_beq (int n) (bool true) = nat_beq n 1
value_beq (int n) (bool false) = nat_beq n 0
value_beq (int m) (int n) = nat_beq m n
value_beq (text s) (text t) = s == t
value_beq (other s) (other t) = s == t
value_beq _ _ = false

-- `int | None` as a value
abbrev pub optional : Option ℕ → Value
optional none = null
optional (some n) = int n

-- `_evidence_int`
unfoldable pub evidence_int : String → Payload → Result MarketError ℕ
evidence_int field p = elim (get field p) [ int n ↦ ok n | _ ↦ err (must_be_integer field) ]

abbrev pub is_int : Value → Bool
is_int (int _) = true
is_int _ = false

-- A text of 64 characters.
abbrev pub is_checksum : Value → Bool
is_checksum (text s) = nat_beq (length (codes s)) 64
is_checksum _ = false

-- The fields of the identity with their values in a state: `getattr(state, field)`.
abbrev pub identity_fields : QualityState → List (String × String)
identity_fields s =
    ("provider", s.provider)
    ∷ ("instrument_id", s.instrument_id)
    ∷ ("calendar_id", s.calendar_id)
    ∷ ("calendar_version", s.calendar_version)
    ∷ ("session_id", s.session_id)
    ∷ []

-- The payload has each of the values.
abbrev pub has_values : Payload → List (String × String) → Bool
has_values p [] = true
has_values p ((field, value) ∷ fields) =
    if value_beq (get field p) (text value) then has_values p fields else false

-- Two payloads have the same value of each of the fields.
abbrev pub agree_on : Payload → Payload → List String → Bool
agree_on p q [] = true
agree_on p q (field ∷ fields) =
    if value_beq (get field p) (get field q) then agree_on p q fields else false

-- A check of the code: raise, or go on.
abbrev pub raise_if {ℓ} : {A : Type ℓ} → Bool → String → Result MarketError A → Result MarketError A
raise_if bad message rest = if bad then err (contract_error message) else rest
