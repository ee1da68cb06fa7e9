-- ===== src/Shared/Platform.antt =====
-- What the code calls of Python's standard library and does not define: Unicode normalization,
-- hashing, UUIDs, ISO-8601 texts of instants, and the texts of containers.
use quanti_qmt.Base.{ℕ, String, Bool, Option, List}
use quanti_qmt.Base.Int.{ℤ}

pub record Platform : Type 0 where
  -- `unicodedata.normalize("NFC", text)`
  pub nfc : String → String
  -- `hashlib.sha256(text.encode("utf-8")).hexdigest()`, the text by its code points
  pub sha256 : List ℕ → String
  -- `str(uuid.UUID(text)) == text`
  pub is_canonical_uuid : String → Bool
  -- `value.isoformat()` of a UTC datetime, in microseconds since year 1
  pub isoformat : ℕ → String
  -- `datetime.fromisoformat(text)`, which raises ValueError, for texts of offset zero
  pub fromisoformat : String → Option ℕ
  -- `int(text)`, which raises ValueError
  pub int_of_text : String → Option ℤ
  -- `str` of a list, by the texts of its values, and of a dict
  pub repr_list : List String → String
  pub repr_dict : List (String × String) → String
