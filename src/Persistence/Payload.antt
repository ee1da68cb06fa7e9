-- ===== src/Persistence/Payload.antt =====
-- The payload of an entry as the code reads it: a JSON object, whose fields are looked up and set,
-- and `_normalize_json` and `_freeze_json` (src/quantiqmt/order/application/persistence).
-- A JSON value of this model has no floats, and its objects have texts as keys, so that the TypeErrors
-- of these two functions do not arise; the rest of `_freeze_json` returns an equal value.
use Prim.Native.String.{String}
use quanti_qmt.Base.{
  true, false, Option, none, some, Result, ok, err, List, [], ◌∷◌, ◌==◌, string_eq, if◌then◌else◌,
  or_raise,
}
use quanti_qmt.Base.Int.{ℤ, pos}
use quanti_qmt.Shared.Platform.{Platform}
use quanti_qmt.Shared.Numerals.{integer_text}
use quanti_qmt.Persistence.Json.{
  Json, null, bool, int, str, arr, obj, Items, nil, cons, Fields, end, field,
}
use quanti_qmt.Persistence.Call.{StorageError, value_error, key_error, type_error}

-- `payload.get(key)`
unfoldable pub get : String → Fields → Option Json
get key end = none
get key (field k v fs) = let rest = get key fs in if k == key then some v else rest

-- `payload[key] = value`
unfoldable pub set_field : String → Json → Fields → Fields
set_field key value end = field key value end
set_field key value (field k v fs) =
    let rest = set_field key value fs in if k == key then field k value fs else field k v rest

-- `value[key]`, of a value that may be no mapping
unfoldable pub index : String → Json → Result StorageError Json
unfolding get
index key (obj fs) = or_raise (get key fs) key_error
index key _ = err type_error

abbrev chars : String → Items
chars String.[] = nil
chars (String.◌∷◌ c s) = cons (str (String.◌∷◌ c String.[])) (chars s)

abbrev keys : Fields → Items
keys end = nil
keys (field k v fs) = cons (str k) (keys fs)

-- What `for item in value` goes through.
unfoldable pub iterate : Json → Result StorageError Items
iterate (arr xs) = ok xs
iterate (str s) = ok (chars s)
iterate (obj fs) = ok (keys fs)
iterate _ = err type_error

-- `get(key, [])`
unfoldable pub get_list : String → Fields → Json
get_list key fs = elim (get key fs) [ none ↦ arr nil | some v ↦ v ]

module _ (platform : Platform) where
  -- `str(value)`
  unfoldable mutual
    pub text_of : Json → String
    text_of null = "None"
    text_of (bool true) = "True"
    text_of (bool false) = "False"
    text_of (int z) = integer_text z
    text_of (str s) = s
    text_of (arr xs) = platform.repr_list (texts_of xs)
    text_of (obj fs) = platform.repr_dict (text_fields fs)

    texts_of : Items → List String
    texts_of nil = []
    texts_of (cons x xs) = text_of x ∷ texts_of xs

    text_fields : Fields → List (String × String)
    text_fields end = []
    text_fields (field k v fs) = (k, text_of v) ∷ text_fields fs

  -- `int(value)`
  unfoldable pub int_of : Json → Result StorageError ℤ
  int_of (int z) = ok z
  int_of (bool true) = ok (pos 1)
  int_of (bool false) = ok (pos 0)
  int_of (str s) = or_raise (platform.int_of_text s) value_error
  int_of _ = err type_error

  -- `_normalize_json`; a later key of an object overwrites an earlier one of the same normal form.
  unfoldable mutual
    pub normalize : Json → Json
    normalize (str s) = str (platform.nfc s)
    normalize (arr xs) = arr (normalize_items xs)
    normalize (obj fs) = obj (normalize_fields end fs)
    normalize null = null
    normalize (bool b) = bool b
    normalize (int z) = int z

    pub normalize_items : Items → Items
    normalize_items nil = nil
    normalize_items (cons x xs) = cons (normalize x) (normalize_items xs)

    pub normalize_fields : Fields → Fields → Fields
    normalize_fields done end = done
    normalize_fields done (field k v fs) =
        normalize_fields (set_field (platform.nfc k) (normalize v) done) fs
