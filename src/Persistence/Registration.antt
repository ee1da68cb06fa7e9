-- ===== src/Persistence/Registration.antt =====
-- The registration of an order and the persisted order
-- (src/quantiqmt/order/application/persistence/model.py). The fields that the source types as
-- `Literal` hold any JSON value, since no constructor tests them; a price is its canonical text.
use quanti_qmt.Base.{
  ℕ, String, Bool, false, not, ◌&&◌, ◌||◌, Option, Result, ok, err, leb, nat_beq, codes, length,
  all, is_stripped, is_some, ◌==◌, string_eq, if◌then◌else◌,
}
use quanti_qmt.Order.Record.{Order}
use quanti_qmt.Persistence.Json.{Json, str}
use quanti_qmt.Persistence.Call.{StorageError, value_error}

pub record OrderRegistration : Type 0 where
  pub order_id : String
  pub intent_id : String
  pub client_order_id : String
  pub account_id : String
  pub instrument_id : String
  pub side : Json
  pub position_effect : Json
  pub order_type : Json
  pub quantity : ℕ
  pub limit_price : Option String
  pub time_in_force : Json
  pub owner_strategy_id : String
  pub owner_strategy_version : String
  pub registered_at : ℕ

-- `1 <= len(text) <= maximum and text == text.strip()`
abbrev pub is_trimmed : ℕ → String → Bool
is_trimmed maximum text =
    leb 1 (length (codes text)) && leb (length (codes text)) maximum && is_stripped text

abbrev is_limit : Json → Bool
is_limit (str s) = s == "LIMIT"
is_limit _ = false

-- What `OrderRegistration.__post_init__` and `_validate_registration_common` accept.
unfoldable pub registration_is_valid : OrderRegistration → Bool
registration_is_valid r =
    not (nat_beq r.quantity 0)
    && is_trimmed 128 r.account_id
    && is_trimmed 128 r.owner_strategy_id
    && is_trimmed 64 r.owner_strategy_version
    && is_trimmed 128 r.client_order_id
    && (not (is_limit r.order_type) || is_some r.limit_price)

-- `OrderRegistration(...)`
unfoldable pub order_registration : OrderRegistration → Result StorageError OrderRegistration
unfolding registration_is_valid
order_registration r = if registration_is_valid r then ok r else err value_error

abbrev is_hex_digit : ℕ → Bool
is_hex_digit c = (leb 48 c && leb c 57) || (leb 97 c && leb c 102)

-- `_require_sha256_hex`
unfoldable pub is_sha256_hex : String → Bool
is_sha256_hex text = nat_beq (length (codes text)) 64 && all is_hex_digit (codes text)

pub record PersistedOrder : Type 0 where
  pub registration : OrderRegistration
  pub order : Order
  pub registration_fingerprint : String

-- What `PersistedOrder.__post_init__` accepts.
unfoldable pub persisted_is_valid : PersistedOrder → Bool
unfolding is_sha256_hex
persisted_is_valid p =
    p.registration.order_id == p.order.order_id
    && nat_beq p.registration.quantity p.order.quantity
    && is_sha256_hex p.registration_fingerprint

-- `PersistedOrder(registration, order, registration_fingerprint)`
unfoldable pub persisted_order : PersistedOrder → Result StorageError PersistedOrder
unfolding persisted_is_valid
persisted_order p = if persisted_is_valid p then ok p else err value_error
