-- ===== src/Persistence/RoundTrip/Registration.antt =====
-- Reading back the payload that was written of a persisted order.
use quanti_qmt.Base.{◌≡◌, String, Bool, true, Option, none, some, ok, string_eq, arith}
use quanti_qmt.Shared.Platform.{Platform}
use quanti_qmt.Shared.Time.{WritesOffset, parse_utc-format_utc}
use quanti_qmt.Shared.Values.{price_is_valid, instrument_is_valid}
use quanti_qmt.Order.Evidence.{identity_eq}
use quanti_qmt.Persistence.Json.{obj}
use quanti_qmt.Persistence.Payload.{index, text_of, int_of, get}
use quanti_qmt.Persistence.Registration.{
  OrderRegistration, order_registration, registration_is_valid,
}
use quanti_qmt.Persistence.StatePayload.{registration_to_payload}
use quanti_qmt.Persistence.Restore.{
  registration_from_payload, text_at, identifier_at, instrument_at, quantity_at, int_at,
  quantity_of,
}

unfoldable pub price_or_none_valid : Option String → Bool
price_or_none_valid none = true
price_or_none_valid (some p) = price_is_valid p

-- A registration whose fields their constructors have accepted.
pub record IsRegistration (platform : Platform) (r : OrderRegistration) : Type 0 where
  pub order_id_valid : platform.is_canonical_uuid r.order_id ≡ true
  pub intent_id_valid : platform.is_canonical_uuid r.intent_id ≡ true
  pub instrument_valid : instrument_is_valid r.instrument_id ≡ true
  pub price_valid : price_or_none_valid r.limit_price ≡ true
  pub valid : registration_is_valid r ≡ true

pub registration-roundtrip :
    (platform : Platform)
    → WritesOffset platform
    → (r : OrderRegistration) → IsRegistration platform r
    → registration_from_payload platform (obj (registration_to_payload platform r)) ≡ ok r
unfolding registration_from_payload registration_to_payload text_at identifier_at instrument_at
    quantity_at int_at quantity_of index get text_of int_of order_registration price_or_none_valid
registration-roundtrip platform law r v = ground (
  arith,
  parse_utc-format_utc platform law r.registered_at,
  v.order_id_valid,
  v.intent_id_valid,
  v.instrument_valid,
  v.price_valid,
  v.valid,
)
