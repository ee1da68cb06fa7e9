-- ===== src/Persistence/Restore.antt =====
-- The persisted order that a state payload describes, `_persisted_from_state_payload`
-- (src/quantiqmt/order/infrastructure/memory.py). The comprehensions write each dict and set in
-- the order of the payload's list.
use quanti_qmt.Base.{
  ℕ, String, Option, none, some, Result, ok, err, ◌>>=◌, ◌>>◌, ensure, or_raise, List, [], ◌∷◌,
  string_eq, if◌then◌else◌,
}
use quanti_qmt.Base.Int.{ℤ, pos, negsuc}
use quanti_qmt.Base.Dict.{Dict, insert}
use quanti_qmt.Shared.Platform.{Platform}
use quanti_qmt.Shared.Time.{parse_utc}
use quanti_qmt.Shared.Values.{price_is_valid, instrument_is_valid}
use quanti_qmt.Order.Evidence.{
  FactIdentity, fact_identity, ProcessedFact, processed_is_valid, Error, identity_eq,
}
use quanti_qmt.Order.Record.{Order, post_init, add_fingerprint}
use quanti_qmt.Persistence.Json.{Json, null, Items, nil, cons, Fields, obj}
use quanti_qmt.Persistence.Call.{StorageError, value_error}
use quanti_qmt.Persistence.Payload.{get, index, iterate, get_list, text_of, int_of}
use quanti_qmt.Persistence.Registration.{
  OrderRegistration, order_registration, PersistedOrder, persisted_order,
}
use quanti_qmt.Persistence.StatePayload.{state_of}

-- `Quantity(n)`
unfoldable pub quantity_of : ℤ → Result StorageError ℕ
quantity_of (pos n) = ok n
quantity_of (negsuc _) = err value_error

-- The errors of the constructors of src/quantiqmt/order/domain/model.py that are called here are
-- ValueErrors.
abbrev pub as_value_error : {A : Type 0} → Result Error A → Result StorageError A
as_value_error (ok a) = ok a
as_value_error (err _) = err value_error

module _ (platform : Platform) where
  -- `str(value[key])`
  unfoldable pub text_at : String → Json → Result StorageError String
  unfolding index text_of
  text_at key value = do v ← index key value; ok (text_of platform v)

  -- `int(value[key])`
  unfoldable pub int_at : String → Json → Result StorageError ℤ
  unfolding index int_of
  int_at key value = do v ← index key value; int_of platform v

  -- `Quantity(int(value[key]))`
  unfoldable pub quantity_at : String → Json → Result StorageError ℕ
  unfolding int_at quantity_of
  quantity_at key value = do n ← int_at key value; quantity_of n

  -- `Identifier(str(value[key]))`
  unfoldable pub identifier_at : String → Json → Result StorageError String
  unfolding text_at
  identifier_at key value = do
    text ← text_at key value
    ensure (platform.is_canonical_uuid text) value_error
    ok text

  unfoldable pub instrument_at : String → Json → Result StorageError String
  unfolding text_at
  instrument_at key value = do
    text ← text_at key value
    ensure (instrument_is_valid text) value_error
    ok text

  abbrev price_of : Json → Result StorageError (Option String)
  price_of null = ok none
  price_of v = do
    ensure (price_is_valid (text_of platform v)) value_error
    ok (some (text_of platform v))

  -- The registration inside a state payload.
  unfoldable pub registration_from_payload : Json → Result StorageError OrderRegistration
  unfolding text_at identifier_at instrument_at quantity_at
  registration_from_payload v = do
    order_id ← identifier_at "order_id" v
    intent_id ← identifier_at "intent_id" v
    client_order_id ← text_at "client_order_id" v
    account_id ← text_at "account_id" v
    instrument_id ← instrument_at "instrument_id" v
    side ← index "side" v
    position_effect ← index "position_effect" v
    order_type ← index "order_type" v
    quantity ← quantity_at "quantity" v
    price ← index "limit_price" v
    limit_price ← price_of price
    time_in_force ← index "time_in_force" v
    owner_strategy_id ← text_at "owner_strategy_id" v
    owner_strategy_version ← text_at "owner_strategy_version" v
    instant ← text_at "registered_at" v
    registered_at ← or_raise (parse_utc platform instant) value_error
    order_registration (record {
      order_id = order_id;
      intent_id = intent_id;
      client_order_id = client_order_id;
      account_id = account_id;
      instrument_id = instrument_id;
      side = side;
      position_effect = position_effect;
      order_type = order_type;
      quantity = quantity;
      limit_price = limit_price;
      time_in_force = time_in_force;
      owner_strategy_id = owner_strategy_id;
      owner_strategy_version = owner_strategy_version;
      registered_at = registered_at;
    })

  -- `value.get(key)` of an item that `index` has read before
  abbrev value_or_null : String → Json → Json
  value_or_null key (obj fs) = elim (get key fs) [ none ↦ null | some v ↦ v ]
  value_or_null key _ = null

  abbrev trade_quantity_of : Json → Result StorageError (Option ℕ)
  trade_quantity_of null = ok none
  trade_quantity_of v = do n ← int_of platform v; q ← quantity_of n; ok (some q)

  -- `FactIdentity(str(item["namespace"]), str(item["key"]))`
  unfoldable pub identity_from_payload : Json → Result StorageError FactIdentity
  unfolding text_at
  identity_from_payload item = do
    namespace ← text_at "namespace" item
    key ← text_at "key" item
    as_value_error (fact_identity namespace key)

  abbrev check_processed : ProcessedFact → Result StorageError ProcessedFact
  check_processed f = if processed_is_valid f then ok f else err value_error

  -- `ProcessedFact(str(item["fingerprint"]), ...)`
  unfoldable pub processed_from_payload : Json → Result StorageError ProcessedFact
  unfolding text_at int_of quantity_of
  processed_from_payload item = do
    fingerprint ← text_at "fingerprint" item
    trade_quantity ← trade_quantity_of (value_or_null "trade_quantity" item)
    check_processed (record { fingerprint = fingerprint; trade_quantity = trade_quantity })

  unfoldable pub facts_from_payload :
      Dict FactIdentity ProcessedFact
      → Items
      → Result StorageError (Dict FactIdentity ProcessedFact)
  unfolding identity_from_payload processed_from_payload
  facts_from_payload done nil = ok done
  facts_from_payload done (cons item items) = do
    identity ← identity_from_payload item
    fact ← processed_from_payload item
    facts_from_payload (insert identity fact done) items

  -- `frozenset(str(value) for value in ...)`
  unfoldable pub fingerprints_from : List String → Items → List String
  fingerprints_from done nil = done
  fingerprints_from done (cons item items) =
      fingerprints_from (add_fingerprint (text_of platform item) done) items

  unfoldable pub conflicts_from_payload :
      Dict FactIdentity (List String)
      → Items
      → Result StorageError (Dict FactIdentity (List String))
  unfolding identity_from_payload fingerprints_from
  conflicts_from_payload done nil = ok done
  conflicts_from_payload done (cons item items) = do
    identity ← identity_from_payload item
    values ← index "conflicting_fingerprints" item
    listed ← iterate values
    conflicts_from_payload (insert identity (fingerprints_from [] listed) done) items

  unfoldable pub sequences_from_payload :
      Dict String ℤ → Items → Result StorageError (Dict String ℤ)
  unfolding text_at int_at
  sequences_from_payload done nil = ok done
  sequences_from_payload done (cons item items) = do
    stream ← text_at "stream" item
    sequence ← int_at "last_observed_sequence" item
    sequences_from_payload (insert stream sequence done) items

-- A dict of sequences none of which is negative.
unfoldable pub non_negative_values : Dict String ℤ → Result StorageError (Dict String ℕ)
unfolding quantity_of
non_negative_values [] = ok []
non_negative_values ((stream, sequence) ∷ rest) = do
  n ← quantity_of sequence
  ns ← non_negative_values rest
  ok ((stream, n) ∷ ns)

-- `Order(...)`, of the values that the payload gives
unfoldable pub restored_order : Order → Result StorageError Order
restored_order o = do as_value_error (post_init o); ok o

module _ (platform : Platform) where
  unfoldable pub order_from_payload : Fields → Result StorageError Order
  unfolding text_at identifier_at quantity_at int_at get_list iterate quantity_of facts_from_payload
      conflicts_from_payload sequences_from_payload non_negative_values restored_order
  order_from_payload payload = do
    order_id ← identifier_at platform "order_id" (obj payload)
    quantity ← quantity_at platform "quantity" (obj payload)
    name ← text_at platform "state" (obj payload)
    state ← or_raise (state_of name) value_error
    cumulative_quantity ← quantity_at platform "cumulative_quantity" (obj payload)
    version ← int_at platform "aggregate_version" (obj payload)
    listed_facts ← iterate (get_list "processed_facts" payload)
    processed_facts ← facts_from_payload platform [] listed_facts
    listed_conflicts ← iterate (get_list "fact_conflicts" payload)
    fact_conflicts ← conflicts_from_payload platform [] listed_conflicts
    listed_sequences ← iterate (get_list "broker_sequences" payload)
    sequences ← sequences_from_payload platform [] listed_sequences
    positive_version ← quantity_of version
    broker_sequences ← non_negative_values sequences
    restored_order (record {
      order_id = order_id;
      quantity = quantity;
      state = state;
      cumulative_quantity = cumulative_quantity;
      version = positive_version;
      processed_facts = processed_facts;
      fact_conflicts = fact_conflicts;
      broker_sequences = broker_sequences;
    })

  -- `_persisted_from_state_payload`
  unfoldable pub persisted_from_state_payload : Fields → String → Result StorageError PersistedOrder
  unfolding index registration_from_payload order_from_payload
  persisted_from_state_payload payload fingerprint = do
    listed ← index "registration" (obj payload)
    registration ← registration_from_payload platform listed
    order ← order_from_payload payload
    persisted_order (record {
      registration = registration;
      order = order;
      registration_fingerprint = fingerprint;
    })
