-- ===== src/Persistence/StatePayload.antt =====
-- The payload of a persisted order, `order_state_payload`
-- (src/quantiqmt/order/application/persistence/serialization.py), and the names of the states.
use quanti_qmt.Base.{
  ℕ, String, Bool, Option, none, some, List, [], ◌∷◌, ◌==◌, string_eq, if◌then◌else◌, text_le,
}
use quanti_qmt.Base.Int.{pos}
use quanti_qmt.Base.Sort.{sorted, by_key}
use quanti_qmt.Shared.Platform.{Platform}
use quanti_qmt.Shared.Time.{format_utc}
use quanti_qmt.Order.States.{OrderState}
use quanti_qmt.Order.Evidence.{FactIdentity, ProcessedFact}
use quanti_qmt.Persistence.Json.{
  Json, null, int, str, arr, obj, Items, nil, cons, Fields, end, field,
}
use quanti_qmt.Persistence.Registration.{OrderRegistration, PersistedOrder}

-- `OrderState.value`
unfoldable pub state_value : OrderState → String
state_value OrderState.registered = "REGISTERED"
state_value OrderState.risk_pending = "RISK_PENDING"
state_value OrderState.approved = "APPROVED"
state_value OrderState.submitting = "SUBMITTING"
state_value OrderState.submit_unknown = "SUBMIT_UNKNOWN"
state_value OrderState.submitted = "SUBMITTED"
state_value OrderState.partially_filled = "PARTIALLY_FILLED"
state_value OrderState.cancel_pending = "CANCEL_PENDING"
state_value OrderState.cancel_unknown = "CANCEL_UNKNOWN"
state_value OrderState.suspended = "SUSPENDED"
state_value OrderState.rejected = "REJECTED"
state_value OrderState.canceled = "CANCELED"
state_value OrderState.filled = "FILLED"
state_value OrderState.expired = "EXPIRED"
state_value OrderState.failed = "FAILED"

abbrev pub all_states : List OrderState
all_states =
    OrderState.registered ∷ OrderState.risk_pending ∷ OrderState.approved ∷ OrderState.submitting
    ∷ OrderState.submit_unknown ∷ OrderState.submitted ∷ OrderState.partially_filled
    ∷ OrderState.cancel_pending ∷ OrderState.cancel_unknown ∷ OrderState.suspended
    ∷ OrderState.rejected ∷ OrderState.canceled ∷ OrderState.filled ∷ OrderState.expired
    ∷ OrderState.failed ∷ []

abbrev find_state : String → List OrderState → Option OrderState
find_state text [] = none
find_state text (s ∷ ss) =
    let rest = find_state text ss in if state_value s == text then some s else rest

-- `OrderState(text)`
unfoldable pub state_of : String → Option OrderState
unfolding state_value
state_of text = find_state text all_states

-- An optional text, or quantity, that may be `None`.
abbrev pub optional_text : Option String → Json
optional_text none = null
optional_text (some s) = str s

abbrev pub optional_number : Option ℕ → Json
optional_number none = null
optional_number (some n) = int (pos n)

module _ (platform : Platform) where
  -- `registration_to_payload`
  unfoldable pub registration_to_payload : OrderRegistration → Fields
  registration_to_payload r = field "order_id" (str r.order_id) (
      field "intent_id" (str r.intent_id) (
        field "client_order_id" (str r.client_order_id) (
          field "account_id" (str r.account_id) (
            field "instrument_id" (str r.instrument_id) (
              field "side" r.side (
                field "position_effect" r.position_effect (
                  field "order_type" r.order_type (
                    field "quantity" (int (pos r.quantity)) (
                      field "limit_price" (optional_text r.limit_price) (
                        field "time_in_force" r.time_in_force (
                          field "owner_strategy_id" (str r.owner_strategy_id) (
                            field "owner_strategy_version" (str r.owner_strategy_version) (
                              field "registered_at" (str (format_utc platform r.registered_at))
                                end)))))))))))))

-- `items` of a list comprehension
abbrev pub items_of {ℓ} : {A : Type ℓ} → (A → Json) → List A → Items
items_of f [] = nil
items_of f (x ∷ xs) = cons (f x) (items_of f xs)

-- `processed_fact_to_payload`, and the same record inside `order_state_payload`
unfoldable pub processed_fact_to_payload : FactIdentity × ProcessedFact → Json
processed_fact_to_payload (identity, fact) = obj (
    field "namespace" (str identity.namespace) (
      field "key" (str identity.key) (
        field "fingerprint" (str fact.fingerprint)
          (field "trade_quantity" (optional_number fact.trade_quantity) end))))

unfoldable pub conflict_to_payload : FactIdentity × List String → Json
conflict_to_payload (identity, fingerprints) = obj (
    field "namespace" (str identity.namespace) (
      field "key" (str identity.key)
        (field "conflicting_fingerprints" (arr (items_of str (sorted text_le fingerprints))) end)))

unfoldable pub sequence_to_payload : String × ℕ → Json
sequence_to_payload (stream, sequence) =
    obj (field "stream" (str stream) (field "last_observed_sequence" (int (pos sequence)) end))

-- `(item[0].namespace, item[0].key)`, in the order of tuples of texts
abbrev pub identity_le : FactIdentity → FactIdentity → Bool
identity_le a b =
    if a.namespace == b.namespace then text_le a.key b.key else text_le a.namespace b.namespace

-- `order_state_payload`
unfoldable pub order_state_payload : Platform → PersistedOrder → Fields
order_state_payload platform p = field "order_id" (str p.order.order_id) (
    field "intent_id" (str p.registration.intent_id) (
      field "client_order_id" (str p.registration.client_order_id) (
        field "registration" (obj (registration_to_payload platform p.registration)) (
          field "state" (str (state_value p.order.state)) (
            field "quantity" (int (pos p.order.quantity)) (
              field "cumulative_quantity" (int (pos p.order.cumulative_quantity)) (
                field "aggregate_version" (int (pos p.order.version)) (
                  field "processed_facts"
                    (arr (
                      items_of processed_fact_to_payload
                        (sorted (by_key identity_le) p.order.processed_facts)))
                    (field "fact_conflicts"
                      (arr (
                        items_of conflict_to_payload
                          (sorted (by_key identity_le) p.order.fact_conflicts)))
                      (field "broker_sequences"
                        (arr (
                          items_of sequence_to_payload
                            (sorted (by_key text_le) p.order.broker_sequences)))
                        (field "provisional_mappings" (arr nil) (
                          field "registration_fingerprint" (str p.registration_fingerprint)
                            end))))))))))))
