-- ===== src/Persistence/Repository/ExampleData.antt =====
-- The data of the tests of the repository: an order is registered, and then sent to its risk
-- evaluation.
use quanti_qmt.Persistence.RoundTrip.Registration.{IsRegistration, price_or_none_valid}
use quanti_qmt.Shared.Values.{instrument_is_valid, price_is_valid}
use quanti_qmt.Order.Guards.{validate_state_quantity}
use quanti_qmt.Order.Accounting.{IsValid}
use quanti_qmt.Persistence.RoundTrip.Whole.{IsPersisted}
use quanti_qmt.Persistence.Repository.Calls.{KeepsIds, register-IsConsistent}
use quanti_qmt.Persistence.Repository.Invariant.{
  intent_of, client_of, IsConsistent, new_store-IsConsistent,
}
use quanti_qmt.Base.{
  string_eq, sym, ◌∙◌, arith, is_stripped, ap, ℕ, ◌≡◌, refl, String, true, false, none, some,
  Result, ok, err, [], ◌∷◌,
}
use quanti_qmt.Base.Int.{pos}
use quanti_qmt.Base.Dict.{insert, lookup}
use quanti_qmt.Order.States.{OrderState}
use quanti_qmt.Order.Record.{trade_sum}
use quanti_qmt.Persistence.Json.{int, str, obj, Fields, end, field}
use quanti_qmt.Persistence.Call.{require_deadline, Call, StorageError}
use quanti_qmt.Persistence.Registration.{
  persisted_is_valid, registration_is_valid, OrderRegistration, PersistedOrder,
}
use quanti_qmt.Persistence.StatePayload.{order_state_payload}
use quanti_qmt.Persistence.ExamplePlatform.{platform}
use quanti_qmt.Persistence.Journal.Record.{OrderCommit, order_registered, order_transition_applied}
use quanti_qmt.Persistence.Repository.Store.{Store, RegisterOutcome, new_store}
use quanti_qmt.Persistence.Repository.Commit.{register, save}

abbrev pub registration : OrderRegistration
registration = record {
  order_id = "00000000-0000-4000-8000-000000000001";
  intent_id = "00000000-0000-4000-8000-000000000002";
  client_order_id = "client-1";
  account_id = "account";
  instrument_id = "600000.SH";
  side = str "BUY";
  position_effect = str "OPEN";
  order_type = str "LIMIT";
  quantity = 100;
  limit_price = some "10.50";
  time_in_force = str "DAY";
  owner_strategy_id = "strategy";
  owner_strategy_version = "1";
  registered_at = 3;
}

abbrev pub fingerprint : String
fingerprint = "0123456789abcdef0123456789abcdef0123456789abcdef0123456789abcdef"

abbrev pub first_state : PersistedOrder
first_state = record {
  registration = registration;
  order = record {
    order_id = "00000000-0000-4000-8000-000000000001";
    quantity = 100;
    state = OrderState.registered;
    cumulative_quantity = 0;
    version = 1;
    processed_facts = [];
    fact_conflicts = [];
    broker_sequences = [];
  };
  registration_fingerprint = fingerprint;
}

abbrev pub second_state : PersistedOrder
second_state = record first_state {
  order = record (first_state.order) { state = OrderState.risk_pending; version = 2 };
}

abbrev pub message : String → ℕ → Fields
message id version = field "message_id" (str id) (
    field "message_type" (str "oms.order_registered.v1") (
      field "schema_version" (int (pos 1)) (
        field "aggregate_id" (str "00000000-0000-4000-8000-000000000001") (
          field "aggregate_version" (int (pos version))
            (field "partition_key" (str "00000000-0000-4000-8000-000000000001") end)))))

unfoldable pub first_commit : OrderCommit
unfolding order_state_payload
first_commit = record {
  persisted_order = first_state;
  journal = record {
    journal_id = "00000000-0000-4000-8000-000000000011";
    order_id = "00000000-0000-4000-8000-000000000001";
    aggregate_version = 1;
    event_type = order_registered;
    payload = field "post_state" (obj (order_state_payload platform first_state)) end;
    occurred_at = 3;
    correlation_id = "correlation-00001";
    causation_id = none;
  };
  outbox_messages = message "m1" 1 ∷ [];
}

unfoldable pub second_commit : OrderCommit
unfolding order_state_payload
second_commit = record {
  persisted_order = second_state;
  journal = record {
    journal_id = "00000000-0000-4000-8000-000000000012";
    order_id = "00000000-0000-4000-8000-000000000001";
    aggregate_version = 2;
    event_type = order_transition_applied;
    payload = field "post_state" (obj (order_state_payload platform second_state)) end;
    occurred_at = 4;
    correlation_id = "correlation-00001";
    causation_id = none;
  };
  outbox_messages = message "m2" 2 ∷ [];
}

abbrev pub call : Call
call = record { deadline = pos 10; monotonic = 1 }

abbrev pub result_of : {A : Type 0} → A → Result StorageError A → A
result_of a (ok b) = b
result_of a (err e) = a

abbrev pub start : Store
start = new_store 7

unfoldable pub registered : RegisterOutcome × Store
unfolding register first_commit
registered =
    result_of (record { persisted_order = first_state; created = false }, start)
      (register platform call first_commit start)

pub registers : register platform call first_commit start ≡ ok registered
unfolding registered register first_commit platform new_store lookup
registers = refl

unfoldable pub saved : PersistedOrder × Store
unfolding save second_commit registered
saved = result_of (second_state, start) (save platform call second_commit 1 registered.1)

pub saves : save platform call second_commit 1 registered.1 ≡ ok saved
unfolding saved registered save register first_commit second_commit platform new_store lookup insert
saves = refl

pub created : registered.0.created ≡ true
unfolding registered register first_commit platform new_store lookup
created = refl

pub empty-IsConsistent : IsConsistent platform start
empty-IsConsistent = new_store-IsConsistent platform 7

pub registered-IsConsistent : IsConsistent platform registered.1
registered-IsConsistent =
    register-IsConsistent platform call first_commit start empty-IsConsistent registers

pub there :
    lookup second_commit.persisted_order.registration.order_id registered.1.orders
    ≡ some first_state
unfolding registered register first_commit second_commit platform new_store lookup insert
there = refl

pub some_eq : (p q : PersistedOrder) → some p ≡ some q → p ≡ q
some_eq p q h = cc

pub keeps_ids : KeepsIds second_commit registered.1
unfolding second_commit
keeps_ids = λ existing h.
    let same : first_state ≡ existing = some_eq first_state existing (sym there ∙ h) in
    (ap intent_of same, ap client_of same)

pub in_time : require_deadline call ≡ ok tt
unfolding require_deadline
in_time = refl

pub registration-IsRegistration : IsRegistration platform registration
unfolding platform instrument_is_valid price_or_none_valid price_is_valid registration_is_valid
    is_stripped
registration-IsRegistration = record {
  order_id_valid = refl;
  intent_id_valid = refl;
  instrument_valid = refl;
  price_valid = refl;
  valid = refl;
}

pub first-IsValid : IsValid first_state.order
unfolding validate_state_quantity trade_sum
first-IsValid = record {
  quantity_positive = omega arith;
  version_positive = omega arith;
  within = omega arith;
  accounted = refl;
  fits = refl;
  conflicts_valid = refl;
  sequences_valid = refl;
}

pub second-IsValid : IsValid second_state.order
unfolding validate_state_quantity trade_sum
second-IsValid = record {
  quantity_positive = omega arith;
  version_positive = omega arith;
  within = omega arith;
  accounted = refl;
  fits = refl;
  conflicts_valid = refl;
  sequences_valid = refl;
}

pub first-IsPersisted : IsPersisted platform first_state
unfolding persisted_is_valid
first-IsPersisted = record {
  registration_valid = registration-IsRegistration;
  persisted_valid = refl;
  order_valid = first-IsValid;
  facts_valid = refl;
  facts_once = tt;
  identities_valid = refl;
  conflicts_once = tt;
  fingerprints_once = tt;
  sequences_once = tt;
}

pub second-IsPersisted : IsPersisted platform second_state
unfolding persisted_is_valid
second-IsPersisted = record {
  registration_valid = registration-IsRegistration;
  persisted_valid = refl;
  order_valid = second-IsValid;
  facts_valid = refl;
  facts_once = tt;
  identities_valid = refl;
  conflicts_once = tt;
  fingerprints_once = tt;
  sequences_once = tt;
}
