-- ===== src/Persistence/RoundTrip/View.antt =====
-- What readers see of a persisted order, and that a round trip keeps it
-- (src/quantiqmt/order/application/persistence/serialization.py and
-- src/quantiqmt/order/infrastructure/memory.py).
use quanti_qmt.Base.{
  map_ok, ℕ, ◌≡◌, refl, ap, ◌∙◌, String, Bool, Option, ok, List, [], ◌∷◌, contains, string_eq,
  text_le, arith,
}
use quanti_qmt.Base.Sort.{sorted, by_key, lookup-sorted, contains-sorted}
use quanti_qmt.Base.Dict.{Dict, lookup}
use quanti_qmt.Shared.Platform.{Platform}
use quanti_qmt.Shared.Time.{WritesOffset}
use quanti_qmt.Order.States.{OrderState}
use quanti_qmt.Order.Evidence.{FactIdentity, identity_eq, ProcessedFact}
use quanti_qmt.Order.Record.{or_empty, conflicts_of}
use quanti_qmt.Persistence.Registration.{OrderRegistration, PersistedOrder}
use quanti_qmt.Persistence.StatePayload.{identity_le, order_state_payload}
use quanti_qmt.Persistence.Restore.{persisted_from_state_payload}
use quanti_qmt.Persistence.RoundTrip.Facts.{sorted_sets}
use quanti_qmt.Persistence.RoundTrip.Order.{listed}
use quanti_qmt.Persistence.RoundTrip.Whole.{IsPersisted, persisted-roundtrip_listed}

-- What a persisted order is to its readers: the order in which a dict or a set is listed is
-- forgotten.
pub record View : Type 0 where
  pub registration : OrderRegistration
  pub registration_fingerprint : String
  pub order_id : String
  pub quantity : ℕ
  pub state : OrderState
  pub cumulative_quantity : ℕ
  pub version : ℕ
  pub fact : FactIdentity → Option ProcessedFact
  pub is_conflict : FactIdentity → String → Bool
  pub sequence : String → Option ℕ

unfoldable pub view : PersistedOrder → View
view p = record {
  registration = p.registration;
  registration_fingerprint = p.registration_fingerprint;
  order_id = p.order.order_id;
  quantity = p.order.quantity;
  state = p.order.state;
  cumulative_quantity = p.order.cumulative_quantity;
  version = p.order.version;
  fact = λ i. lookup i p.order.processed_facts;
  is_conflict = λ i print. contains print (conflicts_of i p.order.fact_conflicts);
  sequence = λ s. lookup s p.order.broker_sequences;
}

conflicts_of-sorted_sets :
    (print : String) (i : FactIdentity) (d : Dict FactIdentity (List String))
    → contains print (conflicts_of i (sorted_sets d)) ≡ contains print (conflicts_of i d)
unfolding conflicts_of lookup
conflicts_of-sorted_sets print i [] = refl
conflicts_of-sorted_sets print i ((j, ps) ∷ d) =
    ground (arith, conflicts_of-sorted_sets print i d, contains-sorted text_le print ps)

pub view-listed :
    (platform : Platform) (p : PersistedOrder)
    → IsPersisted platform p
    → view (record p { order = listed p.order }) ≡ view p
unfolding view listed conflicts_of
view-listed platform p v = λ at. record {
  registration = p.registration;
  registration_fingerprint = p.registration_fingerprint;
  order_id = p.order.order_id;
  quantity = p.order.quantity;
  state = p.order.state;
  cumulative_quantity = p.order.cumulative_quantity;
  version = p.order.version;
  fact = λ i. lookup-sorted identity_le i p.order.processed_facts v.facts_once at;
  is_conflict = λ i print.
      (conflicts_of-sorted_sets print i (sorted (by_key identity_le) p.order.fact_conflicts)
          ∙ ap (λ ps. contains print (or_empty ps))
              (lookup-sorted identity_le i p.order.fact_conflicts v.conflicts_once))
        at;
  sequence = λ s. lookup-sorted text_le s p.order.broker_sequences v.sequences_once at;
}

-- Reading back the state payload of a valid persisted order gives an order that its readers cannot
-- tell from it: the same registration, state and quantities, and the same facts, conflicts and
-- sequences under every key. Condition: fromisoformat reads what isoformat writes.
pub persisted-roundtrip :
    (platform : Platform)
    → WritesOffset platform
    → (p : PersistedOrder) → IsPersisted platform p
    → map_ok view (
        persisted_from_state_payload platform
          (order_state_payload platform p)
          p.registration_fingerprint)
      ≡ ok (view p)
persisted-roundtrip platform law p v =
    rw (persisted-roundtrip_listed platform law p v) (ap ok (view-listed platform p v))
