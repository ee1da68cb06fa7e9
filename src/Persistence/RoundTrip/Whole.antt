-- ===== src/Persistence/RoundTrip/Whole.antt =====
-- The whole round trip of a persisted order, up to the order of its dicts and sets.
use quanti_qmt.Base.{
  ==-true, ◌&&◌, ℕ, ◌≡◌, refl, sym, ap, ◌∙◌, String, Bool, true, none, ok, List, [], ◌∷◌, all, All,
  IsDistinct, string_eq, text_le, arith,
}
use quanti_qmt.Base.Int.{pos}
use quanti_qmt.Base.Sort.{sorted, by_key, all-sorted, All-sorted, sorted-IsDict}
use quanti_qmt.Base.Dict.{Dict, IsDict, lookup}
use quanti_qmt.Shared.Platform.{Platform}
use quanti_qmt.Shared.Time.{WritesOffset}
use quanti_qmt.Order.Evidence.{FactIdentity, identity_eq}
use quanti_qmt.Order.Accounting.{IsValid, post_init_of_IsValid}
use quanti_qmt.Persistence.Json.{obj, arr}
use quanti_qmt.Persistence.Payload.{index, text_of, int_of, get, get_list, iterate}
use quanti_qmt.Persistence.Registration.{PersistedOrder, persisted_is_valid, persisted_order}
use quanti_qmt.Persistence.StatePayload.{
  identity_le, state_value, order_state_payload, registration_to_payload, items_of,
  processed_fact_to_payload, conflict_to_payload, sequence_to_payload,
}
use quanti_qmt.Persistence.Restore.{
  text_at, int_at, identifier_at, quantity_at, quantity_of, restored_order, order_from_payload,
  persisted_from_state_payload,
}
use quanti_qmt.Persistence.RoundTrip.Registration.{IsRegistration, registration-roundtrip}
use quanti_qmt.Persistence.RoundTrip.Facts.{
  sorted_sets, as_integers, fact_entry_is_valid, conflict_entry_is_valid, facts-roundtrip,
  conflicts-roundtrip, sequences-roundtrip, non_negative_values-as_integers,
}
use quanti_qmt.Persistence.RoundTrip.Order.{listed, listed-IsValid, state_of-state_value}

-- A persisted order whose parts their constructors have accepted, and whose dicts and sets list
-- each key and each element once.
pub record IsPersisted (platform : Platform) (p : PersistedOrder) : Type 0 where
  pub registration_valid : IsRegistration platform p.registration
  pub persisted_valid : persisted_is_valid p ≡ true
  pub order_valid : IsValid p.order
  pub facts_valid : all fact_entry_is_valid p.order.processed_facts ≡ true
  pub facts_once : IsDict p.order.processed_facts
  pub identities_valid : all conflict_entry_is_valid p.order.fact_conflicts ≡ true
  pub conflicts_once : IsDict p.order.fact_conflicts
  pub fingerprints_once : All (λ c. IsDistinct c.1) p.order.fact_conflicts
  pub sequences_once : IsDict p.order.broker_sequences

lookup-sorted_sets :
    (k : FactIdentity) (d : Dict FactIdentity (List String))
    → lookup k d ≡ none
    → lookup k (sorted_sets d) ≡ none
unfolding lookup
lookup-sorted_sets k [] h = refl
lookup-sorted_sets k ((j, ps) ∷ d) h = ground (arith, lookup-sorted_sets k d)

sorted_sets-IsDict : (d : Dict FactIdentity (List String)) → IsDict d → IsDict (sorted_sets d)
sorted_sets-IsDict [] h = tt
sorted_sets-IsDict ((j, ps) ∷ d) h = (lookup-sorted_sets j d h.0, sorted_sets-IsDict d h.1)

lookup-as_integers :
    (k : String) (d : Dict String ℕ) → lookup k d ≡ none → lookup k (as_integers d) ≡ none
unfolding lookup
lookup-as_integers k [] h = refl
lookup-as_integers k ((j, n) ∷ d) h = ground (arith, lookup-as_integers k d)

as_integers-IsDict : (d : Dict String ℕ) → IsDict d → IsDict (as_integers d)
as_integers-IsDict [] h = tt
as_integers-IsDict ((j, n) ∷ d) h = (lookup-as_integers j d h.0, as_integers-IsDict d h.1)

first_true : (a b c : Bool) → (a && b && c) ≡ true → a ≡ true
first_true a b c h = ground arith

module _ (platform : Platform) where
  facts_of_payload :
      (p : PersistedOrder)
      → get_list "processed_facts" (order_state_payload platform p)
        ≡ arr (
            items_of processed_fact_to_payload
              (sorted (by_key identity_le) p.order.processed_facts))
  unfolding get_list get order_state_payload
  facts_of_payload p = refl

  conflicts_of_payload :
      (p : PersistedOrder)
      → get_list "fact_conflicts" (order_state_payload platform p)
        ≡ arr (items_of conflict_to_payload (sorted (by_key identity_le) p.order.fact_conflicts))
  unfolding get_list get order_state_payload
  conflicts_of_payload p = refl

  sequences_of_payload :
      (p : PersistedOrder)
      → get_list "broker_sequences" (order_state_payload platform p)
        ≡ arr (items_of sequence_to_payload (sorted (by_key text_le) p.order.broker_sequences))
  unfolding get_list get order_state_payload
  sequences_of_payload p = refl

  head_of_payload :
      (p : PersistedOrder)
      → platform.is_canonical_uuid p.order.order_id ≡ true
      → (identifier_at platform "order_id" (obj (order_state_payload platform p))
          ≡ ok p.order.order_id)
        × (quantity_at platform "quantity" (obj (order_state_payload platform p))
            ≡ ok p.order.quantity)
        × (text_at platform "state" (obj (order_state_payload platform p))
            ≡ ok (state_value p.order.state))
        × (quantity_at platform "cumulative_quantity" (obj (order_state_payload platform p))
            ≡ ok p.order.cumulative_quantity)
        × (int_at platform "aggregate_version" (obj (order_state_payload platform p))
            ≡ ok (pos p.order.version))
  unfolding identifier_at quantity_at text_at int_at quantity_of index get text_of int_of
      order_state_payload
  head_of_payload p h = rw h (refl, refl, refl, refl, refl)

  pub order-roundtrip :
      (p : PersistedOrder)
      → IsPersisted platform p
      → platform.is_canonical_uuid p.order.order_id ≡ true
      → order_from_payload platform (order_state_payload platform p) ≡ ok (listed p.order)
  unfolding order_from_payload iterate quantity_of listed restored_order
  order-roundtrip p v h =
      let head = head_of_payload p h in
      rw
        (
          head.0,
          head.1,
          head.2,
          head.3,
          head.4,
          state_of-state_value p.order.state,
          facts_of_payload p,
          conflicts_of_payload p,
          sequences_of_payload p,
          facts-roundtrip platform [] (sorted (by_key identity_le) p.order.processed_facts)
              (all-sorted (by_key identity_le) fact_entry_is_valid p.order.processed_facts
                ∙ v.facts_valid)
              (sorted-IsDict identity_le p.order.processed_facts v.facts_once),
          conflicts-roundtrip platform [] (sorted (by_key identity_le) p.order.fact_conflicts)
              (all-sorted (by_key identity_le) conflict_entry_is_valid p.order.fact_conflicts
                ∙ v.identities_valid)
              (All-sorted (λ c. IsDistinct c.1) (by_key identity_le) p.order.fact_conflicts
                v.fingerprints_once)
              (sorted_sets-IsDict _
                (sorted-IsDict identity_le p.order.fact_conflicts v.conflicts_once)),
          sequences-roundtrip platform [] (sorted (by_key text_le) p.order.broker_sequences) (
              as_integers-IsDict _
                (sorted-IsDict text_le p.order.broker_sequences v.sequences_once)),
          non_negative_values-as_integers (sorted (by_key text_le) p.order.broker_sequences),
          post_init_of_IsValid (listed p.order) (listed-IsValid p.order v.order_valid),
        )
        refl

  registration_of_payload :
      (p : PersistedOrder)
      → index "registration" (obj (order_state_payload platform p))
        ≡ ok (obj (registration_to_payload platform p.registration))
  unfolding index get order_state_payload
  registration_of_payload p = refl

  persisted_of_listed :
      (p : PersistedOrder)
      → persisted_is_valid p ≡ true
      → persisted_order (record p { order = listed p.order })
        ≡ ok (record p { order = listed p.order })
  unfolding persisted_order persisted_is_valid listed
  persisted_of_listed p h = rw h

  same_id_valid :
      (p : PersistedOrder)
      → IsPersisted platform p
      → platform.is_canonical_uuid p.order.order_id ≡ true
  unfolding persisted_is_valid
  same_id_valid p v =
      ap platform.is_canonical_uuid (
        sym (==-true p.registration.order_id p.order.order_id (first_true _ _ _ v.persisted_valid)))
      ∙ v.registration_valid.order_id_valid

  pub persisted-roundtrip_listed :
      WritesOffset platform
      → (p : PersistedOrder) → IsPersisted platform p
      → persisted_from_state_payload platform
          (order_state_payload platform p)
          p.registration_fingerprint
        ≡ ok (record p { order = listed p.order })
  unfolding persisted_from_state_payload
  persisted-roundtrip_listed law p v = rw (
    registration_of_payload p,
    registration-roundtrip platform law p.registration v.registration_valid,
    order-roundtrip p v (same_id_valid p v),
    persisted_of_listed p v.persisted_valid,
    persisted_from_state_payload,
  )
