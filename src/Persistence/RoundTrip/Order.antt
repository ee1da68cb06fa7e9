-- ===== src/Persistence/RoundTrip/Order.antt =====
-- The whole round trip of a persisted order, up to the order of its dicts and sets.
use quanti_qmt.Base.{
  ◌+◌, ◌≡◌, refl, ap, ◌∙◌, String, Bool, not, some, List, [], ◌∷◌, all, string_eq, text_le, arith,
  blank,
}
use quanti_qmt.Base.Sort.{sorted, put, by_key, all-sorted}
use quanti_qmt.Base.Dict.{Dict}
use quanti_qmt.Order.States.{OrderState}
use quanti_qmt.Order.Evidence.{FactIdentity, identity_eq, ProcessedFact}
use quanti_qmt.Order.Record.{sequence_is_valid, Order, trade_sum, trade_of, conflict_is_valid}
use quanti_qmt.Order.Accounting.{IsValid}
use quanti_qmt.Persistence.StatePayload.{identity_le, state_value, state_of}
use quanti_qmt.Persistence.RoundTrip.Facts.{sorted_sets}

pub state_of-state_value : (s : OrderState) → state_of (state_value s) ≡ some s
unfolding state_of state_value
state_of-state_value OrderState.registered = refl
state_of-state_value OrderState.risk_pending = refl
state_of-state_value OrderState.approved = refl
state_of-state_value OrderState.submitting = refl
state_of-state_value OrderState.submit_unknown = refl
state_of-state_value OrderState.submitted = refl
state_of-state_value OrderState.partially_filled = refl
state_of-state_value OrderState.cancel_pending = refl
state_of-state_value OrderState.cancel_unknown = refl
state_of-state_value OrderState.suspended = refl
state_of-state_value OrderState.rejected = refl
state_of-state_value OrderState.canceled = refl
state_of-state_value OrderState.filled = refl
state_of-state_value OrderState.expired = refl
state_of-state_value OrderState.failed = refl

module _ (le : FactIdentity × ProcessedFact → FactIdentity × ProcessedFact → Bool) where
  trade_sum-put :
      (i : FactIdentity) (f : ProcessedFact) (facts : Dict FactIdentity ProcessedFact)
      → trade_sum (put le (i, f) facts) ≡ trade_of f + trade_sum facts
  unfolding put trade_sum
  trade_sum-put i f [] = refl
  trade_sum-put i f ((j, g) ∷ facts) = ground (arith, trade_sum-put i f facts)

  trade_sum-sorted :
      (facts : Dict FactIdentity ProcessedFact) → trade_sum (sorted le facts) ≡ trade_sum facts
  unfolding sorted trade_sum
  trade_sum-sorted [] = refl
  trade_sum-sorted ((i, f) ∷ facts) =
      trade_sum-put i f (sorted le facts) ∙ ap (λ s. trade_of f + s) (trade_sum-sorted facts)

-- The order with its dicts and sets in the order that a payload lists them.
unfoldable pub listed : Order → Order
listed o = record o {
  processed_facts = sorted (by_key identity_le) o.processed_facts;
  fact_conflicts = sorted_sets (sorted (by_key identity_le) o.fact_conflicts);
  broker_sequences = sorted (by_key text_le) o.broker_sequences;
}

conflicts_valid-sorted_sets :
    (conflicts : Dict FactIdentity (List String))
    → all conflict_is_valid (sorted_sets conflicts) ≡ all conflict_is_valid conflicts
conflicts_valid-sorted_sets [] = refl
conflicts_valid-sorted_sets ((i, ps) ∷ conflicts) =
    ground
      (arith, all-sorted text_le (λ p. not (blank p)) ps, conflicts_valid-sorted_sets conflicts)

pub listed-IsValid : (o : Order) → IsValid o → IsValid (listed o)
unfolding listed
listed-IsValid o v = record {
  quantity_positive = v.quantity_positive;
  version_positive = v.version_positive;
  within = v.within;
  accounted = trade_sum-sorted (by_key identity_le) o.processed_facts ∙ v.accounted;
  fits = v.fits;
  conflicts_valid =
      conflicts_valid-sorted_sets (sorted (by_key identity_le) o.fact_conflicts)
      ∙ all-sorted (by_key identity_le) conflict_is_valid o.fact_conflicts
      ∙ v.conflicts_valid;
  sequences_valid =
      all-sorted (by_key text_le) sequence_is_valid o.broker_sequences ∙ v.sequences_valid;
}
