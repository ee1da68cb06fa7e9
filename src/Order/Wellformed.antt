-- ===== src/Order/Wellformed.antt =====
-- The well-formedness of an order, which `Order.__post_init__` decides, and its preservation by
-- `_commit` (src/quantiqmt/order/domain/model.py).
use quanti_qmt.Base.{
  ℕ, ◌≡◌, refl, inl, inr, String, Bool, true, false, not, Option, none, some, List, [], ◌∷◌, ◌++◌,
  ok, is_some, is_none, ◌||◌, max, all, arith, blank, Bool-cases, Option-cases, Result-cases,
  string_eq,
}
use quanti_qmt.Base.Dict.{Dict, lookup, all-insert, all-lookup}
use quanti_qmt.Order.States.{OrderEvent}
use quanti_qmt.Order.Catalog.{Definition, transitions}
use quanti_qmt.Order.Evidence.{
  FactIdentity, identity_eq, ExternalFact, GuardEvidence, fact_is_valid, Error, is_falsy,
}
use quanti_qmt.Order.Guards.{guard_passes, guard_failure}
use quanti_qmt.Order.Record.{
  Order, Outcome, conflict_is_valid, sequence_is_valid, next_sequences, conflicts_of,
  add_fingerprint, next_conflicts, candidate, apply_commit, or_empty, observe, observed,
}
use quanti_qmt.Order.Aggregate.{commit_guarded, commit, no_op, raise}
use quanti_qmt.Order.Accounting.{
  IsValid, FactIsValid, IsFresh, candidate-accounted, candidate_bounds, candidate-fits,
}

all-append_one :
    (p : String → Bool) (x : String) (xs : List String)
    → p x ≡ true
    → all p xs ≡ true
    → all p (xs ++ x ∷ []) ≡ true
all-append_one p x [] h a = ground arith
all-append_one p x (y ∷ xs) h a = ground (arith, all-append_one p x xs h)

add_fingerprint-valid :
    (p : String) (ps : List String)
    → not (blank p) ≡ true
    → all (λ q. not (blank q)) ps ≡ true
    → all (λ q. not (blank q)) (add_fingerprint p ps) ≡ true
unfolding add_fingerprint
add_fingerprint-valid p ps h a = ground (arith, all-append_one (λ q. not (blank q)) p ps h a)

conflicts_of-valid :
    (k : FactIdentity) (conflicts : Dict FactIdentity (List String))
    → all conflict_is_valid conflicts ≡ true
    → all (λ q. not (blank q)) (conflicts_of k conflicts) ≡ true
unfolding conflicts_of
conflicts_of-valid k conflicts a = go (lookup k conflicts) refl
  where
    go :
        (found : Option (List String))
        → lookup k conflicts ≡ found
        → all (λ q. not (blank q)) (or_empty found) ≡ true
    go none e = refl
    go (some ps) e = all-lookup conflict_is_valid k {v = ps} conflicts a e

pub next_conflicts-valid :
    (o : Order) (conflict : Option ExternalFact)
    → FactIsValid conflict
    → all conflict_is_valid o.fact_conflicts ≡ true
    → all conflict_is_valid (next_conflicts o conflict) ≡ true
unfolding next_conflicts fact_is_valid
next_conflicts-valid o none v a = a
next_conflicts-valid o (some f) v a =
    all-insert conflict_is_valid f.identity
      (add_fingerprint f.fingerprint (conflicts_of f.identity o.fact_conflicts)) o.fact_conflicts
      (add_fingerprint-valid f.fingerprint _ (ground arith)
        (conflicts_of-valid f.identity o.fact_conflicts a))
      a

observe-valid :
    (n : Option ℕ) (stream : Option String) (sequences : Dict String ℕ)
    → (is_none n || not (is_falsy stream)) ≡ true
    → all sequence_is_valid sequences ≡ true
    → all sequence_is_valid (observe n stream sequences) ≡ true
observe-valid none stream sequences h a = a
observe-valid (some n) none sequences h a = a
observe-valid (some n) (some stream) sequences h a =
    all-insert sequence_is_valid stream (max n (observed stream sequences)) sequences h a

pub next_sequences-valid :
    (o : Order) (fact : Option ExternalFact) (remember : Bool)
    → FactIsValid fact
    → all sequence_is_valid o.broker_sequences ≡ true
    → all sequence_is_valid (next_sequences o fact remember) ≡ true
unfolding next_sequences fact_is_valid
next_sequences-valid o none r v a = ground arith
next_sequences-valid o (some f) false v a = a
next_sequences-valid o (some f) true v a =
    observe-valid f.broker_sequence f.stream o.broker_sequences (ground arith) a

-- A commit of a fresh fact keeps the order well formed.
pub apply_commit-IsValid :
    (o : Order) (e : OrderEvent) (d : Definition) (ev : GuardEvidence)
    (fact conflict : Option ExternalFact) (remember : Bool) (value : ℕ)
    → IsValid o
    → FactIsValid fact
    → FactIsValid conflict
    → IsFresh o fact remember
    → transitions o.state e ≡ some d
    → guard_passes o.state o.quantity o.cumulative_quantity o.version d.guard ev (is_some conflict)
      ≡ true
    → candidate o e d fact ≡ ok value
    → IsValid (apply_commit o e d fact remember conflict value).1
unfolding apply_commit
apply_commit-IsValid o e d ev fact conflict remember value v fv cv fr t g k = record {
  quantity_positive = v.quantity_positive;
  version_positive = omega (arith, v.version_positive);
  within = (candidate_bounds o e d fact value v.within k).1;
  accounted = candidate-accounted o e d fact remember value v.accounted fr k;
  fits = candidate-fits o e d ev (is_some conflict) fact value t g v.fits k;
  conflicts_valid = next_conflicts-valid o conflict cv v.conflicts_valid;
  sequences_valid = next_sequences-valid o fact remember fv v.sequences_valid;
}

-- What `_commit` does: it raises, or it makes no change, or a row, its guard and the candidate
-- let it assign.
pub commit-cases :
    (P : Outcome → Type 0) (o : Order) (e : OrderEvent) (ev : GuardEvidence)
    (fact conflict : Option ExternalFact) (remember : Bool)
    → ((x : Error) → P (raise x o))
    → P (no_op o)
    → ((d : Definition) (value : ℕ)
        → transitions o.state e ≡ some d
        → guard_passes o.state o.quantity o.cumulative_quantity o.version d.guard ev
            (is_some conflict)
          ≡ true
        → candidate o e d fact ≡ ok value
        → P (apply_commit o e d fact remember conflict value))
    → P (commit o e ev fact remember conflict)
unfolding commit commit_guarded
commit-cases P o e ev fact conflict remember raised idle moved =
    elim (Option-cases (transitions o.state e)) [
      | inl missing ↦ rw (missing, commit) (raised _)
      | inr (d, t) ↦
          elim (Bool-cases (
            guard_passes o.state o.quantity o.cumulative_quantity o.version d.guard ev
              (is_some conflict))) [
                | inl g ↦ elim (Result-cases (candidate o e d fact)) [
                  | inl (value, k) ↦ rw (t, commit, g, k, commit_guarded) (moved d value t g k)
                  | inr (x, k) ↦ rw (t, commit, g, k, commit_guarded) (raised x)
                ]
                | inr g ↦ elim (Result-cases (guard_failure d.guard)) [
                  | inl (_, f) ↦ rw (t, commit, g, f) idle
                  | inr (x, f) ↦ rw (t, commit, g, f) (raised x)
                ]
              ]
    ]

pub commit-IsValid :
    (o : Order) (e : OrderEvent) (ev : GuardEvidence) (fact conflict : Option ExternalFact)
    (remember : Bool)
    → IsValid o
    → FactIsValid fact
    → FactIsValid conflict
    → IsFresh o fact remember
    → IsValid (commit o e ev fact remember conflict).1
commit-IsValid o e ev fact conflict remember v fv cv fr =
    commit-cases (λ r. IsValid r.1) o e ev fact conflict remember (λ x. v) v
      (λ d value t g k. apply_commit-IsValid o e d ev fact conflict remember value v fv cv fr t g k)
