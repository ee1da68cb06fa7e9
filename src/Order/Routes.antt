-- ===== src/Order/Routes.antt =====
-- Where `Order.transition` ends: it raises, it makes no change, or it commits one event
-- (src/quantiqmt/order/domain/model.py).
use quanti_qmt.Base.{
  ◌≡◌, refl, Bool, true, false, ◌&&◌, Option, none, some, is_some, is_none, not, contains, if-cases,
  arith, ◌==◌, string_eq, Option-cases, inl, inr,
}
use quanti_qmt.Base.Dict.{lookup}
use quanti_qmt.Order.States.{
  OrderEvent, is_fact_event, is_normal_report_event, is_reconciliation_event,
}
use quanti_qmt.Order.Evidence.{
  Error, identity_eq, ExternalFact, ProcessedFact, GuardEvidence, no_evidence,
}
use quanti_qmt.Order.Record.{Order, Outcome, conflicts_of}
use quanti_qmt.Order.Aggregate.{
  commit, repeat_fact, commit_fresh, check_reconciliation, check_report, check_mismatch, is_several,
  is_unseen, is_mismatched, is_uncorrelated, transition_new, transition, no_op, raise, is_stale,
  is_late_cancel, known,
}
use quanti_qmt.Order.Accounting.{IsFresh}

-- The event that is committed for an event: itself, or the one of a check that it failed.
pub data Redirect (e : OrderEvent) : OrderEvent → Type 0 where
  same : Redirect e e
  ambiguous : is_normal_report_event e ≡ true → Redirect e OrderEvent.report_correlation_ambiguous
  mismatched : is_normal_report_event e ≡ true → Redirect e OrderEvent.report_cumulative_mismatch
  several : is_reconciliation_event e ≡ true → Redirect e OrderEvent.reconcile_ambiguous

-- A fact whose identity is known, with another fingerprint that is not on record either.
pub record IsConflict (o : Order) (fact : Option ExternalFact) (f : ExternalFact) : Type 0 where
  pub given : fact ≡ some f
  pub accepted : ProcessedFact
  pub processed_before : lookup f.identity o.processed_facts ≡ some accepted
  pub differs : (accepted.fingerprint == f.fingerprint) ≡ false
  pub unrecorded : contains f.fingerprint (conflicts_of f.identity o.fact_conflicts) ≡ false

IsFresh-is_some :
    (o : Order) (fact : Option ExternalFact) → known o fact ≡ none → IsFresh o fact (is_some fact)
IsFresh-is_some o none h = tt
IsFresh-is_some o (some f) h = (ground arith, refl)

IsFresh-true : (o : Order) (fact : Option ExternalFact) → known o fact ≡ none → IsFresh o fact true
IsFresh-true o none h = tt
IsFresh-true o (some f) h = (ground arith, refl)

known-inv :
    (o : Order) (fact : Option ExternalFact) (f : ExternalFact) (p : ProcessedFact)
    → known o fact ≡ some (f, p)
    → (fact ≡ some f) × (lookup f.identity o.processed_facts ≡ some p)
known-inv o none f p h = cc
known-inv o (some g) f p h = ground arith

-- What holds of each end holds of the call.
module _ (P : Outcome → Type 0) (o : Order) (e : OrderEvent) (ev : GuardEvidence)
    (fact : Option ExternalFact) (raised : (x : Error) → P (raise x o)) (idle : P (no_op o))
    (conflicted : (f : ExternalFact)
      → IsConflict o fact f
      → P (commit o OrderEvent.fact_conflict no_evidence none false (some f)))
    (moved : (e' : OrderEvent) (remember : Bool)
      → Redirect e e'
      → IsFresh o fact remember
      → P (commit o e' ev fact remember none)) where
  fresh-cases : known o fact ≡ none → P (commit_fresh o e ev fact)
  unfolding commit_fresh
  fresh-cases new =
      if-cases P (is_stale o e ev fact) _ _ (λ _. idle)
        (λ _. moved e (is_some fact) same (IsFresh-is_some o fact new))

  reconciliation-cases : known o fact ≡ none → P (check_reconciliation o e ev fact)
  unfolding check_reconciliation
  reconciliation-cases new =
      if-cases P (is_several e ev) _ _
        (λ t. moved _ true (several (ground arith)) (IsFresh-true o fact new))
        (λ _. if-cases P (is_unseen e ev) _ _ (λ _. idle) (λ _. fresh-cases new))

  mismatch-cases : known o fact ≡ none → P (check_mismatch o e ev fact)
  unfolding check_mismatch
  mismatch-cases new =
      if-cases P (is_mismatched o e ev) _ _
        (λ t. moved _ true (mismatched (ground arith)) (IsFresh-true o fact new))
        (λ _. reconciliation-cases new)

  report-cases : known o fact ≡ none → P (check_report o e ev fact)
  unfolding check_report
  report-cases new =
      if-cases P (is_uncorrelated e ev) _ _
        (λ t. moved _ true (ambiguous (ground arith)) (IsFresh-true o fact new))
        (λ _. mismatch-cases new)

  new-cases : known o fact ≡ none → P (transition_new o e ev fact)
  unfolding transition_new
  new-cases new = if-cases P (is_late_cancel o.state e) _ _ (λ _. idle) (λ _. report-cases new)

  repeat-cases :
      (f : ExternalFact) (p : ProcessedFact)
      → fact ≡ some f
      → lookup f.identity o.processed_facts ≡ some p
      → P (repeat_fact o f p)
  unfolding repeat_fact
  repeat-cases f p given before =
      if-cases P (p.fingerprint == f.fingerprint) _ _ (λ _. idle)
        λ d.
          if-cases P (contains f.fingerprint (conflicts_of f.identity o.fact_conflicts)) _ _
            (λ _. idle)
            λ u. conflicted f (record {
              given = given;
              accepted = p;
              processed_before = before;
              differs = d;
              unrecorded = u;
            })

  pub transition-cases : P (transition o e ev fact)
  unfolding transition
  transition-cases =
      if-cases P (is_fact_event e && is_none fact) _ _ (λ _. raised _)
        λ _.
          if-cases P (not (is_fact_event e) && is_some fact) _ _ (λ _. raised _)
            λ _. elim (Option-cases (known o fact)) [
              | inl new ↦ rw new (new-cases new)
              | inr ((f, p), k) ↦
                  let (given, before) = known-inv o fact f p k in
                  rw k (repeat-cases f p given before)
            ]
