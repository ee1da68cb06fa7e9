-- ===== src/Order/Facts.antt =====
-- External facts: the processed facts, the conflicts and the broker sequences under `Order.transition` (src/quantiqmt/order/domain/model.py).
use mathlib.Core.Path.{subst}
use quanti_qmt.Base.{
  ℕ, ◌≤◌, max, ◌≡◌, ◌∙◌, inl, inr, String, Bool, true, false, Option, none, some, ok, List,
  contains, contains-append_self, arith, ◌==◌, string_eq, ==-refl, ==-true, Bool-cases,
}
use quanti_qmt.Base.Dict.{Dict, lookup, lookup-insert_self, lookup-insert_ne, lookup-insert}
use quanti_qmt.Order.States.{OrderEvent, is_fact_event}
use quanti_qmt.Order.Evidence.{
  FactIdentity, identity_eq, ExternalFact, ProcessedFact, GuardEvidence, no_evidence,
}
use quanti_qmt.Order.Record.{
  Order, Outcome, conflicts_of, add_fingerprint, next_facts, next_conflicts, next_sequences,
  observe, observed, apply_commit, processed,
}
use quanti_qmt.Order.Aggregate.{commit, repeat_fact, transition}
use quanti_qmt.Order.Accounting.{IsFresh}
use quanti_qmt.Order.Wellformed.{commit-cases}
use quanti_qmt.Order.Routes.{IsConflict, transition-cases}

-- The fact is on record: accepted with this fingerprint, or as a conflict with it.
pub data OnRecord (o : Order) (f : ExternalFact) : Type 0 where
  accepted :
      (p : ProcessedFact)
      → lookup f.identity o.processed_facts ≡ some p
      → (p.fingerprint == f.fingerprint) ≡ true
      → OnRecord o f
  conflicting :
      (p : ProcessedFact)
      → lookup f.identity o.processed_facts ≡ some p
      → contains f.fingerprint (conflicts_of f.identity o.fact_conflicts) ≡ true
      → OnRecord o f

-- A fact that is on record changes nothing, with whatever event and evidence it comes.
pub transition-OnRecord :
    (o : Order) (e : OrderEvent) (ev : GuardEvidence) (f : ExternalFact)
    → is_fact_event e ≡ true
    → OnRecord o f
    → transition o e ev (some f) ≡ (ok none, o)
unfolding transition repeat_fact
transition-OnRecord o e ev f h (accepted p l s) = rw (h, l, s)
transition-OnRecord o e ev f h (conflicting p l c) =
    elim (Bool-cases (p.fingerprint == f.fingerprint)) [
      | inl s ↦ rw (h, l, s)
      | inr d ↦ rw (h, l, d, c)
    ]

add_fingerprint-contains :
    (p : String) (ps : List String) → contains p (add_fingerprint p ps) ≡ true
unfolding add_fingerprint
add_fingerprint-contains p ps = elim (Bool-cases (contains p ps)) [
  | inl old ↦ rw old old
  | inr new ↦ rw new (contains-append_self p ps)
]

conflicts_of-next_conflicts :
    (o : Order) (f : ExternalFact)
    → contains f.fingerprint (conflicts_of f.identity (next_conflicts o (some f))) ≡ true
unfolding conflicts_of next_conflicts
conflicts_of-next_conflicts o f =
    rw (lookup-insert_self f.identity _ o.fact_conflicts) (add_fingerprint-contains f.fingerprint _)

lookup-next_facts :
    (o : Order) (f : ExternalFact)
    → lookup f.identity (next_facts o (some f) true) ≡ some (processed f)
unfolding next_facts
lookup-next_facts o f = lookup-insert_self f.identity (processed f) o.processed_facts

abbrev pub Records : ExternalFact → Outcome → Type 0
Records f (ok (some t), o') = OnRecord o' f
Records f _ = Unit

commit_fresh-Records :
    (o : Order) (e : OrderEvent) (ev : GuardEvidence) (f : ExternalFact) (remember : Bool)
    → IsFresh o (some f) remember
    → Records f (commit o e ev (some f) remember none)
unfolding apply_commit
commit_fresh-Records o e ev f remember fresh =
    commit-cases (Records f) o e ev (some f) none remember (λ _. tt) tt
      λ d value t g k.
        accepted (processed f) (rw fresh.1 (lookup-next_facts o f)) (==-refl f.fingerprint)

commit_conflict-Records :
    (o : Order) (fact : Option ExternalFact) (f : ExternalFact)
    → IsConflict o fact f
    → Records f (commit o OrderEvent.fact_conflict no_evidence none false (some f))
unfolding apply_commit next_facts
commit_conflict-Records o fact f c =
    commit-cases (Records f) o OrderEvent.fact_conflict no_evidence none (some f) false (λ _. tt) tt
      λ d value t g k. conflicting c.accepted c.processed_before (conflicts_of-next_conflicts o f)

pub transition-Records :
    (o : Order) (e : OrderEvent) (ev : GuardEvidence) (f : ExternalFact)
    → Records f (transition o e ev (some f))
transition-Records o e ev f =
    transition-cases (Records f) o e ev (some f) (λ _. tt) tt
      (λ g c.
        subst (λ x. Records x (commit o OrderEvent.fact_conflict no_evidence none false (some g)))
          (let q : g ≡ f = cc c.given in q) (commit_conflict-Records o (some f) g c))
      (λ e' remember _ fresh. commit_fresh-Records o e' ev f remember fresh)

lookup-next_facts_old :
    (o : Order) (fact : Option ExternalFact) (remember : Bool) (k : FactIdentity)
    {p : ProcessedFact}
    → IsFresh o fact remember
    → lookup k o.processed_facts ≡ some p
    → lookup k (next_facts o fact remember) ≡ some p
unfolding next_facts
lookup-next_facts_old o none remember k fresh h = h
lookup-next_facts_old o (some f) false k fresh h = h
lookup-next_facts_old o (some f) true k fresh h =
    lookup-insert_ne k f.identity (processed f) o.processed_facts (λ e. cc fresh.0) ∙ h

abbrev Keeps : FactIdentity → ProcessedFact → Outcome → Type 0
Keeps k p r = lookup k r.1.processed_facts ≡ some p

commit-Keeps :
    (o : Order) (e : OrderEvent) (ev : GuardEvidence) (fact conflict : Option ExternalFact)
    (remember : Bool) (k : FactIdentity) {p : ProcessedFact}
    → IsFresh o fact remember
    → lookup k o.processed_facts ≡ some p
    → Keeps k p (commit o e ev fact remember conflict)
unfolding apply_commit
commit-Keeps o e ev fact conflict remember k {p} fresh h =
    commit-cases (Keeps k p) o e ev fact conflict remember (λ _. h) h
      λ d value t g c. lookup-next_facts_old o fact remember k fresh h

-- A processed fact stays on record as it was accepted, whatever happens later.
pub transition-remembers :
    (o : Order) (e : OrderEvent) (ev : GuardEvidence) (fact : Option ExternalFact)
    (k : FactIdentity) {p : ProcessedFact}
    → lookup k o.processed_facts ≡ some p
    → lookup k (transition o e ev fact).1.processed_facts ≡ some p
transition-remembers o e ev fact k {p} h =
    transition-cases (Keeps k p) o e ev fact (λ _. h) h
      (λ f c. commit-Keeps o OrderEvent.fact_conflict no_evidence none (some f) false k tt h)
      (λ e' remember _ fresh. commit-Keeps o e' ev fact none remember k fresh h)

observe-grows :
    (n : Option ℕ) (stream : Option String) (sequences : Dict String ℕ) (s : String)
    → observed s sequences ≤ observed s (observe n stream sequences)
observe-grows none stream sequences s = omega arith
observe-grows (some n) none sequences s = omega arith
observe-grows (some n) (some stream) sequences s =
    rw (lookup-insert s stream (max n (observed stream sequences)) sequences)
      (ground (arith, ==-true stream s))

next_sequences-grows :
    (o : Order) (fact : Option ExternalFact) (remember : Bool) (s : String)
    → observed s o.broker_sequences ≤ observed s (next_sequences o fact remember)
unfolding next_sequences
next_sequences-grows o none remember s = omega arith
next_sequences-grows o (some f) false s = omega arith
next_sequences-grows o (some f) true s =
    observe-grows f.broker_sequence f.stream o.broker_sequences s

abbrev Sees : Order → String → Outcome → Type 0
Sees o s r = observed s o.broker_sequences ≤ observed s r.1.broker_sequences

commit-Sees :
    (o : Order) (e : OrderEvent) (ev : GuardEvidence) (fact conflict : Option ExternalFact)
    (remember : Bool) (s : String)
    → Sees o s (commit o e ev fact remember conflict)
unfolding apply_commit
commit-Sees o e ev fact conflict remember s =
    commit-cases (Sees o s) o e ev fact conflict remember (λ _. omega arith) (omega arith)
      λ d value t g k. next_sequences-grows o fact remember s

-- The highest sequence that was observed on a stream never falls.
pub transition-sequences_grow :
    (o : Order) (e : OrderEvent) (ev : GuardEvidence) (fact : Option ExternalFact) (s : String)
    → observed s o.broker_sequences ≤ observed s (transition o e ev fact).1.broker_sequences
transition-sequences_grow o e ev fact s =
    transition-cases (Sees o s) o e ev fact (λ _. omega arith) (omega arith)
      (λ f c. commit-Sees o OrderEvent.fact_conflict no_evidence none (some f) false s)
      (λ e' remember _ _. commit-Sees o e' ev fact none remember s)
