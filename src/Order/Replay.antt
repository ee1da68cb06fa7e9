-- ===== src/Order/Replay.antt =====
-- Facts that are delivered again later in the life of an order (src/quantiqmt/order/domain/model.py).
use mathlib.Core.Path.{subst}
use quanti_qmt.Base.{
  ◌≡◌, sym, inl, inr, String, Bool, true, false, Option, none, some, ok, List, [], ◌∷◌, ◌++◌,
  contains, arith, ◌==◌, string_eq, ==-true, Bool-cases,
}
use quanti_qmt.Base.Dict.{lookup, lookup-insert}
use quanti_qmt.Order.States.{OrderEvent, is_fact_event}
use quanti_qmt.Order.Evidence.{FactIdentity, identity_eq, ExternalFact, GuardEvidence, no_evidence}
use quanti_qmt.Order.Record.{
  Order, TransitionResult, Outcome, conflicts_of, or_empty, add_fingerprint, next_conflicts,
  apply_commit,
}
use quanti_qmt.Order.Aggregate.{commit, transition}
use quanti_qmt.Order.Wellformed.{commit-cases}
use quanti_qmt.Order.Routes.{transition-cases}
use quanti_qmt.Order.Facts.{
  OnRecord, accepted, conflicting, Records, transition-Records, transition-OnRecord,
  transition-remembers,
}
use quanti_qmt.Order.Trace.{Input, call, run}

add_fingerprint-keeps :
    (p q : String) (ps : List String)
    → contains q ps ≡ true
    → contains q (add_fingerprint p ps) ≡ true
unfolding add_fingerprint
add_fingerprint-keeps p q ps h = elim (Bool-cases (contains p ps)) [
  | inl old ↦ rw old h
  | inr new ↦ rw new (contains-append q p ps h)
]
  where
    contains-append :
        (q p : String) (ps : List String) → contains q ps ≡ true → contains q (ps ++ p ∷ []) ≡ true
    contains-append q p [] h = cc
    contains-append q p (r ∷ ps) h = ground (arith, contains-append q p ps)

-- A conflict that is on record stays there.
abbrev Holds : FactIdentity → String → Outcome → Type 0
Holds k p r = contains p (conflicts_of k r.1.fact_conflicts) ≡ true

next_conflicts-keeps :
    (o : Order) (conflict : Option ExternalFact) (k : FactIdentity) (p : String)
    → contains p (conflicts_of k o.fact_conflicts) ≡ true
    → contains p (conflicts_of k (next_conflicts o conflict)) ≡ true
unfolding next_conflicts conflicts_of
next_conflicts-keeps o none k p h = h
next_conflicts-keeps o (some f) k p h =
    let added : List String =
      add_fingerprint f.fingerprint (or_empty (lookup f.identity o.fact_conflicts)) in
    elim (Bool-cases (f.identity == k)) [
      | inl same ↦
          rw (lookup-insert k f.identity added o.fact_conflicts, same)
            (add_fingerprint-keeps f.fingerprint p (or_empty (lookup f.identity o.fact_conflicts)) (
              subst (λ x. contains p (or_empty (lookup x o.fact_conflicts)) ≡ true)
                (sym (==-true f.identity k same)) h))
      | inr other ↦ rw (lookup-insert k f.identity added o.fact_conflicts, other) h
    ]

commit-Holds :
    (o : Order) (e : OrderEvent) (ev : GuardEvidence) (fact conflict : Option ExternalFact)
    (remember : Bool) (k : FactIdentity) (p : String)
    → contains p (conflicts_of k o.fact_conflicts) ≡ true
    → Holds k p (commit o e ev fact remember conflict)
unfolding apply_commit
commit-Holds o e ev fact conflict remember k p h =
    commit-cases (Holds k p) o e ev fact conflict remember (λ _. h) h
      λ d value t g c. next_conflicts-keeps o conflict k p h

transition-Holds :
    (o : Order) (e : OrderEvent) (ev : GuardEvidence) (fact : Option ExternalFact)
    (k : FactIdentity) (p : String)
    → contains p (conflicts_of k o.fact_conflicts) ≡ true
    → Holds k p (transition o e ev fact)
transition-Holds o e ev fact k p h =
    transition-cases (Holds k p) o e ev fact (λ _. h) h
      (λ f c. commit-Holds o OrderEvent.fact_conflict no_evidence none (some f) false k p h)
      (λ e' remember _ fresh. commit-Holds o e' ev fact none remember k p h)

-- What is on record stays on record, whatever is called.
transition-OnRecord_still :
    (o : Order) (i : Input) (f : ExternalFact) → OnRecord o f → OnRecord (call o i).1 f
transition-OnRecord_still o i f (accepted p l s) =
    accepted p (transition-remembers o i.event i.evidence i.fact f.identity {p = p} l) s
transition-OnRecord_still o i f (conflicting p l c) =
    conflicting p (transition-remembers o i.event i.evidence i.fact f.identity {p = p} l)
      (transition-Holds o i.event i.evidence i.fact f.identity f.fingerprint c)

run-OnRecord :
    (o : Order) (is : List Input) (f : ExternalFact) → OnRecord o f → OnRecord (run o is).1 f
unfolding run
run-OnRecord o [] f h = h
run-OnRecord o (i ∷ is) f h = run-OnRecord (call o i).1 is f (transition-OnRecord_still o i f h)

-- A fact that a call has committed, as accepted or as a conflict, is a no-op when it is delivered
-- again, after any further calls, with any evidence and any event of those that report a fact.
pub run-replay :
    (o o' : Order) (e e' : OrderEvent) (ev ev' : GuardEvidence) (f : ExternalFact)
    (t : TransitionResult) (later : List Input)
    → transition o e ev (some f) ≡ (ok (some t), o')
    → is_fact_event e' ≡ true
    → transition (run o' later).1 e' ev' (some f) ≡ (ok none, (run o' later).1)
run-replay o o' e e' ev ev' f t later h k =
    transition-OnRecord (run o' later).1 e' ev' f k
      (run-OnRecord o' later f (subst (Records f) h (transition-Records o e ev f)))
