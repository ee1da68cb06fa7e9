-- ===== src/Order/Effects.antt =====
-- What a call of `Order.transition` changes (src/quantiqmt/order/domain/model.py).
use quanti_qmt.Base.{ℕ, ◌+◌, ◌≤◌, ◌≡◌, refl, Bool, false, Option, none, some, ok, err, arith}
use mathlib.Core.Path.{subst}
use quanti_qmt.Order.States.{OrderEvent}
use quanti_qmt.Order.Catalog.{Definition, transitions}
use quanti_qmt.Order.Evidence.{GuardEvidence, ExternalFact, no_evidence}
use quanti_qmt.Order.Guards.{validate_trade_guard}
use quanti_qmt.Order.Record.{Order, TransitionResult, Outcome, candidate, apply_commit, post_init}
use quanti_qmt.Order.Aggregate.{commit, transition}
use quanti_qmt.Order.Accounting.{IsValid, IsValid-of_post_init, post_init_of_IsValid, FactIsValid}
use quanti_qmt.Order.Wellformed.{commit-cases, commit-IsValid}
use quanti_qmt.Order.Routes.{IsConflict, transition-cases}

conflict-FactIsValid :
    {o : Order} {fact : Option ExternalFact} {f : ExternalFact}
    → IsConflict o fact f
    → FactIsValid fact
    → FactIsValid (some f)
conflict-FactIsValid c v = subst FactIsValid c.given v

-- An order that passes the checks of its constructor passes them after every call, whatever the
-- event, the evidence and the outcome, if the fact has passed the checks of its own constructor.
pub transition-post_init :
    (o : Order) (e : OrderEvent) (ev : GuardEvidence) (fact : Option ExternalFact)
    → FactIsValid fact
    → post_init o ≡ ok tt
    → post_init (transition o e ev fact).1 ≡ ok tt
transition-post_init o e ev fact fv h =
    let v : IsValid o = IsValid-of_post_init o h in
    post_init_of_IsValid (transition o e ev fact).1 (
      transition-cases (λ r. IsValid r.1) o e ev fact (λ _. v) v
        (λ f c.
          commit-IsValid o OrderEvent.fact_conflict no_evidence none (some f) false v tt
            (conflict-FactIsValid c fv) tt)
        (λ e' remember _ fresh. commit-IsValid o e' ev fact none remember v fv tt fresh))

-- A committed transition follows a row of the table: its source is the state before, its target
-- the state after, and its action the one reported. The version grows by one.
pub record Commits (o : Order) (t : TransitionResult) (o' : Order) : Type 0 where
  pub definition : Definition
  pub row : transitions o.state t.event ≡ some definition
  pub previous : t.previous ≡ o.state
  pub current : t.current ≡ definition.target
  pub action : t.action ≡ definition.action
  pub state : o'.state ≡ t.current
  pub next_version : o'.version ≡ o.version + 1
  pub reported : t.version ≡ o'.version
  pub same_id : o'.order_id ≡ o.order_id
  pub same_quantity : o'.quantity ≡ o.quantity
  pub cumulative_grows : o.cumulative_quantity ≤ o'.cumulative_quantity

-- By the way in which a call ends.
abbrev pub Effect : Order → Outcome → Type 0
Effect o (err x, o') = o' ≡ o
Effect o (ok none, o') = o' ≡ o
Effect o (ok (some t), o') = Commits o t o'

candidate_grows :
    (o : Order) (e : OrderEvent) (d : Definition) (fact : Option ExternalFact) (value : ℕ)
    → candidate o e d fact ≡ ok value
    → o.cumulative_quantity ≤ value
unfolding candidate validate_trade_guard
candidate_grows o e d fact value h = ground arith

commit-Effect :
    (o : Order) (e : OrderEvent) (ev : GuardEvidence) (fact conflict : Option ExternalFact)
    (remember : Bool)
    → Effect o (commit o e ev fact remember conflict)
unfolding apply_commit
commit-Effect o e ev fact conflict remember =
    commit-cases (Effect o) o e ev fact conflict remember (λ _. refl) refl
      λ d value t g k. record {
        definition = d;
        row = t;
        previous = refl;
        current = refl;
        action = refl;
        state = refl;
        next_version = refl;
        reported = refl;
        same_id = refl;
        same_quantity = refl;
        cumulative_grows = candidate_grows o e d fact value k;
      }

-- A call that raises or is a no-op leaves the order as it was; one that returns a result has
-- followed a row of the table, has added one to the version, has kept identity and quantity, and
-- has not lowered the cumulative quantity.
pub transition-Effect :
    (o : Order) (e : OrderEvent) (ev : GuardEvidence) (fact : Option ExternalFact)
    → Effect o (transition o e ev fact)
transition-Effect o e ev fact =
    transition-cases (Effect o) o e ev fact (λ _. refl) refl
      (λ f c. commit-Effect o OrderEvent.fact_conflict no_evidence none (some f) false)
      (λ e' remember _ _. commit-Effect o e' ev fact none remember)
