-- ===== src/Market/Quality/Follows.antt =====
-- What a step does to the state that is stored for an instrument
-- (src/quantiqmt/market/quality.py).
use quanti_qmt.Base.{
  ◌+◌, String, Bool, true, false, none, some, ◌==◌, string_eq, ◌≡◌, ◌⊎◌, inl, inr, Bool-cases,
  ==-true, ==-false, ◌∙◌, sym,
}
use mathlib.Core.Path.{subst}
use quanti_qmt.Base.Dict.{lookup, insert, lookup-insert_self, lookup-insert_ne}
use quanti_qmt.Market.Quality.State.{
  Quality, QualityState, gap, normal, degraded, stale, unavailable, recovering,
}
use quanti_qmt.Market.Quality.Store.{MarketQuality, Outcome, first_state}
use quanti_qmt.Market.Quality.Relation.{
  Move, Operation, step, Effect, IsKeyed, raised, kept, created, moved,
}
use quanti_qmt.Market.Quality.Moves.{step-Effect}

-- The arrows between two qualities: an instrument ages, a gap opens, a recovery starts and ends.
abbrev pub legal : Quality → Quality → Bool
legal normal degraded = true
legal degraded stale = true
legal normal gap = true
legal degraded gap = true
legal stale gap = true
legal recovering gap = true
legal gap recovering = true
legal stale recovering = true
legal unavailable recovering = true
legal recovering normal = true
legal _ _ = false

-- The quality and its version stay, or the quality takes an arrow and the version grows by one.
abbrev pub Follows : QualityState → QualityState → Type 0
Follows s s' =
    ((s'.quality ≡ s.quality) × (s'.quality_version ≡ s.quality_version))
    ⊎ ((legal s.quality s'.quality ≡ true) × (s'.quality_version ≡ s.quality_version + 1))

-- A state that is written at `i`, looked up at `j`.
lookup-put {κ} :
    (P : QualityState → QualityState → Type κ) (i j : String) (s s' t : QualityState)
    (m : MarketQuality)
    → P s s
    → (lookup i m.states ≡ some t → P t s')
    → lookup i m.states ≡ some t
    → lookup j m.states ≡ some s
    → (next : QualityState) × (lookup j (insert i s' m.states) ≡ some next) × P s next
lookup-put P i j s s' t m stay move li lj = elim (Bool-cases (i == j)) [
  | inl e ↦
      let same : i ≡ j = ==-true i j e in
      let found : lookup j m.states ≡ some t = subst (λ x. lookup x m.states ≡ some t) same li in
      let equal : t ≡ s = cc (found, lj) in
      (
        s',
        subst (λ x. lookup x (insert i s' m.states) ≡ some s') same
            (lookup-insert_self i s' m.states),
        subst (λ x. P x s') equal (move li),
      )
  | inr n ↦ (s, lookup-insert_ne j i s' m.states (λ e. ==-false i j n (sym e)) ∙ lj, stay)
]

-- A property of all moves, and of staying, holds of what a step does to each instrument.
Effect-lookup {κ} :
    (P : QualityState → QualityState → Type κ) (m : MarketQuality) (o : Outcome) (j : String)
    (s : QualityState)
    → Effect m o
    → lookup j m.states ≡ some s
    → P s s
    → ((t t' : QualityState) → Move m.recovery_registry t t' → P t t')
    → (s' : QualityState) × (lookup j o.1.states ≡ some s') × P s s'
Effect-lookup P m _ j s (raised e) l stay move = (s, l, stay)
Effect-lookup P m _ j s (kept i t m' li e) l stay move =
    (s, subst (λ d. lookup j d ≡ some s) (sym e) l, stay)
Effect-lookup P m _ j s (created p i c v session source quality none_yet) l stay move = (
  s,
  lookup-insert_ne j i (first_state p i c v session source quality) m.states (λ e.
        let q : lookup j m.states ≡ none = subst (λ x. lookup x m.states ≡ none) (sym e) none_yet in
        cc (l, q))
      ∙ l,
  stay,
)
Effect-lookup P m _ j s (moved i t t' m' li a e) l stay move =
    let there = lookup-put P i j s t' t m stay (λ _. move t t' a) li l in
    (there.0, subst (λ d. lookup j (insert i t' d) ≡ some there.0) (sym e) there.1, there.2)

pub step-lookup {κ} :
    (P : QualityState → QualityState → Type κ) (op : Operation) (m : MarketQuality) (j : String)
    (s : QualityState)
    → IsKeyed m
    → lookup j m.states ≡ some s
    → P s s
    → ((t t' : QualityState) → Move m.recovery_registry t t' → P t t')
    → (s' : QualityState) × (lookup j (step op m).1.states ≡ some s') × P s s'
step-lookup P op m j s k l stay move =
    Effect-lookup P m (step op m) j s (step-Effect op m k) l stay move
