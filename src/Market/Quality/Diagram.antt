-- ===== src/Market/Quality/Diagram.antt =====
-- What an operation of `MarketQuality` does to the states: the diagram of the qualities, and the
-- calls that raise (src/quantiqmt/market/quality.py).
use quanti_qmt.Base.{
  ◌≤◌, String, true, false, Option, some, Result, ok, err, string_eq, ◌≡◌, ◌≢◌, ◌⊎◌, refl, inl, inr,
  arith,
}
use mathlib.Core.Path.{subst}
use quanti_qmt.Base.Dict.{lookup}
use quanti_qmt.Market.Quality.State.{
  MarketError, Quality, QualityState, Payload, gap, normal, degraded, stale, unavailable,
  recovering,
}
use quanti_qmt.Market.Quality.Registry.{RecoveryEvidenceRegistry}
use quanti_qmt.Market.Quality.Store.{MarketQuality, Outcome, widen_gap, enter_gap, backfilled}
use quanti_qmt.Market.Quality.Pipeline.{advanced, aged}
use quanti_qmt.Market.Quality.Recovery.{
  may_begin, may_start, is_recovering, check_gap, is_filled, validated, begun, may_complete,
  completed,
}
use quanti_qmt.Market.Quality.Relation.{
  Move, Operation, step, Effect, IsKeyed, advances, misses, overflows, widens, fills, ages_by_one,
  begins, completes, raised, kept, created, moved, ages, enters_gap,
}
use quanti_qmt.Market.Quality.Moves.{step-Effect}
use quanti_qmt.Market.Quality.Follows.{legal, Follows, step-lookup}

enters-legal : (q : Quality) → enters_gap q ≡ true → legal q gap ≡ true
enters-legal normal h = refl
enters-legal degraded h = refl
enters-legal stale h = refl
enters-legal recovering h = refl
enters-legal gap h = cc
enters-legal unavailable h = cc

starts-legal :
    (q : Quality) (reason : String) → may_start q reason ≡ true → legal q recovering ≡ true
unfolding may_start
starts-legal normal reason h = cc
starts-legal degraded reason h = cc
starts-legal stale reason h = refl
starts-legal recovering reason h = cc
starts-legal gap reason h = refl
starts-legal unavailable reason h = refl

pub begins-starts :
    (s : QualityState) (ev : Payload) (reason : String) (registry : Option RecoveryEvidenceRegistry)
    → may_begin s ev reason registry ≡ ok tt
    → may_start s.quality reason ≡ true
unfolding may_begin
begins-starts s ev reason registry h = ground arith

pub completes-recovering :
    (s : QualityState) (ev : Payload) (registry : Option RecoveryEvidenceRegistry)
    → may_complete s ev registry ≡ ok tt
    → s.quality ≡ recovering
unfolding may_complete
completes-recovering s ev registry h = by_quality s.quality (ground arith)
  where
    by_quality : (q : Quality) → is_recovering q ≡ true → q ≡ recovering
    by_quality recovering h = refl
    by_quality normal h = cc
    by_quality degraded h = cc
    by_quality stale h = cc
    by_quality gap h = cc
    by_quality unavailable h = cc

aged-Follows : (s : QualityState) → Follows s (aged s.quality s)
aged-Follows s = by_quality s.quality refl
  where
    by_quality : (q : Quality) → s.quality ≡ q → Follows s (aged q s)
    by_quality normal e = inr (rw e refl, refl)
    by_quality degraded e = inr (rw e refl, refl)
    by_quality stale e = inl (refl, refl)
    by_quality gap e = inl (refl, refl)
    by_quality unavailable e = inl (refl, refl)
    by_quality recovering e = inl (refl, refl)

Move-Follows :
    (registry : Option RecoveryEvidenceRegistry) (s s' : QualityState)
    → Move registry s s'
    → Follows s s'
unfolding advanced enter_gap widen_gap backfilled begun completed
Move-Follows registry s _ (advances n q e) = inl (refl, refl)
Move-Follows registry s _ (misses n h l) = inr (enters-legal s.quality h, refl)
Move-Follows registry s _ (overflows n h) = inr (enters-legal s.quality h, refl)
Move-Follows registry s _ (widens a b n q start end) = inl (refl, refl)
Move-Follows registry s _ (fills n q above below) = inl (refl, refl)
Move-Follows registry s _ (ages_by_one h) = aged-Follows s
Move-Follows registry s _ (begins ev reason h) =
    inr (starts-legal s.quality reason (begins-starts s ev reason registry h), refl)
Move-Follows registry s _ (completes ev h) =
    inr (rw (completes-recovering s ev registry h) refl, refl)

-- Under every operation each instrument keeps its quality and quality version, or takes one arrow
-- of the diagram and adds one to the version. So NORMAL is entered from RECOVERING alone, and
-- RECOVERING from GAP, STALE and UNAVAILABLE.
pub step-Follows :
    (op : Operation) (m : MarketQuality) (j : String) (s : QualityState)
    → IsKeyed m
    → lookup j m.states ≡ some s
    → (s' : QualityState) × (lookup j (step op m).1.states ≡ some s') × Follows s s'
step-Follows op m j s k l =
    step-lookup Follows op m j s k l (inl (refl, refl)) (Move-Follows m.recovery_registry)

-- A quality GAP is left for RECOVERING, once the backfill is complete.
abbrev Resolves : QualityState → QualityState → Type 0
Resolves s s' = (is_filled s ≡ true) × (s'.quality ≡ recovering)

abbrev GapStays : QualityState → QualityState → Type 0
GapStays s s' = (s.quality ≢ gap) ⊎ ((s'.quality ≡ gap) ⊎ Resolves s s')

filled_of :
    (q : Quality) (s : QualityState) (ev : Payload) (rest : Result MarketError (Unit {0}))
    → q ≡ gap
    → check_gap q s ev rest ≡ ok tt
    → is_filled s ≡ true
unfolding check_gap
filled_of gap s ev rest e h = ground arith
filled_of normal s ev rest e h = cc
filled_of degraded s ev rest e h = cc
filled_of stale s ev rest e h = cc
filled_of unavailable s ev rest e h = cc
filled_of recovering s ev rest e h = cc

begins-filled :
    (s : QualityState) (ev : Payload) (reason : String) (registry : Option RecoveryEvidenceRegistry)
    → s.quality ≡ gap
    → may_begin s ev reason registry ≡ ok tt
    → is_filled s ≡ true
unfolding may_begin
begins-filled s ev reason registry q h =
    filled_of s.quality s ev (validated ev s false registry) q (ground arith)

Gap-cases : (q : Quality) → (q ≡ gap) ⊎ (q ≢ gap)
Gap-cases gap = inl refl
Gap-cases normal = inr (λ e. cc)
Gap-cases degraded = inr (λ e. cc)
Gap-cases stale = inr (λ e. cc)
Gap-cases unavailable = inr (λ e. cc)
Gap-cases recovering = inr (λ e. cc)

Move-GapStays :
    (registry : Option RecoveryEvidenceRegistry) (s s' : QualityState)
    → Move registry s s'
    → GapStays s s'
unfolding advanced enter_gap widen_gap backfilled begun
Move-GapStays registry s _ (advances n q e) = inl q
Move-GapStays registry s _ (misses n h l) = inr (inl refl)
Move-GapStays registry s _ (overflows n h) = inr (inl refl)
Move-GapStays registry s _ (widens a b n q start end) = inr (inl q)
Move-GapStays registry s _ (fills n q above below) = inr (inl q)
Move-GapStays registry s _ (ages_by_one h) = inl (λ e. let no : ages gap ≡ true = rw e at h in cc)
Move-GapStays registry s _ (begins ev reason h) = elim (Gap-cases s.quality) [
  | inl q ↦ inr (inr (begins-filled s ev reason registry q h, refl))
  | inr n ↦ inl n
]
Move-GapStays registry s _ (completes ev h) = inl (λ e. cc (completes-recovering s ev registry h))

-- An instrument of quality GAP leaves it for RECOVERING alone, and only when the backfill is
-- complete: every sequence up to the highest observed one has been received without a hole, and
-- the end of the widest gap is reached.
pub step-gap_resolved :
    (op : Operation) (m : MarketQuality) (j : String) (s s' : QualityState)
    → IsKeyed m
    → lookup j m.states ≡ some s
    → s.quality ≡ gap
    → lookup j (step op m).1.states ≡ some s'
    → s'.quality ≢ gap
    → (s.contiguous_source_version ≡ s.highest_observed_sequence)
      × (s.expected_gap_end_sequence ≤ s.contiguous_source_version)
      × (s'.quality ≡ recovering)
unfolding is_filled
step-gap_resolved op m j s s' k l q l' n =
    let there =
      step-lookup GapStays op m j s k l (Gap-stays s) (Move-GapStays m.recovery_registry) in
    let same : there.0 ≡ s' = cc (there.1, l') in
    elim (subst (λ x. GapStays s x) same there.2) [
      | inl other ↦ absurd (other q)
      | inr (inl still) ↦ absurd (n still)
      | inr (inr (filled, to)) ↦ (ground arith, ground arith, to)
    ]
  where
    Gap-stays : (s : QualityState) → GapStays s s
    Gap-stays s = elim (Gap-cases s.quality) [ inl e ↦ inr (inl e) | inr n ↦ inl n ]

Effect-error :
    (m : MarketQuality) (o : Outcome) (e : MarketError) → Effect m o → o.0 ≡ err e → o.1 ≡ m
Effect-error m _ e (raised x) h = refl
Effect-error m _ e (kept i s m' l k) h = cc
Effect-error m _ e (created p i c v session source quality l) h = cc
Effect-error m _ e (moved i s s' m' l a k) h = cc

-- A call that raises leaves the pipeline as it was, fingerprints included.
pub step-error :
    (op : Operation) (m : MarketQuality) (e : MarketError)
    → IsKeyed m
    → (step op m).0 ≡ err e
    → (step op m).1 ≡ m
step-error op m e k h = Effect-error m (step op m) e (step-Effect op m k) h
