-- ===== src/Market/Quality/Records.antt =====
-- What the operations leave as it is: the provider of a state, and the fingerprint of a tick
-- (src/quantiqmt/market/quality.py).
use mathlib.Core.Path.{subst}
use quanti_qmt.Base.{
  ℕ, ◌+◌, ◌-◌, ◌≡◌, refl, sym, ◌∙◌, inl, inr, String, Bool, true, false, ◌||◌, Option, none, some,
  Result, ok, err, leb, ltb, ◌==◌, string_eq, pair_eq, nat_eq, if-cases, Option-cases, Result-cases,
}
use quanti_qmt.Base.Dict.{lookup, lookup-insert_ne}
use quanti_qmt.Market.Quality.State.{
  MarketError, Quality, QualityState, evidence_int, gap, normal, degraded, stale, unavailable,
  recovering,
}
use quanti_qmt.Market.Quality.Store.{
  MarketQuality, tick_identity_eq, Tick, Outcome, state, on_state, open_gap, baseline, widen,
  enter_gap, widen_gap, backfilled,
}
use quanti_qmt.Market.Quality.Pipeline.{
  observe_gap_backfill, observe_in_line, observe_by_quality, observe_sequence, observe_tick,
  overflow, mark_by_quality, mark_stale, remember, aged, advanced,
}
use quanti_qmt.Market.Quality.Recovery.{
  settle_recovery, begin_recovery, complete_recovery, begun, completed, may_begin, may_complete,
}
use quanti_qmt.Market.Quality.Relation.{
  Operation, baseline_op, tick_op, overflow_op, stale_op, begin_op, complete_op, step, Move,
  advances, misses, overflows, widens, fills, ages_by_one, begins, completes,
}
use quanti_qmt.Market.Quality.Registry.{RecoveryEvidenceRegistry}

-- No move changes the provider.
aged-provider : (q : Quality) (s : QualityState) → (aged q s).provider ≡ s.provider
aged-provider normal s = refl
aged-provider degraded s = refl
aged-provider stale s = refl
aged-provider gap s = refl
aged-provider unavailable s = refl
aged-provider recovering s = refl

abbrev pub SameProvider : QualityState → QualityState → Type 0
SameProvider s s' = s'.provider ≡ s.provider

pub Move-provider :
    (registry : Option RecoveryEvidenceRegistry) (s s' : QualityState)
    → Move registry s s'
    → SameProvider s s'
unfolding advanced enter_gap widen_gap backfilled begun completed
Move-provider registry s _ (advances n q e) = refl
Move-provider registry s _ (misses n h l) = refl
Move-provider registry s _ (overflows n h) = refl
Move-provider registry s _ (widens a b n q start end) = refl
Move-provider registry s _ (fills n q l h) = refl
Move-provider registry s _ (ages_by_one h) = aged-provider s.quality s
Move-provider registry s _ (begins ev reason h) = refl
Move-provider registry s _ (completes ev h) = refl

-- A fingerprint on record is on record after a call.
module _ (k : String × (String × ℕ)) (p : String) where
  abbrev pub Keeps : Outcome → Type 0
  Keeps o = lookup k o.1.fingerprints ≡ some p

  on_state-Keeps :
      (i : String) (f : QualityState → MarketQuality → Outcome) (m : MarketQuality)
      → lookup k m.fingerprints ≡ some p
      → ((s : QualityState) → Keeps (f s m))
      → Keeps (on_state i f m)
  unfolding on_state state
  on_state-Keeps i f m h each = elim (Option-cases (lookup i m.states)) [
    | inl missing ↦ rw (on_state, state, missing) h
    | inr (s, there) ↦ rw (on_state, state, there) (each s)
  ]

  widen-Keeps :
      (a b : Option ℕ) (start end source : ℕ) (observed : Bool) (s : QualityState)
      (m : MarketQuality)
      → lookup k m.fingerprints ≡ some p
      → Keeps (widen a b start end source observed s m)
  unfolding widen
  widen-Keeps (some a) (some b) start end source observed s m h = h
  widen-Keeps (some a) none start end source observed s m h = h
  widen-Keeps none b start end source observed s m h = h

  open_gap-Keeps :
      (q : Quality) (start end source : ℕ) (observed : Bool) (s : QualityState) (m : MarketQuality)
      → lookup k m.fingerprints ≡ some p
      → Keeps (open_gap q start end source observed s m)
  unfolding open_gap
  open_gap-Keeps unavailable start end source observed s m h = h
  open_gap-Keeps gap start end source observed s m h =
      widen-Keeps s.gap_start_sequence s.gap_end_sequence start end source observed s m h
  open_gap-Keeps normal start end source observed s m h = h
  open_gap-Keeps degraded start end source observed s m h = h
  open_gap-Keeps stale start end source observed s m h = h
  open_gap-Keeps recovering start end source observed s m h = h

  mark-Keeps :
      (q : Quality) (i : String) (s : QualityState) (m : MarketQuality)
      → lookup k m.fingerprints ≡ some p
      → Keeps (mark_by_quality q i s m)
  mark-Keeps gap i s m h = h
  mark-Keeps unavailable i s m h = h
  mark-Keeps recovering i s m h = h
  mark-Keeps normal i s m h = h
  mark-Keeps degraded i s m h = h
  mark-Keeps stale i s m h = h

  settle-Keeps :
      (r : Result MarketError (Unit {0})) (i : String) (s : QualityState) (m : MarketQuality)
      → lookup k m.fingerprints ≡ some p
      → Keeps (settle_recovery r i s m)
  settle-Keeps (err e) i s m h = h
  settle-Keeps (ok _) i s m h = h

  baseline-Keeps :
      (provider i c v session : String) (source quality : ℕ) (m : MarketQuality)
      → lookup k m.fingerprints ≡ some p
      → Keeps (baseline provider i c v session source quality m)
  unfolding baseline
  baseline-Keeps provider i c v session source quality m h =
      elim (Option-cases (lookup i m.states)) [
        | inl missing ↦ rw (baseline, missing) h
        | inr (s, there) ↦ rw (baseline, there) h
      ]

  remember-Keeps :
      (s : QualityState) (t : Tick) (n : ℕ) (m : MarketQuality)
      → lookup (s.provider, (t.instrument_id, n)) m.fingerprints ≡ none
      → lookup k m.fingerprints ≡ some p
      → lookup k (remember s t n m).fingerprints ≡ some p
  remember-Keeps s t n m new h =
      lookup-insert_ne k (s.provider, (t.instrument_id, n)) t.fingerprint m.fingerprints
        (λ e.
          let none_yet : lookup k m.fingerprints ≡ none =
            subst (λ x. lookup x m.fingerprints ≡ none) (sym e) new in
          cc (h, none_yet))
      ∙ h

  in_line-Keeps :
      (s : QualityState) (t : Tick) (n : ℕ) (m : MarketQuality)
      → lookup (s.provider, (t.instrument_id, n)) m.fingerprints ≡ none
      → lookup k m.fingerprints ≡ some p
      → Keeps (observe_in_line s t n m)
  unfolding observe_in_line
  in_line-Keeps s t n m new h =
      let kept = remember-Keeps s t n m new h in
      if-cases Keeps (leb n s.contiguous_source_version) _ _ (λ _. h)
        (λ _.
          if-cases Keeps (ltb (s.contiguous_source_version + 1) n) _ _
            (λ _.
              open_gap-Keeps s.quality (s.contiguous_source_version + 1) (n - 1) n true s
                (remember s t n m) kept)
            (λ _. kept))

  by_quality-Keeps :
      (q : Quality) (s : QualityState) (t : Tick) (n : ℕ) (m : MarketQuality)
      → lookup (s.provider, (t.instrument_id, n)) m.fingerprints ≡ none
      → lookup k m.fingerprints ≡ some p
      → Keeps (observe_by_quality q s t n m)
  unfolding observe_by_quality observe_gap_backfill
  by_quality-Keeps gap s t n m new h =
      if-cases Keeps (leb n s.contiguous_source_version || ltb s.expected_gap_end_sequence n) _ _
        (λ _. h) (λ _. remember-Keeps s t n m new h)
  by_quality-Keeps normal s t n m new h = in_line-Keeps s t n m new h
  by_quality-Keeps degraded s t n m new h = in_line-Keeps s t n m new h
  by_quality-Keeps stale s t n m new h = in_line-Keeps s t n m new h
  by_quality-Keeps unavailable s t n m new h = in_line-Keeps s t n m new h
  by_quality-Keeps recovering s t n m new h = in_line-Keeps s t n m new h

  sequence-Keeps :
      (s : QualityState) (t : Tick) (n : ℕ) (m : MarketQuality)
      → lookup k m.fingerprints ≡ some p
      → Keeps (observe_sequence s t n m)
  sequence-Keeps s t n m h =
      elim (Option-cases (lookup (s.provider, (t.instrument_id, n)) m.fingerprints)) [
        | inl new ↦ rw (observe_sequence, new) (by_quality-Keeps s.quality s t n m new h)
        | inr (q, there) ↦
            rw (observe_sequence, there) (if-cases Keeps (q == t.fingerprint) _ _ (λ _. h) (λ _. h))
      ]

  tick-Keeps :
      (t : Tick) (m : MarketQuality) → lookup k m.fingerprints ≡ some p → Keeps (observe_tick t m)
  unfolding observe_tick
  tick-Keeps t m h = on_state-Keeps t.instrument_id _ m h (λ s.
      elim (Result-cases (evidence_int "source_sequence" t.payload)) [
        | inl (n, given) ↦ rw given (sequence-Keeps s t n m h)
        | inr (e, bad) ↦ rw bad h
      ])

  pub step-Keeps :
      (op : Operation) (m : MarketQuality) → lookup k m.fingerprints ≡ some p → Keeps (step op m)
  unfolding step overflow mark_stale begin_recovery complete_recovery
  step-Keeps (baseline_op q i c v session source quality) m h =
      baseline-Keeps q i c v session source quality m h
  step-Keeps (tick_op t) m h = tick-Keeps t m h
  step-Keeps (overflow_op i n) m h =
      on_state-Keeps i (λ s m. open_gap s.quality n n n false s m) m h
        (λ s. open_gap-Keeps s.quality n n n false s m h)
  step-Keeps (stale_op i) m h =
      on_state-Keeps i (λ s m. mark_by_quality s.quality i s m) m h
        (λ s. mark-Keeps s.quality i s m h)
  step-Keeps (begin_op i ev reason) m h =
      on_state-Keeps i
        (λ s m. settle_recovery (may_begin s ev reason m.recovery_registry) i (begun ev reason s) m)
        m h
        (λ s. settle-Keeps (may_begin s ev reason m.recovery_registry) i (begun ev reason s) m h)
  step-Keeps (complete_op i ev) m h =
      on_state-Keeps i
        (λ s m. settle_recovery (may_complete s ev m.recovery_registry) i (completed ev s) m) m h
        (λ s. settle-Keeps (may_complete s ev m.recovery_registry) i (completed ev s) m h)
