-- ===== src/Market/Quality/Relation.antt =====
-- The moves of one instrument, as a relation, and the operations that write under the instrument
-- they are given (src/quantiqmt/market/quality.py).
use quanti_qmt.Base.{
  ℕ, ◌+◌, ◌-◌, ◌≤◌, ◌<◌, String, Bool, true, false, Option, none, some, Result, ok, err, ◌==◌, all,
  string_eq, ◌≡◌, ◌≢◌, refl, inl, inr, Option-cases, ==-true,
}
use quanti_qmt.Base.Dict.{lookup, all-lookup}
use quanti_qmt.Market.Quality.State.{
  MarketError, Quality, QualityState, Payload, gap, normal, degraded, stale, unavailable,
  recovering,
}
use quanti_qmt.Market.Quality.Registry.{RecoveryEvidenceRegistry}
use quanti_qmt.Market.Quality.Store.{
  MarketQuality, tick_identity_eq, Tick, Outcome, put, state, on_state, baseline, first_state,
  widen_gap, enter_gap, backfilled,
}
use quanti_qmt.Market.Quality.Pipeline.{
  advanced, observe_tick, overflow, aged, mark_by_quality, mark_stale,
}
use quanti_qmt.Market.Quality.Recovery.{
  may_begin, begun, settle_recovery, begin_recovery, may_complete, completed, complete_recovery,
}

-- The operations that write.
pub data Operation : Type 0 where
  baseline_op : String → String → String → String → String → ℕ → ℕ → Operation
  tick_op : Tick → Operation
  overflow_op : String → ℕ → Operation
  stale_op : String → Operation
  begin_op : String → Payload → String → Operation
  complete_op : String → Payload → Operation

unfoldable pub step : Operation → MarketQuality → Outcome
unfolding baseline observe_tick overflow mark_stale begin_recovery complete_recovery
step (baseline_op p i c v s source quality) m = baseline p i c v s source quality m
step (tick_op t) m = observe_tick t m
step (overflow_op i n) m = overflow i n m
step (stale_op i) m = mark_stale i m
step (begin_op i ev reason) m = begin_recovery i ev reason m
step (complete_op i ev) m = complete_recovery i ev m

-- A gap is entered from these.
abbrev pub enters_gap : Quality → Bool
enters_gap gap = false
enters_gap unavailable = false
enters_gap _ = true

abbrev pub ages : Quality → Bool
ages normal = true
ages degraded = true
ages stale = true
ages _ = false

-- The next state of an instrument, with the checks that the code has made.
pub data Move (registry : Option RecoveryEvidenceRegistry) (s : QualityState)
    : QualityState → Type 0 where
  advances :
      (n : ℕ)
      → s.quality ≢ gap
      → n ≡ s.contiguous_source_version + 1
      → Move registry s (advanced n s)
  misses :
      (n : ℕ)
      → enters_gap s.quality ≡ true
      → s.contiguous_source_version + 1 < n
      → Move registry s (enter_gap (s.contiguous_source_version + 1) (n - 1) n true s)
  overflows : (n : ℕ) → enters_gap s.quality ≡ true → Move registry s (enter_gap n n n false s)
  widens :
      (a b n : ℕ)
      → s.quality ≡ gap
      → s.gap_start_sequence ≡ some a
      → s.gap_end_sequence ≡ some b
      → Move registry s (widen_gap a b n n n false s)
  fills :
      (n : ℕ)
      → s.quality ≡ gap
      → s.contiguous_source_version < n
      → n ≤ s.expected_gap_end_sequence
      → Move registry s (backfilled n s)
  ages_by_one : ages s.quality ≡ true → Move registry s (aged s.quality s)
  begins :
      (ev : Payload) (reason : String)
      → may_begin s ev reason registry ≡ ok tt
      → Move registry s (begun ev reason s)
  completes : (ev : Payload) → may_complete s ev registry ≡ ok tt → Move registry s (completed ev s)

-- What a call leaves: everything, or the fingerprint of a tick apart; a first state; a move.
pub data Effect (m : MarketQuality) : Outcome → Type 0 where
  raised : (e : MarketError) → Effect m (err e, m)
  kept :
      (i : String) (s : QualityState) (m' : MarketQuality)
      → lookup i m.states ≡ some s
      → m'.states ≡ m.states
      → Effect m (ok s, m')
  created :
      (provider i calendar calendar_version session : String) (source quality : ℕ)
      → lookup i m.states ≡ none
      → Effect m (put i (first_state provider i calendar calendar_version session source quality) m)
  moved :
      (i : String) (s s' : QualityState) (m' : MarketQuality)
      → lookup i m.states ≡ some s
      → Move m.recovery_registry s s'
      → m'.states ≡ m.states
      → Effect m (put i s' m')

-- Each state is stored under its own instrument.
abbrev pub IsKeyed : MarketQuality → Type 0
IsKeyed m = all (λ entry. entry.1.instrument_id == entry.0) m.states ≡ true

pub on_state-Effect :
    (i : String) (f : QualityState → MarketQuality → Outcome) (m : MarketQuality)
    → ((s : QualityState) → lookup i m.states ≡ some s → Effect m (f s m))
    → Effect m (on_state i f m)
unfolding on_state state
on_state-Effect i f m h = elim (Option-cases (lookup i m.states)) [
  | inl n ↦ rw (on_state, state, n) (raised _)
  | inr (s, e) ↦ rw (on_state, state, e) (h s e)
]

pub key_of :
    (m : MarketQuality) (i : String) (s : QualityState)
    → IsKeyed m
    → lookup i m.states ≡ some s
    → s.instrument_id ≡ i
key_of m i s k l =
    ==-true s.instrument_id i
      (all-lookup (λ entry. entry.1.instrument_id == entry.0) i {v = s} m.states k l)

pub baseline-Effect :
    (p i c v session : String) (source quality : ℕ) (m : MarketQuality)
    → Effect m (baseline p i c v session source quality m)
unfolding baseline
baseline-Effect p i c v session source quality m = elim (Option-cases (lookup i m.states)) [
  | inl n ↦ rw (baseline, n) (created p i c v session source quality n)
  | inr (s, e) ↦ rw (baseline, e) (kept i s m e refl)
]

pub stale-Effect : (i : String) (m : MarketQuality) → Effect m (mark_stale i m)
unfolding mark_stale
stale-Effect i m =
    on_state-Effect i (λ s m. mark_by_quality s.quality i s m) m
      λ s l. by_quality s.quality s l refl
  where
    by_quality :
        (q : Quality) (s : QualityState)
        → lookup i m.states ≡ some s
        → s.quality ≡ q
        → Effect m (mark_by_quality q i s m)
    by_quality gap s l e = kept i s m l refl
    by_quality unavailable s l e = kept i s m l refl
    by_quality recovering s l e = kept i s m l refl
    by_quality normal s l e = moved i s (aged s.quality s) m l (ages_by_one (rw e refl)) refl
    by_quality degraded s l e = moved i s (aged s.quality s) m l (ages_by_one (rw e refl)) refl
    by_quality stale s l e = moved i s (aged s.quality s) m l (ages_by_one (rw e refl)) refl

settle_recovery-Effect :
    (i : String) (s s' : QualityState) (m : MarketQuality) (r : Result MarketError (Unit {0}))
    → lookup i m.states ≡ some s
    → (r ≡ ok tt → Move m.recovery_registry s s')
    → Effect m (settle_recovery r i s' m)
settle_recovery-Effect i s s' m (err e) l h = raised e
settle_recovery-Effect i s s' m (ok tt) l h = moved i s s' m l (h refl) refl

pub begin-Effect :
    (i : String) (ev : Payload) (reason : String) (m : MarketQuality)
    → Effect m (begin_recovery i ev reason m)
unfolding begin_recovery
begin-Effect i ev reason m =
    on_state-Effect i
      (λ s m. settle_recovery (may_begin s ev reason m.recovery_registry) i (begun ev reason s) m) m
      λ s l.
        settle_recovery-Effect i s (begun ev reason s) m (may_begin s ev reason m.recovery_registry)
          l (begins ev reason)

pub complete-Effect :
    (i : String) (ev : Payload) (m : MarketQuality) → Effect m (complete_recovery i ev m)
unfolding complete_recovery
complete-Effect i ev m =
    on_state-Effect i
      (λ s m. settle_recovery (may_complete s ev m.recovery_registry) i (completed ev s) m) m
      λ s l.
        settle_recovery-Effect i s (completed ev s) m (may_complete s ev m.recovery_registry) l
          (completes ev)
