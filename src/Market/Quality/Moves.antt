-- ===== src/Market/Quality/Moves.antt =====
-- The operations of `MarketQuality` and the moves that they make
-- (src/quantiqmt/market/quality.py).
use quanti_qmt.Base.{
  ℕ, ◌+◌, ◌-◌, ◌<◌, String, true, false, Option, none, some, Result, ok, err, ◌==◌, ◌||◌, leb, ltb,
  string_eq, ◌≡◌, ◌≢◌, refl, sym, inl, inr, arith, if-cases, Option-cases, ltb→lt,
}
use mathlib.Core.Path.{subst}
use quanti_qmt.Base.Dict.{lookup}
use quanti_qmt.Market.Quality.State.{
  MarketError, type_error, Quality, QualityState, evidence_int, gap, normal, degraded, stale,
  unavailable, recovering,
}
use quanti_qmt.Market.Quality.Store.{
  MarketQuality, tick_identity_eq, Tick, put, widen_gap, enter_gap, open_gap, widen, backfilled,
}
use quanti_qmt.Market.Quality.Pipeline.{
  observe_gap_backfill, advanced, observe_in_line, observe_by_quality, observe_sequence,
  observe_tick, overflow, remember,
}
use quanti_qmt.Market.Quality.Relation.{
  Move, Operation, baseline_op, tick_op, overflow_op, stale_op, begin_op, complete_op, step,
  enters_gap, advances, misses, overflows, widens, fills, Effect, raised, kept, moved, IsKeyed,
  on_state-Effect, key_of, baseline-Effect, stale-Effect, begin-Effect, complete-Effect,
}

-- A move that is stored under the instrument of the state.
moved_own :
    (m : MarketQuality) (i : String) (s s' : QualityState) (m' : MarketQuality)
    → IsKeyed m
    → lookup i m.states ≡ some s
    → Move m.recovery_registry s s'
    → m'.states ≡ m.states
    → Effect m (put s.instrument_id s' m')
moved_own m i s s' m' k l move e =
    subst (λ j. Effect m (put j s' m')) (sym (key_of m i s k l)) (moved i s s' m' l move e)

overflow-Effect : (i : String) (n : ℕ) (m : MarketQuality) → IsKeyed m → Effect m (overflow i n m)
unfolding overflow open_gap widen
overflow-Effect i n m k =
    on_state-Effect i (λ s m. open_gap s.quality n n n false s m) m
      λ s l. by_quality s.quality s l refl
  where
    entered :
        (s : QualityState)
        → lookup i m.states ≡ some s
        → enters_gap s.quality ≡ true
        → Effect m (put s.instrument_id (enter_gap n n n false s) m)
    entered s l h = moved_own m i s (enter_gap n n n false s) m k l (overflows n h) refl

    widened :
        (a b : Option ℕ) (s : QualityState)
        → lookup i m.states ≡ some s
        → s.quality ≡ gap
        → s.gap_start_sequence ≡ a
        → s.gap_end_sequence ≡ b
        → Effect m (widen a b n n n false s m)
    widened (some a) (some b) s l q start end =
        moved_own m i s (widen_gap a b n n n false s) m k l (widens a b n q start end) refl
    widened none b s l q start end = raised type_error
    widened (some a) none s l q start end = raised type_error

    by_quality :
        (q : Quality) (s : QualityState)
        → lookup i m.states ≡ some s
        → s.quality ≡ q
        → Effect m (open_gap q n n n false s m)
    by_quality unavailable s l e = kept i s m l refl
    by_quality gap s l e = widened s.gap_start_sequence s.gap_end_sequence s l e refl refl
    by_quality normal s l e = entered s l (rw e refl)
    by_quality degraded s l e = entered s l (rw e refl)
    by_quality stale s l e = entered s l (rw e refl)
    by_quality recovering s l e = entered s l (rw e refl)

in_line-Effect :
    (t : Tick) (m : MarketQuality) (n : ℕ) (s : QualityState)
    → IsKeyed m
    → lookup t.instrument_id m.states ≡ some s
    → s.quality ≢ gap
    → Effect m (observe_in_line s t n m)
unfolding observe_in_line open_gap
in_line-Effect t m n s k l q =
    if-cases (Effect m) (leb n s.contiguous_source_version) _ _ (λ _. raised _)
      λ past.
        if-cases (Effect m) (ltb (s.contiguous_source_version + 1) n) _ _
          (λ later. missed s.quality refl (ltb→lt _ _ later))
          λ next.
            moved t.instrument_id s (advanced n s) (remember s t n m) l
              (advances n q (ground arith)) refl
  where
    entered :
        enters_gap s.quality ≡ true
        → s.contiguous_source_version + 1 < n
        → Effect m (
            put s.instrument_id
              (enter_gap (s.contiguous_source_version + 1) (n - 1) n true s)
              (remember s t n m))
    entered h later =
        moved_own m t.instrument_id s (enter_gap (s.contiguous_source_version + 1) (n - 1) n true s)
          (remember s t n m) k l (misses n h later) refl

    missed :
        (quality : Quality)
        → s.quality ≡ quality
        → s.contiguous_source_version + 1 < n
        → Effect m
            (open_gap quality (s.contiguous_source_version + 1) (n - 1) n true s (remember s t n m))
    missed gap e later = absurd (q e)
    missed unavailable e later = kept t.instrument_id s (remember s t n m) l refl
    missed normal e later = entered (rw e refl) later
    missed degraded e later = entered (rw e refl) later
    missed stale e later = entered (rw e refl) later
    missed recovering e later = entered (rw e refl) later

backfill-Effect :
    (t : Tick) (m : MarketQuality) (n : ℕ) (s : QualityState)
    → IsKeyed m
    → lookup t.instrument_id m.states ≡ some s
    → s.quality ≡ gap
    → Effect m (observe_gap_backfill s t n m)
unfolding observe_gap_backfill
backfill-Effect t m n s k l q =
    if-cases (Effect m) (leb n s.contiguous_source_version || ltb s.expected_gap_end_sequence n) _ _
      (λ _. raised _)
      λ inside.
        moved_own m t.instrument_id s (backfilled n s) (remember s t n m) k l
          (fills n q (ground arith) (ground arith)) refl

sequence-Effect :
    (t : Tick) (m : MarketQuality) (n : ℕ) (s : QualityState)
    → IsKeyed m
    → lookup t.instrument_id m.states ≡ some s
    → Effect m (observe_sequence s t n m)
unfolding observe_by_quality
sequence-Effect t m n s k l =
    elim (Option-cases (lookup (s.provider, (t.instrument_id, n)) m.fingerprints)) [
      | inl none_yet ↦ rw (observe_sequence, none_yet) (by_quality s.quality refl)
      | inr (p, e) ↦
          rw (observe_sequence, e)
            (if-cases (Effect m) (p == t.fingerprint) _ _ (λ _. kept t.instrument_id s m l refl)
              λ _. raised _)
    ]
  where
    by_quality : (q : Quality) → s.quality ≡ q → Effect m (observe_by_quality q s t n m)
    by_quality gap e = backfill-Effect t m n s k l e
    by_quality normal e = in_line-Effect t m n s k l (λ g. cc)
    by_quality degraded e = in_line-Effect t m n s k l (λ g. cc)
    by_quality stale e = in_line-Effect t m n s k l (λ g. cc)
    by_quality unavailable e = in_line-Effect t m n s k l (λ g. cc)
    by_quality recovering e = in_line-Effect t m n s k l (λ g. cc)

tick-Effect : (t : Tick) (m : MarketQuality) → IsKeyed m → Effect m (observe_tick t m)
unfolding observe_tick
tick-Effect t m k =
    on_state-Effect t.instrument_id
      (λ s m. elim (evidence_int "source_sequence" t.payload) [
        | err e ↦ (err e, m)
        | ok n ↦ observe_sequence s t n m
      ])
      m λ s l. by_sequence s l (evidence_int "source_sequence" t.payload)
  where
    by_sequence :
        (s : QualityState)
        → lookup t.instrument_id m.states ≡ some s
        → (r : Result MarketError ℕ)
        → Effect m (elim r [ err e ↦ (err e, m) | ok n ↦ observe_sequence s t n m ])
    by_sequence s l (err e) = raised e
    by_sequence s l (ok n) = sequence-Effect t m n s k l

pub step-Effect : (op : Operation) (m : MarketQuality) → IsKeyed m → Effect m (step op m)
unfolding step
step-Effect (baseline_op p i c v session source quality) m k =
    baseline-Effect p i c v session source quality m
step-Effect (tick_op t) m k = tick-Effect t m k
step-Effect (overflow_op i n) m k = overflow-Effect i n m k
step-Effect (stale_op i) m k = stale-Effect i m
step-Effect (begin_op i ev reason) m k = begin-Effect i ev reason m
step-Effect (complete_op i ev) m k = complete-Effect i ev m
