-- ===== src/Market/Quality/Replay.antt =====
-- A tick that is delivered twice, and a tick under the identity of another
-- (src/quantiqmt/market/quality.py).
use quanti_qmt.Base.{
  ℕ, ◌+◌, ◌-◌, true, ◌||◌, none, some, Result, ok, err, leb, ltb, ◌==◌, string_eq, ◌≡◌, ◌≢◌, refl,
  sym, inl, inr, arith, if-cases, Option-cases, ==-true,
}
use mathlib.Core.Path.{subst}
use quanti_qmt.Base.Dict.{lookup, lookup-insert_self}
use quanti_qmt.Market.Quality.State.{
  MarketError, Quality, QualityState, evidence_int, baseline_missing, gap, normal, degraded, stale,
  unavailable, recovering,
}
use quanti_qmt.Market.Quality.Store.{
  MarketQuality, tick_identity_eq, Tick, Outcome, put, state, on_state, enter_gap, open_gap,
  backfilled,
}
use quanti_qmt.Market.Quality.Pipeline.{
  observe_gap_backfill, advanced, observe_in_line, observe_by_quality, observe_sequence,
  observe_tick, remember,
}
use quanti_qmt.Market.Quality.Coherence.{is_sound, is_sound-lookup}

-- The tick is on record under the identity that it has in the state.
abbrev pub Recorded : Tick → ℕ → QualityState → MarketQuality → Type 0
Recorded t n s m =
    (lookup t.instrument_id m.states ≡ some s)
    × (lookup (s.provider, (t.instrument_id, n)) m.fingerprints ≡ some t.fingerprint)

abbrev Accepted : Tick → ℕ → Outcome → Type 0
Accepted t n (err _, _) = Unit
Accepted t n (ok s, m) = Recorded t n s m

module _ (t : Tick) (n : ℕ) (s : QualityState) (m : MarketQuality)
    (key : s.instrument_id ≡ t.instrument_id)
    (found : lookup t.instrument_id m.states ≡ some s) where
  -- A new state of the same provider, stored with the fingerprint.
  put-Accepted :
      (s' : QualityState)
      → s'.provider ≡ s.provider
      → Accepted t n (put t.instrument_id s' (remember s t n m))
  put-Accepted s' p = (
    lookup-insert_self t.instrument_id s' m.states,
    subst
        (λ x. lookup (x, (t.instrument_id, n)) (remember s t n m).fingerprints ≡ some t.fingerprint)
        (sym p)
        (lookup-insert_self (s.provider, (t.instrument_id, n)) t.fingerprint m.fingerprints),
  )

  put_own-Accepted :
      (s' : QualityState)
      → s'.provider ≡ s.provider
      → Accepted t n (put s.instrument_id s' (remember s t n m))
  put_own-Accepted s' p =
      subst (λ x. Accepted t n (put x s' (remember s t n m))) (sym key) (put-Accepted s' p)

  in_line-Accepted : s.quality ≢ gap → Accepted t n (observe_in_line s t n m)
  unfolding observe_in_line open_gap enter_gap advanced
  in_line-Accepted q =
      if-cases (Accepted t n) (leb n s.contiguous_source_version) _ _ (λ _. tt)
        λ _.
          if-cases (Accepted t n) (ltb (s.contiguous_source_version + 1) n) _ _
            (λ _. missed s.quality refl) λ _. put-Accepted (advanced n s) refl
    where
      entered : Accepted t n (
          put s.instrument_id
            (enter_gap (s.contiguous_source_version + 1) (n - 1) n true s)
            (remember s t n m))
      entered = put_own-Accepted (enter_gap (s.contiguous_source_version + 1) (n - 1) n true s) refl

      missed :
          (quality : Quality)
          → s.quality ≡ quality
          → Accepted t n (
              open_gap quality
                (s.contiguous_source_version + 1)
                (n - 1)
                n
                true
                s
                (remember s t n m))
      missed gap e = absurd (q e)
      missed unavailable e = (
        found,
        lookup-insert_self (s.provider, (t.instrument_id, n)) t.fingerprint m.fingerprints,
      )
      missed normal e = entered
      missed degraded e = entered
      missed stale e = entered
      missed recovering e = entered

  by_quality-Accepted : (q : Quality) → s.quality ≡ q → Accepted t n (observe_by_quality q s t n m)
  unfolding observe_by_quality observe_gap_backfill backfilled
  by_quality-Accepted gap e =
      if-cases (Accepted t n)
        (leb n s.contiguous_source_version || ltb s.expected_gap_end_sequence n) _ _ (λ _. tt)
        λ _. put_own-Accepted (backfilled n s) refl
  by_quality-Accepted normal e = in_line-Accepted (λ g. cc)
  by_quality-Accepted degraded e = in_line-Accepted (λ g. cc)
  by_quality-Accepted stale e = in_line-Accepted (λ g. cc)
  by_quality-Accepted unavailable e = in_line-Accepted (λ g. cc)
  by_quality-Accepted recovering e = in_line-Accepted (λ g. cc)

  sequence-Accepted : Accepted t n (observe_sequence s t n m)
  sequence-Accepted =
      elim (Option-cases (lookup (s.provider, (t.instrument_id, n)) m.fingerprints)) [
        | inl e ↦ rw (observe_sequence, e) (by_quality-Accepted s.quality refl)
        | inr (p, e) ↦
            rw (observe_sequence, e)
              (if-cases (Accepted t n) (p == t.fingerprint) _ _
                (λ same. (found, rw (sym (==-true p t.fingerprint same)) e)) λ _. tt)
      ]

pub observe_tick-opens :
    (t : Tick) (m : MarketQuality) (s : QualityState) (n : ℕ)
    → lookup t.instrument_id m.states ≡ some s
    → evidence_int "source_sequence" t.payload ≡ ok n
    → observe_tick t m ≡ observe_sequence s t n m
unfolding observe_tick on_state state
observe_tick-opens t m s n l e = rw (observe_tick, on_state, state, l) (rw e refl)

observe_tick-missing :
    (t : Tick) (m : MarketQuality) (s : QualityState)
    → lookup t.instrument_id m.states ≡ none
    → (observe_tick t m).0 ≢ ok s
unfolding observe_tick on_state state
observe_tick-missing t m s l h =
    let raised : Path (Result MarketError QualityState) (err (baseline_missing t.instrument_id))
        (ok s) =
      rw (observe_tick, on_state, state, l) at h in
    cc

of_Accepted :
    (t : Tick) (n : ℕ) (s : QualityState) (o : Outcome)
    → Accepted t n o
    → o.0 ≡ ok s
    → Recorded t n s o.1
of_Accepted t n s (err e, m) a h = cc
of_Accepted t n s (ok s', m) a h = let same : s' ≡ s = cc h in subst (λ x. Recorded t n x m) same a

-- An accepted tick is recorded, under the sequence that it names.
pub accepted-Recorded :
    (t : Tick) (m : MarketQuality) (s : QualityState) (n : ℕ)
    → is_sound m ≡ true
    → evidence_int "source_sequence" t.payload ≡ ok n
    → (observe_tick t m).0 ≡ ok s
    → Recorded t n s (observe_tick t m).1
unfolding is_sound
accepted-Recorded t m s n h e a = elim (Option-cases (lookup t.instrument_id m.states)) [
  | inl none_yet ↦ absurd (observe_tick-missing t m s none_yet a)
  | inr (s0, l) ↦
      let both = is_sound-lookup t.instrument_id s0 m.states h l in
      let key : s0.instrument_id ≡ t.instrument_id =
        ==-true s0.instrument_id t.instrument_id (ground arith) in
      let opens = observe_tick-opens t m s0 n l e in
      of_Accepted t n s (observe_tick t m)
        (subst (Accepted t n) (sym opens) (sequence-Accepted t n s0 m key l)) a
]
