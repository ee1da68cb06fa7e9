-- ===== src/Market/Quality/Redelivery.antt =====
-- What the pipeline has recorded of a tick stays, whatever operations follow
-- (src/quantiqmt/market/quality.py), and so a second delivery is always recognised.
use mathlib.Core.Path.{subst}
use quanti_qmt.Base.{
  ℕ, ◌≡◌, refl, sym, ◌∙◌, String, true, some, ok, err, List, [], ◌∷◌, ◌==◌, string_eq, pair_eq,
  nat_eq, if◌then◌else◌, arith,
}
use quanti_qmt.Base.Dict.{lookup}
use quanti_qmt.Market.Quality.State.{QualityState, evidence_int, identity_collision}
use quanti_qmt.Market.Quality.Store.{MarketQuality, tick_identity_eq, Tick}
use quanti_qmt.Market.Quality.Pipeline.{observe_sequence, observe_tick}
use quanti_qmt.Market.Quality.Relation.{Operation, tick_op, step}
use quanti_qmt.Market.Quality.Coherence.{is_sound, step-is_sound, sound_keys}
use quanti_qmt.Market.Quality.Replay.{Recorded, accepted-Recorded, observe_tick-opens}
use quanti_qmt.Market.Quality.Follows.{step-lookup}
use quanti_qmt.Market.Quality.Records.{SameProvider, Move-provider, step-Keeps}

-- The operations in their order, and the pipeline after them.
unfoldable pub run : List Operation → MarketQuality → MarketQuality
unfolding step
run [] m = m
run (op ∷ ops) m = run ops (step op m).1

-- The tick is still on record, under the state that its instrument has now.
run-Recorded :
    (t : Tick) (n : ℕ) (ops : List Operation) (m : MarketQuality) (s : QualityState)
    → is_sound m ≡ true
    → Recorded t n s m
    → (now : QualityState) × Recorded t n now (run ops m)
unfolding run is_sound
run-Recorded t n [] m s h r = (s, r)
run-Recorded t n (op ∷ ops) m s h (l, f) =
    let (next, found, same) =
      step-lookup SameProvider op m t.instrument_id s (sound_keys m.states h) l refl
        (Move-provider m.recovery_registry) in
    run-Recorded t n ops (step op m).1 next (step-is_sound op m h) (
      found,
      subst (λ x. lookup (x, (t.instrument_id, n)) (step op m).1.fingerprints ≡ some t.fingerprint)
          (sym same) (step-Keeps (s.provider, (t.instrument_id, n)) t.fingerprint op m f),
    )

-- After an accepted tick and any operations on the pipeline, a tick with the same instrument and
-- sequence changes nothing: with the same content it is answered with the state that the instrument
-- then has, with another content it is a collision. Condition: the pipeline was sound before the
-- first tick.
pub observe_tick-replay :
    (t t' : Tick) (m : MarketQuality) (s : QualityState) (n : ℕ) (ops : List Operation)
    → is_sound m ≡ true
    → evidence_int "source_sequence" t.payload ≡ ok n
    → (observe_tick t m).0 ≡ ok s
    → t'.instrument_id ≡ t.instrument_id
    → evidence_int "source_sequence" t'.payload ≡ ok n
    → let later = run ops (observe_tick t m).1 in
      (now : QualityState) × (lookup t.instrument_id later.states ≡ some now)
      × (observe_tick t' later ≡ (
        if t.fingerprint == t'.fingerprint
            then ok now
            else err (identity_collision "market tick identity collision"),
        later,
      ))
unfolding step
observe_tick-replay t t' m s n ops h e a i e' =
    let recorded = accepted-Recorded t m s n h e a in
    let sound = step-is_sound (tick_op t) m h in
    let later : MarketQuality = run ops (observe_tick t m).1 in
    let (now, (there, on_record)) = run-Recorded t n ops (observe_tick t m).1 s sound recorded in
    let l : lookup t'.instrument_id later.states ≡ some now =
      subst (λ x. lookup x later.states ≡ some now) (sym i) there in
    let f : lookup (now.provider, (t'.instrument_id, n)) later.fingerprints ≡ some t.fingerprint =
      subst (λ x. lookup (now.provider, (x, n)) later.fingerprints ≡ some t.fingerprint) (sym i)
        on_record in
    (now, there, observe_tick-opens t' later now n l e' ∙ known_tick t' later now n t.fingerprint f)
  where
    known_tick :
        (t : Tick) (m : MarketQuality) (s : QualityState) (n : ℕ) (p : String)
        → lookup (s.provider, (t.instrument_id, n)) m.fingerprints ≡ some p
        → observe_sequence s t n m ≡ (
          if p == t.fingerprint
              then ok s
              else err (identity_collision "market tick identity collision"),
          m,
        )
    known_tick t m s n p f = rw (observe_sequence, f) (ground arith)
