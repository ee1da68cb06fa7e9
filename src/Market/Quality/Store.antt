-- ===== src/Market/Quality/Store.antt =====
-- The object `MarketQuality`, its first states and what it stores for a gap
-- (src/quantiqmt/market/quality.py). A tick carries its payload and the canonical hash of the
-- payload, which contracts/canonical.py computes.
use quanti_qmt.Base.{
  ℕ, ◌+◌, max, min, String, Bool, Option, none, some, List, [], map, length, Result, ok, err,
  if◌then◌else◌, string_eq, pair_eq, Eq, nat_eq,
}
use quanti_qmt.Base.Dict.{Dict, lookup, insert}
use quanti_qmt.Market.Quality.State.{
  MarketError, Quality, QualityState, Payload, baseline_missing, type_error, normal, gap,
  unavailable,
}
use quanti_qmt.Market.Quality.Registry.{RecoveryEvidenceRegistry}
use quanti_qmt.Market.Quality.Drain.{add, drain}

-- Provider, instrument and sequence: the identity of a tick.
instance abbrev pub tick_identity_eq : Eq (String × (String × ℕ))
tick_identity_eq =
    pair_eq ⦃left = string_eq⦄
      ⦃right = pair_eq {A = String} {B = ℕ} ⦃left = string_eq⦄ ⦃right = nat_eq⦄⦄

pub record MarketQuality : Type 0 where
  pub states : Dict String QualityState
  pub fingerprints : Dict (String × (String × ℕ)) String
  pub recovery_registry : Option RecoveryEvidenceRegistry

pub record Tick : Type 0 where
  pub instrument_id : String
  pub payload : Payload
  pub fingerprint : String

-- A call returns a state or raises, and leaves a pipeline.
abbrev pub Outcome : Type 0
Outcome = Result MarketError QualityState × MarketQuality

-- `self._states[instrument_id] = state`, and return it
abbrev pub put : String → QualityState → MarketQuality → Outcome
put instrument s m = (ok s, record m { states = insert instrument s m.states })

-- `state(instrument_id)`
unfoldable pub state : String → MarketQuality → Result MarketError QualityState
state instrument m = elim (lookup instrument m.states) [
  | none ↦ err (baseline_missing instrument)
  | some s ↦ ok s
]

-- The body of an operation on the state of an instrument.
unfoldable pub on_state :
    String → (QualityState → MarketQuality → Outcome) → MarketQuality → Outcome
unfolding state
on_state instrument f m = elim (state instrument m) [ err e ↦ (err e, m) | ok s ↦ f s m ]

abbrev pub first_state : String → String → String → String → String → ℕ → ℕ → QualityState
first_state provider instrument calendar calendar_version session source quality = record {
  provider = provider;
  instrument_id = instrument;
  calendar_id = calendar;
  calendar_version = calendar_version;
  session_id = session;
  quality = normal;
  quality_version = quality;
  source_version = source;
  unresolved_gap_count = 0;
  gap_start_sequence = none;
  gap_end_sequence = none;
  reason_code = "INITIAL_BASELINE_VERIFIED";
  contiguous_source_version = source;
  highest_observed_sequence = source;
  expected_gap_end_sequence = source;
  pending_backfill_sequences = [];
  recovery_gap_start_sequence = none;
  recovery_gap_end_sequence = none;
}

unfoldable pub baseline :
    String → String → String → String → String → ℕ → ℕ → MarketQuality → Outcome
baseline provider instrument calendar calendar_version session source quality m =
    elim (lookup instrument m.states) [
      | some s ↦ (ok s, m)
      | none ↦
          put instrument
            (first_state provider instrument calendar calendar_version session source quality) m
    ]

-- `states`
unfoldable pub all_states : MarketQuality → List QualityState
all_states m = map (λ entry. entry.1) m.states

-- The state after `_gap` in a state of quality GAP, whose gap is from `a` to `b`.
unfoldable pub widen_gap : ℕ → ℕ → ℕ → ℕ → ℕ → Bool → QualityState → QualityState
widen_gap a b start end source_version observed s = record s {
  source_version = if observed then max s.source_version source_version else s.source_version;
  highest_observed_sequence =
      if observed
      then max s.highest_observed_sequence source_version
      else s.highest_observed_sequence;
  expected_gap_end_sequence = max s.expected_gap_end_sequence end;
  unresolved_gap_count = s.unresolved_gap_count + 1;
  gap_start_sequence = some (min a start);
  gap_end_sequence = some (max b end);
  pending_backfill_sequences =
      if observed
      then add source_version s.pending_backfill_sequences
      else s.pending_backfill_sequences;
  reason_code = "SOURCE_SEQUENCE_GAP";
}

-- The state after `_gap` in another state.
unfoldable pub enter_gap : ℕ → ℕ → ℕ → Bool → QualityState → QualityState
enter_gap start end source_version observed s = record s {
  quality = gap;
  quality_version = s.quality_version + 1;
  source_version = if observed then max s.source_version source_version else s.source_version;
  unresolved_gap_count = s.unresolved_gap_count + 1;
  gap_start_sequence = some start;
  gap_end_sequence = some end;
  highest_observed_sequence =
      if observed
      then max s.highest_observed_sequence source_version
      else s.highest_observed_sequence;
  expected_gap_end_sequence = max s.expected_gap_end_sequence end;
  pending_backfill_sequences =
      if observed
      then add source_version s.pending_backfill_sequences
      else s.pending_backfill_sequences;
  reason_code = "SOURCE_SEQUENCE_GAP";
}

-- `min(cast(int, state.gap_start_sequence), start)` raises on a `None`.
unfoldable pub widen :
    Option ℕ → Option ℕ → ℕ → ℕ → ℕ → Bool → QualityState → MarketQuality → Outcome
unfolding widen_gap
widen (some a) (some b) start end source observed s m =
    put s.instrument_id (widen_gap a b start end source observed s) m
widen _ _ start end source observed s m = (err type_error, m)

-- `_gap(state, start, end, source_version, observed_sequence=...)`
unfoldable pub open_gap : Quality → ℕ → ℕ → ℕ → Bool → QualityState → MarketQuality → Outcome
unfolding enter_gap
open_gap unavailable start end source observed s m = (ok s, m)
open_gap gap start end source observed s m =
    widen s.gap_start_sequence s.gap_end_sequence start end source observed s m
open_gap _ start end source observed s m =
    put s.instrument_id (enter_gap start end source observed s) m

-- `_observe_gap_backfill`, the state that it stores
unfoldable pub backfilled : ℕ → QualityState → QualityState
unfolding drain
backfilled sequence s =
    let pending = add sequence s.pending_backfill_sequences in
    let drained = drain (length pending) s.contiguous_source_version pending in
    record s {
      source_version = max s.source_version sequence;
      contiguous_source_version = drained.0;
      highest_observed_sequence = max s.highest_observed_sequence sequence;
      pending_backfill_sequences = drained.1;
    }
