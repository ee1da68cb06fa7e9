-- ===== src/Market/Quality/Examples.antt =====
-- The market quality pipeline on concrete ticks: a gap, its backfill and the recovery
-- (src/quantiqmt/market/quality.py).
use quanti_qmt.Base.{
  List, not, ◌&&◌, ◌||◌, ltb, leb, nat_beq, ◌≤◌, ℕ, suc, String, true, false, none, some, [], ◌∷◌,
  ok, err, ◌≡◌, ◌≢◌, ◌≤◌, refl, contains, nat_eq, string_eq, pair_eq, arith,
}
use quanti_qmt.Base.Dict.{lookup, insert}
use quanti_qmt.Market.Quality.State.{
  QualityState, Payload, evidence_int, contract_error, int, text, gap, recovering,
}
use quanti_qmt.Market.Quality.Registry.{
  RecoveryEvidenceRegistry, snapshot, registry_key, verify, verify_objects,
}
use quanti_qmt.Market.Quality.Drain.{drain, remove}
use quanti_qmt.Market.Quality.Store.{
  MarketQuality, Tick, first_state, state, on_state, open_gap, enter_gap, backfilled,
}
use quanti_qmt.Market.Quality.Pipeline.{
  observe_tick, observe_by_quality, observe_in_line, observe_gap_backfill, advanced, overflow,
  mark_stale,
}
use quanti_qmt.Market.Quality.Recovery.{
  may_start, may_begin, begun, begin_recovery, validate_recovery, verify_resolved_recovery,
  validated, is_contiguous, is_filled, bound_to, check_gap,
}
use quanti_qmt.Market.Quality.Relation.{Operation, step, tick_op, begin_op, stale_op}
use quanti_qmt.Market.Quality.Follows.{Follows}
use quanti_qmt.Market.Quality.Diagram.{step-Follows, step-gap_resolved}
use quanti_qmt.Market.Quality.Counters.{is_coherent}
use quanti_qmt.Market.Quality.Coherence.{is_sound, step-is_sound}
use quanti_qmt.Market.Quality.Redelivery.{run, observe_tick-replay}
use quanti_qmt.Market.Quality.Evidence.{backfilled-drains}

abbrev checksum : String
checksum = "0123456789abcdef0123456789abcdef0123456789abcdef0123456789abcdef"

abbrev identity : Payload
identity =
    ("provider", text "qmt")
    ∷ ("instrument_id", text "600000.SH")
    ∷ ("calendar_id", text "cn")
    ∷ ("calendar_version", text "1")
    ∷ ("session_id", text "am")
    ∷ []

-- The evidence of a recovery to source version 7, from quality version `version`.
abbrev evidence_from : ℕ → Payload
evidence_from version =
    ("snapshot_identity", text "s1")
    ∷ ("checkpoint_identity", text "c1")
    ∷ ("snapshot_checksum", text checksum)
    ∷ ("checkpoint_checksum", text checksum)
    ∷ ("backfill_start_sequence", int 6)
    ∷ ("backfill_end_sequence", int 6)
    ∷ ("gap_start_sequence", int 6)
    ∷ ("gap_end_sequence", int 6)
    ∷ ("watermark_sequence", int 7)
    ∷ ("previous_source_version", int 7)
    ∷ ("source_version", int 7)
    ∷ ("previous_quality_version", int version)
    ∷ ("quality_version", int (suc version))
    ∷ identity

abbrev resolved : String → Payload
resolved field =
    (field, text checksum) ∷ ("source_version", int 7) ∷ ("quality_version", int 3) ∷ identity

abbrev registry : RecoveryEvidenceRegistry
registry = record {
  snapshots = ("s1", resolved "content_checksum") ∷ [];
  checkpoints = ("c1", resolved "checkpoint_checksum") ∷ [];
  fingerprints = (("snapshot", "s1"), "f1") ∷ (("checkpoint", "c1"), "f2") ∷ [];
}

abbrev first : QualityState
first = first_state "qmt" "600000.SH" "cn" "1" "am" 5 1

abbrev pipeline : MarketQuality
pipeline = record {
  states = ("600000.SH", first) ∷ [];
  fingerprints = [];
  recovery_registry = some registry;
}

abbrev tick_at : ℕ → Tick
tick_at n = record {
  instrument_id = "600000.SH";
  payload = ("source_sequence", int n) ∷ [];
  fingerprint = "h";
}

-- In GAP: 7 has come, 6 has not.
abbrev in_gap : QualityState
in_gap = record first {
  quality = gap;
  quality_version = 2;
  source_version = 7;
  unresolved_gap_count = 1;
  gap_start_sequence = some 6;
  gap_end_sequence = some 6;
  highest_observed_sequence = 7;
  expected_gap_end_sequence = 6;
  pending_backfill_sequences = 7 ∷ [];
  reason_code = "SOURCE_SEQUENCE_GAP";
}

-- In GAP, with the backfill complete.
abbrev filled : QualityState
filled = record in_gap { contiguous_source_version = 7; pending_backfill_sequences = [] }

abbrev filled_pipeline : MarketQuality
filled_pipeline = record pipeline { states = ("600000.SH", filled) ∷ [] }

abbrev recovering_state : QualityState
recovering_state = record filled {
  quality = recovering;
  quality_version = 3;
  expected_gap_end_sequence = 7;
  unresolved_gap_count = 0;
  gap_start_sequence = none;
  gap_end_sequence = none;
  recovery_gap_start_sequence = some 6;
  recovery_gap_end_sequence = some 6;
  reason_code = "BACKFILL_STARTED";
}

opened : Unit {0}
unfolding lookup insert state on_state observe_tick evidence_int observe_by_quality observe_in_line
    observe_gap_backfill open_gap enter_gap backfilled drain remove advanced overflow mark_stale
    begin_recovery may_begin check_gap is_filled bound_to validated validate_recovery
    verify_resolved_recovery verify verify_objects is_contiguous may_start begun step
opened = tt

gap_opens : (observe_tick (tick_at 7) pipeline).0 ≡ ok in_gap
unfolding opened
gap_opens = refl

backfill_fills : backfilled 6 in_gap ≡ filled
unfolding backfilled drain remove
backfill_fills = refl

recovery_begins :
    begin_recovery "600000.SH" (evidence_from 2) "BACKFILL_STARTED" filled_pipeline
    ≡ (ok recovering_state, record pipeline { states = ("600000.SH", recovering_state) ∷ [] })
unfolding opened
recovery_begins = refl

sound_pipeline : is_sound pipeline ≡ true
unfolding is_sound is_coherent
sound_pipeline = refl

sound_filled : is_sound filled_pipeline ≡ true
unfolding is_sound is_coherent
sound_filled = refl

found_first : lookup "600000.SH" pipeline.states ≡ some first
unfolding lookup
found_first = refl

found_filled : lookup "600000.SH" filled_pipeline.states ≡ some filled
unfolding lookup
found_filled = refl

abbrev begin_filled : Operation
begin_filled = begin_op "600000.SH" (evidence_from 2) "BACKFILL_STARTED"

begins_in_gap :
    lookup "600000.SH" (step begin_filled filled_pipeline).1.states ≡ some recovering_state
unfolding opened
begins_in_gap = refl

recovering_is_no_gap : recovering_state.quality ≢ gap
recovering_is_no_gap e = cc

stale_tick_raises :
    (step (tick_op (tick_at 5)) pipeline).0 ≡ err (contract_error "source sequence regression")
unfolding opened
stale_tick_raises = refl

sequence_of_7 : evidence_int "source_sequence" (tick_at 7).payload ≡ ok 7
unfolding opened
sequence_of_7 = refl

passed_7 : 7 ≤ (backfilled 6 in_gap).contiguous_source_version
unfolding opened
passed_7 = omega arith

kept_s1 : lookup (registry_key snapshot "s1") registry.fingerprints ≡ some "f1"
unfolding lookup
kept_s1 = refl

step-is_sound_example : is_sound (step (tick_op (tick_at 7)) pipeline).1 ≡ true
step-is_sound_example = step-is_sound (tick_op (tick_at 7)) pipeline sound_pipeline

step-Follows_example :
    (s' : QualityState) × (lookup "600000.SH" (step (tick_op (tick_at 7)) pipeline).1.states
      ≡ some s')
    × Follows first s'
step-Follows_example =
    step-Follows (tick_op (tick_at 7)) pipeline "600000.SH" first refl found_first

step-gap_resolved_example :
    (filled.contiguous_source_version ≡ filled.highest_observed_sequence)
    × (filled.expected_gap_end_sequence ≤ filled.contiguous_source_version)
    × (recovering_state.quality ≡ recovering)
step-gap_resolved_example =
    step-gap_resolved begin_filled filled_pipeline "600000.SH" filled recovering_state refl
      found_filled refl begins_in_gap recovering_is_no_gap

-- The instrument ages between the two deliveries, and ticks come in.
abbrev between : List Operation
between = stale_op "600000.SH" ∷ tick_op (tick_at 6) ∷ []

observe_tick-replay_example :
    let later = run between (observe_tick (tick_at 7) pipeline).1 in
    (now : QualityState) × (lookup "600000.SH" later.states ≡ some now)
    × (observe_tick (tick_at 7) later ≡ (ok now, later))
observe_tick-replay_example =
    observe_tick-replay (tick_at 7) (tick_at 7) pipeline in_gap 7 between sound_pipeline
      sequence_of_7 gap_opens refl sequence_of_7

backfilled-drains_example :
    let after = backfilled 6 in_gap in
    (in_gap.contiguous_source_version ≤ after.contiguous_source_version)
    × (contains (suc after.contiguous_source_version) after.pending_backfill_sequences ≡ false)
    × ((not (ltb in_gap.contiguous_source_version 7 && leb 7 after.contiguous_source_version)
          || nat_beq 7 6
          || contains 7 in_gap.pending_backfill_sequences)
        ≡ true)
    × (contains 7 after.pending_backfill_sequences ≡ (
        (nat_beq 7 6 || contains 7 in_gap.pending_backfill_sequences)
        && not (ltb in_gap.contiguous_source_version 7 && leb 7 after.contiguous_source_version)))
backfilled-drains_example = backfilled-drains 6 in_gap 7
