-- ===== src/Market/Quality/Pipeline.antt =====
-- The operations of `MarketQuality` on ticks, overflows and staleness
-- (src/quantiqmt/market/quality.py).
use quanti_qmt.Base.{
  ℕ, ◌+◌, ◌-◌, String, true, false, ◌||◌, none, some, ok, err, ◌==◌, leb, ltb, if◌then◌else◌,
  string_eq, pair_eq, nat_eq,
}
use quanti_qmt.Base.Dict.{lookup, insert}
use quanti_qmt.Market.Quality.State.{
  Quality, QualityState, evidence_int, contract_error, identity_collision, normal, degraded, stale,
  gap, unavailable, recovering,
}
use quanti_qmt.Market.Quality.Store.{
  MarketQuality, Tick, Outcome, put, on_state, open_gap, backfilled,
}

-- `self._fingerprints[identity] = fingerprint`
abbrev pub remember : QualityState → Tick → ℕ → MarketQuality → MarketQuality
remember s t sequence m = record m {
  fingerprints = insert (s.provider, (t.instrument_id, sequence)) t.fingerprint m.fingerprints;
}

-- `_observe_gap_backfill`
unfoldable pub observe_gap_backfill : QualityState → Tick → ℕ → MarketQuality → Outcome
unfolding backfilled
observe_gap_backfill s t sequence m =
    if leb sequence s.contiguous_source_version || ltb s.expected_gap_end_sequence sequence
    then (err (contract_error "backfill sequence is outside the unresolved gap"), m)
    else put s.instrument_id (backfilled sequence s) (remember s t sequence m)

-- The state after the next tick in line.
unfoldable pub advanced : ℕ → QualityState → QualityState
advanced sequence s = record s {
  source_version = sequence;
  contiguous_source_version = sequence;
  highest_observed_sequence = sequence;
  expected_gap_end_sequence = sequence;
}

-- `observe_tick`, outside GAP
unfoldable pub observe_in_line : QualityState → Tick → ℕ → MarketQuality → Outcome
unfolding advanced
observe_in_line s t sequence m =
    if leb sequence s.contiguous_source_version
    then (err (contract_error "source sequence regression"), m)
    else if ltb (s.contiguous_source_version + 1) sequence
    then open_gap s.quality (s.contiguous_source_version + 1) (sequence - 1) sequence true s
        (remember s t sequence m)
    else put t.instrument_id (advanced sequence s) (remember s t sequence m)

unfoldable pub observe_by_quality : Quality → QualityState → Tick → ℕ → MarketQuality → Outcome
unfolding observe_gap_backfill observe_in_line
observe_by_quality gap s t sequence m = observe_gap_backfill s t sequence m
observe_by_quality _ s t sequence m = observe_in_line s t sequence m

-- `observe_tick`, on a sequence that is known or new
abbrev pub observe_sequence : QualityState → Tick → ℕ → MarketQuality → Outcome
observe_sequence s t sequence m =
    elim (lookup (s.provider, (t.instrument_id, sequence)) m.fingerprints) [
      | some previous ↦
          if previous == t.fingerprint
          then (ok s, m)
          else (err (identity_collision "market tick identity collision"), m)
      | none ↦ observe_by_quality s.quality s t sequence m
    ]

unfoldable pub observe_tick : Tick → MarketQuality → Outcome
unfolding evidence_int
observe_tick t = on_state t.instrument_id (λ s m. elim (evidence_int "source_sequence" t.payload) [
  | err e ↦ (err e, m)
  | ok sequence ↦ observe_sequence s t sequence m
])

unfoldable pub overflow : String → ℕ → MarketQuality → Outcome
overflow instrument sequence =
    on_state instrument (λ s m. open_gap s.quality sequence sequence sequence false s m)

-- The state after `mark_stale`, outside GAP, UNAVAILABLE and RECOVERING.
abbrev pub aged : Quality → QualityState → QualityState
aged normal s = record s {
  quality = degraded;
  quality_version = s.quality_version + 1;
  reason_code = "SOURCE_LAG";
}
aged degraded s = record s {
  quality = stale;
  quality_version = s.quality_version + 1;
  reason_code = "STALE_DEADLINE_EXCEEDED";
}
aged _ s = s

abbrev pub mark_by_quality : Quality → String → QualityState → MarketQuality → Outcome
mark_by_quality gap instrument s m = (ok s, m)
mark_by_quality unavailable instrument s m = (ok s, m)
mark_by_quality recovering instrument s m = (ok s, m)
mark_by_quality _ instrument s m = put instrument (aged s.quality s) m

unfoldable pub mark_stale : String → MarketQuality → Outcome
mark_stale instrument = on_state instrument (λ s m. mark_by_quality s.quality instrument s m)
