-- ===== src/Market/Quality/Recovery.antt =====
-- The recovery of an instrument: `begin_recovery` and `complete_recovery` of `MarketQuality`
-- (src/quantiqmt/market/quality.py).
use quanti_qmt.Base.{
  ℕ, ◌+◌, String, Bool, true, false, not, ◌||◌, ◌&&◌, Option, none, some, List, [], ◌∷◌, Result, ok,
  err, ◌==◌, nat_beq, leb, ltb, all, string_eq,
}
use quanti_qmt.Market.Quality.State.{
  MarketError, Quality, QualityState, Payload, get, value_beq, optional, evidence_int, is_int,
  is_checksum, identity_fields, has_values, raise_if, contract_error, int, normal, stale, gap,
  unavailable, recovering,
}
use quanti_qmt.Market.Quality.Registry.{RecoveryEvidenceRegistry, verify}
use quanti_qmt.Market.Quality.Store.{MarketQuality, Outcome, put, on_state}

abbrev pub required_ints : List String
required_ints =
    "backfill_start_sequence" ∷ "backfill_end_sequence" ∷ "gap_start_sequence" ∷ "gap_end_sequence"
    ∷ "watermark_sequence" ∷ "previous_source_version" ∷ "source_version"
    ∷ "previous_quality_version" ∷ "quality_version" ∷ []

-- The value of a field that is known to be an integer.
abbrev pub number : String → Payload → ℕ
number field p = elim (get field p) [ int n ↦ n | _ ↦ 0 ]

-- The range of the evidence is one gap that the source version and the watermark cover.
unfoldable pub is_contiguous : Payload → Bool
is_contiguous ev =
    nat_beq (number "backfill_start_sequence" ev) (number "gap_start_sequence" ev)
    && nat_beq (number "backfill_end_sequence" ev) (number "gap_end_sequence" ev)
    && leb (number "gap_start_sequence" ev) (number "gap_end_sequence" ev)
    && leb (number "gap_end_sequence" ev) (number "source_version" ev)
    && leb (number "source_version" ev) (number "watermark_sequence" ev)

-- `_validate_recovery`: raises, or goes on with `rest`
unfoldable pub validate_recovery : QualityState → Payload → Bool → Result MarketError (Unit {0})
unfolding is_contiguous
validate_recovery s ev allow_previous_version =
    raise_if (not (has_values ev (identity_fields s))) "recovery evidence identity mismatch" (
      raise_if (not (all (λ field. is_int (get field ev)) required_ints))
        "recovery evidence range is malformed"
        (raise_if (not (is_contiguous ev)) "recovery evidence is not contiguous" (
          raise_if
            (not (nat_beq (number "previous_quality_version" ev) s.quality_version)
              || not (nat_beq (number "quality_version" ev) (s.quality_version + 1)))
            "recovery quality version mismatch"
            (raise_if
              (not allow_previous_version
                && ltb s.source_version (number "previous_source_version" ev))
              "recovery evidence starts beyond current source version"
              (raise_if
                (not (is_checksum (get "snapshot_checksum" ev))
                  || not (is_checksum (get "checkpoint_checksum" ev)))
                "recovery checksum is malformed" (ok tt))))))

-- `_verify_resolved_recovery`
unfoldable pub verify_resolved_recovery :
    Payload → QualityState → Option RecoveryEvidenceRegistry → Result MarketError (Unit {0})
unfolding verify
verify_resolved_recovery ev s none =
    err (contract_error "immutable recovery evidence registry is unavailable")
verify_resolved_recovery ev s (some r) = verify ev s r

-- The starts of a recovery that are allowed.
unfoldable pub may_start : Quality → String → Bool
may_start unavailable reason = reason == "SNAPSHOT_VERIFYING" || reason == "BACKFILL_STARTED"
may_start gap reason = reason == "BACKFILL_STARTED"
may_start stale reason = reason == "SNAPSHOT_VERIFYING"
may_start _ reason = false

-- The backfill of the gap has reached the highest observed and the expected sequence.
unfoldable pub is_filled : QualityState → Bool
is_filled s =
    nat_beq s.contiguous_source_version s.highest_observed_sequence
    && leb s.expected_gap_end_sequence s.contiguous_source_version

-- The evidence names the gap from `start` to `end` and the source version of the state.
unfoldable pub bound_to :
    Option ℕ
    → Option ℕ
    → Payload
    → QualityState
    → String
    → Result MarketError (Unit {0})
    → Result MarketError (Unit {0})
unfolding evidence_int
bound_to start end ev s message rest =
    raise_if
      (not (value_beq (get "gap_start_sequence" ev) (optional start))
        || not (value_beq (get "gap_end_sequence" ev) (optional end)))
      message
      (elim (evidence_int "source_version" ev) [
        | err e ↦ err e
        | ok n ↦ raise_if (not (nat_beq n s.source_version)) message rest
      ])

-- `_validate_recovery` and `_verify_resolved_recovery`
unfoldable pub validated :
    Payload → QualityState → Bool → Option RecoveryEvidenceRegistry → Result MarketError (Unit {0})
unfolding validate_recovery verify_resolved_recovery
validated ev s allow registry = elim (validate_recovery s ev allow) [
  | err e ↦ err e
  | ok _ ↦ verify_resolved_recovery ev s registry
]

unfoldable pub check_gap :
    Quality → QualityState → Payload → Result MarketError (Unit {0}) → Result MarketError (Unit {0})
unfolding is_filled
check_gap gap s ev rest = raise_if (not (is_filled s)) "gap backfill is incomplete" (
    bound_to s.gap_start_sequence s.gap_end_sequence ev s
      "recovery evidence does not bind the resolved gap" rest)
check_gap _ s ev rest = rest

-- The checks of `begin_recovery`
unfoldable pub may_begin :
    QualityState
    → Payload
    → String
    → Option RecoveryEvidenceRegistry
    → Result MarketError (Unit {0})
unfolding may_start validated
may_begin s ev reason registry =
    raise_if (not (may_start s.quality reason)) "illegal recovery start transition"
      (check_gap s.quality s ev (validated ev s false registry))

unfoldable pub begun : Payload → String → QualityState → QualityState
begun ev reason s = record s {
  quality = recovering;
  quality_version = s.quality_version + 1;
  source_version = number "source_version" ev;
  contiguous_source_version = number "source_version" ev;
  highest_observed_sequence = number "source_version" ev;
  expected_gap_end_sequence = number "source_version" ev;
  unresolved_gap_count = 0;
  gap_start_sequence = none;
  gap_end_sequence = none;
  pending_backfill_sequences = [];
  recovery_gap_start_sequence = s.gap_start_sequence;
  recovery_gap_end_sequence = s.gap_end_sequence;
  reason_code = reason;
}

abbrev pub settle_recovery :
    Result MarketError (Unit {0}) → String → QualityState → MarketQuality → Outcome
settle_recovery (err e) instrument s m = (err e, m)
settle_recovery (ok _) instrument s m = put instrument s m

unfoldable pub begin_recovery : String → Payload → String → MarketQuality → Outcome
unfolding may_begin begun
begin_recovery instrument ev reason = on_state instrument (λ s m.
    settle_recovery (may_begin s ev reason m.recovery_registry) instrument (begun ev reason s) m)

abbrev pub is_recovering : Quality → Bool
is_recovering recovering = true
is_recovering _ = false

-- The checks of `complete_recovery`
unfoldable pub may_complete :
    QualityState → Payload → Option RecoveryEvidenceRegistry → Result MarketError (Unit {0})
unfolding is_filled validated
may_complete s ev registry =
    raise_if (not (is_recovering s.quality)) "only RECOVERING can enter NORMAL" (
      raise_if (not (is_filled s)) "recovery evidence does not prove a fully resolved gap" (
        bound_to s.recovery_gap_start_sequence s.recovery_gap_end_sequence ev s
          "recovery evidence does not prove a fully resolved gap"
          (elim (validated ev s true registry) [
            | err e ↦ err e
            | ok _ ↦
                raise_if (ltb (number "watermark_sequence" ev) (number "source_version" ev))
                  "recovery watermark does not cover source version" (ok tt)
          ])))

unfoldable pub completed : Payload → QualityState → QualityState
completed ev s = record s {
  quality = normal;
  quality_version = s.quality_version + 1;
  source_version = number "source_version" ev;
  contiguous_source_version = number "source_version" ev;
  highest_observed_sequence = number "source_version" ev;
  expected_gap_end_sequence = number "source_version" ev;
  unresolved_gap_count = 0;
  gap_start_sequence = none;
  gap_end_sequence = none;
  recovery_gap_start_sequence = none;
  recovery_gap_end_sequence = none;
  reason_code = "RECOVERY_VERIFIED";
}

unfoldable pub complete_recovery : String → Payload → MarketQuality → Outcome
unfolding may_complete completed
complete_recovery instrument ev =
    on_state instrument
      (λ s m. settle_recovery (may_complete s ev m.recovery_registry) instrument (completed ev s) m)
