-- ===== src/Market/Gateway/CoreExamples.antt =====
-- A gateway with one subscription and room for one tick (src/quantiqmt/market/gateway.py).
use quanti_qmt.Base.Dict.{lookup, insert}
use quanti_qmt.Base.{ok, ◌≡◌, refl, true, false, none, some, [], ◌∷◌, all}
use quanti_qmt.Market.Quality.State.{degraded, int, text}
use quanti_qmt.Market.Quality.Store.{on_state, Tick, first_state}
use quanti_qmt.Market.Gateway.Core.{Core, SubscriptionRequest, Thresholds}
use quanti_qmt.Market.Gateway.Ingress.{evaluate_staleness, on_tick}
use quanti_qmt.Market.Gateway.Admission.{within_watermark, tick_call, subscription_call, step}
use quanti_qmt.Market.Gateway.Verdict.{Admits, on_tick-Admits}
use quanti_qmt.Market.Gateway.Bounds.{step-within_watermark}
use quanti_qmt.Market.Gateway.Tokens.{Advances, step-Advances}

abbrev thresholds : Thresholds
thresholds = record {
  queue_capacity = 4;
  warning_watermark = 1;
  critical_watermark = 2;
  overflow_watermark = 3;
  source_lag_stale_ms = 1000;
}

abbrev request : SubscriptionRequest
request = record {
  operation = "SUBSCRIBE";
  subscription_id = "s1";
  generation = 2;
  fencing_token = 7;
  provider = "qmt";
  calendar_id = "cn";
  calendar_version = "1";
  session_id = "am";
  instruments = "600000.SH" ∷ [];
  event_types = "TICK" ∷ [];
  source_version = 5;
  quality_version = 1;
  overflow_policy = "REJECT_NEW_WITH_GAP_EVIDENCE";
  batch_capacity = 2;
  thresholds = thresholds;
  fingerprint = "f1";
}

abbrev tick : Tick
tick = record {
  instrument_id = "600000.SH";
  payload =
      ("provider", text "qmt")
      ∷ ("calendar_id", text "cn")
      ∷ ("calendar_version", text "1")
      ∷ ("session_id", text "am")
      ∷ ("source_sequence", int 6)
      ∷ [];
  fingerprint = "h";
}

abbrev core : Core
core = record {
  quality = record {
    states = ("600000.SH", first_state "qmt" "600000.SH" "cn" "1" "am" 5 1) ∷ [];
    fingerprints = [];
    recovery_registry = none;
  };
  subscriptions =
      ("s1", record { request = request; queue = tick ∷ tick ∷ []; active = true }) ∷ [];
  operation_history = [];
  lifecycle_history = [];
  generation = 2;
  fencing_token = 7;
  running = true;
  last_received_at = [];
}

-- The third tick is admitted, the fourth is not.
third : (on_tick (some "s1") 2 7 (some tick) core).0.accepted ≡ true
unfolding on_tick lookup
third = refl

fourth :
    (on_tick (some "s1") 2 7 (some tick) (on_tick (some "s1") 2 7 (some tick) core).1).0.reason_code
    ≡ "OVERFLOW_REJECTED"
unfolding on_tick lookup insert
fourth = refl

-- A tick that came a second before is old enough to lower the quality, a younger one is not.
stale :
    (evaluate_staleness "600000.SH" 3000000
      (record core { last_received_at = ("600000.SH", 2000000) ∷ [] })).0
    ≡ ok (record (first_state "qmt" "600000.SH" "cn" "1" "am" 5 1) {
      quality = degraded;
      quality_version = 2;
      reason_code = "SOURCE_LAG";
    })
unfolding evaluate_staleness lookup on_state
stale = refl

fresh :
    (evaluate_staleness "600000.SH" 3000000
      (record core { last_received_at = ("600000.SH", 2000001) ∷ [] })).0
    ≡ ok (first_state "qmt" "600000.SH" "cn" "1" "am" 5 1)
unfolding evaluate_staleness lookup
fresh = refl

on_tick-Admits_example :
    Admits (some "s1") 2 7 (some tick) core (on_tick (some "s1") 2 7 (some tick) core)
on_tick-Admits_example = on_tick-Admits (some "s1") 2 7 (some tick) core

step-within_watermark_example :
    all within_watermark (step (tick_call (some "s1") 2 7 (some tick)) core).subscriptions ≡ true
step-within_watermark_example =
    step-within_watermark (tick_call (some "s1") 2 7 (some tick)) core refl

step-Advances_example :
    Advances core (step (subscription_call true false (some thresholds) "SUBSCRIBE" request) core)
step-Advances_example =
    step-Advances (subscription_call true false (some thresholds) "SUBSCRIBE" request) core
