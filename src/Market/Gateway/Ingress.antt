-- ===== src/Market/Gateway/Ingress.antt =====
-- Ticks in the gateway: `on_tick`, `apply_gap_evidence`, `evaluate_staleness` and `drain` of `InMemoryMarketGateway`
-- (src/quantiqmt/market/gateway.py), without metrics. What the normalizer
-- makes of a raw tick, where it does not raise, is an argument of `on_tick`.
use quanti_qmt.Base.{
  ◌-◌, ℕ, String, Bool, true, false, not, ◌&&◌, ◌||◌, Option, none, some, Result, ok, err, List, [],
  ◌∷◌, ◌++◌, length, contains, leb, ltb, nat_beq, string_eq, if◌then◌else◌,
}
use quanti_qmt.Shared.Milliseconds.{elapsed_ms}
use quanti_qmt.Base.Int.{ℤ}
use quanti_qmt.Base.Dict.{Dict, lookup, insert}
use quanti_qmt.Market.Quality.State.{
  MarketError, contract_error, QualityState, Value, int, text, get, value_beq,
}
use quanti_qmt.Market.Quality.Store.{MarketQuality, Tick, state}
use quanti_qmt.Market.Quality.Pipeline.{mark_stale, overflow}
use quanti_qmt.Market.Gateway.Batch.{Gateway, drain}
use quanti_qmt.Market.Gateway.Core.{Core, Subscription, SubscriptionRequest}

pub record IngressResult : Type 0 where
  pub accepted : Bool
  pub reason_code : String
  pub gap_start_sequence : Option ℕ
  pub gap_end_sequence : Option ℕ

abbrev pub turned_away : String → IngressResult
turned_away reason = record {
  accepted = false;
  reason_code = reason;
  gap_start_sequence = none;
  gap_end_sequence = none;
}

-- `payload["source_sequence"]` of a normalized tick, which is an integer
abbrev sequence_of : Value → ℕ
sequence_of (int n) = n
sequence_of _ = 0

-- The fields of the payload that the subscription fixes.
unfoldable pub matches_request : SubscriptionRequest → Tick → Bool
matches_request r t =
    contains t.instrument_id r.instruments
    && value_beq (get "provider" t.payload) (text r.provider)
    && value_beq (get "calendar_id" t.payload) (text r.calendar_id)
    && value_beq (get "calendar_version" t.payload) (text r.calendar_version)
    && value_beq (get "session_id" t.payload) (text r.session_id)
    && contains "TICK" r.event_types

-- The end of `on_tick`: the queue takes the tick, or overflows.
unfoldable pub enqueue : String → Subscription → Tick → Core → IngressResult × Core
enqueue id s t g =
    let sequence = sequence_of (get "source_sequence" t.payload) in
    if leb s.request.thresholds.overflow_watermark (length s.queue)
    then (
      record {
        accepted = false;
        reason_code = "OVERFLOW_REJECTED";
        gap_start_sequence = some sequence;
        gap_end_sequence = some sequence;
      },
      g,
    )
    else (
      record {
        accepted = true;
        reason_code = "ENQUEUED";
        gap_start_sequence = none;
        gap_end_sequence = none;
      },
      record g {
        subscriptions = insert id (record s { queue = s.queue ++ t ∷ [] }) g.subscriptions;
      },
    )

unfoldable pub on_normalized : String → Subscription → Option Tick → Core → IngressResult × Core
unfolding matches_request enqueue
on_normalized id s none g = (turned_away "INVALID_REQUEST", g)
on_normalized id s (some t) g =
    if matches_request s.request t then enqueue id s t g else (turned_away "INVALID_REQUEST", g)

unfoldable pub on_subscription :
    String → ℕ → ℕ → Option Tick → Option Subscription → Core → IngressResult × Core
unfolding on_normalized
on_subscription id generation fencing tick none g = (turned_away "UNAVAILABLE", g)
on_subscription id generation fencing tick (some s) g =
    if not s.active
    then (turned_away "UNAVAILABLE", g)
    else (if not (nat_beq generation s.request.generation) || ltb generation g.generation
        then (turned_away "STALE_GENERATION", g)
        else (if not (nat_beq fencing s.request.fencing_token) || ltb fencing g.fencing_token
            then (turned_away "STALE_FENCING", g)
            else on_normalized id s tick g))

-- `on_tick`; a subscription id that is no text is `none`.
unfoldable pub on_tick : Option String → ℕ → ℕ → Option Tick → Core → IngressResult × Core
unfolding on_subscription
on_tick id generation fencing tick g =
    if not g.running then (turned_away "UNAVAILABLE", g) else (elim id [
      | none ↦ (turned_away "INVALID_REQUEST", g)
      | some i ↦ on_subscription i generation fencing tick (lookup i g.subscriptions) g
    ])

abbrev with_quality :
    Core → Result MarketError QualityState × MarketQuality → Result MarketError QualityState × Core
with_quality g (result, quality) = (result, record g { quality = quality })

abbrev apply_range : String → Option ℕ → Option ℕ → Core → Result MarketError QualityState × Core
apply_range instrument (some start) (some end) g =
    let raised : Result MarketError QualityState × MarketQuality =
      elim (state instrument g.quality) [
        | err e ↦ (err e, g.quality)
        | ok _ ↦ overflow instrument start g.quality
      ] in
    if not (nat_beq start end)
    then (err (contract_error "overflow evidence must bind one rejected Tick"), g)
    else with_quality g raised
apply_range instrument _ _ g =
    (err (contract_error "exact rejected ingress gap evidence is required"), g)

-- `apply_gap_evidence`
unfoldable pub apply_gap_evidence :
    String → IngressResult → Core → Result MarketError QualityState × Core
unfolding state overflow
apply_gap_evidence instrument evidence g =
    if evidence.accepted
    then (err (contract_error "exact rejected ingress gap evidence is required"), g)
    else apply_range instrument evidence.gap_start_sequence evidence.gap_end_sequence g

-- The first subscription that has the instrument.
unfoldable pub first_with : String → Dict String Subscription → Option Subscription
first_with instrument [] = none
first_with instrument ((_, s) ∷ rest) =
    let later = first_with instrument rest in
    if contains instrument s.request.instruments then some s else later

-- `max(0, int((observed_at - last_received).total_seconds() * 1000))`, of times in microseconds
unfoldable pub lag_ms : ℕ → ℕ → ℕ
unfolding elapsed_ms
lag_ms observed_at last = if ltb observed_at last then 0 else elapsed_ms (observed_at - last)

-- `evaluate_staleness` on what it reads from the gateway
unfoldable pub stale_after :
    String
    → ℕ
    → Result MarketError QualityState
    → Option ℕ
    → Option Subscription
    → Core
    → Result MarketError QualityState × Core
unfolding mark_stale lag_ms
stale_after instrument observed_at (err e) last s g = (err e, g)
stale_after instrument observed_at (ok q) none s g = (ok q, g)
stale_after instrument observed_at (ok q) (some last) none g = (ok q, g)
stale_after instrument observed_at (ok q) (some last) (some s) g =
    if ltb (lag_ms observed_at last) s.request.thresholds.source_lag_stale_ms
    then (ok q, g)
    else with_quality g (mark_stale instrument g.quality)

-- `evaluate_staleness`
unfoldable pub evaluate_staleness : String → ℕ → Core → Result MarketError QualityState × Core
unfolding state stale_after first_with
evaluate_staleness instrument observed_at g =
    stale_after instrument observed_at (state instrument g.quality)
      (lookup instrument g.last_received_at) (first_with instrument g.subscriptions) g

-- `drain` on the gateway: the queue of one subscription, in batches of its capacity.
abbrev view_of : Subscription → Core → Gateway
view_of s g = record { queue = s.queue; quality = g.quality; last_received_at = g.last_received_at }

abbrev put_back :
    String
    → Subscription
    → Core
    → Result MarketError (List Tick) × Gateway
    → Result MarketError (List Tick) × Core
put_back id s g (result, after) = (
  result,
  record g {
    subscriptions = insert id (record s { queue = after.queue }) g.subscriptions;
    quality = after.quality;
    last_received_at = after.last_received_at;
  },
)

-- `none` where there is no such subscription, which is a KeyError.
unfoldable pub drain_subscription :
    (Tick → Result MarketError ℕ)
    → String
    → Option ℤ
    → Core
    → Option (Result MarketError (List Tick) × Core)
unfolding drain
drain_subscription received_at id limit g = elim (lookup id g.subscriptions) [
  | none ↦ none
  | some s ↦ some (put_back id s g (drain received_at s.request.batch_capacity limit (view_of s g)))
]

-- `queue_depth`
unfoldable pub queue_depth : String → Core → ℕ
queue_depth id g = elim (lookup id g.subscriptions) [ none ↦ 0 | some s ↦ length s.queue ]
