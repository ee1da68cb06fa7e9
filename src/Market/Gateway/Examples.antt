-- ===== src/Market/Gateway/Examples.antt =====
-- A batch whose second tick raises (src/quantiqmt/market/gateway.py).
use quanti_qmt.Base.Dict.{lookup, insert}
use quanti_qmt.Market.Quality.Pipeline.{observe_tick, observe_in_line, observe_by_quality, advanced}
use quanti_qmt.Base.{◌≡◌, refl, false, is_ok, ℕ, min, length, [], ◌∷◌, none, some, Result, ok}
use quanti_qmt.Base.Int.{pos}
use quanti_qmt.Market.Quality.State.{evidence_int, MarketError, int}
use quanti_qmt.Market.Quality.Store.{on_state, state, Tick, first_state}
use quanti_qmt.Market.Gateway.Batch.{
  Gateway, Batched, batch_count, take_batch, drain, drain-Batched,
}

abbrev tick_at : ℕ → Tick
tick_at n = record {
  instrument_id = "600000.SH";
  payload = ("source_sequence", int n) ∷ [];
  fingerprint = "h";
}

abbrev gateway : Gateway
gateway = record {
  queue = tick_at 6 ∷ tick_at 5 ∷ tick_at 7 ∷ [];
  quality = record {
    states = ("600000.SH", first_state "qmt" "600000.SH" "cn" "1" "am" 5 1) ∷ [];
    fingerprints = [];
    recovery_registry = none;
  };
  last_received_at = [];
}

abbrev noon : Tick → Result MarketError ℕ
noon _ = ok 43200

-- The second tick is refused: the first has left the queue, and is not returned.
drain_loses :
    ((drain noon 10 (some (pos 2)) gateway).1.queue ≡ tick_at 5 ∷ tick_at 7 ∷ [])
    × (is_ok (drain noon 10 (some (pos 2)) gateway).0 ≡ false)
unfolding drain take_batch observe_tick observe_in_line observe_by_quality on_state state
    evidence_int advanced lookup insert
drain_loses = (refl, refl)

drain-Batched_example :
    Batched noon
      (min (batch_count 10 (some (pos 2))) (length gateway.queue))
      []
      gateway
      (drain noon 10 (some (pos 2)) gateway)
drain-Batched_example = drain-Batched noon 10 (some (pos 2)) gateway
