-- ===== src/Market/Gateway/Batch.antt =====
-- `InMemoryMarketGateway.drain` of src/quantiqmt/market/gateway.py on one subscription, without its
-- metrics. The time of receipt of a tick, which `parse_utc` reads and may refuse, is a parameter.
use quanti_qmt.Base.{
  ℕ, zero, suc, ◌≤◌, min, String, Option, none, some, List, [], ◌∷◌, ◌++◌, length, ap, sym, ◌∙◌,
  ◌<◌, Result, ok, err, string_eq, ◌≡◌, refl, arith,
}
use mathlib.Core.List.{append_assoc, append-nil}
use quanti_qmt.Base.Int.{ℤ, pos, negsuc}
use quanti_qmt.Base.Dict.{Dict, insert}
use quanti_qmt.Market.Quality.State.{MarketError, QualityState}
use quanti_qmt.Market.Quality.Store.{MarketQuality, Tick}
use quanti_qmt.Market.Quality.Pipeline.{observe_tick}

pub record Gateway : Type 0 where
  pub queue : List Tick
  pub quality : MarketQuality
  pub last_received_at : Dict String ℕ

abbrev pub Drained : Type 0
Drained = Result MarketError (List Tick) × Gateway

-- `maximum if limit is None else min(maximum, max(0, limit))`
abbrev pub batch_count : ℕ → Option ℤ → ℕ
batch_count maximum none = maximum
batch_count maximum (some (pos n)) = min maximum n
batch_count maximum (some (negsuc _)) = 0

module _ (received_at : Tick → Result MarketError ℕ) where
  -- The loop, after `taken`: the head is observed, then it leaves the queue, then its time is read.
  unfoldable pub take_batch : ℕ → List Tick → List Tick → Gateway → Drained
  take_batch zero queue taken g = (ok taken, g)
  take_batch (suc n) [] taken g = (ok taken, g)
  take_batch (suc n) (t ∷ queue) taken g =
      let (result, quality) = observe_tick t g.quality in
      elim result [
        | err e ↦ (err e, record g { quality = quality })
        | ok _ ↦ elim (received_at t) [
          | err e ↦ (err e, record g { queue = queue; quality = quality })
          | ok at ↦ take_batch n queue (taken ++ t ∷ []) (record {
            queue = queue;
            quality = quality;
            last_received_at = insert t.instrument_id at g.last_received_at;
          })
        ]
      ]

  unfoldable pub drain : ℕ → Option ℤ → Gateway → Drained
  unfolding take_batch
  drain batch_capacity limit g =
      take_batch (min (batch_count batch_capacity limit) (length g.queue)) g.queue [] g

-- Ticks that the pipeline has accepted and whose time is read, one after the other.
pub data Processed (received_at : Tick → Result MarketError ℕ)
    : List Tick → Gateway → Gateway → Type 0 where
  start : (g : Gateway) → Processed received_at [] g g
  next :
      (t : Tick) (ts queue : List Tick) (g after : Gateway) (s : QualityState) (at : ℕ)
      → g.queue ≡ t ∷ queue
      → (observe_tick t g.quality).0 ≡ ok s
      → received_at t ≡ ok at
      → Processed received_at ts
          (record {
            queue = queue;
            quality = (observe_tick t g.quality).1;
            last_received_at = insert t.instrument_id at g.last_received_at;
          })
          after
      → Processed received_at (t ∷ ts) g after

-- How a batch ends at a gateway: with everything that was due, or at a tick that the pipeline
-- refuses, which stays, or at one that it takes and whose time cannot be read, which is gone.
pub data Stops (received_at : Tick → Result MarketError ℕ) (g : Gateway) : Drained → Type 0 where
  refused :
      (t : Tick) (queue : List Tick) (e : MarketError)
      → g.queue ≡ t ∷ queue
      → (observe_tick t g.quality).0 ≡ err e
      → Stops received_at g (err e, record g { quality = (observe_tick t g.quality).1 })
  unreadable :
      (t : Tick) (queue : List Tick) (s : QualityState) (e : MarketError)
      → g.queue ≡ t ∷ queue
      → (observe_tick t g.quality).0 ≡ ok s
      → received_at t ≡ err e
      → Stops received_at g
          (err e, record g { queue = queue; quality = (observe_tick t g.quality).1 })

-- A batch of `n` from a gateway: `n` ticks are processed and returned; or fewer are processed, and
-- none is returned.
abbrev pub Batched : (Tick → Result MarketError ℕ) → ℕ → List Tick → Gateway → Drained → Type 0
Batched received_at n before g (ok taken, after) =
    (ts : List Tick) × (taken ≡ before ++ ts) × (length ts ≡ n) × Processed received_at ts g after
Batched received_at n before g (err e, after) =
    (ts : List Tick) × (stop : Gateway) × (length ts < n)
    × Processed received_at ts g stop
    × Stops received_at stop (err e, after)

take_batch-Batched :
    (received_at : Tick → Result MarketError ℕ) (n : ℕ) (queue taken : List Tick) (g : Gateway)
    → g.queue ≡ queue
    → n ≤ length queue
    → Batched received_at n taken g (take_batch received_at n queue taken g)
unfolding take_batch
take_batch-Batched received_at zero queue taken g q l = ([], sym (append-nil taken), refl, start g)
take_batch-Batched received_at (suc n) [] taken g q l = absurd (omega arith)
take_batch-Batched received_at (suc n) (t ∷ queue) taken g q l =
    by_result (observe_tick t g.quality).0 (received_at t) refl refl λ at.
      take_batch-Batched received_at n queue (taken ++ t ∷ []) (after at) refl (omega (arith, l))
  where
    after : ℕ → Gateway
    after at = record {
      queue = queue;
      quality = (observe_tick t g.quality).1;
      last_received_at = insert t.instrument_id at g.last_received_at;
    }

    longer :
        (s : QualityState) (at : ℕ) (o : Drained)
        → (observe_tick t g.quality).0 ≡ ok s
        → received_at t ≡ ok at
        → Batched received_at n (taken ++ t ∷ []) (after at) o
        → Batched received_at (suc n) taken g o
    longer s at (ok all_taken, last) seen read (ts, whole, counted, done) = (
      t ∷ ts,
      whole ∙ append_assoc taken (t ∷ []) ts,
      omega (arith, counted),
      next t ts queue g last s at q seen read done,
    )
    longer s at (err e, last) seen read (ts, stop, fewer, done, ends) =
        (t ∷ ts, stop, omega (arith, fewer), next t ts queue g stop s at q seen read done, ends)

    by_result :
        (r : Result MarketError QualityState) (time : Result MarketError ℕ)
        → (observe_tick t g.quality).0 ≡ r
        → received_at t ≡ time
        → ((at : ℕ)
            → Batched received_at n
                (taken ++ t ∷ [])
                (after at)
                (take_batch received_at n queue (taken ++ t ∷ []) (after at)))
        → Batched received_at (suc n) taken g (elim r [
          | err e ↦ (err e, record g { quality = (observe_tick t g.quality).1 })
          | ok _ ↦ elim time [
            | err e ↦ (err e, record g { queue = queue; quality = (observe_tick t g.quality).1 })
            | ok at ↦ take_batch received_at n queue (taken ++ t ∷ []) (after at)
          ]
        ])
    by_result (err e) time seen read again = ([], g, omega arith, start g, refused t queue e q seen)
    by_result (ok s) (err e) seen read again =
        ([], g, omega arith, start g, unreadable t queue s e q seen read)
    by_result (ok s) (ok at) seen read again =
        longer s at (take_batch received_at n queue (taken ++ t ∷ []) (after at)) seen read
          (again at)

-- A call that succeeds returns the first ticks of the queue in their order, as many as the limits
-- and the queue allow; each has been accepted by the pipeline and timed, in turn, and the rest of
-- the queue stays. A call that raises has done the same to fewer ticks, which have left the queue
-- and are returned to nobody, and stops at the first tick that the pipeline refuses, which stays in
-- the queue, or whose time cannot be read, which leaves it.
pub drain-Batched :
    (received_at : Tick → Result MarketError ℕ) (capacity : ℕ) (limit : Option ℤ) (g : Gateway)
    → Batched received_at
        (min (batch_count capacity limit) (length g.queue))
        []
        g
        (drain received_at capacity limit g)
unfolding drain
drain-Batched received_at capacity limit g =
    take_batch-Batched received_at (min (batch_count capacity limit) (length g.queue)) g.queue [] g
      refl (omega arith)

-- Each tick that is processed has left the front of the queue.
pub Processed-queue :
    (received_at : Tick → Result MarketError ℕ) (ts : List Tick) (g after : Gateway)
    → Processed received_at ts g after
    → ts ++ after.queue ≡ g.queue
Processed-queue received_at [] g after (start _) = refl
Processed-queue received_at (t ∷ ts) g after (next _ _ queue _ _ s at q seen read rest) =
    ap (λ l. t ∷ l) (Processed-queue received_at ts _ after rest) ∙ sym q
