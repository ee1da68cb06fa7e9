-- ===== src/Market/Gateway/Verdict.antt =====
-- Which ticks `on_tick` takes (src/quantiqmt/market/gateway.py).
use quanti_qmt.Base.{
  ℕ, ◌≤◌, ◌<◌, ◌≡◌, refl, ◌⊎◌, inl, inr, string_eq, String, true, false, not, ◌||◌, Option, some,
  length, leb, ltb, nat_beq, arith,
}
use quanti_qmt.Base.Dict.{lookup}
use quanti_qmt.Market.Quality.Store.{Tick}
use quanti_qmt.Market.Gateway.Core.{Core, Subscription}
use quanti_qmt.Market.Gateway.Ingress.{
  IngressResult, matches_request, enqueue, on_normalized, on_subscription, on_tick,
}
use quanti_qmt.Market.Gateway.Admission.{IsAdmitted, on_tick-Settles}

-- The tick is turned away, nothing changes, and no gateway would be one with the tick admitted; or
-- it is accepted and admitted.
abbrev pub Admits : Option String → ℕ → ℕ → Option Tick → Core → IngressResult × Core → Type 0
Admits id generation fencing tick g (result, after) =
    ((result.accepted ≡ false)
      × (after ≡ g)
      × ((other : Core) → ¬ IsAdmitted id generation fencing tick g other))
    ⊎ ((result.accepted ≡ true) × IsAdmitted id generation fencing tick g after)

is_stale-bound :
    (given bound current : ℕ)
    → given ≡ bound
    → current ≤ given
    → (not (nat_beq given bound) || ltb given current) ≡ false
is_stale-bound given bound current a b = ground arith

on_tick-accepted :
    (name : String) (s : Subscription) (generation fencing : ℕ) (t : Tick) (g : Core)
    → g.running ≡ true
    → lookup name g.subscriptions ≡ some s
    → s.active ≡ true
    → (not (nat_beq generation s.request.generation) || ltb generation g.generation) ≡ false
    → (not (nat_beq fencing s.request.fencing_token) || ltb fencing g.fencing_token) ≡ false
    → matches_request s.request t ≡ true
    → leb s.request.thresholds.overflow_watermark (length s.queue) ≡ false
    → (on_tick (some name) generation fencing (some t) g).0.accepted ≡ true
unfolding on_tick on_subscription on_normalized enqueue
on_tick-accepted name s generation fencing t g running there active gen fence fits room =
    rw (running, there, active, gen, fence, fits, room) refl

-- The conditions of an admission are enough.
IsAdmitted-accepted :
    (id : Option String) (generation fencing : ℕ) (tick : Option Tick) (g after : Core)
    → IsAdmitted id generation fencing tick g after
    → (on_tick id generation fencing tick g).0.accepted ≡ true
IsAdmitted-accepted id generation fencing tick g after a =
    let s : Subscription = a.found in
    rw (a.is_name, a.is_tick)
      (on_tick-accepted a.name s generation fencing a.normalized g a.running a.there a.active
        (is_stale-bound generation s.request.generation g.generation a.generation_bound
          a.generation_current)
        (is_stale-bound fencing s.request.fencing_token g.fencing_token a.fencing_bound
          a.fencing_current)
        a.matches (has_room (length s.queue) s.request.thresholds.overflow_watermark a.has_room))
  where
    has_room : (n w : ℕ) → n < w → leb w n ≡ false
    has_room n w h = ground arith

-- `on_tick` turns the tick away and changes nothing, or accepts and admits it: the gateway is
-- running, and the tick is the new end of the queue of an active subscription that it matches and
-- that has room; the generation and fencing token are those of the subscription and not below those
-- of the gateway. It is turned away only where no gateway would be one with the tick admitted.
pub on_tick-Admits :
    (id : Option String) (generation fencing : ℕ) (tick : Option Tick) (g : Core)
    → Admits id generation fencing tick g (on_tick id generation fencing tick g)
on_tick-Admits id generation fencing tick g = elim (on_tick-Settles id generation fencing tick g) [
  | inl (rejected, same) ↦ inl (
    rejected,
    same,
    λ other a.
        (let accepted = IsAdmitted-accepted id generation fencing tick g other a in
          cc (rejected, accepted)),
  )
  | inr admitted ↦ inr admitted
]
