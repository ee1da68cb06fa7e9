-- ===== src/Market/Gateway/Admission.antt =====
-- What `on_tick` admits, and the calls of the gateway as steps
-- (src/quantiqmt/market/gateway.py).
use quanti_qmt.Base.{
  ◌||◌, ℕ, ◌≤◌, ◌<◌, ◌≡◌, refl, ◌⊎◌, inl, inr, String, Bool, true, false, not, ◌&&◌, Option, none,
  some, Result, List, [], ◌∷◌, ◌++◌, length, leb, ltb, nat_beq, string_eq, if-cases, arith,
}
use quanti_qmt.Base.Int.{ℤ}
use quanti_qmt.Base.Dict.{lookup, insert}
use quanti_qmt.Market.Quality.State.{MarketError}
use quanti_qmt.Market.Quality.Store.{Tick}
use quanti_qmt.Market.Gateway.Core.{
  Core, Subscription, SubscriptionRequest, LifecycleRequest, Thresholds, lifecycle, subscription,
}
use quanti_qmt.Market.Gateway.Ingress.{
  evaluate_staleness, IngressResult, matches_request, enqueue, on_normalized, on_subscription,
  on_tick, apply_gap_evidence, drain_subscription,
}

-- A queue within the overflow watermark of its request, which is within the capacity.
abbrev pub within_watermark : String × Subscription → Bool
within_watermark (_, s) =
    leb (length s.queue) s.request.thresholds.overflow_watermark
    && leb s.request.thresholds.overflow_watermark s.request.thresholds.queue_capacity

-- The calls that change the gateway.
pub data Call : Type 0 where
  lifecycle_call : Bool → Bool → String → LifecycleRequest → Call
  subscription_call : Bool → Bool → Option Thresholds → String → SubscriptionRequest → Call
  tick_call : Option String → ℕ → ℕ → Option Tick → Call
  gap_call : String → IngressResult → Call
  stale_call : String → ℕ → Call
  drain_call : (Tick → Result MarketError ℕ) → String → Option ℤ → Call

abbrev after_drain : Core → Option (Result MarketError (List Tick) × Core) → Core
after_drain g none = g
after_drain g (some (_, h)) = h

unfoldable pub step : Call → Core → Core
unfolding lifecycle subscription on_tick apply_gap_evidence evaluate_staleness drain_subscription
step (lifecycle_call v l o r) g = (lifecycle v l o r g).1
step (subscription_call v l p o r) g = (subscription v l p o r g).1
step (tick_call id generation fencing t) g = (on_tick id generation fencing t g).1
step (gap_call i e) g = (apply_gap_evidence i e g).1
step (stale_call i at) g = (evaluate_staleness i at g).1
step (drain_call received_at id limit) g = after_drain g (drain_subscription received_at id limit g)

-- What `on_tick` does: it turns the tick away and changes nothing, or the tick joins the queue of
-- an active subscription.
pub record IsAdmitted (id : Option String) (generation fencing : ℕ) (tick : Option Tick)
    (g after : Core) : Type 0 where
  pub name : String
  pub found : Subscription
  pub normalized : Tick
  pub is_name : id ≡ some name
  pub is_tick : tick ≡ some normalized
  pub running : g.running ≡ true
  pub there : lookup name g.subscriptions ≡ some found
  pub active : found.active ≡ true
  pub generation_bound : generation ≡ found.request.generation
  pub generation_current : g.generation ≤ generation
  pub fencing_bound : fencing ≡ found.request.fencing_token
  pub fencing_current : g.fencing_token ≤ fencing
  pub matches : matches_request found.request normalized ≡ true
  pub has_room : length found.queue < found.request.thresholds.overflow_watermark
  pub is_after : after ≡ record g {
    subscriptions =
        insert name (record found { queue = found.queue ++ normalized ∷ [] }) g.subscriptions;
  }

abbrev pub Settles : Option String → ℕ → ℕ → Option Tick → Core → IngressResult × Core → Type 0
Settles id generation fencing tick g (result, after) =
    ((result.accepted ≡ false) × (after ≡ g))
    ⊎ ((result.accepted ≡ true) × IsAdmitted id generation fencing tick g after)

enqueue-Settles :
    (name : String) (generation fencing : ℕ) (t : Tick) (g : Core) (s : Subscription)
    → g.running ≡ true
    → lookup name g.subscriptions ≡ some s
    → s.active ≡ true
    → (generation ≡ s.request.generation) × (g.generation ≤ generation)
    → (fencing ≡ s.request.fencing_token) × (g.fencing_token ≤ fencing)
    → matches_request s.request t ≡ true
    → Settles (some name) generation fencing (some t) g (enqueue name s t g)
unfolding enqueue
enqueue-Settles name generation fencing t g s run there active gen fence fits =
    if-cases (Settles (some name) generation fencing (some t) g)
      (leb s.request.thresholds.overflow_watermark (length s.queue)) _ _ (λ full. inl (refl, refl))
      (λ room. inr (
        refl,
        record {
          name = name;
          found = s;
          normalized = t;
          is_name = refl;
          is_tick = refl;
          running = run;
          there = there;
          active = active;
          generation_bound = gen.0;
          generation_current = gen.1;
          fencing_bound = fence.0;
          fencing_current = fence.1;
          matches = fits;
          has_room = less s.request.thresholds.overflow_watermark (length s.queue) room;
          is_after = refl;
        },
      ))
  where
    less : (a b : ℕ) → leb a b ≡ false → b < a
    less a b h = ground arith

not-false : (b : Bool) → not b ≡ false → b ≡ true
not-false b h = ground arith

is_current :
    (given bound current : ℕ)
    → (not (nat_beq given bound) || ltb given current) ≡ false
    → (given ≡ bound) × (current ≤ given)
is_current given bound current h = (ground arith, ground arith)

on_subscription-Settles :
    (name : String) (generation fencing : ℕ) (tick : Option Tick) (g : Core)
    (o : Option Subscription)
    → g.running ≡ true
    → lookup name g.subscriptions ≡ o
    → Settles
        (some name)
        generation
        fencing
        tick
        g
        (on_subscription name generation fencing tick o g)
unfolding on_subscription on_normalized
on_subscription-Settles name generation fencing tick g none run there = inl (refl, refl)
on_subscription-Settles name generation fencing none g (some s) run there =
    if-cases (Settles (some name) generation fencing none g) (not s.active) _ _
      (λ _. inl (refl, refl))
      (λ _.
        if-cases (Settles (some name) generation fencing none g)
          (not (nat_beq generation s.request.generation) || ltb generation g.generation) _ _
          (λ _. inl (refl, refl))
          (λ _.
            if-cases (Settles (some name) generation fencing none g)
              (not (nat_beq fencing s.request.fencing_token) || ltb fencing g.fencing_token) _ _
              (λ _. inl (refl, refl)) (λ _. inl (refl, refl))))
on_subscription-Settles name generation fencing (some t) g (some s) run there =
    if-cases (Settles (some name) generation fencing (some t) g) (not s.active) _ _
      (λ _. inl (refl, refl))
      (λ active.
        if-cases (Settles (some name) generation fencing (some t) g)
          (not (nat_beq generation s.request.generation) || ltb generation g.generation) _ _
          (λ _. inl (refl, refl))
          (λ gen.
            if-cases (Settles (some name) generation fencing (some t) g)
              (not (nat_beq fencing s.request.fencing_token) || ltb fencing g.fencing_token) _ _
              (λ _. inl (refl, refl))
              (λ fence.
                if-cases (Settles (some name) generation fencing (some t) g)
                  (matches_request s.request t) _ _
                  (λ fits.
                    enqueue-Settles name generation fencing t g s run there
                      (not-false s.active active)
                      (is_current generation s.request.generation g.generation gen)
                      (is_current fencing s.request.fencing_token g.fencing_token fence) fits)
                  (λ _. inl (refl, refl)))))

-- `on_tick` either turns the tick away and changes nothing, or accepts it, and then the gateway is
-- running and the tick is the new end of the queue of an active subscription that it matches and
-- that has room. The generation and fencing token are those of the subscription and not below those
-- of the gateway.
pub on_tick-Settles :
    (id : Option String) (generation fencing : ℕ) (tick : Option Tick) (g : Core)
    → Settles id generation fencing tick g (on_tick id generation fencing tick g)
unfolding on_tick
on_tick-Settles none generation fencing tick g =
    if-cases (Settles none generation fencing tick g) (not g.running) _ _ (λ _. inl (refl, refl))
      (λ _. inl (refl, refl))
on_tick-Settles (some name) generation fencing tick g =
    if-cases (Settles (some name) generation fencing tick g) (not g.running) _ _
      (λ _. inl (refl, refl))
      (λ run.
        on_subscription-Settles name generation fencing tick g (lookup name g.subscriptions)
          (not-false g.running run) refl)
