-- ===== src/Market/Gateway/Bounds.antt =====
-- The queue of a subscription stays within its overflow watermark under every call
-- (src/quantiqmt/market/gateway.py).
use mathlib.Core.Path.{subst}
use quanti_qmt.Base.{
  sym, ◌||◌, ℕ, ◌≤◌, ◌<◌, ◌≡◌, refl, ap, ◌∙◌, inl, inr, String, Bool, true, false, not, Option,
  none, some, Result, ok, err, List, [], ◌∷◌, ◌++◌, length, length-append, all, ltb, nat_beq, ◌==◌,
  string_eq, if-cases, arith, Option-cases,
}
use quanti_qmt.Base.Int.{ℤ}
use quanti_qmt.Base.Dict.{lookup, insert, all-insert, all-lookup}
use quanti_qmt.Market.Quality.State.{MarketError, QualityState}
use quanti_qmt.Market.Quality.Store.{state, tick_identity_eq, MarketQuality, Tick}
use quanti_qmt.Market.Gateway.Batch.{
  Gateway, Drained, Batched, Stops, refused, unreadable, drain, drain-Batched, Processed-queue,
}
use quanti_qmt.Market.Gateway.Core.{
  Core, Subscription, SubscriptionRequest, LifecycleRequest, Thresholds, Reply, lifecycle,
  apply_lifecycle, subscription, apply_subscription, subscribe, unsubscribe, finish, baselines,
  new_subscription, subscription_is_valid, policy_fits,
}
use quanti_qmt.Market.Gateway.Ingress.{
  evaluate_staleness, stale_after, first_with, IngressResult, on_tick, apply_gap_evidence,
  drain_subscription,
}
use quanti_qmt.Market.Gateway.Admission.{
  within_watermark, Call, lifecycle_call, subscription_call, tick_call, gap_call, stale_call,
  drain_call, step, on_tick-Settles,
}

-- The subscriptions after each call.
on_tick-fits :
    (id : Option String) (generation fencing : ℕ) (tick : Option Tick) (g : Core)
    → all within_watermark g.subscriptions ≡ true
    → all within_watermark (on_tick id generation fencing tick g).1.subscriptions ≡ true
on_tick-fits id generation fencing tick g h = elim (on_tick-Settles id generation fencing tick g) [
  | inl (_, same) ↦ ap (λ (c : Core). all within_watermark c.subscriptions) same ∙ h
  | inr (_, a) ↦
      let s : Subscription = a.found in
      let old = all-lookup within_watermark a.name {v = s} g.subscriptions h a.there in
      ap (λ (c : Core). all within_watermark c.subscriptions) a.is_after
      ∙ all-insert within_watermark a.name (record s { queue = s.queue ++ a.normalized ∷ [] })
          g.subscriptions (one_more s a.normalized old a.has_room) h
]
  where
    one_more :
        (s : Subscription) (t : Tick)
        → within_watermark ("", s) ≡ true
        → length s.queue < s.request.thresholds.overflow_watermark
        → within_watermark ("", record s { queue = s.queue ++ t ∷ [] }) ≡ true
    one_more s t h e = let l = length-append s.queue (t ∷ []) in ground arith

lifecycle-fits :
    (v l : Bool) (o : String) (r : LifecycleRequest) (g : Core)
    → (lifecycle v l o r g).1.subscriptions ≡ g.subscriptions
unfolding lifecycle apply_lifecycle
lifecycle-fits v l o r g = ground arith

gap-fits :
    (i : String) (e : IngressResult) (g : Core)
    → (apply_gap_evidence i e g).1.subscriptions ≡ g.subscriptions
unfolding apply_gap_evidence
gap-fits i e g = ground arith

watermark_of_policy :
    (r : SubscriptionRequest) (p : Option Thresholds)
    → policy_fits r p ≡ true
    → within_watermark ("", new_subscription r) ≡ true
unfolding subscription_is_valid
watermark_of_policy r none h = cc
watermark_of_policy r (some p) h = ground arith

unsubscribe-fits :
    (r : SubscriptionRequest) (o : Option Subscription) (g : Core)
    → lookup r.subscription_id g.subscriptions ≡ o
    → all within_watermark g.subscriptions ≡ true
    → all within_watermark (unsubscribe r o g).1.subscriptions ≡ true
unfolding unsubscribe
unsubscribe-fits r none g e h = h
unsubscribe-fits r (some s) g e h =
    if-cases
      (λ (x : Result MarketError Reply × Core). all within_watermark x.1.subscriptions ≡ true)
      (not (nat_beq s.request.generation r.generation)) _ _ (λ _. h)
      (λ _.
        all-insert within_watermark r.subscription_id (record s { active = false }) g.subscriptions
          (all-lookup within_watermark r.subscription_id {v = s} g.subscriptions h e) h)

subscribe-fits :
    (r : SubscriptionRequest) (o : Option Subscription) (g : Core)
    → within_watermark ("", new_subscription r) ≡ true
    → all within_watermark g.subscriptions ≡ true
    → all within_watermark (subscribe r o g).1.subscriptions ≡ true
unfolding subscribe
subscribe-fits r (some s) g n h = h
subscribe-fits r none g n h =
    by_result (baselines r r.instruments g.quality).0 (baselines r r.instruments g.quality).1
  where
    stored : MarketQuality → Core
    stored quality = record g {
      subscriptions = insert r.subscription_id (new_subscription r) g.subscriptions;
      quality = quality;
    }

    by_result :
        (result : Result MarketError (Unit {0})) (quality : MarketQuality)
        → all within_watermark
            (elim result as (λ _. Result MarketError Reply × Core) [
              | err e ↦ (err e, stored quality)
              | ok _ ↦ finish "SUBSCRIBE" "SUBSCRIBED" r (stored quality)
            ]).1.subscriptions
          ≡ true
    by_result (err e) quality =
        all-insert within_watermark r.subscription_id (new_subscription r) g.subscriptions n h
    by_result (ok _) quality =
        all-insert within_watermark r.subscription_id (new_subscription r) g.subscriptions n h

apply_subscription-fits :
    (o : String) (r : SubscriptionRequest) (g : Core)
    → within_watermark ("", new_subscription r) ≡ true
    → all within_watermark g.subscriptions ≡ true
    → all within_watermark (apply_subscription o r g).1.subscriptions ≡ true
unfolding apply_subscription
apply_subscription-fits o r g n h =
    if-cases
      (λ (x : Result MarketError Reply × Core). all within_watermark x.1.subscriptions ≡ true)
      (o == "UNSUBSCRIBE") _ _
      (λ _. unsubscribe-fits r (lookup r.subscription_id g.subscriptions) g refl h)
      (λ _. subscribe-fits r (lookup r.subscription_id g.subscriptions) g n h)

subscription-fits :
    (v l : Bool) (p : Option Thresholds) (o : String) (r : SubscriptionRequest) (g : Core)
    → all within_watermark g.subscriptions ≡ true
    → all within_watermark (subscription v l p o r g).1.subscriptions ≡ true
unfolding subscription
subscription-fits v l p o r g h =
    if-cases P (not v || not (r.operation == o)) _ _ (λ _. h)
      (λ _.
        if-cases P l _ _ (λ _. h)
          (λ _.
            if-cases P (not (policy_fits r p)) _ _ (λ _. h)
              (λ fits.
                if-cases P (ltb r.generation g.generation) _ _ (λ _. h)
                  (λ _.
                    if-cases P (ltb r.fencing_token g.fencing_token) _ _ (λ _. h)
                      (λ _.
                        elim (Option-cases
                          (lookup (r.subscription_id, (o, r.generation)) g.operation_history)) [
                            | inl new ↦ rw new (
                                apply_subscription-fits o r g
                                  (watermark_of_policy r p (accepted fits)) h)
                            | inr (_, old) ↦ rw old h
                          ])))))
  where
    P : Result MarketError Reply × Core → Type 0
    P x = all within_watermark x.1.subscriptions ≡ true

    accepted : not (policy_fits r p) ≡ false → policy_fits r p ≡ true
    accepted e = ground arith

shorter : (taken rest queue : List Tick) → taken ++ rest ≡ queue → length rest ≤ length queue
shorter taken rest queue e =
    subst (λ q. length rest ≤ length q) e (omega (arith, length-append taken rest))

-- A batch never makes the queue longer.
Stops-shorter :
    (received_at : Tick → Result MarketError ℕ) (stop : Gateway) (o : Drained)
    → Stops received_at stop o
    → length o.1.queue ≤ length stop.queue
Stops-shorter received_at stop _ (refused t queue e q seen) = omega arith
Stops-shorter received_at stop _ (unreadable t queue s e q seen read) =
    shorter (t ∷ []) queue stop.queue (sym q)

Batched-shorter :
    (received_at : Tick → Result MarketError ℕ) (n : ℕ) (g : Gateway) (o : Drained)
    → Batched received_at n [] g o
    → length o.1.queue ≤ length g.queue
Batched-shorter received_at n g (ok taken, after) (ts, _, _, done) =
    shorter ts after.queue g.queue (Processed-queue received_at ts g after done)
Batched-shorter received_at n g (err e, after) (ts, stop, _, done, ends) = omega (
  arith,
  shorter ts stop.queue g.queue (Processed-queue received_at ts g stop done),
  Stops-shorter received_at stop (err e, after) ends,
)

abbrev gateway_of : Subscription → Core → Gateway
gateway_of s g = record {
  queue = s.queue;
  quality = g.quality;
  last_received_at = g.last_received_at;
}

drain-missing :
    (received_at : Tick → Result MarketError ℕ) (id : String) (limit : Option ℤ) (g : Core)
    → lookup id g.subscriptions ≡ none
    → step (drain_call received_at id limit) g ≡ g
unfolding step drain_subscription
drain-missing received_at id limit g e = rw (e, drain_subscription)

drain-there :
    (received_at : Tick → Result MarketError ℕ) (id : String) (limit : Option ℤ) (g : Core)
    (s : Subscription)
    → lookup id g.subscriptions ≡ some s
    → (step (drain_call received_at id limit) g).subscriptions
      ≡ insert id
          (record s {
            queue = (drain received_at s.request.batch_capacity limit (gateway_of s g)).1.queue;
          })
          g.subscriptions
unfolding step drain_subscription
drain-there received_at id limit g s e = rw (e, drain_subscription)

drain-fits :
    (received_at : Tick → Result MarketError ℕ) (id : String) (limit : Option ℤ) (g : Core)
    → all within_watermark g.subscriptions ≡ true
    → all within_watermark (step (drain_call received_at id limit) g).subscriptions ≡ true
drain-fits received_at id limit g h = elim (Option-cases (lookup id g.subscriptions)) [
  | inl missing ↦
      ap (λ (c : Core). all within_watermark c.subscriptions)
        (drain-missing received_at id limit g missing)
      ∙ h
  | inr (s, there) ↦
      let out : Result MarketError (List Tick) × Gateway =
        drain received_at s.request.batch_capacity limit (gateway_of s g) in
      let bound =
        Batched-shorter received_at _ (gateway_of s g) out
          (drain-Batched received_at s.request.batch_capacity limit (gateway_of s g)) in
      ap (all within_watermark) (drain-there received_at id limit g s there)
      ∙ all-insert within_watermark id (record s { queue = out.1.queue }) g.subscriptions
          (still s out.1.queue (all-lookup within_watermark id {v = s} g.subscriptions h there)
            bound)
          h
]
  where
    still :
        (s : Subscription) (queue : List Tick)
        → within_watermark ("", s) ≡ true
        → length queue ≤ length s.queue
        → within_watermark ("", record s { queue = queue }) ≡ true
    still s queue w b = ground arith

stale_after-fits :
    (i : String) (at : ℕ) (q : Result MarketError QualityState) (last : Option ℕ)
    (s : Option Subscription) (g : Core)
    → (stale_after i at q last s g).1.subscriptions ≡ g.subscriptions
unfolding stale_after
stale_after-fits i at (err e) last s g = refl
stale_after-fits i at (ok q) none s g = refl
stale_after-fits i at (ok q) (some last) none g = refl
stale_after-fits i at (ok q) (some last) (some s) g = ground arith

stale-fits :
    (i : String) (at : ℕ) (g : Core) → (evaluate_staleness i at g).1.subscriptions ≡ g.subscriptions
unfolding evaluate_staleness
stale-fits i at g =
    stale_after-fits i at (state i g.quality) (lookup i g.last_received_at)
      (first_with i g.subscriptions) g

-- No call takes a queue past its overflow watermark, and no watermark is above the capacity of the
-- queue: if this holds of each subscription before a call, it does after it.
pub step-within_watermark :
    (c : Call) (g : Core)
    → all within_watermark g.subscriptions ≡ true
    → all within_watermark (step c g).subscriptions ≡ true
unfolding step
step-within_watermark (lifecycle_call v l o r) g h =
    ap (all within_watermark) (lifecycle-fits v l o r g) ∙ h
step-within_watermark (subscription_call v l p o r) g h = subscription-fits v l p o r g h
step-within_watermark (tick_call id generation fencing t) g h =
    on_tick-fits id generation fencing t g h
step-within_watermark (gap_call i e) g h = ap (all within_watermark) (gap-fits i e g) ∙ h
step-within_watermark (stale_call i at) g h = ap (all within_watermark) (stale-fits i at g) ∙ h
step-within_watermark (drain_call received_at id limit) g h = drain-fits received_at id limit g h
