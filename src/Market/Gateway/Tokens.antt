-- ===== src/Market/Gateway/Tokens.antt =====
-- The generation and the fencing token of the gateway never fall (src/quantiqmt/market/gateway.py).
use mathlib.Core.Path.{subst}
use quanti_qmt.Base.{
  ℕ, ◌≤◌, ◌≡◌, sym, inl, inr, String, Bool, not, ◌||◌, Option, none, some, Result, ok, err, ltb,
  nat_beq, ◌==◌, string_eq, if-cases, arith, Option-cases,
}
use quanti_qmt.Base.Int.{ℤ}
use quanti_qmt.Base.Dict.{lookup, insert}
use quanti_qmt.Market.Quality.State.{MarketError, QualityState}
use quanti_qmt.Market.Quality.Store.{state, MarketQuality, Tick, tick_identity_eq}
use quanti_qmt.Market.Gateway.Core.{
  Core, Subscription, SubscriptionRequest, LifecycleRequest, Thresholds, Reply, lifecycle,
  apply_lifecycle, subscription, apply_subscription, subscribe, unsubscribe, finish, baselines,
  new_subscription, policy_fits,
}
use quanti_qmt.Market.Gateway.Ingress.{
  IngressResult, on_tick, apply_gap_evidence, drain_subscription, evaluate_staleness, stale_after,
  first_with,
}
use quanti_qmt.Market.Gateway.Admission.{
  Call, lifecycle_call, subscription_call, tick_call, gap_call, stale_call, drain_call, step,
  on_tick-Settles,
}

-- The tokens of the first gateway are at most those of the second.
abbrev pub Advances : Core → Core → Type 0
Advances g h = (g.generation ≤ h.generation) × (g.fencing_token ≤ h.fencing_token)

stays : (g : Core) → Advances g g
stays g = (omega arith, omega arith)

lifecycle-Advances :
    (v l : Bool) (o : String) (r : LifecycleRequest) (g : Core) → Advances g (lifecycle v l o r g).1
unfolding lifecycle apply_lifecycle
lifecycle-Advances v l o r g = (ground arith, ground arith)

finish-Advances :
    (o reason : String) (r : SubscriptionRequest) (g h : Core)
    → h.generation ≡ g.generation
    → h.fencing_token ≡ g.fencing_token
    → Advances g (finish o reason r h).1
finish-Advances o reason r g h a b = (omega (arith, a), omega (arith, b))

unsubscribe-Advances :
    (r : SubscriptionRequest) (o : Option Subscription) (g : Core)
    → Advances g (unsubscribe r o g).1
unfolding unsubscribe
unsubscribe-Advances r none g = stays g
unsubscribe-Advances r (some s) g =
    if-cases (λ (x : Result MarketError Reply × Core). Advances g x.1)
      (not (nat_beq s.request.generation r.generation)) _ _ (λ _. stays g)
      (λ _. (omega arith, omega arith))

subscribe-Advances :
    (r : SubscriptionRequest) (o : Option Subscription) (g : Core) → Advances g (subscribe r o g).1
unfolding subscribe
subscribe-Advances r (some s) g = stays g
subscribe-Advances r none g =
    by_result (baselines r r.instruments g.quality).0 (baselines r r.instruments g.quality).1
  where
    stored : MarketQuality → Core
    stored quality = record g {
      subscriptions = insert r.subscription_id (new_subscription r) g.subscriptions;
      quality = quality;
    }

    by_result :
        (result : Result MarketError (Unit {0})) (quality : MarketQuality)
        → Advances g
            (elim result as (λ _. Result MarketError Reply × Core) [
              | err e ↦ (err e, stored quality)
              | ok _ ↦ finish "SUBSCRIBE" "SUBSCRIBED" r (stored quality)
            ]).1
    by_result (err e) quality = stays g
    by_result (ok _) quality = (omega arith, omega arith)

subscription-Advances :
    (v l : Bool) (p : Option Thresholds) (o : String) (r : SubscriptionRequest) (g : Core)
    → Advances g (subscription v l p o r g).1
unfolding subscription apply_subscription
subscription-Advances v l p o r g =
    if-cases P (not v || not (r.operation == o)) _ _ (λ _. stays g)
      (λ _.
        if-cases P l _ _ (λ _. stays g)
          (λ _.
            if-cases P (not (policy_fits r p)) _ _ (λ _. stays g)
              (λ _.
                if-cases P (ltb r.generation g.generation) _ _ (λ _. stays g)
                  (λ _.
                    if-cases P (ltb r.fencing_token g.fencing_token) _ _ (λ _. stays g)
                      (λ _.
                        elim (Option-cases
                          (lookup (r.subscription_id, (o, r.generation)) g.operation_history)) [
                            | inl new ↦ rw new (
                                if-cases P (o == "UNSUBSCRIBE") _ _
                                  (λ _.
                                    unsubscribe-Advances r
                                      (lookup r.subscription_id g.subscriptions) g)
                                  (λ _.
                                    subscribe-Advances r (lookup r.subscription_id g.subscriptions)
                                      g))
                            | inr (_, old) ↦ rw old (stays g)
                          ])))))
  where
    P : Result MarketError Reply × Core → Type 0
    P x = Advances g x.1

on_tick-Advances :
    (id : Option String) (generation fencing : ℕ) (t : Option Tick) (g : Core)
    → Advances g (on_tick id generation fencing t g).1
on_tick-Advances id generation fencing t g = elim (on_tick-Settles id generation fencing t g) [
  | inl (_, same) ↦ subst (Advances g) (sym same) (stays g)
  | inr (_, a) ↦ subst (Advances g) (sym a.is_after) (omega arith, omega arith)
]

gap-Advances : (i : String) (e : IngressResult) (g : Core) → Advances g (apply_gap_evidence i e g).1
unfolding apply_gap_evidence
gap-Advances i e g = (ground arith, ground arith)

stale_after-Advances :
    (i : String) (at : ℕ) (q : Result MarketError QualityState) (last : Option ℕ)
    (s : Option Subscription) (g : Core)
    → Advances g (stale_after i at q last s g).1
unfolding stale_after
stale_after-Advances i at (err e) last s g = stays g
stale_after-Advances i at (ok q) none s g = stays g
stale_after-Advances i at (ok q) (some last) none g = stays g
stale_after-Advances i at (ok q) (some last) (some s) g = (ground arith, ground arith)

stale-Advances : (i : String) (at : ℕ) (g : Core) → Advances g (evaluate_staleness i at g).1
unfolding evaluate_staleness
stale-Advances i at g =
    stale_after-Advances i at (state i g.quality) (lookup i g.last_received_at)
      (first_with i g.subscriptions) g

drain-Advances :
    (received_at : Tick → Result MarketError ℕ) (id : String) (limit : Option ℤ) (g : Core)
    → Advances g (step (drain_call received_at id limit) g)
unfolding step drain_subscription
drain-Advances received_at id limit g = elim (Option-cases (lookup id g.subscriptions)) [
  | inl missing ↦ rw (missing, drain_subscription) (stays g)
  | inr (s, there) ↦ rw (there, drain_subscription) (omega arith, omega arith)
]

-- No call lowers the generation or the fencing token of the gateway.
pub step-Advances : (c : Call) (g : Core) → Advances g (step c g)
unfolding step
step-Advances (lifecycle_call v l o r) g = lifecycle-Advances v l o r g
step-Advances (subscription_call v l p o r) g = subscription-Advances v l p o r g
step-Advances (tick_call id generation fencing t) g = on_tick-Advances id generation fencing t g
step-Advances (gap_call i e) g = gap-Advances i e g
step-Advances (stale_call i at) g = stale-Advances i at g
step-Advances (drain_call received_at id limit) g = drain-Advances received_at id limit g
