-- ===== src/Market/Gateway/Core.antt =====
-- The state of `InMemoryMarketGateway`, its lifecycle and its subscriptions
-- (src/quantiqmt/market/gateway.py), without snapshots and metrics. Of a request the model has the
-- fields that are read here, typed as `validate_market_dto` leaves them, and its canonical hash. Whether
-- a request is valid, whether its deadline is over, and the thresholds of the policy that it
-- resolves to are arguments of the calls.
use quanti_qmt.Base.{
  Eq, ℕ, max, String, Bool, true, false, not, ◌&&◌, ◌||◌, Option, none, some, Result, ok, err, List,
  [], ◌∷◌, leb, ltb, nat_beq, ◌==◌, string_eq, nat_eq, pair_eq, if◌then◌else◌,
}
use quanti_qmt.Base.Dict.{Dict, lookup, insert}
use quanti_qmt.Market.Quality.State.{MarketError}
use quanti_qmt.Market.Quality.Store.{MarketQuality, Tick, baseline, tick_identity_eq}

pub record Thresholds : Type 0 where
  pub queue_capacity : ℕ
  pub warning_watermark : ℕ
  pub critical_watermark : ℕ
  pub overflow_watermark : ℕ
  pub source_lag_stale_ms : ℕ

pub record SubscriptionRequest : Type 0 where
  pub operation : String
  pub subscription_id : String
  pub generation : ℕ
  pub fencing_token : ℕ
  pub provider : String
  pub calendar_id : String
  pub calendar_version : String
  pub session_id : String
  pub instruments : List String
  pub event_types : List String
  pub source_version : ℕ
  pub quality_version : ℕ
  pub overflow_policy : String
  pub batch_capacity : ℕ
  pub thresholds : Thresholds
  pub fingerprint : String

pub record LifecycleRequest : Type 0 where
  pub operation : String
  pub generation : ℕ
  pub fencing_token : ℕ
  pub fingerprint : String

-- `_Subscription`; its fingerprint is its request's.
pub record Subscription : Type 0 where
  pub request : SubscriptionRequest
  pub queue : List Tick
  pub active : Bool

pub record Core : Type 0 where
  pub quality : MarketQuality
  pub subscriptions : Dict String Subscription
  pub operation_history : Dict (String × (String × ℕ)) String
  pub lifecycle_history : Dict (String × ℕ) String
  pub generation : ℕ
  pub fencing_token : ℕ
  pub running : Bool
  pub last_received_at : Dict String ℕ

-- `outcome` and `reason_code` of a result.
pub data Reply : Type 0 where
  rejected : String → Reply
  idempotent_replay : Reply  -- ALREADY_APPLIED
  applied : String → Reply

instance abbrev pub history_eq : Eq (String × ℕ)
history_eq = pair_eq {A = String} {B = ℕ} ⦃left = string_eq⦄ ⦃right = nat_eq⦄

-- What is left of a lifecycle request that is current and new.
unfoldable pub apply_lifecycle : String → LifecycleRequest → Core → Reply × Core
apply_lifecycle operation r g = (
  applied (if operation == "START" then "STARTED" else "STOPPED"),
  record g {
    generation = r.generation;
    fencing_token = r.fencing_token;
    running = operation == "START";
    lifecycle_history = insert (operation, r.generation) r.fingerprint g.lifecycle_history;
  },
)

abbrev replayed : String → String → Reply
replayed historical fingerprint =
    if historical == fingerprint then idempotent_replay else rejected "INVALID_REQUEST"

-- `_lifecycle`
unfoldable pub lifecycle : Bool → Bool → String → LifecycleRequest → Core → Reply × Core
unfolding apply_lifecycle
lifecycle is_valid is_late operation r g =
    if not is_valid || not (r.operation == operation)
    then (rejected "INVALID_REQUEST", g)
    else (if is_late
        then (rejected "DEADLINE_EXCEEDED", g)
        else (if ltb r.generation g.generation
            then (rejected "STALE_GENERATION", g)
            else (if ltb r.fencing_token g.fencing_token
                then (rejected "STALE_FENCING", g)
                else (elim (lookup (operation, r.generation) g.lifecycle_history) [
                  | some historical ↦ (replayed historical r.fingerprint, g)
                  | none ↦ apply_lifecycle operation r g
                ]))))

abbrev same_thresholds : Thresholds → Thresholds → Bool
same_thresholds a b =
    nat_beq a.queue_capacity b.queue_capacity
    && nat_beq a.warning_watermark b.warning_watermark
    && nat_beq a.critical_watermark b.critical_watermark
    && nat_beq a.overflow_watermark b.overflow_watermark
    && nat_beq a.source_lag_stale_ms b.source_lag_stale_ms

-- `_validate_subscription`
unfoldable pub subscription_is_valid : SubscriptionRequest → Thresholds → Bool
subscription_is_valid r policy =
    r.overflow_policy == "REJECT_NEW_WITH_GAP_EVIDENCE"
    && same_thresholds r.thresholds policy
    && ltb 0 r.batch_capacity
    && leb r.batch_capacity r.thresholds.queue_capacity
    && ltb r.thresholds.warning_watermark r.thresholds.critical_watermark
    && ltb r.thresholds.critical_watermark r.thresholds.overflow_watermark
    && leb r.thresholds.overflow_watermark r.thresholds.queue_capacity

abbrev pub policy_fits : SubscriptionRequest → Option Thresholds → Bool
policy_fits r none = false
policy_fits r (some policy) = subscription_is_valid r policy

-- The loop over the instruments of a new subscription; a baseline may raise.
unfoldable pub baselines :
    SubscriptionRequest
    → List String
    → MarketQuality
    → Result MarketError (Unit {0}) × MarketQuality
unfolding baseline
baselines r [] m = (ok tt, m)
baselines r (i ∷ instruments) m =
    let (result, after) =
      baseline r.provider i r.calendar_id r.calendar_version r.session_id r.source_version
        r.quality_version m in
    elim result [ err e ↦ (err e, after) | ok _ ↦ baselines r instruments after ]

-- The end of `_subscription`, after the change.
abbrev pub finish : String → String → SubscriptionRequest → Core → Result MarketError Reply × Core
finish operation reason r g = (
  ok (applied reason),
  record g {
    generation = max g.generation r.generation;
    fencing_token = max g.fencing_token r.fencing_token;
    operation_history =
        insert (r.subscription_id, (operation, r.generation)) r.fingerprint g.operation_history;
  },
)

abbrev pub refuse : String → Core → Result MarketError Reply × Core
refuse reason g = (ok (rejected reason), g)

unfoldable pub unsubscribe :
    SubscriptionRequest → Option Subscription → Core → Result MarketError Reply × Core
unsubscribe r none g = refuse "INVALID_REQUEST" g
unsubscribe r (some s) g =
    if not (nat_beq s.request.generation r.generation)
    then refuse "INVALID_REQUEST" g
    else finish "UNSUBSCRIBE" "UNSUBSCRIBED" r (record g {
      subscriptions = insert r.subscription_id (record s { active = false }) g.subscriptions;
    })

abbrev pub new_subscription : SubscriptionRequest → Subscription
new_subscription r = record { request = r; queue = []; active = true }

unfoldable pub subscribe :
    SubscriptionRequest → Option Subscription → Core → Result MarketError Reply × Core
unfolding baselines
subscribe r (some s) g = refuse "INVALID_REQUEST" g
subscribe r none g =
    let (result, quality) = baselines r r.instruments g.quality in
    let stored : Core = record g {
      subscriptions = insert r.subscription_id (new_subscription r) g.subscriptions;
      quality = quality;
    } in
    elim result [ err e ↦ (err e, stored) | ok _ ↦ finish "SUBSCRIBE" "SUBSCRIBED" r stored ]

-- The part of `_subscription` for a request that is current and new.
unfoldable pub apply_subscription :
    String → SubscriptionRequest → Core → Result MarketError Reply × Core
unfolding unsubscribe subscribe
apply_subscription operation r g =
    if operation == "UNSUBSCRIBE"
    then unsubscribe r (lookup r.subscription_id g.subscriptions) g
    else subscribe r (lookup r.subscription_id g.subscriptions) g

-- `_subscription`
unfoldable pub subscription :
    Bool
    → Bool
    → Option Thresholds
    → String
    → SubscriptionRequest
    → Core
    → Result MarketError Reply × Core
unfolding apply_subscription subscription_is_valid
subscription is_valid is_late policy operation r g =
    if not is_valid || not (r.operation == operation)
    then refuse "INVALID_REQUEST" g
    else (if is_late
        then refuse "DEADLINE_EXCEEDED" g
        else (if not (policy_fits r policy)
            then refuse "INVALID_REQUEST" g
            else (if ltb r.generation g.generation
                then refuse "STALE_GENERATION" g
                else (if ltb r.fencing_token g.fencing_token
                    then refuse "STALE_FENCING" g
                    else (elim (lookup (r.subscription_id, (operation, r.generation))
                        g.operation_history) [
                          | some historical ↦ (ok (replayed historical r.fingerprint), g)
                          | none ↦ apply_subscription operation r g
                        ])))))
