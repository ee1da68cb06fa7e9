-- ===== src/Market/Policy/Examples.antt =====
-- The store of policies at concrete policies (src/quantiqmt/market/policy.py).
use quanti_qmt.Base.{String, true, some, [], ◌∷◌, Result, ok, err, string_eq, ◌≡◌, refl}
use quanti_qmt.Base.Dict.{lookup}
use quanti_qmt.Market.Quality.State.{
  MarketError, Payload, get, text, int, agree_on, identity_collision,
}
use quanti_qmt.Market.Policy.Authority.{
  Policy, Policies, binding_fields, activate, candidates, resolve_snapshot, get_policy,
  resolve_version, resolve,
}
use quanti_qmt.Market.Policy.Binding.{IsOnly, resolve_snapshot-IsOnly}

abbrev request : Payload
request =
    ("policy_version", text "p1")
    ∷ ("aggregation_policy_version", text "a1")
    ∷ ("provider", text "qmt")
    ∷ ("generation", int 3)
    ∷ ("calendar_id", text "cn")
    ∷ ("calendar_version", text "1")
    ∷ ("session_id", text "am")
    ∷ []

abbrev policy : String → Policy
policy checksum = record {
  policy_version = "p1";
  fields = ("tzdb_version", text "2024a") ∷ ("policy_checksum", text checksum) ∷ request;
}

abbrev policies : Policies
policies = ("p1", policy "c1") ∷ []

abbrev any_shape : Policy → Result MarketError (Unit {0})
any_shape _ = ok tt

stored_policy : lookup "p1" policies ≡ some (policy "c1")
unfolding lookup
stored_policy = refl

collides :
    activate any_shape "2024a" (policy "c2") policies
    ≡ (err (identity_collision "policy version checksum collision"), policies)
unfolding activate lookup
collides = refl

names_p1 : get "policy_version" request ≡ text "p1"
unfolding lookup
names_p1 = refl

resolves : resolve any_shape "2024a" request policies ≡ ok (policy "c1")
unfolding resolve resolve_version get_policy lookup
resolves = refl

resolves_snapshot : resolve_snapshot request policies ≡ ok (policy "c1")
unfolding resolve_snapshot candidates lookup
resolves_snapshot = refl

resolve_snapshot-IsOnly_example :
    IsOnly request (policy "c1") policies
    × (agree_on request (policy "c1").fields binding_fields ≡ true)
resolve_snapshot-IsOnly_example =
    resolve_snapshot-IsOnly request (policy "c1") policies resolves_snapshot
