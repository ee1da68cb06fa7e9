-- ===== src/Market/Policy/Authority.antt =====
-- `AcceptedPolicyStore` of src/quantiqmt/market/policy.py. The validation of the shape of a policy,
-- of src/quantiqmt/market/validation.py, and the version of the time zone data are parameters. A
-- policy carries its version, a text in every policy of a valid shape.
use quanti_qmt.Base.{
  String, Bool, Option, none, some, List, [], ◌∷◌, Result, ok, err, if◌then◌else◌, string_eq,
}
use quanti_qmt.Base.Dict.{Dict, lookup, insert}
use quanti_qmt.Market.Quality.State.{
  MarketError, Value, Payload, get, value_beq, agree_on, contract_error, identity_collision,
  policy_missing, text,
}

pub record Policy : Type 0 where
  pub policy_version : String
  pub fields : Payload

-- `self._policies`
abbrev pub Policies : Type 0
Policies = Dict String Policy

-- The fields that bind a request to a policy.
abbrev pub binding_fields : List String
binding_fields = "provider" ∷ "generation" ∷ "calendar_id" ∷ "calendar_version" ∷ "session_id" ∷ []

-- `policy.get(field) == request.get(field)`
abbrev pub same_field : String → Payload → Policy → Bool
same_field field request p = value_beq (get field p.fields) (get field request)

-- The end of both resolutions.
abbrev pub bound : Payload → String → Policy → Result MarketError Policy
bound request message p =
    if agree_on request p.fields binding_fields then ok p else err (contract_error message)

-- The candidates of `resolve_snapshot`
unfoldable pub candidates : Payload → Policies → List Policy
candidates request [] = []
candidates request ((_, p) ∷ ps) =
    let rest = candidates request ps in
    if same_field "aggregation_policy_version" request p then p ∷ rest else rest

abbrev pub single : Payload → List Policy → Result MarketError Policy
single request (p ∷ []) = bound request "Snapshot does not bind the accepted policy identity" p
single request _ = err (contract_error "accepted Snapshot policy is missing or ambiguous")

unfoldable pub resolve_snapshot : Payload → Policies → Result MarketError Policy
unfolding candidates
resolve_snapshot request ps = single request (candidates request ps)

module _ (shape : Policy → Result MarketError (Unit {0})) (tzdb_version : String) where
  -- `activate`, on a policy of a valid shape and the entry under its version
  abbrev pub accept : Policy → Option Policy → Policies → Result MarketError (Unit {0}) × Policies
  accept p none ps = (ok tt, insert p.policy_version p ps)
  accept p (some existing) ps =
      if same_field "policy_checksum" p.fields existing
      then (ok tt, ps)
      else (err (identity_collision "policy version checksum collision"), ps)

  unfoldable pub activate : Policy → Policies → Result MarketError (Unit {0}) × Policies
  activate p ps = elim (shape p) [
    | err e ↦ (err e, ps)
    | ok _ ↦
        if value_beq (get "tzdb_version" p.fields) (text tzdb_version)
        then accept p (lookup p.policy_version ps) ps
        else (err (contract_error "policy tzdb version is unavailable"), ps)
  ]

  -- `get`
  unfoldable pub get_policy : String → Policies → Result MarketError Policy
  get_policy version ps = elim (lookup version ps) [
    | none ↦ err (policy_missing version)
    | some p ↦ elim (shape p) [ err e ↦ err e | ok _ ↦ ok p ]
  ]

  abbrev pub bind_request : Payload → Result MarketError Policy → Result MarketError Policy
  bind_request request (err e) = err e
  bind_request request (ok p) = bound request "request does not bind the accepted policy identity" p

  unfoldable pub resolve_version : Payload → Value → Policies → Result MarketError Policy
  unfolding get_policy
  resolve_version request (text v) ps = bind_request request (get_policy v ps)
  resolve_version request _ ps = err (contract_error "request policy_version is missing")

  unfoldable pub resolve : Payload → Policies → Result MarketError Policy
  unfolding resolve_version
  resolve request ps = resolve_version request (get "policy_version" request) ps
