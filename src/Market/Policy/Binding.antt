-- ===== src/Market/Policy/Binding.antt =====
-- What the store of policies promises to its readers (src/quantiqmt/market/policy.py).
use quanti_qmt.Base.{
  String, Bool, ap, ◌++◌, any, true, false, Option, none, some, List, [], ◌∷◌, Result, ok, err,
  is_ok, string_eq, ◌≡◌, ◌∙◌, refl, inl, inr, arith, if-cases, Option-cases, Result-cases,
  Bool-cases,
}
use mathlib.Core.Path.{subst}
use quanti_qmt.Base.Dict.{lookup, lookup-insert_ne}
use quanti_qmt.Market.Quality.State.{
  MarketError, contract_error, policy_missing, Payload, get, value_beq, agree_on, text,
}
use quanti_qmt.Market.Policy.Authority.{
  Policy, Policies, binding_fields, same_field, bound, candidates, single, resolve_snapshot, accept,
  activate, get_policy, bind_request, resolve_version, resolve,
}

accept-keeps :
    (shape : Policy → Result MarketError (Unit {0})) (tz v : String) (p q : Policy)
    (o : Option Policy) (ps : Policies)
    → lookup v ps ≡ some p
    → lookup q.policy_version ps ≡ o
    → lookup v (accept shape tz q o ps).1 ≡ some p
accept-keeps shape tz v p q none ps l e =
    lookup-insert_ne v q.policy_version q ps
      (λ same. let absent : lookup v ps ≡ none = rw same e in cc (l, absent))
    ∙ l
accept-keeps shape tz v p q (some existing) ps l e = ground arith

-- An accepted policy is never replaced or removed, whatever is activated afterwards.
pub activate-keeps :
    (shape : Policy → Result MarketError (Unit {0})) (tz v : String) (p q : Policy) (ps : Policies)
    → lookup v ps ≡ some p
    → lookup v (activate shape tz q ps).1 ≡ some p
unfolding activate
activate-keeps shape tz v p q ps l = elim (Result-cases (shape q)) [
  | inr (e, bad) ↦ rw (activate, bad) l
  | inl (u, good) ↦
      rw (activate, good)
        (if-cases (λ (o : Result MarketError (Unit {0}) × Policies). lookup v o.1 ≡ some p)
          (value_beq (get "tzdb_version" q.fields) (text tz)) _ _
          (λ _. accept-keeps shape tz v p q (lookup q.policy_version ps) ps l refl) λ _. l)
]

bound-agrees :
    (request : Payload) (message : String) (c p : Policy)
    → bound request message c ≡ ok p
    → (c ≡ p) × (agree_on request p.fields binding_fields ≡ true)
bound-agrees request message c p h = elim (Bool-cases (agree_on request c.fields binding_fields)) [
  | inl e ↦
      let found : Path (Result MarketError Policy) (ok c) (ok p) = rw e at h in
      let same : c ≡ p = cc found in
      (same, subst (λ x. agree_on request x.fields binding_fields ≡ true) same e)
  | inr n ↦
      let bad : Path (Result MarketError Policy) (err (contract_error message)) (ok p) =
        rw n at h in
      cc
]

-- The version that a snapshot names is an entry's.
abbrev pub names : Payload → String × Policy → Bool
names request (_, p) = same_field "aggregation_policy_version" request p

no_candidates :
    (request : Payload) (ps : Policies)
    → candidates request ps ≡ []
    → any (names request) ps ≡ false
unfolding candidates
no_candidates request [] h = refl
no_candidates request ((v, p) ∷ ps) h =
    elim (Bool-cases (same_field "aggregation_policy_version" request p)) [
      | inl taken ↦ let no : Path (List Policy) (p ∷ candidates request ps) [] = rw taken at h in cc
      | inr skipped ↦ rw skipped (no_candidates request ps (rw skipped at h))
    ]

-- The policy is the one that stands under a key between policies of other versions.
abbrev pub IsOnly : Payload → Policy → Policies → Type 0
IsOnly request p ps =
    (before : Policies) × (version : String) × (after : Policies) × (ps
      ≡ before ++ (version, p) ∷ after)
    × (any (names request) before ≡ false)
    × (any (names request) after ≡ false)
    × (names request (version, p) ≡ true)

one_candidate :
    (request : Payload) (c : Policy) (ps : Policies)
    → candidates request ps ≡ c ∷ []
    → IsOnly request c ps
unfolding candidates
one_candidate request c [] h = cc
one_candidate request c ((v, p) ∷ ps) h =
    elim (Bool-cases (same_field "aggregation_policy_version" request p)) [
      | inl taken ↦
          let found : Path (List Policy) (p ∷ candidates request ps) (c ∷ []) = rw taken at h in
          let same : p ≡ c = cc found in
          let none_left : candidates request ps ≡ [] = cc found in
          (
            [],
            v,
            ps,
            ap (λ q. (v, q) ∷ ps) same,
            refl,
            no_candidates request ps none_left,
            subst (λ q. same_field "aggregation_policy_version" request q ≡ true) same taken,
          )
      | inr skipped ↦
          let (before, version, after, whole, earlier, later, named) =
            one_candidate request c ps (rw skipped at h) in
          (
            (v, p) ∷ before,
            version,
            after,
            ap (λ l. (v, p) ∷ l) whole,
            rw skipped earlier,
            later,
            named,
          )
    ]

single-one :
    (request : Payload) (p : Policy) (cs : List Policy)
    → single request cs ≡ ok p
    → (cs ≡ p ∷ []) × (agree_on request p.fields binding_fields ≡ true)
single-one request p [] h = cc
single-one request p (c ∷ d ∷ cs) h = cc
single-one request p (c ∷ []) h =
    let (same, agrees) =
      bound-agrees request "Snapshot does not bind the accepted policy identity" c p h in
    (ap (λ q. q ∷ []) same, agrees)

-- The policy that a snapshot is resolved to is stored, has the aggregation version that the
-- snapshot names and agrees with it on every binding field; and no other stored policy has that
-- version.
pub resolve_snapshot-IsOnly :
    (request : Payload) (p : Policy) (ps : Policies)
    → resolve_snapshot request ps ≡ ok p
    → IsOnly request p ps × (agree_on request p.fields binding_fields ≡ true)
unfolding resolve_snapshot
resolve_snapshot-IsOnly request p ps h =
    let (listed, agrees) = single-one request p (candidates request ps) h in
    (one_candidate request p ps listed, agrees)

module _ (shape : Policy → Result MarketError (Unit {0})) (tz : String) where
  shaped :
      (c p : Policy) (r : Result MarketError (Unit {0}))
      → shape c ≡ r
      → Path (Result MarketError Policy) (elim r [ err e ↦ err e | ok _ ↦ ok c ]) (ok p)
      → (c ≡ p) × (is_ok (shape c) ≡ true)
  shaped c p (err e) s h = cc
  shaped c p (ok u) s h = (cc h, rw s refl)

  get_policy-found :
      (v : String) (p : Policy) (ps : Policies)
      → get_policy shape tz v ps ≡ ok p
      → (lookup v ps ≡ some p) × (is_ok (shape p) ≡ true)
  unfolding get_policy
  get_policy-found v p ps h = elim (Option-cases (lookup v ps)) [
    | inl n ↦
        let bad : Path (Result MarketError Policy) (err (policy_missing v)) (ok p) =
          rw (get_policy, n) at h in
        cc
    | inr (c, e) ↦
        let (same, good) = shaped c p (shape c) refl (rw (get_policy, e) at h) in
        subst (λ x. (lookup v ps ≡ some x) × (is_ok (shape x) ≡ true)) same (e, good)
  ]

-- A request is resolved to a policy that is stored under the version it names and whose shape is
-- valid, and it agrees with that policy on every binding field.
pub resolve-binds :
    (shape : Policy → Result MarketError (Unit {0})) (tz v : String) (request : Payload)
    (p : Policy) (ps : Policies)
    → get "policy_version" request ≡ text v
    → resolve shape tz request ps ≡ ok p
    → (lookup v ps ≡ some p)
      × (is_ok (shape p) ≡ true)
      × (agree_on request p.fields binding_fields ≡ true)
unfolding resolve resolve_version
resolve-binds shape tz v request p ps g h =
    let named : bind_request shape tz request (get_policy shape tz v ps) ≡ ok p =
      subst (λ x. resolve_version shape tz request x ps ≡ ok p) g h in
    elim (Result-cases (get_policy shape tz v ps)) [
      | inr (e, bad) ↦
          let no : Path (Result MarketError Policy) (err e) (ok p) = rw bad at named in cc
      | inl (c, good) ↦
          let ends : bound request "request does not bind the accepted policy identity" c ≡ ok p =
            rw good at named in
          let (same, agrees) =
            bound-agrees request "request does not bind the accepted policy identity" c p ends in
          let (found, valid) =
            get_policy-found shape tz v p ps
              (subst (λ x. get_policy shape tz v ps ≡ ok x) same good) in
          (found, valid, agrees)
    ]
