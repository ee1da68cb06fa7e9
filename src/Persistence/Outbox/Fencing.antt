-- ===== src/Persistence/Outbox/Fencing.antt =====
-- Live claims, fencing tokens and final states under the operations of the outbox
-- (src/quantiqmt/order/infrastructure/memory.py).
use mathlib.Core.Path.{subst}
use quanti_qmt.Base.{
  ℕ, ◌≡◌, ◌≢◌, refl, ap, ◌∙◌, String, Bool, true, false, Option, none, some, List, [], ◌∷◌, All,
  arith, string_eq, ==-true,
}
use quanti_qmt.Base.Dict.{Dict, lookup, lookup-insert_ne}
use quanti_qmt.Persistence.Call.{Call}
use quanti_qmt.Persistence.Outbox.Record.{
  OutboxStatus, OutboxRecord, Outbox, ClaimPolicy, ClaimedMessage, PublishFailure,
}
use quanti_qmt.Persistence.Outbox.Claim.{bury, sweep, is_claimable, selected, take_claims, claim}
use quanti_qmt.Persistence.Outbox.Settle.{
  owns_live_claim, token_is, settle, mark_published, renew, DecimalModule, release_failed, publish,
  extend, fail,
}
use quanti_qmt.Persistence.Outbox.Selection.{Listed, Differs}
use quanti_qmt.Persistence.Outbox.Entries.{OutboxIsValid, lookup-sweep}
use quanti_qmt.Persistence.Outbox.Invariant.{swept-IsSelection, claim-cases, settle-cases}
use quanti_qmt.Persistence.Outbox.Grants.{IsGranted, hold_all-other}

-- The record under the identity `k`.
abbrev pub Shows : String → OutboxRecord → Outbox → Type 0
Shows k r o = lookup k o.records ≡ some r

pub Differs-All :
    (now : ℕ) (policy : ClaimPolicy) (k : String) (r : OutboxRecord) (d : Dict String OutboxRecord)
    (rs : List OutboxRecord)
    → lookup k d ≡ some r
    → is_claimable now policy r ≡ false
    → All (Listed d) rs
    → All (λ s. is_claimable now policy s ≡ true) rs
    → All (Differs k) rs
Differs-All now policy k r d [] l n a c = tt
Differs-All now policy k r d (s ∷ rs) l n a c = (
  λ e.
      let found : lookup k d ≡ some s = subst (λ x. lookup x d ≡ some s) e a.0 in
      let same : r ≡ s = cc (l, found) in
      let claimable : is_claimable now policy r ≡ true = rw same c.0 in cc,
  Differs-All now policy k r d rs l n a.1 c.1,
)

-- A record that the sweep leaves alone and that is not claimable is the same after a claim.
claim-keeps :
    (c : Call) (worker : String) (policy : ClaimPolicy) (tokens : ℕ → String) (o : Outbox)
    (k : String) (r : OutboxRecord)
    → OutboxIsValid o
    → Shows k r o
    → bury o.now policy r ≡ r
    → is_claimable o.now policy r ≡ false
    → Shows k r (claim c worker policy tokens o).1
unfolding take_claims
claim-keeps c worker policy tokens o k r v l b n =
    let swept = sweep o.now policy o.records in
    let chosen = selected o.now policy swept in
    let (_, _, s) = swept-IsSelection o policy v in
    let found : lookup k swept ≡ some r = rw (lookup-sweep o.now policy k o.records, l, b) in
    claim-cases (λ x. Shows k r x.1) c worker policy tokens o (λ _. l)
      (hold_all-other o.now worker policy tokens k 0 chosen swept
          (Differs-All o.now policy k r swept chosen found n s.listed s.claimable)
        ∙ found)

-- While a claim is live, no call of `claim` takes the record, by whichever worker and policy: the
-- record is as it was, so the token that owns it still does.
pub claim-keeps_live :
    (c : Call) (worker : String) (policy : ClaimPolicy) (tokens : ℕ → String) (o : Outbox)
    (k token : String) (r : OutboxRecord)
    → OutboxIsValid o
    → lookup k o.records ≡ some r
    → owns_live_claim o.now token r ≡ true
    → lookup k (claim c worker policy tokens o).1.records ≡ some r
unfolding bury is_claimable owns_live_claim
claim-keeps_live c worker policy tokens o k token r v l owned =
    claim-keeps c worker policy tokens o k r v l (ground arith) (ground arith)

abbrev pub is_final : OutboxStatus → Bool
is_final OutboxStatus.published = true
is_final OutboxStatus.dead_letter = true
is_final _ = false

settle-keeps_final :
    (c : Call) (id token : String) (update : OutboxRecord → OutboxRecord) (o : Outbox) (k : String)
    (r : OutboxRecord)
    → Shows k r o
    → is_final r.status ≡ true
    → Shows k r (settle c id token update o).1
unfolding owns_live_claim
settle-keeps_final c id token update o k r l f =
    settle-cases (λ x. Shows k r x.1) c id token update o (λ _. l) l
      λ s found owned.
        lookup-insert_ne k id (update s) o.records (λ e.
          let q : lookup k o.records ≡ some s = rw e found in
          let same : r ≡ s = cc (l, q) in
          let final : is_final s.status ≡ true = rw (← same) f in absurd (ground arith))
        ∙ l

-- A message that is PUBLISHED or a DEAD_LETTER stays exactly as it is under every operation of the
-- outbox.
pub outbox-keeps_final :
    (dec : DecimalModule) (c : Call) (worker id token : String) (policy : ClaimPolicy)
    (failure : PublishFailure) (tokens : ℕ → String) (o : Outbox) (k : String) (r : OutboxRecord)
    → OutboxIsValid o
    → lookup k o.records ≡ some r
    → is_final r.status ≡ true
    → (lookup k (claim c worker policy tokens o).1.records ≡ some r)
      × (lookup k (mark_published c id token o).1.records ≡ some r)
      × (lookup k (renew c id token policy o).1.records ≡ some r)
      × (lookup k (release_failed dec c id token failure o).1.records ≡ some r)
unfolding bury is_claimable mark_published renew release_failed
outbox-keeps_final dec c worker id token policy failure tokens o k r v l f = (
  claim-keeps c worker policy tokens o k r v l (ground arith) (ground arith),
  settle-keeps_final c id token (publish o.now) o k r l f,
  settle-keeps_final c id token (extend o.now policy) o k r l f,
  settle-keeps_final c id token (fail dec o.now failure) o k r l f,
)

token_is-eq :
    (token : String) (held : Option String) → token_is token held ≡ true → held ≡ some token
token_is-eq token none h = cc
token_is-eq token (some t) h = ap {B = Option String} some (==-true t token h)

owner_token :
    (now : ℕ) (token : String) (r : OutboxRecord)
    → owns_live_claim now token r ≡ true
    → r.claim_token ≡ some token
unfolding owns_live_claim
owner_token now token r h = token_is-eq token r.claim_token (ground arith)

settle_fenced :
    (c : Call) (now' : ℕ) (worker : String) (policy : ClaimPolicy) (m : ClaimedMessage)
    (token : String) (update : OutboxRecord → OutboxRecord) (o : Outbox)
    → IsGranted now' worker policy o.records m
    → token ≢ m.claim_token
    → (settle c m.message_id token update o).1 ≡ o
settle_fenced c now' worker policy m token update o g ne =
    settle-cases (λ x. x.1 ≡ o) c m.message_id token update o (λ _. refl) refl
      λ r found owned.
        let same : g.granted ≡ r = cc g.found in
        let mine : r.claim_token ≡ some token = owner_token o.now token r owned in
        let theirs : g.granted.claim_token ≡ some m.claim_token =
          owner_token now' m.claim_token g.granted g.owned in
        let tokens : token ≡ m.claim_token = cc (ap (λ (x : OutboxRecord). x.claim_token) same) in
        absurd (ne tokens)

-- Once a message has been granted, a worker that still holds another token, from a claim that has
-- expired, can neither publish the message, nor renew it, nor give it back: nothing changes.
pub granted_fences :
    (dec : DecimalModule) (c : Call) (now' : ℕ) (worker token : String) (policy : ClaimPolicy)
    (failure : PublishFailure) (m : ClaimedMessage) (o : Outbox)
    → IsGranted now' worker policy o.records m
    → token ≢ m.claim_token
    → ((mark_published c m.message_id token o).1 ≡ o)
      × ((renew c m.message_id token policy o).1 ≡ o)
      × ((release_failed dec c m.message_id token failure o).1 ≡ o)
unfolding mark_published renew release_failed
granted_fences dec c now' worker token policy failure m o g ne = (
  settle_fenced c now' worker policy m token (publish o.now) o g ne,
  settle_fenced c now' worker policy m token (extend o.now policy) o g ne,
  settle_fenced c now' worker policy m token (fail dec o.now failure) o g ne,
)
