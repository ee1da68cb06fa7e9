-- ===== src/Persistence/Outbox/Invariant.antt =====
-- The well-formedness of the outbox under the operations of its port
-- (src/quantiqmt/order/infrastructure/memory.py).
use quanti_qmt.Base.{
  ℕ, ◌≡◌, inl, inr, String, true, some, List, Result, ok, err, all, All, All-imp, if-cases, arith,
  string_eq, Option-cases, Result-cases, blank,
}
use quanti_qmt.Base.Dict.{Dict, lookup, insert, IsDict, insert-IsDict, all-insert, all-lookup}
use quanti_qmt.Persistence.Call.{StorageError, Call, require_deadline}
use quanti_qmt.Persistence.Outbox.Record.{
  OutboxRecord, Outbox, ClaimPolicy, ClaimedMessage, PublishFailure, OutboxMutationResult, applied,
  claim_lost,
}
use quanti_qmt.Persistence.Outbox.Claim.{sweep, selected, take_claims, claim}
use quanti_qmt.Persistence.Outbox.Settle.{
  owns_live_claim, settle, mark_published, renew, DecimalModule, fail, release_failed, publish,
  extend,
}
use quanti_qmt.Persistence.Outbox.Selection.{Listed, IsSelection, selected-IsSelection}
use quanti_qmt.Persistence.Outbox.Entries.{
  entry_is_valid, OutboxIsValid, keyed, sweep-IsDict, sweep-valid, hold_all-IsValid,
}

Listed-valid :
    (d : Dict String OutboxRecord) (rs : List OutboxRecord)
    → all entry_is_valid d ≡ true
    → All (Listed d) rs
    → All (λ r. entry_is_valid (r.message_id, r) ≡ true) rs
Listed-valid d rs e =
    All-imp (Listed d) (λ r. entry_is_valid (r.message_id, r) ≡ true) rs
      (λ r l. all-lookup entry_is_valid r.message_id d e l)

pub swept-IsSelection :
    (o : Outbox) (policy : ClaimPolicy)
    → OutboxIsValid o
    → let swept = sweep o.now policy o.records in
      IsDict swept
      × (all entry_is_valid swept ≡ true)
      × IsSelection o.now policy swept (selected o.now policy swept)
swept-IsSelection o policy v =
    let swept = sweep o.now policy o.records in
    let keys : IsDict swept = sweep-IsDict o.now policy o.records v.keys in
    let entries : all entry_is_valid swept ≡ true = sweep-valid o.now policy o.records v.entries in
    (keys, entries, selected-IsSelection o.now policy swept keys (keyed swept entries))

take_claims-IsValid :
    (worker : String) (policy : ClaimPolicy) (tokens : ℕ → String) (o : Outbox)
    → OutboxIsValid o
    → OutboxIsValid (take_claims worker policy tokens o).1
unfolding take_claims
take_claims-IsValid worker policy tokens o v =
    let swept = sweep o.now policy o.records in
    let (k, e, s) = swept-IsSelection o policy v in
    let (k', e') =
      hold_all-IsValid o.now worker policy tokens 0 (selected o.now policy swept) swept s.claimable
        (Listed-valid swept (selected o.now policy swept) e s.listed) k e in
    record { keys = k'; entries = e' }

-- A claim raises and changes nothing, or takes claims.
pub claim-cases :
    (P : Result StorageError (List ClaimedMessage) × Outbox → Type 0) (c : Call) (worker : String)
    (policy : ClaimPolicy) (tokens : ℕ → String) (o : Outbox)
    → ((x : StorageError) → P (err x, o))
    → (let (ms, o') = take_claims worker policy tokens o in P (ok ms, o'))
    → P (claim c worker policy tokens o)
unfolding claim
claim-cases P c worker policy tokens o raised taken = elim (Result-cases (require_deadline c)) [
  | inl (_, e) ↦ rw (e, claim) (if-cases P (blank worker) _ _ (λ _. raised _) (λ _. taken))
  | inr (x, e) ↦ rw (e, claim) (raised x)
]

claim-IsValid :
    (c : Call) (worker : String) (policy : ClaimPolicy) (tokens : ℕ → String) (o : Outbox)
    → OutboxIsValid o
    → OutboxIsValid (claim c worker policy tokens o).1
claim-IsValid c worker policy tokens o v =
    claim-cases (λ r. OutboxIsValid r.1) c worker policy tokens o (λ _. v)
      (take_claims-IsValid worker policy tokens o v)

-- An operation on a claim: it raises or reports the claim lost and changes nothing, or the caller
-- owns the live claim of a record, and the record is replaced.
pub settle-cases {ℓ} :
    (P : Result StorageError OutboxMutationResult × Outbox → Type ℓ) (c : Call) (id token : String)
    (update : OutboxRecord → OutboxRecord) (o : Outbox)
    → ((x : StorageError) → P (err x, o))
    → P (ok claim_lost, o)
    → ((r : OutboxRecord)
        → lookup id o.records ≡ some r
        → owns_live_claim o.now token r ≡ true
        → P (ok applied, record o { records = insert id (update r) o.records }))
    → P (settle c id token update o)
unfolding settle
settle-cases P c id token update o raised lost done = elim (Result-cases (require_deadline c)) [
  | inr (x, e) ↦ rw (e, settle) (raised x)
  | inl (_, e) ↦ elim (Option-cases (lookup id o.records)) [
    | inl missing ↦ rw (e, missing, settle) lost
    | inr (r, found) ↦
        rw (e, found, settle)
          (if-cases P (owns_live_claim o.now token r) _ _ (λ owned. done r found owned) (λ _. lost))
  ]
]

-- The replacement of a claimed record fits again.
abbrev pub Fits : ℕ → String → (OutboxRecord → OutboxRecord) → Type 0
Fits now token update =
    (k : String) (r : OutboxRecord)
    → owns_live_claim now token r ≡ true
    → entry_is_valid (k, r) ≡ true
    → entry_is_valid (k, update r) ≡ true

settle-IsValid :
    (c : Call) (id token : String) (update : OutboxRecord → OutboxRecord) (o : Outbox)
    → Fits o.now token update
    → OutboxIsValid o
    → OutboxIsValid (settle c id token update o).1
settle-IsValid c id token update o fits v =
    settle-cases (λ r. OutboxIsValid r.1) c id token update o (λ _. v) v
      λ r found owned. record {
        keys = insert-IsDict id (update r) o.records v.keys;
        entries =
            all-insert entry_is_valid id (update r) o.records
              (fits id r owned (all-lookup entry_is_valid id o.records v.entries found)) v.entries;
      }

mark_published-IsValid :
    (c : Call) (id token : String) (o : Outbox)
    → OutboxIsValid o
    → OutboxIsValid (mark_published c id token o).1
unfolding mark_published owns_live_claim entry_is_valid
mark_published-IsValid c id token o v =
    settle-IsValid c id token (publish o.now) o (λ k r owned valid. ground arith) v

renew-IsValid :
    (c : Call) (id token : String) (policy : ClaimPolicy) (o : Outbox)
    → OutboxIsValid o
    → OutboxIsValid (renew c id token policy o).1
unfolding renew owns_live_claim entry_is_valid
renew-IsValid c id token policy o v =
    settle-IsValid c id token (extend o.now policy) o (λ k r owned valid. ground arith) v

release_failed-IsValid :
    (dec : DecimalModule) (c : Call) (id token : String) (failure : PublishFailure) (o : Outbox)
    → OutboxIsValid o
    → OutboxIsValid (release_failed dec c id token failure o).1
unfolding release_failed owns_live_claim entry_is_valid fail
release_failed-IsValid dec c id token failure o v =
    settle-IsValid c id token (fail dec o.now failure) o (λ k r owned valid. ground arith) v

-- Every operation of the outbox keeps it well formed, however it ends: each message stands once,
-- under its own identity, and its holder, token, lease and time of publication fit its status.
pub outbox-IsValid :
    (dec : DecimalModule) (c : Call) (worker id token : String) (policy : ClaimPolicy)
    (failure : PublishFailure) (tokens : ℕ → String) (o : Outbox)
    → OutboxIsValid o
    → OutboxIsValid (claim c worker policy tokens o).1
      × OutboxIsValid (mark_published c id token o).1
      × OutboxIsValid (renew c id token policy o).1
      × OutboxIsValid (release_failed dec c id token failure o).1
outbox-IsValid dec c worker id token policy failure tokens o v = (
  claim-IsValid c worker policy tokens o v,
  mark_published-IsValid c id token o v,
  renew-IsValid c id token policy o v,
  release_failed-IsValid dec c id token failure o v,
)
