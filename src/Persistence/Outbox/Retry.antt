-- ===== src/Persistence/Outbox/Retry.antt =====
-- How a claim ends: published, given back for another attempt after a bounded delay, or a dead
-- letter (src/quantiqmt/order/infrastructure/memory.py).
use mathlib.Core.Path.{subst}
use quanti_qmt.Base.{
  ℕ, ◌+◌, ◌≤◌, ◌<◌, ◌≡◌, refl, ◌∙◌, ◌⊎◌, String, true, false, Option, none, some, Result, ok, err,
  arith, string_eq, List,
}
use quanti_qmt.Base.Dict.{lookup, insert, lookup-insert_self}
use quanti_qmt.Persistence.Call.{StorageError, Call, require_deadline}
use quanti_qmt.Persistence.Outbox.Record.{
  OutboxStatus, OutboxRecord, Outbox, ClaimPolicy, ClaimedMessage, PublishFailure,
  OutboxMutationResult, applied, milliseconds,
}
use quanti_qmt.Persistence.Outbox.Claim.{
  is_exhausted, bury, sweep, is_claimable, selected, take_claims, claim,
}
use quanti_qmt.Persistence.Outbox.Settle.{
  owns_live_claim, or_default, settle, mark_published, DecimalModule, retry_delay_ms, should_retry,
  fail, release_failed, publish,
}
use quanti_qmt.Persistence.Outbox.Entries.{OutboxIsValid, lookup-sweep}
use quanti_qmt.Persistence.Outbox.Invariant.{swept-IsSelection, claim-cases}
use quanti_qmt.Persistence.Outbox.Grants.{hold_all-other}
use quanti_qmt.Persistence.Outbox.Fencing.{Differs-All}

settle_applies :
    (c : Call) (id token : String) (update : OutboxRecord → OutboxRecord) (o : Outbox)
    (r : OutboxRecord)
    → require_deadline c ≡ ok tt
    → lookup id o.records ≡ some r
    → owns_live_claim o.now token r ≡ true
    → settle c id token update o
      ≡ (ok applied, record o { records = insert id (update r) o.records })
unfolding settle
settle_applies c id token update o r d l owned = rw (d, settle) (rw (l, settle) (rw owned))

-- The owner of a live claim publishes the message, before its deadline: the call is applied, and
-- the record is PUBLISHED at that time, with its claim cleared and all else as it was.
pub mark_published-publishes :
    (c : Call) (id token : String) (o : Outbox) (r : OutboxRecord)
    → require_deadline c ≡ ok tt
    → lookup id o.records ≡ some r
    → owns_live_claim o.now token r ≡ true
    → let (result, o') = mark_published c id token o in
      (result ≡ ok applied)
      × (lookup id o'.records
          ≡ some (record r {
            status = OutboxStatus.published;
            claimed_by = none;
            claim_token = none;
            lease_until = none;
            published_at = some o.now;
            updated_at = o.now;
          }))
unfolding mark_published
mark_published-publishes c id token o r d l owned =
    rw (settle_applies c id token (publish o.now) o r d l owned)
      (refl, lookup-insert_self id (publish o.now r) o.records)

or_default-some : (o : Option ℕ) (d n : ℕ) → o ≡ some n → 1 ≤ n → or_default o d ≡ n
or_default-some none d n h p = cc
or_default-some (some m) d n h p = ground arith

le_of_eq_right : {x m n : ℕ} → x ≤ m → m ≡ n → x ≤ n
le_of_eq_right h e = omega arith

module _ (dec : DecimalModule) where
  retry_delay_ms-le :
      (r : OutboxRecord) (delay : ℕ)
      → r.claim_max_retry_delay_ms ≡ some delay
      → 1 ≤ delay
      → retry_delay_ms dec r ≤ delay
  unfolding retry_delay_ms
  retry_delay_ms-le r delay h p =
      let initial = or_default r.claim_initial_retry_delay_ms 10 in
      let limit = or_default r.claim_max_retry_delay_ms initial in
      le_of_eq_right (dec.ceiling-minimum _ limit)
        (or_default-some r.claim_max_retry_delay_ms initial delay h p)

-- The claim of the record is cleared, its attempts are counted as before, and the failure is noted.
pub record IsReleased (failure : PublishFailure) (r r' : OutboxRecord) : Type 0 where
  pub no_holder : r'.claimed_by ≡ none
  pub no_token : r'.claim_token ≡ none
  pub no_lease : r'.lease_until ≡ none
  pub same_attempts : r'.attempt_count ≡ r.attempt_count
  pub explained : r'.last_error_detail ≡ some failure.error_detail

module _ (dec : DecimalModule) (now : ℕ) (failure : PublishFailure) (r : OutboxRecord) where
  fail-IsReleased : IsReleased failure r (fail dec now failure r)
  unfolding fail
  fail-IsReleased = record {
    no_holder = refl;
    no_token = refl;
    no_lease = refl;
    same_attempts = refl;
    explained = refl;
  }

  fail-retries :
      (attempts delay : ℕ)
      → r.claim_max_attempts ≡ some attempts
      → r.claim_max_retry_delay_ms ≡ some delay
      → 1 ≤ delay
      → failure.retryable ≡ true
      → r.attempt_count < attempts
      → ((fail dec now failure r).status ≡ OutboxStatus.pending)
        × ((fail dec now failure r).available_at ≤ now + milliseconds delay)
  unfolding fail should_retry
  fail-retries attempts delay a d pd t lt = ground (arith, retry_delay_ms-le dec r delay d pd)

  fail-gives_up :
      (attempts : ℕ)
      → r.claim_max_attempts ≡ some attempts
      → 1 ≤ attempts
      → (failure.retryable ≡ false) ⊎ (attempts ≤ r.attempt_count)
      → ((fail dec now failure r).status ≡ OutboxStatus.dead_letter)
        × ((fail dec now failure r).available_at ≡ r.available_at)
  unfolding fail should_retry
  fail-gives_up attempts a pa t = ground arith

-- What `release_failed` leaves under the identity: a record that satisfies `P`.
abbrev pub Leaves :
    String → (OutboxRecord → Type 0) → Result StorageError OutboxMutationResult × Outbox → Type 0
Leaves id P (result, o') =
    (result ≡ ok applied) × ((r' : OutboxRecord) × (lookup id o'.records ≡ some r') × P r')

-- The owner of a live claim gives the message back, before its deadline, for a failure that is
-- retryable, with attempts left: the call is applied, the claim is cleared, and the message is
-- PENDING again, due after at most the longest delay of the policy.
pub release_failed-retries :
    (dec : DecimalModule) (c : Call) (id token : String) (failure : PublishFailure) (o : Outbox)
    (r : OutboxRecord) (attempts delay : ℕ)
    → require_deadline c ≡ ok tt
    → lookup id o.records ≡ some r
    → owns_live_claim o.now token r ≡ true
    → r.claim_max_attempts ≡ some attempts
    → r.claim_max_retry_delay_ms ≡ some delay
    → 1 ≤ delay
    → failure.retryable ≡ true
    → r.attempt_count < attempts
    → Leaves id
        (λ r'.
          IsReleased failure r r'
          × (r'.status ≡ OutboxStatus.pending)
          × (r'.available_at ≤ o.now + milliseconds delay))
        (release_failed dec c id token failure o)
unfolding release_failed
release_failed-retries dec c id token failure o r attempts delay d l owned a m pm t lt =
    let r' = fail dec o.now failure r in
    let (status, due) = fail-retries dec o.now failure r attempts delay a m pm t lt in
    rw (settle_applies c id token (fail dec o.now failure) o r d l owned) (
      refl,
      (r', lookup-insert_self id r' o.records, (fail-IsReleased dec o.now failure r, status, due)),
    )

-- When the owner of a live claim reports a failure that is not retryable, or no attempts are left,
-- the message is a DEAD_LETTER.
pub release_failed-gives_up :
    (dec : DecimalModule) (c : Call) (id token : String) (failure : PublishFailure) (o : Outbox)
    (r : OutboxRecord) (attempts : ℕ)
    → require_deadline c ≡ ok tt
    → lookup id o.records ≡ some r
    → owns_live_claim o.now token r ≡ true
    → r.claim_max_attempts ≡ some attempts
    → 1 ≤ attempts
    → (failure.retryable ≡ false) ⊎ (attempts ≤ r.attempt_count)
    → Leaves id
        (λ r'.
          IsReleased failure r r'
          × (r'.status ≡ OutboxStatus.dead_letter)
          × (r'.available_at ≡ r.available_at))
        (release_failed dec c id token failure o)
unfolding release_failed
release_failed-gives_up dec c id token failure o r attempts d l owned a pa t =
    let r' = fail dec o.now failure r in
    let (status, due) = fail-gives_up dec o.now failure r attempts a pa t in
    rw (settle_applies c id token (fail dec o.now failure) o r d l owned) (
      refl,
      (r', lookup-insert_self id r' o.records, (fail-IsReleased dec o.now failure r, status, due)),
    )

abbrev Buries : String → Result StorageError (List ClaimedMessage) × Outbox → Type 0
Buries k (err _, o') = Unit
Buries k (ok _, o') =
    (r' : OutboxRecord) × (lookup k o'.records ≡ some r') × (r'.status ≡ OutboxStatus.dead_letter)

bury-exhausted :
    (now : ℕ) (policy : ClaimPolicy) (r : OutboxRecord)
    → is_exhausted now policy r ≡ true
    → ((bury now policy r).status ≡ OutboxStatus.dead_letter)
      × (is_claimable now policy (bury now policy r) ≡ false)
unfolding bury is_claimable
bury-exhausted now policy r h = rw h (refl, refl)

-- A message that has used up its attempts and that no live claim holds is a DEAD_LETTER after the
-- next successful `claim`, of whichever worker.
pub claim-buries :
    (c : Call) (worker : String) (policy : ClaimPolicy) (tokens : ℕ → String) (o o' : Outbox)
    (ms : List ClaimedMessage) (k : String) (r : OutboxRecord)
    → OutboxIsValid o
    → lookup k o.records ≡ some r
    → is_exhausted o.now policy r ≡ true
    → claim c worker policy tokens o ≡ (ok ms, o')
    → (r' : OutboxRecord) × (lookup k o'.records ≡ some r') × (r'.status ≡ OutboxStatus.dead_letter)
unfolding take_claims
claim-buries c worker policy tokens o o' ms k r v l x h =
    let swept = sweep o.now policy o.records in
    let chosen = selected o.now policy swept in
    let (_, _, s) = swept-IsSelection o policy v in
    let r' = bury o.now policy r in
    let (dead, idle) = bury-exhausted o.now policy r x in
    let found : lookup k swept ≡ some r' = rw (lookup-sweep o.now policy k o.records, l) refl in
    subst (Buries k) h (
      claim-cases (Buries k) c worker policy tokens o (λ _. tt)
        (
          r',
          hold_all-other o.now worker policy tokens k 0 chosen swept
                (Differs-All o.now policy k r' swept chosen found idle s.listed s.claimable)
              ∙ found,
          dead,
        ))
