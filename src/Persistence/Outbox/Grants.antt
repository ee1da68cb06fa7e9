-- ===== src/Persistence/Outbox/Grants.antt =====
-- What `claim` grants and what it leaves alone (src/quantiqmt/order/infrastructure/memory.py).
use mathlib.Core.Path.{subst}
use quanti_qmt.Base.{
  ℕ, suc, ◌+◌, ◌≤◌, ◌≡◌, refl, sym, ◌∙◌, String, true, some, List, [], ◌∷◌, Result, ok, err, All,
  length, arith, string_eq, ==-refl,
}
use quanti_qmt.Base.Dict.{Dict, lookup, insert, lookup-insert_self, lookup-insert_ne}
use quanti_qmt.Persistence.Call.{StorageError, Call}
use quanti_qmt.Persistence.Outbox.Record.{
  OutboxRecord, Outbox, ClaimPolicy, ClaimedMessage, milliseconds, policy_is_bounded,
}
use quanti_qmt.Persistence.Outbox.Claim.{
  sweep, is_claimable, hold, hold_all, claimed_message, selected, take_claims, claim,
}
use quanti_qmt.Persistence.Outbox.Settle.{owns_live_claim}
use quanti_qmt.Persistence.Outbox.Selection.{Differs, Distinct}
use quanti_qmt.Persistence.Outbox.Entries.{OutboxIsValid}
use quanti_qmt.Persistence.Outbox.Invariant.{swept-IsSelection, claim-cases}

-- A message that was handed out names a record that its token owns, live, under the lease and with
-- the attempt that the message shows; the attempt is one of the permitted number.
pub record IsGranted (now : ℕ) (worker : String) (policy : ClaimPolicy)
    (d : Dict String OutboxRecord) (m : ClaimedMessage) : Type 0 where
  pub granted : OutboxRecord
  pub found : lookup m.message_id d ≡ some granted
  pub owned : owns_live_claim now m.claim_token granted ≡ true
  pub holder : granted.claimed_by ≡ some worker
  pub leased : granted.lease_until ≡ some m.lease_until
  pub counted : granted.attempt_count ≡ m.attempt_count
  pub permitted : m.attempt_count ≤ policy.max_attempts

module _ (now : ℕ) (worker : String) (policy : ClaimPolicy) (tokens : ℕ → String) where
  -- A record that is not among those to be held stays as it is.
  pub hold_all-other :
      (k : String) (i : ℕ) (rs : List OutboxRecord) (d : Dict String OutboxRecord)
      → All (Differs k) rs
      → lookup k (hold_all now worker policy tokens i rs d).1 ≡ lookup k d
  unfolding hold_all
  hold_all-other k i [] d a = refl
  hold_all-other k i (r ∷ rs) d a =
      let held = hold now worker policy (tokens i) r in
      hold_all-other k (suc i) rs (insert r.message_id held d) a.1
      ∙ lookup-insert_ne k r.message_id held d (λ e. a.0 (sym e))

  length-hold_all :
      (i : ℕ) (rs : List OutboxRecord) (d : Dict String OutboxRecord)
      → length (hold_all now worker policy tokens i rs d).0 ≡ length rs
  unfolding hold_all
  length-hold_all i [] d = refl
  length-hold_all i (r ∷ rs) d = omega (
    arith,
    length-hold_all (suc i) rs (insert r.message_id (hold now worker policy (tokens i) r) d),
  )

  held-IsGranted :
      (token : String) (r : OutboxRecord) (d : Dict String OutboxRecord)
      → 1 ≤ policy.lease_duration_ms
      → is_claimable now policy r ≡ true
      → lookup r.message_id d ≡ some (hold now worker policy token r)
      → IsGranted now worker policy d (
          claimed_message
            (hold now worker policy token r)
            token
            (now + milliseconds policy.lease_duration_ms))
  unfolding hold claimed_message owns_live_claim is_claimable
  held-IsGranted token r d lease c l = record {
    granted = hold now worker policy token r;
    found = l;
    owned = ground (arith, ==-refl token);
    holder = refl;
    leased = refl;
    counted = refl;
    permitted = ground arith;
  }

  hold_all-IsGranted :
      (i : ℕ) (rs : List OutboxRecord) (d : Dict String OutboxRecord)
      → 1 ≤ policy.lease_duration_ms
      → Distinct rs
      → All (λ r. is_claimable now policy r ≡ true) rs
      → let (ms, d') = hold_all now worker policy tokens i rs d in
        All (IsGranted now worker policy d') ms
  unfolding hold_all
  hold_all-IsGranted i [] d lease u c = tt
  hold_all-IsGranted i (r ∷ rs) d lease u c =
      let held = hold now worker policy (tokens i) r in
      let d' = insert r.message_id held d in
      (
        held-IsGranted (tokens i) r (hold_all now worker policy tokens (suc i) rs d').1 lease c.0 (
            hold_all-other r.message_id (suc i) rs d' u.0 ∙ lookup-insert_self r.message_id held d),
        hold_all-IsGranted (suc i) rs d' lease u.1 c.1,
      )

abbrev Grants :
    ℕ → String → ClaimPolicy → Result StorageError (List ClaimedMessage) × Outbox → Type 0
Grants now worker policy (err _, o') = Unit
Grants now worker policy (ok ms, o') =
    (length ms ≤ policy.batch_size) × All (IsGranted now worker policy o'.records) ms

claim-Grants :
    (c : Call) (worker : String) (policy : ClaimPolicy) (tokens : ℕ → String) (o : Outbox)
    → policy_is_bounded policy ≡ true
    → OutboxIsValid o
    → Grants o.now worker policy (claim c worker policy tokens o)
unfolding take_claims policy_is_bounded
claim-Grants c worker policy tokens o b v =
    let swept = sweep o.now policy o.records in
    let (_, _, s) = swept-IsSelection o policy v in
    let chosen = selected o.now policy swept in
    claim-cases (Grants o.now worker policy) c worker policy tokens o (λ _. tt)
      (
        omega (arith, s.bounded, length-hold_all o.now worker policy tokens 0 chosen swept),
        hold_all-IsGranted o.now worker policy tokens 0 chosen swept (ground arith) s.distinct
            s.claimable,
      )

-- A successful `claim` under a policy within its bounds hands out at most a batch of messages, and
-- each of them is granted: the worker holds it alone, under its own token and a live lease.
pub claim-IsGranted :
    (c : Call) (worker : String) (policy : ClaimPolicy) (tokens : ℕ → String) (o o' : Outbox)
    (ms : List ClaimedMessage)
    → policy_is_bounded policy ≡ true
    → OutboxIsValid o
    → claim c worker policy tokens o ≡ (ok ms, o')
    → (length ms ≤ policy.batch_size) × All (IsGranted o.now worker policy o'.records) ms
claim-IsGranted c worker policy tokens o o' ms b v h =
    subst (Grants o.now worker policy) h (claim-Grants c worker policy tokens o b v)
