-- ===== src/Persistence/Outbox/Claim.antt =====
-- `InMemoryOrderPersistence.claim` (src/quantiqmt/order/infrastructure/memory.py).
use quanti_qmt.Base.{
  ℕ, zero, suc, ◌+◌, String, Bool, true, false, ◌&&◌, ◌||◌, none, some, List, [], ◌∷◌, Result, ok,
  err, leb, ltb, nat_beq, blank, codes, if◌then◌else◌, string_eq,
}
use quanti_qmt.Base.Dict.{Dict, insert}
use quanti_qmt.Persistence.Call.{StorageError, value_error, Call, require_deadline}
use quanti_qmt.Persistence.Outbox.Record.{
  claimed, dead_letter, is_pending, is_claimed, OutboxRecord, Outbox, ClaimPolicy, ClaimedMessage,
  milliseconds, expired,
}

-- A record that may not be claimed again, and that no worker holds.
unfoldable pub is_exhausted : ℕ → ClaimPolicy → OutboxRecord → Bool
is_exhausted now policy r =
    (is_pending r.status || (is_claimed r.status && expired r.lease_until now))
    && leb policy.max_attempts r.attempt_count

-- The record after the first loop of `claim`.
unfoldable pub bury : ℕ → ClaimPolicy → OutboxRecord → OutboxRecord
unfolding is_exhausted
bury now policy r =
    if is_exhausted now policy r
    then record r {
      status = dead_letter;
      claimed_by = none;
      claim_token = none;
      lease_until = none;
      last_error_code = some "MAX_ATTEMPTS_REACHED";
      last_error_detail = some "outbox max_attempts reached before claim";
      updated_at = now;
    }
    else r

-- The first loop, over all records.
unfoldable pub sweep : ℕ → ClaimPolicy → Dict String OutboxRecord → Dict String OutboxRecord
sweep now policy [] = []
sweep now policy ((k, r) ∷ d) = (k, bury now policy r) ∷ sweep now policy d

unfoldable pub is_claimable : ℕ → ClaimPolicy → OutboxRecord → Bool
is_claimable now policy r =
    (is_pending r.status && ltb r.attempt_count policy.max_attempts && leb r.available_at now)
    || (is_claimed r.status && ltb r.attempt_count policy.max_attempts && expired r.lease_until now)

-- Python's order of texts, by code points.
unfoldable pub codes_leb : List ℕ → List ℕ → Bool
codes_leb [] ds = true
codes_leb (c ∷ cs) [] = false
codes_leb (c ∷ cs) (d ∷ ds) = ltb c d || (nat_beq c d && codes_leb cs ds)

-- The order of the keys `(available_at, created_at, message_id)`.
unfoldable pub comes_before : OutboxRecord → OutboxRecord → Bool
unfolding codes_leb
comes_before a b =
    ltb a.available_at b.available_at
    || (nat_beq a.available_at b.available_at
        && (ltb a.created_at b.created_at
            || (nat_beq a.created_at b.created_at
                && codes_leb (codes a.message_id) (codes b.message_id))))

unfoldable pub place : OutboxRecord → List OutboxRecord → List OutboxRecord
unfolding comes_before
place r [] = r ∷ []
place r (s ∷ rs) = if comes_before r s then r ∷ s ∷ rs else s ∷ place r rs

-- `sorted(self._outbox.values(), key=…)`
unfoldable pub in_order : Dict String OutboxRecord → List OutboxRecord
unfolding place
in_order [] = []
in_order ((_, r) ∷ d) = place r (in_order d)

unfoldable pub choose : ℕ → ClaimPolicy → List OutboxRecord → List OutboxRecord
unfolding is_claimable
choose now policy [] = []
choose now policy (r ∷ rs) =
    let rest = choose now policy rs in if is_claimable now policy r then r ∷ rest else rest

-- `records[:n]`
unfoldable pub first : ℕ → List OutboxRecord → List OutboxRecord
first zero rs = []
first (suc n) [] = []
first (suc n) (r ∷ rs) = r ∷ first n rs

unfoldable pub selected : ℕ → ClaimPolicy → Dict String OutboxRecord → List OutboxRecord
unfolding in_order choose first
selected now policy d = first policy.batch_size (choose now policy (in_order d))

-- A record under a fresh claim.
unfoldable pub hold : ℕ → String → ClaimPolicy → String → OutboxRecord → OutboxRecord
hold now worker policy token r = record r {
  status = claimed;
  attempt_count = r.attempt_count + 1;
  claim_max_attempts = some policy.max_attempts;
  claim_initial_retry_delay_ms = some policy.initial_retry_delay_ms;
  claim_max_retry_delay_ms = some policy.max_retry_delay_ms;
  claim_backoff_multiplier = some policy.backoff_multiplier;
  claim_jitter_ratio = some policy.jitter_ratio;
  claimed_by = some worker;
  claim_token = some token;
  lease_until = some (now + milliseconds policy.lease_duration_ms);
  updated_at = now;
}

-- `_claimed_message`. Its two assertions hold of a record under a fresh claim, whose token and lease
-- are given here.
unfoldable pub claimed_message : OutboxRecord → String → ℕ → ClaimedMessage
claimed_message r token lease = record {
  message_id = r.message_id;
  message_type = r.message_type;
  aggregate_id = r.aggregate_id;
  aggregate_version = r.aggregate_version;
  partition_key = r.partition_key;
  envelope = r.envelope;
  claim_token = token;
  lease_until = lease;
  attempt_count = r.attempt_count;
}

-- The second loop. The i-th call of `Identifier.new()` returns `tokens i`.
unfoldable pub hold_all :
    ℕ
    → String
    → ClaimPolicy
    → (ℕ → String)
    → ℕ
    → List OutboxRecord
    → Dict String OutboxRecord
    → List ClaimedMessage × Dict String OutboxRecord
unfolding hold claimed_message
hold_all now worker policy tokens i [] d = ([], d)
hold_all now worker policy tokens i (r ∷ rs) d =
    let held = hold now worker policy (tokens i) r in
    let (ms, last) = hold_all now worker policy tokens (suc i) rs (insert r.message_id held d) in
    (claimed_message held (tokens i) (now + milliseconds policy.lease_duration_ms) ∷ ms, last)

-- `claim`, once the deadline and the worker's name have passed.
unfoldable pub take_claims :
    String → ClaimPolicy → (ℕ → String) → Outbox → List ClaimedMessage × Outbox
unfolding sweep selected hold_all
take_claims worker policy tokens o =
    let swept = sweep o.now policy o.records in
    let (ms, d) = hold_all o.now worker policy tokens 0 (selected o.now policy swept) swept in
    (ms, record o { records = d })

-- `InMemoryOrderPersistence.claim`
unfoldable pub claim :
    Call
    → String
    → ClaimPolicy
    → (ℕ → String)
    → Outbox
    → Result StorageError (List ClaimedMessage) × Outbox
unfolding require_deadline take_claims
claim c worker policy tokens o = elim (require_deadline c) [
  | err e ↦ (err e, o)
  | ok _ ↦
      if blank worker
      then (err value_error, o)
      else (let (ms, o') = take_claims worker policy tokens o in (ok ms, o'))
]
