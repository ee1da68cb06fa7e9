-- ===== src/Persistence/Outbox/Entries.antt =====
-- What holds of every record of the outbox, and its records after a sweep
-- (src/quantiqmt/order/infrastructure/memory.py).
use quanti_qmt.Base.{
  ℕ, suc, ◌≡◌, refl, inl, inr, String, Bool, true, false, ◌&&◌, Option, none, some, List, [], ◌∷◌,
  is_some, is_none, all, All, arith, leb, ◌==◌, string_eq, ==-true, Bool-cases, if◌then◌else◌,
}
use quanti_qmt.Base.Dict.{Dict, lookup, insert, IsDict, insert-IsDict, all-insert}
use quanti_qmt.Persistence.Outbox.Record.{
  OutboxStatus, published, is_claimed, OutboxRecord, Outbox, ClaimPolicy,
}
use quanti_qmt.Persistence.Outbox.Claim.{bury, sweep, is_claimable, hold, hold_all}
use quanti_qmt.Persistence.Outbox.Selection.{IsKeyed}

abbrev is_published : OutboxStatus → Bool
is_published published = true
is_published _ = false

abbrev same_bool : Bool → Bool → Bool
same_bool true b = b
same_bool false true = false
same_bool false false = true

-- A claimed record has a holder, a token, a lease and a counted attempt; no other has any of the
-- first three; and exactly a published one has a time of publication.
unfoldable pub claim_fits : OutboxRecord → Bool
claim_fits r =
    (if is_claimed r.status
      then is_some r.claimed_by
        && is_some r.claim_token
        && is_some r.lease_until
        && leb 1 r.attempt_count
      else is_none r.claimed_by && is_none r.claim_token && is_none r.lease_until)
    && same_bool (is_published r.status) (is_some r.published_at)

-- An entry of the dictionary stands under its own identity, and fits.
unfoldable pub entry_is_valid : String × OutboxRecord → Bool
unfolding claim_fits
entry_is_valid (k, r) = r.message_id == k && claim_fits r

pub record OutboxIsValid (o : Outbox) : Type 0 where
  pub keys : IsDict o.records
  pub entries : all entry_is_valid o.records ≡ true

pub keyed : (d : Dict String OutboxRecord) → all entry_is_valid d ≡ true → IsKeyed d
unfolding entry_is_valid
keyed [] h = tt
keyed ((k, r) ∷ d) h = (==-true r.message_id k (ground arith), keyed d (ground arith))

bury-valid :
    (now : ℕ) (policy : ClaimPolicy) (k : String) (r : OutboxRecord)
    → entry_is_valid (k, r) ≡ true
    → entry_is_valid (k, bury now policy r) ≡ true
unfolding entry_is_valid bury
bury-valid now policy k r h = ground arith

abbrev map_option : {A B : Type 0} → (A → B) → Option A → Option B
map_option f none = none
map_option f (some a) = some (f a)

pub lookup-sweep :
    (now : ℕ) (policy : ClaimPolicy) (k : String) (d : Dict String OutboxRecord)
    → lookup k (sweep now policy d) ≡ map_option (bury now policy) (lookup k d)
unfolding sweep lookup
lookup-sweep now policy k [] = refl
lookup-sweep now policy k ((j, r) ∷ d) = elim (Bool-cases (j == k)) [
  | inl e ↦ rw e
  | inr n ↦ rw n (lookup-sweep now policy k d)
]

pub sweep-IsDict :
    (now : ℕ) (policy : ClaimPolicy) (d : Dict String OutboxRecord)
    → IsDict d
    → IsDict (sweep now policy d)
unfolding sweep
sweep-IsDict now policy [] h = tt
sweep-IsDict now policy ((k, r) ∷ d) h =
    (rw (lookup-sweep now policy k d, h.0), sweep-IsDict now policy d h.1)

pub sweep-valid :
    (now : ℕ) (policy : ClaimPolicy) (d : Dict String OutboxRecord)
    → all entry_is_valid d ≡ true
    → all entry_is_valid (sweep now policy d) ≡ true
unfolding sweep
sweep-valid now policy [] h = refl
sweep-valid now policy ((k, r) ∷ d) h =
    ground (arith, bury-valid now policy k r, sweep-valid now policy d)

hold-valid :
    (now : ℕ) (worker : String) (policy : ClaimPolicy) (token : String) (r : OutboxRecord)
    → is_claimable now policy r ≡ true
    → entry_is_valid (r.message_id, r) ≡ true
    → entry_is_valid (r.message_id, hold now worker policy token r) ≡ true
unfolding is_claimable entry_is_valid hold
hold-valid now worker policy token r c h = ground arith

module _ (now : ℕ) (worker : String) (policy : ClaimPolicy) (tokens : ℕ → String) where
  pub hold_all-IsValid :
      (i : ℕ) (rs : List OutboxRecord) (d : Dict String OutboxRecord)
      → All (λ r. is_claimable now policy r ≡ true) rs
      → All (λ r. entry_is_valid (r.message_id, r) ≡ true) rs
      → IsDict d
      → all entry_is_valid d ≡ true
      → let d' = (hold_all now worker policy tokens i rs d).1 in
        IsDict d' × (all entry_is_valid d' ≡ true)
  unfolding hold_all
  hold_all-IsValid i [] d c v k e = (k, e)
  hold_all-IsValid i (r ∷ rs) d c v k e =
      let held = hold now worker policy (tokens i) r in
      hold_all-IsValid (suc i) rs (insert r.message_id held d) c.1 v.1
        (insert-IsDict r.message_id held d k)
        (all-insert entry_is_valid r.message_id held d
          (hold-valid now worker policy (tokens i) r c.0 v.0) e)
