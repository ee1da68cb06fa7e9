-- ===== src/Market/Quality/Evidence.antt =====
-- The evidence that a recovery stands on: the entries of the registry and the backfilled sequences
-- (src/quantiqmt/market/quality.py).
use quanti_qmt.Base.{
  not, ◌&&◌, ◌||◌, ltb, leb, nat_beq, ap, sym, ℕ, suc, ◌≤◌, String, true, false, some, Result, ok,
  err, ◌==◌, string_eq, pair_eq, nat_eq, length, contains, ◌≡◌, ◌≢◌, refl, List, ◌∙◌, inl, inr,
  arith, Option-cases, if-cases, Bool-cases,
}
use mathlib.Core.Path.{subst}
use quanti_qmt.Base.Dict.{Dict, lookup, lookup-insert_ne}
use quanti_qmt.Market.Quality.State.{MarketError, QualityState, Payload, identity_collision}
use quanti_qmt.Market.Quality.Registry.{
  RecoveryEvidenceRegistry, Kind, snapshot, checkpoint, registry_key, store, taken, stored,
  register,
}
use quanti_qmt.Market.Quality.Drain.{
  contains-drain, drain-grows, drain, add, drain_complete, drain-received,
}
use quanti_qmt.Market.Quality.Store.{backfilled}

-- After a backfilled sequence the contiguous version has not fallen, and the next sequence in line
-- is not pending; each sequence that it has passed is the new one or was pending; and the pending
-- ones are exactly the new one and the old ones that it has not passed.
pub backfilled-drains :
    (n : ℕ) (s : QualityState) (k : ℕ)
    → let after = backfilled n s in
      (s.contiguous_source_version ≤ after.contiguous_source_version)
      × (contains (suc after.contiguous_source_version) after.pending_backfill_sequences ≡ false)
      × ((not (ltb s.contiguous_source_version k && leb k after.contiguous_source_version)
            || nat_beq k n
            || contains k s.pending_backfill_sequences)
          ≡ true)
      × (contains k after.pending_backfill_sequences ≡ (
          (nat_beq k n || contains k s.pending_backfill_sequences)
          && not (ltb s.contiguous_source_version k && leb k after.contiguous_source_version)))
unfolding backfilled
backfilled-drains n s k =
    let pending = add n s.pending_backfill_sequences in
    let left = contains-drain (length pending) s.contiguous_source_version pending k in
    (
      drain-grows (length pending) s.contiguous_source_version pending,
      drain_complete (length pending) s.contiguous_source_version pending (omega arith),
      passed_received n s.pending_backfill_sequences k s.contiguous_source_version,
      left
          ∙ ap
              (λ b.
                b
                && not (
                    ltb s.contiguous_source_version k
                    && leb k (drain (length pending) s.contiguous_source_version pending).0))
              (contains-add n k s.pending_backfill_sequences),
    )
  where
    contains-add : (n k : ℕ) (p : List ℕ) → contains k (add n p) ≡ (nat_beq k n || contains k p)
    contains-add n k p = elim (Bool-cases (nat_beq k n)) [
      | inl same ↦ ground arith
      | inr other ↦ ground arith
    ]

    passed_received :
        (n : ℕ) (p : List ℕ) (k c : ℕ)
        → (not (ltb c k && leb k (drain (length (add n p)) c (add n p)).0)
            || nat_beq k n
            || contains k p)
          ≡ true
    passed_received n p k c =
        elim (Bool-cases (ltb c k && leb k (drain (length (add n p)) c (add n p)).0)) [
          | inr outside ↦ rw outside refl
          | inl inside ↦
              let received =
                drain-received (length (add n p)) c (add n p) k (ground arith) (ground arith) in
              rw inside (sym (contains-add n k p) ∙ received)
        ]

-- A write under another key leaves what is stored.
untouched :
    (kind kind' : Kind) (i i' : String) (value : Payload) (fs : Dict (String × String) String)
    (r : RecoveryEvidenceRegistry)
    → registry_key kind i ≢ registry_key kind' i'
    → stored kind i (store kind' i' value (record r { fingerprints = fs })) ≡ stored kind i r
untouched snapshot snapshot i i' value fs r n =
    lookup-insert_ne i i' value r.snapshots (λ e. n (rw e refl))
untouched checkpoint checkpoint i i' value fs r n =
    lookup-insert_ne i i' value r.checkpoints (λ e. n (rw e refl))
untouched snapshot checkpoint i i' value fs r n = refl
untouched checkpoint snapshot i i' value fs r n = refl

-- A snapshot or checkpoint that the registry has taken under an identity is never replaced, and its
-- fingerprint stays, whatever is registered afterwards.
pub register-keeps :
    (kind kind' : Kind) (i i' : String) (value : Payload) (f f' : String)
    (r : RecoveryEvidenceRegistry)
    → lookup (registry_key kind i) r.fingerprints ≡ some f
    → (lookup (registry_key kind i) (register kind' i' value f' r).1.fingerprints ≡ some f)
      × (stored kind i (register kind' i' value f' r).1 ≡ stored kind i r)
unfolding register
register-keeps kind kind' i i' value f f' r l =
    elim (Option-cases (lookup (registry_key kind' i') r.fingerprints)) [
      | inr (p, e) ↦
          rw (register, e)
            (if-cases
              (λ (o : Result MarketError (Unit {0}) × RecoveryEvidenceRegistry).
                (lookup (registry_key kind i) o.1.fingerprints ≡ some f)
                × (stored kind i o.1 ≡ stored kind i r))
              (p == f') (ok tt, r) (err (identity_collision i'), r) (λ _. (l, refl)) λ _. (l, refl))
      | inl e ↦
          let new : registry_key kind i ≢ registry_key kind' i' = λ q.
            let k : lookup (registry_key kind' i') r.fingerprints ≡ some f =
              subst (λ x. lookup x r.fingerprints ≡ some f) q l in
            cc (k, e) in
          rw (register, e) (keeps kind' new)
    ]
  where
    keeps :
        (kind' : Kind)
        → registry_key kind i ≢ registry_key kind' i'
        → (lookup (registry_key kind i) (taken kind' i' value f' r).fingerprints ≡ some f)
          × (stored kind i (taken kind' i' value f' r) ≡ stored kind i r)
    keeps snapshot n =
        (lookup-insert_ne _ _ f' r.fingerprints n ∙ l, untouched kind snapshot i i' value _ r n)
    keeps checkpoint n =
        (lookup-insert_ne _ _ f' r.fingerprints n ∙ l, untouched kind checkpoint i i' value _ r n)
