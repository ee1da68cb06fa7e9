-- ===== src/Persistence/Repository/Snapshots.antt =====
-- Which snapshot recovery takes, and that it gives the order that the whole journal gives
-- (`latest_for_recovery` and `load_for_recovery`, src/quantiqmt/order/infrastructure/memory.py).
use mathlib.Core.Path.{subst}
use quanti_qmt.Base.{
  ℕ, ◌≡◌, sym, ap, ◌∙◌, String, Bool, true, Option, none, some, ok, >>-ok, List, [], ◌∷◌, leb, all,
  string_eq, arith, ==-true,
}
use quanti_qmt.Base.Int.{ℤ, pos}
use quanti_qmt.Base.Sort.{sorted, all-sorted, IsOrder, IsOrdered, sorted-IsOrdered}
use quanti_qmt.Shared.Platform.{Platform}
use quanti_qmt.Persistence.Call.{Call, require_deadline}
use quanti_qmt.Persistence.Journal.Record.{OrderSnapshot, snapshot_checksum}
use quanti_qmt.Persistence.Journal.Chain.{JournalRecord}
use quanti_qmt.Persistence.Journal.Verified.{same_optional_iff}
use quanti_qmt.Persistence.Repository.Store.{Store, valid}
use quanti_qmt.Persistence.Repository.Commit.{records_of}
use quanti_qmt.Persistence.Repository.Recovery.{
  snapshots_of, newest_first, checksum_at, snapshot_state_version, is_version, check_snapshot,
  check_newest, latest_for_recovery,
}

abbrev newer : OrderSnapshot → OrderSnapshot → Bool
newer a b = leb b.aggregate_version a.aggregate_version

newer-IsOrder : IsOrder newer
newer-IsOrder = record { trans = λ x y z h e. ground arith; total = λ x y h. ground arith }

module _ (platform : Platform) where
  -- What a snapshot that recovery takes has passed.
  pub record IsTrusted (records : List JournalRecord) (s : OrderSnapshot) : Type 0 where
    pub same_checksum : snapshot_checksum platform s ≡ s.snapshot_checksum
    pub same_head : checksum_at s.aggregate_version records ≡ some s.journal_head_checksum
    pub same_version : snapshot_state_version s ≡ some (pos s.aggregate_version)

  is_version-true : (z : Option ℤ) (n : ℕ) → is_version z n ≡ true → z ≡ some (pos n)
  is_version-true none n h = cc
  is_version-true (some (pos m)) n h =
      let same : m ≡ n = ground arith in ap (λ k. some (pos k)) same
  is_version-true (some (ℤ.negsuc m)) n h = cc

  check_snapshot-valid :
      (records : List JournalRecord) (s t : OrderSnapshot)
      → check_snapshot platform records s ≡ valid t
      → (s ≡ t) × IsTrusted records s
  unfolding check_snapshot
  check_snapshot-valid records s t h = (
    ground arith,
    record {
      same_checksum = ==-true _ _ (ground arith);
      same_head = sym (
          (same_optional_iff (some s.journal_head_checksum)
              (checksum_at s.aggregate_version records)).0
            (ground arith));
      same_version = is_version-true _ _ (ground arith);
    },
  )

  check_newest-valid :
      (records : List JournalRecord) (candidates : List OrderSnapshot) {s : OrderSnapshot}
      → IsOrdered newer candidates
      → check_newest platform records candidates ≡ valid s
      → IsTrusted records s × (all (newer s) candidates ≡ true)
  check_newest-valid records [] o h = cc
  check_newest-valid records (t ∷ rest) {s} o h =
      let (same, trusted) = check_snapshot-valid records t s h in
      subst (λ x. IsTrusted records x × (all (newer x) (t ∷ rest) ≡ true)) same
        (trusted, ground (arith, o.0))

  -- A snapshot that recovery takes has the checksum of its content, the checksum of the journal at
  -- its version and its version in its state; none of the order is newer.
  pub latest_for_recovery-valid :
      (call : Call) (order_id : String) (s : Store) {snapshot : OrderSnapshot}
      → latest_for_recovery platform call order_id s ≡ ok (valid snapshot)
      → IsTrusted (records_of order_id s) snapshot
        × (all
              (λ other. leb other.aggregate_version snapshot.aggregate_version)
              (snapshots_of order_id s)
            ≡ true)
  unfolding latest_for_recovery newest_first
  latest_for_recovery-valid call order_id s {snapshot} h =
      let done = >>-ok (require_deadline call) h in
      let (trusted, newest) =
        check_newest-valid (records_of order_id s) (sorted newer (snapshots_of order_id s))
          {s = snapshot} (sorted-IsOrdered newer (snapshots_of order_id s) newer-IsOrder)
          (cc done) in
      (trusted, sym (all-sorted newer (newer snapshot) (snapshots_of order_id s)) ∙ newest)
