-- ===== src/Persistence/Journal/Chain.antt =====
-- The chain of checksums: `JournalRecord`, `_prepare_journal` and `_verify_journal_records`
-- (src/quantiqmt/order/infrastructure/memory.py).
use quanti_qmt.Base.{
  ℕ, ◌+◌, String, Bool, true, false, Option, none, some, Result, ok, err, ◌>>=◌, ◌>>◌, ensure, List,
  [], ◌∷◌, ◌++◌, length, nat_beq, ◌==◌, string_eq,
}
use quanti_qmt.Shared.Platform.{Platform}
use quanti_qmt.Persistence.Call.{StorageError, journal_commit_failed, order_journal_corrupted}
use quanti_qmt.Persistence.Journal.Record.{
  JournalAppend, journal_checksum, journal_with_registration_fingerprint,
}

pub record JournalRecord : Type 0 where
  pub append : JournalAppend
  pub previous_entry_checksum : Option String
  pub entry_checksum : String
  pub recorded_at : ℕ

-- The checksum of the last record, `None` without one.
unfoldable pub head_of : Option String → List JournalRecord → Option String
head_of previous [] = previous
head_of previous (r ∷ rs) = head_of (some r.entry_checksum) rs

abbrev pub same_optional : Option String → Option String → Bool
same_optional none none = true
same_optional (some s) (some t) = s == t
same_optional _ _ = false

module _ (platform : Platform) where
  abbrev pub chained : JournalAppend → Option String → ℕ → JournalRecord
  chained a previous now = record {
    append = a;
    previous_entry_checksum = previous;
    entry_checksum = journal_checksum platform a previous;
    recorded_at = now;
  }

  -- `_prepare_journal`, of the records that the order has
  unfoldable pub prepare_journal :
      ℕ → List JournalRecord → JournalAppend → String → Result StorageError (List JournalRecord)
  unfolding head_of journal_checksum journal_with_registration_fingerprint
  prepare_journal now current a fingerprint = do
    ensure (nat_beq a.aggregate_version (length current + 1)) journal_commit_failed
    entry ← journal_with_registration_fingerprint platform a fingerprint
    ok (current ++ chained entry (head_of none current) now ∷ [])

  -- The loop of `_verify_journal_records`.
  unfoldable pub verify_from :
      ℕ → Option String → List JournalRecord → Result StorageError (Unit {0})
  unfolding journal_checksum
  verify_from expected previous [] = ok tt
  verify_from expected previous (r ∷ rs) = do
    ensure (nat_beq r.append.aggregate_version expected) order_journal_corrupted
    ensure (same_optional r.previous_entry_checksum previous) order_journal_corrupted
    ensure (journal_checksum platform r.append previous == r.entry_checksum) order_journal_corrupted
    verify_from (expected + 1) (some r.entry_checksum) rs

  -- `_verify_journal_records(records, expected_start_version=1, previous_entry_checksum=None)`
  unfoldable pub verify_journal_records :
      List JournalRecord → Result StorageError (List JournalRecord)
  unfolding verify_from
  verify_journal_records [] = err order_journal_corrupted
  verify_journal_records (r ∷ rs) = do verify_from 1 none (r ∷ rs); ok (r ∷ rs)
