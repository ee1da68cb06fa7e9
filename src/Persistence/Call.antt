-- ===== src/Persistence/Call.antt =====
-- What every call on the persistence carries: its deadline, and the clock that `_require_deadline`
-- reads (src/quantiqmt/order/infrastructure/memory.py), and the errors that a call may raise
-- (src/quantiqmt/order/application/persistence/errors.py).
use quanti_qmt.Base.{ℕ, Result, ok, err, leb, if◌then◌else◌}
use quanti_qmt.Base.Int.{ℤ, pos, negsuc}

pub data StorageError : Type 0 where
  value_error timeout_error key_error type_error : StorageError
  idempotency_conflict : StorageError  -- QQ-STORAGE-7001
  journal_commit_failed : StorageError  -- QQ-STORAGE-7002
  unique_identifier_collision : StorageError  -- QQ-STORAGE-7006
  order_journal_corrupted : StorageError  -- QQ-RECOVERY-8002
  order_version_conflict : StorageError  -- QQ-COMMON-1003

-- `deadline_monotonic_ns`, and what `monotonic_ns()` returns during the call.
pub record Call : Type 0 where
  pub deadline : ℤ
  pub monotonic : ℕ

-- `_require_deadline`
unfoldable pub require_deadline : Call → Result StorageError (Unit {0})
require_deadline c = elim c.deadline [
  | negsuc _ ↦ err value_error
  | pos n ↦
      if leb n 0 then err value_error else (if leb n c.monotonic then err timeout_error else ok tt)
]
