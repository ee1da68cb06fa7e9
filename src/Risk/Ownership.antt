-- ===== src/Risk/Ownership.antt =====
-- `_AdmissionOwnership` of src/quantiqmt/risk/runner.py: who gives back the one permit of an
-- admitted evaluation. Each block under the lock is one function of the state and of the number of
-- times that the permit has been released.
use quanti_qmt.Base.{ℕ, suc, Option, none, some}

-- `_state`
pub data Owner : Type 0 where
  caller : Owner
  registering : Owner
  callback : Owner
  released : Owner

pub record Ownership : Type 0 where
  pub owner : Owner
  pub releases : ℕ

abbrev pub admitted : Ownership
admitted = record { owner = caller; releases = 0 }

-- `_release_locked`
abbrev pub release_locked : Ownership → Ownership
release_locked o = record { owner = released; releases = suc o.releases }

-- The first block of `transfer_to_future`: none is the `RuntimeError`.
abbrev pub begin_by : Owner → Ownership → Option Ownership
begin_by caller o = some (record o { owner = registering })
begin_by _ o = none

unfoldable pub begin_transfer : Ownership → Option Ownership
begin_transfer o = begin_by o.owner o

-- The handler of `transfer_to_future`
abbrev pub abort_by : Owner → Ownership → Ownership
abort_by registering o = record o { owner = caller }
abort_by _ o = o

unfoldable pub abort_transfer : Ownership → Ownership
abort_transfer o = abort_by o.owner o

-- The last block of `transfer_to_future`
abbrev pub end_by : Owner → Ownership → Ownership
end_by registering o = record o { owner = callback }
end_by _ o = o

unfoldable pub end_transfer : Ownership → Ownership
end_transfer o = end_by o.owner o

abbrev pub caller_by : Owner → Ownership → Ownership
caller_by caller o = release_locked o
caller_by _ o = o

unfoldable pub release_from_caller : Ownership → Ownership
release_from_caller o = caller_by o.owner o

abbrev pub callback_by : Owner → Ownership → Ownership
callback_by registering o = release_locked o
callback_by callback o = release_locked o
callback_by _ o = o

-- `_release_from_callback`
unfoldable pub release_from_callback : Ownership → Ownership
release_from_callback o = callback_by o.owner o
