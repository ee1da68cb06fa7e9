-- ===== src/Persistence/Repository/Store.antt =====
-- The state of `InMemoryOrderPersistence`, its clock and its lookups
-- (src/quantiqmt/order/infrastructure/memory.py), and the results of the repository's calls
-- (src/quantiqmt/order/application/persistence/model.py).
use quanti_qmt.Base.{
  ℕ, ◌+◌, String, Bool, Option, none, some, Result, ok, err, ◌>>◌, ensure, List, [], ◌∷◌, ◌++◌, leb,
  text_le, string_eq,
}
use quanti_qmt.Base.Int.{ℤ, pos, negsuc}
use quanti_qmt.Base.Dict.{Dict, lookup}
use quanti_qmt.Base.Sort.{sorted}
use quanti_qmt.Persistence.Call.{StorageError, value_error, Call, require_deadline}
use quanti_qmt.Persistence.Registration.{PersistedOrder}
use quanti_qmt.Persistence.Journal.Record.{OrderSnapshot}
use quanti_qmt.Persistence.Journal.Chain.{JournalRecord}
use quanti_qmt.Persistence.Outbox.Record.{Outbox, OutboxRecord}

pub record Store : Type 0 where
  pub orders : Dict String PersistedOrder
  pub intent_index : Dict String String
  pub client_index : Dict String String
  pub journal : Dict String (List JournalRecord)
  pub outbox : Outbox  -- `_outbox` and `_now`
  pub snapshots : Dict String (List OrderSnapshot)

-- `InMemoryOrderPersistence(now=now)`
unfoldable pub new_store : ℕ → Store
new_store now = record {
  orders = [];
  intent_index = [];
  client_index = [];
  journal = [];
  outbox = record { records = []; now = now };
  snapshots = [];
}

abbrev all_records : Dict String (List JournalRecord) → List JournalRecord
all_records [] = []
all_records ((_, records) ∷ rest) = records ++ all_records rest

-- The property `journal_records`
unfoldable pub journal_records : Store → List JournalRecord
journal_records s = all_records s.journal

abbrev values : Dict String OutboxRecord → List OutboxRecord
values [] = []
values ((_, r) ∷ rest) = r ∷ values rest

-- The property `outbox_records`
unfoldable pub outbox_records : Store → List OutboxRecord
outbox_records s = sorted (λ a b. text_le a.message_id b.message_id) (values s.outbox.records)

-- `set_now`
unfoldable pub set_now : ℕ → Store → Result StorageError Store
set_now value s = do
  ensure (leb s.outbox.now value) value_error
  ok (record s { outbox = record (s.outbox) { now = value } })

-- `advance`, by a number of microseconds
unfoldable pub advance : ℤ → Store → Result StorageError Store
advance (negsuc _) s = err value_error
advance (pos delta) s = ok (record s { outbox = record (s.outbox) { now = s.outbox.now + delta } })

-- The order that an index names: `self._orders.get(order_id) if order_id is not None else None`
unfoldable pub indexed : Dict String PersistedOrder → Option String → Option PersistedOrder
indexed orders none = none
indexed orders (some order_id) = lookup order_id orders

unfoldable pub get_order : Call → String → Store → Result StorageError (Option PersistedOrder)
unfolding require_deadline
get_order call order_id s = do require_deadline call; ok (lookup order_id s.orders)

unfoldable pub get_by_intent : Call → String → Store → Result StorageError (Option PersistedOrder)
unfolding require_deadline indexed
get_by_intent call intent_id s = do
  require_deadline call
  ok (indexed s.orders (lookup intent_id s.intent_index))

unfoldable pub get_by_client_order_id :
    Call → String → Store → Result StorageError (Option PersistedOrder)
unfolding require_deadline indexed
get_by_client_order_id call client_order_id s = do
  require_deadline call
  ok (indexed s.orders (lookup client_order_id s.client_index))

pub record RegisterOutcome : Type 0 where
  pub persisted_order : PersistedOrder
  pub created : Bool

pub data RecoverySource : Type 0 where
  snapshot_plus_journal full_journal : RecoverySource

pub record RecoveryLoad : Type 0 where
  pub persisted_order : PersistedOrder
  pub source : RecoverySource
  pub snapshot_diagnostic : Option String

-- `SnapshotLookup`, by its three statuses; an invalid one carries QQ-STORAGE-7003, a detail, and
-- the id and version of the snapshot.
pub data SnapshotLookup : Type 0 where
  valid : OrderSnapshot → SnapshotLookup
  absent : SnapshotLookup
  invalid_discarded : String → String → ℕ → SnapshotLookup

pub record RecoveryPage : Type 0 where
  pub order_ids : List String
  pub next_page_token : Option String
  pub complete : Bool
