-- ===== src/Persistence/Repository/Pages.antt =====
-- The pages of the orders to recover: `list_recovery_order_ids` of `InMemoryOrderPersistence`
-- (src/quantiqmt/order/infrastructure/memory.py).
use quanti_qmt.Base.{
  ℕ, zero, suc, String, Bool, true, false, ◌&&◌, Option, none, some, Result, ok, ◌>>=◌, ◌>>◌,
  ensure, or_raise, is_none, List, [], ◌∷◌, ◌++◌, all, contains, leb, ltb, length, ◌==◌, string_eq,
  if◌then◌else◌, text_le,
}
use quanti_qmt.Base.Dict.{Dict, lookup}
use quanti_qmt.Base.Sort.{sorted}
use quanti_qmt.Shared.Platform.{Platform}
use quanti_qmt.Order.States.{OrderState}
use quanti_qmt.Persistence.Call.{StorageError, value_error, Call, require_deadline}
use quanti_qmt.Persistence.Registration.{PersistedOrder}
use quanti_qmt.Persistence.Repository.Store.{Store, RecoveryPage}

-- `_ACTIVE_OR_UNKNOWN_RECOVERY_STATES`
unfoldable pub is_recovery_state : OrderState → Bool
is_recovery_state OrderState.rejected = false
is_recovery_state OrderState.canceled = false
is_recovery_state OrderState.filled = false
is_recovery_state OrderState.expired = false
is_recovery_state OrderState.failed = false
is_recovery_state _ = true

pub data Scope : Type 0 where
  all_orders active_or_unknown : Scope

-- The keys of a dict that are not listed yet, after those that are.
unfoldable pub add_keys {ℓ} : {V : Type ℓ} → Dict String V → List String → List String
add_keys [] done = done
add_keys ((k, _) ∷ d) done = add_keys d (if contains k done then done else done ++ k ∷ [])

-- `sorted(set(self._orders) | set(self._journal))`
unfoldable pub recovery_ids : Store → List String
unfolding add_keys sorted text_le
recovery_ids s = sorted text_le (add_keys s.journal (add_keys s.orders []))

abbrev pub to_recover : Option PersistedOrder → Bool
to_recover none = true
to_recover (some p) = is_recovery_state p.order.state

unfoldable pub active_ids : Store → List String → List String
unfolding is_recovery_state
active_ids s [] = []
active_ids s (i ∷ ids) =
    let rest = active_ids s ids in if to_recover (lookup i s.orders) then i ∷ rest else rest

unfoldable pub ids_in : Scope → Store → List String
unfolding recovery_ids active_ids
ids_in all_orders s = recovery_ids s
ids_in active_or_unknown s = active_ids s (recovery_ids s)

-- `ids.index(token) + 1`, and the ids from there: `ids[start:]`
unfoldable pub after_token : String → List String → Option (List String)
after_token token [] = none
after_token token (i ∷ ids) =
    let rest = after_token token ids in if i == token then some ids else rest

-- `ids[start:]`, where `start` is 0 or behind the token
unfoldable pub remaining : Option String → List String → Result StorageError (List String)
unfolding after_token
remaining none ids = ok ids
remaining (some token) ids = or_raise (after_token token ids) value_error

unfoldable pub take : ℕ → List String → List String
take zero ids = []
take (suc n) [] = []
take (suc n) (i ∷ ids) = i ∷ take n ids

abbrev pub last_of : List String → Option String
last_of [] = none
last_of (i ∷ []) = some i
last_of (i ∷ j ∷ ids) = last_of (j ∷ ids)

-- `page[-1] if start + page_size < len(ids) and page else None`
unfoldable pub next_token : ℕ → List String → Option String
unfolding take
next_token page_size ids = if ltb page_size (length ids) then last_of (take page_size ids) else none

-- `list_recovery_order_ids`
unfoldable pub list_recovery_order_ids :
    Platform → Call → Scope → ℕ → Option String → Store → Result StorageError RecoveryPage
unfolding require_deadline ids_in remaining take next_token
list_recovery_order_ids platform call scope page_size page_token s = do
  require_deadline call
  ensure (leb 1 page_size && leb page_size 1000) value_error
  ids ← remaining page_token (ids_in scope s)
  ensure (all platform.is_canonical_uuid (take page_size ids)) value_error
  ok (record {
    order_ids = take page_size ids;
    next_page_token = next_token page_size ids;
    complete = is_none (next_token page_size ids);
  })
