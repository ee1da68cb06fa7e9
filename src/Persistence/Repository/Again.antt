-- ===== src/Persistence/Repository/Again.antt =====
-- Repeated calls: `register` of an intent that is there, and `save` of a version that is gone
-- (src/quantiqmt/order/infrastructure/memory.py).
use mathlib.Core.Path.{subst}
use quanti_qmt.Base.{
  ℕ, ◌+◌, ◌≡◌, sym, ap, ◌∙◌, inl, inr, String, false, some, ok, err, nat_beq, ◌==◌, string_eq,
  if◌then◌else◌, arith, Bool-cases,
}
use quanti_qmt.Base.Dict.{lookup, insert, lookup-insert_self}
use quanti_qmt.Shared.Platform.{Platform}
use quanti_qmt.Persistence.Call.{
  idempotency_conflict, order_version_conflict, Call, require_deadline,
}
use quanti_qmt.Persistence.Registration.{PersistedOrder}
use quanti_qmt.Persistence.Journal.Record.{OrderCommit}
use quanti_qmt.Persistence.Repository.Store.{Store, RegisterOutcome}
use quanti_qmt.Persistence.Repository.Commit.{register, register_again, save, save_existing}
use quanti_qmt.Persistence.Repository.Commits.{register-ok, save-ok}
use quanti_qmt.Persistence.Repository.Invariant.{intent_of}

module _ (platform : Platform) where
  -- What `register` gives for an intent that leads to an order.
  register_again-outcome :
      (call : Call) (c : OrderCommit) (s : Store) (existing : PersistedOrder) {order_id : String}
      → require_deadline call ≡ ok tt
      → lookup (intent_of c.persisted_order) s.intent_index ≡ some order_id
      → lookup order_id s.orders ≡ some existing
      → register platform call c s ≡ (
          if existing.registration_fingerprint == c.persisted_order.registration_fingerprint
          then ok (record { persisted_order = existing; created = false }, s)
          else err idempotency_conflict)
  unfolding register register_again
  register_again-outcome call c s existing {order_id} d found there =
      elim (Bool-cases
        (existing.registration_fingerprint == c.persisted_order.registration_fingerprint)) [
          | inl e ↦ rw (d, found, there, e)
          | inr e ↦ rw (d, found, there, e)
        ]

  -- After a registration, another of the same intent, within its deadline, gives the order that is
  -- there and changes nothing where the fingerprints agree, and raises an idempotency conflict where
  -- they differ.
  pub register-again :
      (call : Call) (c : OrderCommit) (s : Store) {out : RegisterOutcome × Store} (later : Call)
      (other : OrderCommit)
      → register platform call c s ≡ ok out
      → require_deadline later ≡ ok tt
      → intent_of other.persisted_order ≡ intent_of c.persisted_order
      → register platform later other out.1 ≡ (
          if out.0.persisted_order.registration_fingerprint
            == other.persisted_order.registration_fingerprint
          then ok (record { persisted_order = out.0.persisted_order; created = false }, out.1)
          else err idempotency_conflict)
  register-again call c s {out} later other r d same = elim (register-ok platform call c s r) [
    | inl (existing, (order_id, (found, (there, (_, done))))) ↦
        subst
          (λ (x : RegisterOutcome × Store). register platform later other x.1 ≡ (
            if x.0.persisted_order.registration_fingerprint
              == other.persisted_order.registration_fingerprint
            then ok (record { persisted_order = x.0.persisted_order; created = false }, x.1)
            else err idempotency_conflict))
          (sym done)
          (register_again-outcome later other s existing d
            (ap (λ i. lookup i s.intent_index) same ∙ found) there)
    | inr (_, new) ↦
        subst
          (λ (x : RegisterOutcome × Store). register platform later other x.1 ≡ (
            if x.0.persisted_order.registration_fingerprint
              == other.persisted_order.registration_fingerprint
            then ok (record { persisted_order = x.0.persisted_order; created = false }, x.1)
            else err idempotency_conflict))
          (sym new.outcome)
          (register_again-outcome later other _ c.persisted_order d
            (ap
                (λ i. lookup i (
                  insert (intent_of c.persisted_order) c.persisted_order.registration.order_id
                    s.intent_index))
                same
              ∙ lookup-insert_self (intent_of c.persisted_order) _ s.intent_index)
            (lookup-insert_self c.persisted_order.registration.order_id c.persisted_order s.orders))
  ]

  -- `save` of an expected version that the stored order does not have.
  save-stale :
      (call : Call) (c : OrderCommit) (expected : ℕ) (s : Store) {existing : PersistedOrder}
      → require_deadline call ≡ ok tt
      → lookup c.persisted_order.registration.order_id s.orders ≡ some existing
      → nat_beq existing.order.version expected ≡ false
      → save platform call c expected s ≡ err order_version_conflict
  unfolding save save_existing
  save-stale call c expected s d there stale = rw (d, there, stale)

  -- Of two saves of one order with the same expected version the second, within its deadline, raises
  -- a version conflict, whatever else it carries.
  pub save-once :
      (call : Call) (c : OrderCommit) (expected : ℕ) (s : Store) {out : PersistedOrder × Store}
      (later : Call) (other : OrderCommit)
      → save platform call c expected s ≡ ok out
      → require_deadline later ≡ ok tt
      → other.persisted_order.registration.order_id ≡ c.persisted_order.registration.order_id
      → save platform later other expected out.1 ≡ err order_version_conflict
  save-once call c expected s {out} later other done d same =
      let r = save-ok platform call c expected s done in
      subst
        (λ (x : PersistedOrder × Store).
          save platform later other expected x.1 ≡ err order_version_conflict)
        (sym r.outcome)
        (save-stale later other expected _ d
          (ap
              (λ i.
                lookup i
                  (insert c.persisted_order.registration.order_id c.persisted_order s.orders))
              same
            ∙ lookup-insert_self c.persisted_order.registration.order_id c.persisted_order s.orders)
          (next_differs c.persisted_order.order.version expected r.next_version))
    where
      next_differs : (n expected : ℕ) → n ≡ expected + 1 → nat_beq n expected ≡ false
      next_differs n expected h = ground arith
