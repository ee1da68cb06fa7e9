-- ===== src/Persistence/Repository/Preserved.antt =====
-- `register` and `save` keep a store consistent (src/quantiqmt/order/infrastructure/memory.py).
use mathlib.Core.Path.{subst}
use quanti_qmt.Base.{
  ◌+◌, ◌≡◌, sym, ap, ◌∙◌, ◌⊎◌, inl, inr, String, false, none, some, [], length, ◌==◌, string_eq,
  Bool-cases, ==-true,
}
use quanti_qmt.Base.Dict.{Dict, lookup, insert, lookup-insert, lookup-insert_self, insert-IsDict}
use quanti_qmt.Shared.Platform.{Platform}
use quanti_qmt.Persistence.Registration.{PersistedOrder}
use quanti_qmt.Persistence.Journal.Record.{OrderCommit}
use quanti_qmt.Persistence.Journal.Verified.{Chained, prepare_journal-Chained}
use quanti_qmt.Persistence.Repository.Store.{Store, RegisterOutcome}
use quanti_qmt.Persistence.Repository.Commit.{records_of}
use quanti_qmt.Persistence.Repository.Commits.{IsRegistration}
use quanti_qmt.Persistence.Repository.Invariant.{
  Leads, intent_of, client_of, IsConsistent, journaled-after, unjournaled-after, keyed-after,
}

module _ {V : Type 0} where
  -- A key that is new to a dict does not hide another.
  lookup-insert_other :
      (i j : String) (v : V) {w : V} (d : Dict String V)
      → lookup i d ≡ none
      → lookup j d ≡ some w
      → lookup j (insert i v d) ≡ some w
  lookup-insert_other i j v {w} d n h = elim (Bool-cases (i == j)) [
    | inl e ↦
        absurd (let no : none ≡ some w = sym n ∙ ap (λ k. lookup k d) (==-true i j e) ∙ h in cc no)
    | inr e ↦ lookup-insert j i v d ∙ rw e h
  ]

  -- An entry after an insertion is the new one or an old one.
  pub insert-cases :
      (i j : String) (v : V) {w : V} (d : Dict String V)
      → lookup j (insert i v d) ≡ some w
      → ((i ≡ j) × (v ≡ w)) ⊎ ((lookup j d ≡ some w) × ((i == j) ≡ false))
  insert-cases i j v {w} d h = elim (Bool-cases (i == j)) [
    | inl e ↦
        let same : some v ≡ some w = sym (lookup-insert j i v d ∙ rw e) ∙ h in
        inl (==-true i j e, cc)
    | inr e ↦ inr (sym (lookup-insert j i v d ∙ rw e) ∙ h, e)
  ]

-- The indexes after a registration, and after a save that keeps the ids.
module _ (id_of : PersistedOrder → String) (orders : Dict String PersistedOrder)
    (index : Dict String String) (p : PersistedOrder) (o : String) where
  Leads-register :
      lookup o orders ≡ none
      → ((i k : String) → lookup i index ≡ some k → Leads orders id_of i k)
      → (i k : String) → lookup i (insert (id_of p) o index) ≡ some k
      → Leads (insert o p orders) id_of i k
  Leads-register new old i k h = elim (insert-cases (id_of p) i o index h) [
    | inl (e, at) ↦
        (p, (ap (λ k. lookup k (insert o p orders)) (sym at) ∙ lookup-insert_self o p orders, e))
    | inr (h', _) ↦
        let (q, (there, e)) = old i k h' in (q, (lookup-insert_other o k p orders new there, e))
  ]

  pub Leads-save :
      {existing : PersistedOrder}
      → lookup o orders ≡ some existing
      → id_of p ≡ id_of existing
      → ((i k : String) → lookup i index ≡ some k → Leads orders id_of i k)
      → (i k : String) → lookup i index ≡ some k
      → Leads (insert o p orders) id_of i k
  Leads-save {existing} there same old i k h =
      let (q, (found, e)) = old i k h in
      elim (Bool-cases (o == k)) [
        | inl at ↦
            let agree : some existing ≡ some q =
              sym there ∙ ap (λ k. lookup k orders) (==-true o k at) ∙ found in
            (p, (lookup-insert k o p orders ∙ rw at, same ∙ ap id_of (cc agree) ∙ e))
        | inr n ↦ (q, (lookup-insert k o p orders ∙ rw n found, e))
      ]

module _ (platform : Platform) where
  known-register :
      (id_of : PersistedOrder → String) (index : Dict String String) (o : String)
      (p : PersistedOrder) (s : Store)
      → lookup (id_of p) index ≡ none
      → ((k : String) (q : PersistedOrder)
          → lookup k s.orders ≡ some q
          → lookup (id_of q) index ≡ some k)
      → (k : String) (q : PersistedOrder) → ((o ≡ k) × (p ≡ q)) ⊎ (lookup k s.orders ≡ some q)
      → lookup (id_of q) (insert (id_of p) o index) ≡ some k
  known-register id_of index o p s new old k q (inl (at, same)) =
      ap (λ r. lookup (id_of r) (insert (id_of p) o index)) (sym same)
      ∙ lookup-insert_self (id_of p) o index
      ∙ ap some at
  known-register id_of index o p s new old k q (inr there) =
      lookup-insert_other (id_of p) (id_of q) o index new (old k q there)

  -- A new order gives an index that knows it.
  pub register_new-IsConsistent :
      (c : OrderCommit) (s : Store) {out : RegisterOutcome × Store}
      → lookup c.persisted_order.registration.intent_id s.intent_index ≡ none
      → IsRegistration platform c s out
      → IsConsistent platform s
      → IsConsistent platform out.1
  register_new-IsConsistent c s {out} unknown r h =
      let p : PersistedOrder = c.persisted_order in
      let o : String = p.registration.order_id in
      let start : records_of o s ≡ [] = h.unjournaled o r.order_new in
      let grown =
        prepare_journal-Chained platform s.outbox.now (records_of o s) c.journal
          p.registration_fingerprint (subst (Chained platform 1 none) (sym start) tt)
          r.prepared.journal_prepared in
      let one : length r.records ≡ p.order.version =
        grown.1 ∙ ap (λ rs. length rs + 1) start ∙ sym r.first_version in
      subst (λ t. IsConsistent platform t) (ap (λ x. x.1) (sym r.outcome))
        (record {
          listed_once = insert-IsDict o p s.orders h.listed_once;
          journaled = λ k. journaled-after platform s p r.records r.messages h (grown.0, one) k;
          unjournaled = unjournaled-after platform s p r.records r.messages h;
          keyed = λ k. keyed-after platform s p r.records r.messages h k;
          intent_known = λ k {p = q} there.
              known-register intent_of s.intent_index o p s unknown (λ j x e. h.intent_known j e) k
                q (changed k q there);
          client_known = λ k {p = q} there.
              known-register client_of s.client_index o p s r.client_new
                (λ j x e. h.client_known j e) k q (changed k q there);
          intent_leads = λ i {k}.
              Leads-register intent_of s.orders s.intent_index p o r.order_new
                (λ j x e. h.intent_leads j e) i k;
          client_leads = λ i {k}.
              Leads-register client_of s.orders s.client_index p o r.order_new
                (λ j x e. h.client_leads j e) i k;
        })
    where
      changed :
          (k : String) (q : PersistedOrder)
          → lookup k (insert c.persisted_order.registration.order_id c.persisted_order s.orders)
            ≡ some q
          → ((c.persisted_order.registration.order_id ≡ k) × (c.persisted_order ≡ q))
            ⊎ (lookup k s.orders ≡ some q)
      changed k q there =
          elim (insert-cases c.persisted_order.registration.order_id k c.persisted_order s.orders
            there) [ inl both ↦ inl both | inr old ↦ inr old.0 ]
