-- ===== src/Persistence/Repository/Invariant.antt =====
-- The consistency of a store: its orders, their journals and the two indexes agree
-- (`InMemoryOrderPersistence` of src/quantiqmt/order/infrastructure/memory.py).
use quanti_qmt.Base.{
  if-apply, ◌⊎◌, ℕ, ◌≡◌, refl, sym, ap, ◌∙◌, inl, inr, String, none, some, List, [], length, ◌==◌,
  string_eq, if◌then◌else◌, Bool-cases, ==-true,
}
use quanti_qmt.Base.Dict.{Dict, IsDict, lookup, lookup-insert}
use quanti_qmt.Shared.Platform.{Platform}
use quanti_qmt.Persistence.Registration.{PersistedOrder}
use quanti_qmt.Persistence.Journal.Chain.{JournalRecord}
use quanti_qmt.Persistence.Journal.Verified.{Chained}
use quanti_qmt.Persistence.Outbox.Record.{OutboxRecord}
use quanti_qmt.Persistence.Repository.Store.{Store, new_store}
use quanti_qmt.Persistence.Repository.Commit.{or_no_records, records_of, with_commit}

-- An index leads to an order that carries the id.
abbrev pub Leads : Dict String PersistedOrder → (PersistedOrder → String) → String → String → Type 0
Leads orders id_of i k = (p : PersistedOrder) × ((lookup k orders ≡ some p) × (id_of p ≡ i))

abbrev pub intent_of : PersistedOrder → String
intent_of p = p.registration.intent_id

abbrev pub client_of : PersistedOrder → String
client_of p = p.registration.client_order_id

module _ (platform : Platform) where
  pub record IsConsistent (s : Store) : Type 0 where
    pub listed_once : IsDict s.orders
    pub journaled :
        (k : String) {p : PersistedOrder}
        → lookup k s.orders ≡ some p
        → Chained platform 1 none (records_of k s) × (length (records_of k s) ≡ p.order.version)
    pub unjournaled : (k : String) → lookup k s.orders ≡ none → records_of k s ≡ []
    pub keyed :
        (k : String) {p : PersistedOrder} → lookup k s.orders ≡ some p → p.registration.order_id ≡ k
    pub intent_known :
        (k : String) {p : PersistedOrder}
        → lookup k s.orders ≡ some p
        → lookup p.registration.intent_id s.intent_index ≡ some k
    pub client_known :
        (k : String) {p : PersistedOrder}
        → lookup k s.orders ≡ some p
        → lookup p.registration.client_order_id s.client_index ≡ some k
    pub intent_leads :
        (i : String) {k : String} → lookup i s.intent_index ≡ some k → Leads s.orders intent_of i k
    pub client_leads :
        (i : String) {k : String} → lookup i s.client_index ≡ some k → Leads s.orders client_of i k

  pub new_store-IsConsistent : (now : ℕ) → IsConsistent (new_store now)
  unfolding new_store lookup
  new_store-IsConsistent now = record {
    listed_once = tt;
    journaled = λ k h. cc;
    unjournaled = λ k h. refl;
    keyed = λ k h. cc;
    intent_known = λ k h. cc;
    client_known = λ k h. cc;
    intent_leads = λ i h. cc;
    client_leads = λ i h. cc;
  }

  module _ (s : Store) (p : PersistedOrder) (records : List JournalRecord)
      (messages : Dict String OutboxRecord) where
    abbrev after : Store
    after = with_commit platform s p records messages

    orders-after :
        (k : String)
        → lookup k after.orders
          ≡ (if p.registration.order_id == k then some p else lookup k s.orders)
    orders-after k = lookup-insert k p.registration.order_id p s.orders

    records-after :
        (k : String)
        → records_of k after ≡ (if p.registration.order_id == k then records else records_of k s)
    records-after k =
        ap or_no_records (lookup-insert k p.registration.order_id records s.journal)
        ∙ if-apply or_no_records (p.registration.order_id == k) (some records) (lookup k s.journal)

    -- An order after the commit is the commit's, or one that was there and is not changed.
    pub order-cases :
        (k : String) {q : PersistedOrder}
        → lookup k after.orders ≡ some q
        → ((p.registration.order_id ≡ k) × ((p ≡ q) × (records_of k after ≡ records)))
          ⊎ ((lookup k s.orders ≡ some q) × (records_of k after ≡ records_of k s))
    order-cases k {q} h = elim (Bool-cases (p.registration.order_id == k)) [
      | inl e ↦
          let same : some p ≡ some q = sym (orders-after k ∙ rw e) ∙ h in
          inl (==-true _ _ e, (cc, records-after k ∙ rw e))
      | inr n ↦ inr (sym (orders-after k ∙ rw n) ∙ h, records-after k ∙ rw n)
    ]

    pub journaled-after :
        IsConsistent s
        → Chained platform 1 none records × (length records ≡ p.order.version)
        → (k : String) {q : PersistedOrder} → lookup k after.orders ≡ some q
        → Chained platform 1 none (records_of k after)
          × (length (records_of k after) ≡ q.order.version)
    journaled-after c new k {q} h = elim (order-cases k h) [
      | inl (_, (same, rs)) ↦
          rw rs (new.0, new.1 ∙ ap (λ (o : PersistedOrder). o.order.version) same)
      | inr (old, rs) ↦ rw rs (c.journaled k old)
    ]

    pub unjournaled-after :
        IsConsistent s → (k : String) → lookup k after.orders ≡ none → records_of k after ≡ []
    unjournaled-after c k h = elim (Bool-cases (p.registration.order_id == k)) [
      | inl e ↦ absurd (let no : some p ≡ none = sym (orders-after k ∙ rw e) ∙ h in cc no)
      | inr n ↦ records-after k ∙ rw n (c.unjournaled k (sym (orders-after k ∙ rw n) ∙ h))
    ]

    pub keyed-after :
        IsConsistent s
        → (k : String) {q : PersistedOrder} → lookup k after.orders ≡ some q
        → q.registration.order_id ≡ k
    keyed-after c k {q} h = elim (order-cases k h) [
      | inl (id, (same, rs)) ↦ ap (λ (o : PersistedOrder). o.registration.order_id) (sym same) ∙ id
      | inr (old, rs) ↦ c.keyed k old
    ]
