-- ===== src/Persistence/Repository/Calls.antt =====
-- The repository's calls on a consistent store: `register`, `save` and the three lookups
-- (src/quantiqmt/order/infrastructure/memory.py).
use mathlib.Core.Path.{subst}
use quanti_qmt.Base.{
  ==-false, ℕ, ◌+◌, ◌≡◌, refl, sym, ap, ◌∙◌, inl, inr, String, Bool, true, false, Option, none,
  some, ok, ◌>>◌, [], ◌∷◌, length, ◌==◌, string_eq, if◌then◌else◌, Bool-cases, Option-cases,
  ==-true, ==-refl, ==-ne,
}
use quanti_qmt.Base.Dict.{Dict, IsDict, lookup, insert, insert-IsDict, lookup-head, lookup-tail}
use quanti_qmt.Shared.Platform.{Platform}
use quanti_qmt.Persistence.Call.{Call, require_deadline}
use quanti_qmt.Persistence.Registration.{PersistedOrder}
use quanti_qmt.Persistence.Journal.Record.{OrderCommit}
use quanti_qmt.Persistence.Journal.Verified.{prepare_journal-Chained}
use quanti_qmt.Persistence.Repository.Store.{
  Store, RegisterOutcome, indexed, get_by_intent, get_by_client_order_id,
}
use quanti_qmt.Persistence.Repository.Commit.{records_of, register, save}
use quanti_qmt.Persistence.Repository.Commits.{register-ok, save-ok}
use quanti_qmt.Persistence.Repository.Invariant.{
  Leads, intent_of, client_of, IsConsistent, journaled-after, unjournaled-after, keyed-after,
}
use quanti_qmt.Persistence.Repository.Preserved.{
  Leads-save, register_new-IsConsistent, insert-cases,
}

-- The commit carries the intent and the client id that the stored order has.
abbrev pub KeepsIds : OrderCommit → Store → Type 0
KeepsIds c s =
    (existing : PersistedOrder)
    → lookup c.persisted_order.registration.order_id s.orders ≡ some existing
    → (intent_of c.persisted_order ≡ intent_of existing)
      × (client_of c.persisted_order ≡ client_of existing)

module _ (platform : Platform) where
  -- Every registration takes a consistent store to a consistent store.
  pub register-IsConsistent :
      (call : Call) (c : OrderCommit) (s : Store) {out : RegisterOutcome × Store}
      → IsConsistent platform s
      → register platform call c s ≡ ok out
      → IsConsistent platform out.1
  register-IsConsistent call c s {out} h r = elim (register-ok platform call c s r) [
    | inl (_, (_, (_, (_, (_, done))))) ↦
        subst (λ t. IsConsistent platform t) (ap (λ (x : RegisterOutcome × Store). x.1) (sym done))
          h
    | inr (unknown, new) ↦ register_new-IsConsistent platform c s unknown new h
  ]

  known-save :
      (id_of : PersistedOrder → String) (index : Dict String String) (p : PersistedOrder)
      (s : Store) (o : String) {existing : PersistedOrder}
      → lookup o s.orders ≡ some existing
      → id_of p ≡ id_of existing
      → ((k : String) (q : PersistedOrder)
          → lookup k s.orders ≡ some q
          → lookup (id_of q) index ≡ some k)
      → (k : String) (q : PersistedOrder) → lookup k (insert o p s.orders) ≡ some q
      → lookup (id_of q) index ≡ some k
  known-save id_of index p s o {existing} there same old k q h =
      elim (insert-cases o k p s.orders h) [
        | inl (at, e) ↦
            ap (λ r. lookup (id_of r) index) (sym e)
            ∙ ap (λ i. lookup i index) same
            ∙ old o existing there
            ∙ ap some at
        | inr (h', _) ↦ old k q h'
      ]

  -- A save that keeps the intent and client ids of the order takes a consistent store to a consistent
  -- store: each journal is a verified chain as long as the version of its order, and the indexes and
  -- the table agree.
  pub save-IsConsistent :
      (call : Call) (c : OrderCommit) (expected : ℕ) (s : Store) {out : PersistedOrder × Store}
      → IsConsistent platform s
      → KeepsIds c s
      → save platform call c expected s ≡ ok out
      → IsConsistent platform out.1
  save-IsConsistent call c expected s {out} h kept done =
      let r = save-ok platform call c expected s done in
      let p : PersistedOrder = c.persisted_order in
      let o : String = p.registration.order_id in
      let (intents, clients) = kept r.existing r.order_there in
      let before = h.journaled o r.order_there in
      let grown =
        prepare_journal-Chained platform s.outbox.now (records_of o s) c.journal
          p.registration_fingerprint before.0 r.prepared.journal_prepared in
      let long : length r.records ≡ p.order.version =
        grown.1 ∙ ap (λ n. n + 1) (before.1 ∙ r.expected_version) ∙ sym r.next_version in
      subst (λ t. IsConsistent platform t)
        (ap (λ (x : PersistedOrder × Store). x.1) (sym r.outcome))
        (record {
          listed_once = insert-IsDict o p s.orders h.listed_once;
          journaled = λ k. journaled-after platform s p r.records r.messages h (grown.0, long) k;
          unjournaled = unjournaled-after platform s p r.records r.messages h;
          keyed = λ k. keyed-after platform s p r.records r.messages h k;
          intent_known = λ k {p = q}.
              known-save intent_of s.intent_index p s o r.order_there intents
                (λ j x e. h.intent_known j e) k q;
          client_known = λ k {p = q}.
              known-save client_of s.client_index p s o r.order_there clients
                (λ j x e. h.client_known j e) k q;
          intent_leads = λ i {k}.
              Leads-save intent_of s.orders s.intent_index p o r.order_there intents
                (λ j x e. h.intent_leads j e) i k;
          client_leads = λ i {k}.
              Leads-save client_of s.orders s.client_index p o r.order_there clients
                (λ j x e. h.client_leads j e) i k;
        })

-- The specification of the lookups: a search in the table of orders.
unfoldable pub search : (PersistedOrder → Bool) → Dict String PersistedOrder → Option PersistedOrder
search test [] = none
search test ((_, p) ∷ orders) = let rest = search test orders in if test p then some p else rest

search-none :
    (test : PersistedOrder → Bool) (orders : Dict String PersistedOrder)
    → IsDict orders
    → ((k : String) (p : PersistedOrder) → lookup k orders ≡ some p → test p ≡ false)
    → search test orders ≡ none
unfolding search lookup
search-none test [] d h = refl
search-none test ((k, p) ∷ orders) d h =
    rw (h k p (lookup-head k p orders))
      (search-none test orders d.1 (λ j q e. h j q (lookup-tail j k p orders d.0 e)))

search-some :
    (test : PersistedOrder → Bool) (orders : Dict String PersistedOrder) (k : String)
    {p : PersistedOrder}
    → IsDict orders
    → lookup k orders ≡ some p
    → test p ≡ true
    → ((j : String) (q : PersistedOrder) → lookup j orders ≡ some q → test q ≡ true → j ≡ k)
    → search test orders ≡ some p
unfolding search lookup
search-some test [] k {p} d there t h = cc
search-some test ((j, q) ∷ orders) k {p} d there t h = elim (Bool-cases (j == k)) [
  | inl e ↦
      let same : some q ≡ some p = rw e at there in
      let passes : test q ≡ true = ap test (cc same) ∙ t in rw passes same
  | inr n ↦
      let later : lookup k orders ≡ some p = rw n at there in
      let rest =
        search-some test orders k d.1 later t (λ i r e. h i r (lookup-tail i j q orders d.0 e)) in
      elim (Bool-cases (test q)) [
        | inl u ↦ absurd (==-false j k n (h j q (lookup-head j q orders) u))
        | inr u ↦ rw u rest
      ]
]

module _ (platform : Platform) where
  -- An index that knows every order, and leads to orders that carry the id, finds what a search
  -- of the table finds.
  indexed-search :
      (id_of : PersistedOrder → String) (i : String) (index : Dict String String)
      (orders : Dict String PersistedOrder)
      → IsDict orders
      → ((k : String) (q : PersistedOrder)
          → lookup k orders ≡ some q
          → lookup (id_of q) index ≡ some k)
      → ((k : String) → lookup i index ≡ some k → Leads orders id_of i k)
      → indexed orders (lookup i index) ≡ search (λ p. id_of p == i) orders
  unfolding indexed
  indexed-search id_of i index orders d known leads = elim (Option-cases (lookup i index)) [
    | inl missing ↦ rw missing (
        sym (
          search-none (λ p. id_of p == i) orders d
            (λ k p e. ==-ne (id_of p) i (λ same. absurd (
              let no : some k ≡ none =
                sym (known k p e) ∙ ap (λ j. lookup j index) same ∙ missing in
              cc no)))))
    | inr (k, found) ↦
        let (p, (there, e)) = leads k found in
        rw found (
          there
          ∙ sym (
              search-some (λ p. id_of p == i) orders k d there (rw e (==-refl i))
                (λ j q h u.
                  let twice : some j ≡ some k =
                    sym (known j q h) ∙ ap (λ x. lookup x index) (==-true (id_of q) i u) ∙ found in
                  cc twice)))
  ]

  -- In a consistent store the lookup through the intent index is the search of the table of orders
  -- for the intent.
  pub get_by_intent-search :
      (call : Call) (i : String) (s : Store)
      → IsConsistent platform s
      → get_by_intent call i s
        ≡ (require_deadline call >> ok (search (λ p. p.registration.intent_id == i) s.orders))
  unfolding get_by_intent
  get_by_intent-search call i s h =
      ap (λ x. require_deadline call >> ok x)
        (indexed-search intent_of i s.intent_index s.orders h.listed_once
          (λ k q e. h.intent_known k e) (λ k e. h.intent_leads i e))

  pub get_by_client_order_id-search :
      (call : Call) (i : String) (s : Store)
      → IsConsistent platform s
      → get_by_client_order_id call i s
        ≡ (require_deadline call >> ok (search (λ p. p.registration.client_order_id == i) s.orders))
  unfolding get_by_client_order_id
  get_by_client_order_id-search call i s h =
      ap (λ x. require_deadline call >> ok x)
        (indexed-search client_of i s.client_index s.orders h.listed_once
          (λ k q e. h.client_known k e) (λ k e. h.client_leads i e))
