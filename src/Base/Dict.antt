-- ===== src/Base/Dict.antt =====
-- A Python dict: an association list in the order of insertion.
use mathlib.Core.Path.{◌≡◌, refl, ◌∙◌}
use mathlib.Core.Logic.{◌≢◌, inl, inr}
use mathlib.Core.Bool.{Bool, true, false}
use mathlib.Core.Option.{Option, none, some}
use mathlib.Core.List.{List, [], ◌∷◌, ◌++◌}
use native.Mathlib.Omega.{arith}
use quanti_qmt.Base.Tests.{Eq, ◌==◌, ==-refl, ==-true, ==-false, Bool-cases, if◌then◌else◌}
use quanti_qmt.Base.Lists.{all}

abbrev pub Dict {ℓ κ} : Type ℓ → Type κ → Type (ℓ ⊔ κ)
Dict K V = List (K × V)

module _ {ℓ κ} {K : Type ℓ} {V : Type κ} ⦃e : Eq K⦄ where
  -- `d.get(k)`
  unfoldable pub lookup : K → Dict K V → Option V
  lookup k [] = none
  lookup k ((j, v) ∷ d) = if j == k then some v else lookup k d

  -- `d[k] = v`
  unfoldable pub insert : K → V → Dict K V → Dict K V
  insert k v [] = (k, v) ∷ []
  insert k v ((j, w) ∷ d) = if j == k then (j, v) ∷ d else (j, w) ∷ insert k v d

  pub lookup-insert_self : (k : K) (v : V) (d : Dict K V) → lookup k (insert k v d) ≡ some v
  unfolding lookup insert
  lookup-insert_self k v [] = ground (arith, ==-refl k)
  lookup-insert_self k v ((j, w) ∷ d) = ground (arith, lookup-insert_self k v d)

  pub lookup-insert_ne :
      (j k : K) (v : V) (d : Dict K V) → j ≢ k → lookup j (insert k v d) ≡ lookup j d
  unfolding lookup insert
  lookup-insert_ne j k v [] h = ground (arith, ==-true k j)
  lookup-insert_ne j k v ((i, w) ∷ d) h =
      ground (arith, lookup-insert_ne j k v d h, ==-true i j, ==-true i k)

  pub lookup-insert :
      (j k : K) (v : V) (d : Dict K V)
      → lookup j (insert k v d) ≡ (if k == j then some v else lookup j d)
  unfolding lookup insert
  lookup-insert j k v [] = refl
  lookup-insert j k v ((i, w) ∷ d) = ground (
    arith,
    lookup-insert j k v d,
    ==-true i j,
    ==-true i k,
    ==-true k j,
    ==-refl j,
    ==-refl k,
    ==-refl i,
  )

  -- A key that is not there is put at the end.
  pub insert_new :
      (k : K) (v : V) (d : Dict K V) → lookup k d ≡ none → insert k v d ≡ d ++ (k, v) ∷ []
  unfolding lookup insert
  insert_new k v [] h = refl
  insert_new k v ((j, w) ∷ d) h = ground (arith, insert_new k v d)

  -- A test that holds of the new entry and of the old ones holds after the write.
  pub all-insert :
      (p : K × V → Bool) (k : K) (v : V) (d : Dict K V)
      → p (k, v) ≡ true
      → all p d ≡ true
      → all p (insert k v d) ≡ true
  unfolding insert
  all-insert p k v [] h a = ground arith
  all-insert p k v ((j, w) ∷ d) h a = ground (arith, all-insert p k v d h, ==-true j k)

  pub all-lookup :
      (p : K × V → Bool) (k : K) {v : V} (d : Dict K V)
      → all p d ≡ true
      → lookup k d ≡ some v
      → p (k, v) ≡ true
  unfolding lookup
  all-lookup p k [] a h = cc
  all-lookup p k {v} ((j, w) ∷ d) a h = ground (arith, all-lookup p k {v = v} d, ==-true j k)

  -- Each key is listed once.
  abbrev pub IsDict : Dict K V → Type (ℓ ⊔ κ)
  IsDict [] = Unit
  IsDict ((k, v) ∷ d) = (lookup k d ≡ none) × IsDict d

  pub insert-IsDict : (k : K) (v : V) (d : Dict K V) → IsDict d → IsDict (insert k v d)
  unfolding insert lookup
  insert-IsDict k v [] h = (refl, tt)
  insert-IsDict k v ((j, w) ∷ d) h = elim (Bool-cases (j == k)) [
    | inl e ↦ rw e h
    | inr n ↦ rw n (lookup-insert_ne j k v d (==-false j k n) ∙ h.0, insert-IsDict k v d h.1)
  ]

  lookup-append_head :
      (j k : K) (v : V) (done d : Dict K V)
      → lookup j (done ++ (k, v) ∷ d) ≡ none
      → (j == k) ≡ false
  unfolding lookup
  lookup-append_head j k v [] d h = ground (arith, ==-true j k, ==-refl k)
  lookup-append_head j k v ((i, w) ∷ done) d h = ground (arith, lookup-append_head j k v done d)

  -- A dict that grows by one key of a longer dict at a time.
  pub insert-IsDict_next :
      (k : K) (v : V) (done d : Dict K V)
      → IsDict (done ++ (k, v) ∷ d)
      → insert k v done ≡ done ++ (k, v) ∷ []
  unfolding insert lookup
  insert-IsDict_next k v [] d h = refl
  insert-IsDict_next k v ((j, w) ∷ done) d h =
      ground (arith, insert-IsDict_next k v done d h.1, lookup-append_head j k v done d h.0)

  pub lookup-head : (k : K) (v : V) (d : Dict K V) → lookup k ((k, v) ∷ d) ≡ some v
  unfolding lookup
  lookup-head k v d = ground (arith, ==-refl k)

  pub lookup-tail :
      (j k : K) (v : V) {w : V} (d : Dict K V)
      → lookup k d ≡ none
      → lookup j d ≡ some w
      → lookup j ((k, v) ∷ d) ≡ some w
  unfolding lookup
  lookup-tail j k v {w} d n h = ground (arith, ==-true k j)
