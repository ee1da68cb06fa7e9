-- ===== src/Persistence/Repository/Paging.antt =====
-- A client that follows the page tokens of `list_recovery_order_ids`
-- (src/quantiqmt/order/infrastructure/memory.py).
use mathlib.Core.List.{append_assoc}
use mathlib.Core.Path.{subst}
use quanti_qmt.Base.{
  is_none, ℕ, zero, suc, ◌≤◌, ◌≡◌, refl, sym, ap, ◌∙◌, inl, inr, String, Bool, true, false, Option,
  none, some, Result, ok, err, ◌>>=◌, List, [], ◌∷◌, ◌++◌, IsDistinct, contains, leb, length, ◌==◌,
  string_eq, arith, Bool-cases, Option-cases, ==-true, ==-refl, all,
}
use quanti_qmt.Shared.Platform.{Platform}
use quanti_qmt.Persistence.Call.{StorageError, value_error, Call, require_deadline}
use quanti_qmt.Persistence.Repository.Store.{Store}
use quanti_qmt.Persistence.Repository.Pages.{
  Scope, ids_in, remaining, after_token, take, last_of, next_token, list_recovery_order_ids,
}

-- `ids[n:]`
unfoldable pub drop : ℕ → List String → List String
drop zero ids = ids
drop (suc n) [] = []
drop (suc n) (i ∷ ids) = drop n ids

all-take :
    (p : String → Bool) (n : ℕ) (ids : List String) → all p ids ≡ true → all p (take n ids) ≡ true
unfolding take
all-take p zero ids h = refl
all-take p (suc n) [] h = refl
all-take p (suc n) (i ∷ ids) h = ground (arith, all-take p n ids)

all-drop :
    (p : String → Bool) (n : ℕ) (ids : List String) → all p ids ≡ true → all p (drop n ids) ≡ true
unfolding drop
all-drop p zero ids h = h
all-drop p (suc n) [] h = refl
all-drop p (suc n) (i ∷ ids) h = all-drop p n ids (ground arith)

contains-append :
    (t : String) (before ids : List String)
    → contains t ids ≡ true
    → contains t (before ++ ids) ≡ true
contains-append t [] ids h = h
contains-append t (i ∷ before) ids h = ground (arith, contains-append t before ids)

take-drop : (n : ℕ) (ids : List String) → take n ids ++ drop n ids ≡ ids
unfolding take drop
take-drop zero ids = refl
take-drop (suc n) [] = refl
take-drop (suc n) (i ∷ ids) = ap (λ l. i ∷ l) (take-drop n ids)

take-all : (n : ℕ) (ids : List String) → length ids ≤ n → take n ids ≡ ids
unfolding take
take-all zero [] h = refl
take-all zero (i ∷ ids) h = absurd (omega (arith, h))
take-all (suc n) [] h = refl
take-all (suc n) (i ∷ ids) h = ap (λ l. i ∷ l) (take-all n ids (omega (arith, h)))

length-drop :
    (n : ℕ) (ids : List String) → 1 ≤ length ids → suc (length (drop (suc n) ids)) ≤ length ids
unfolding drop
length-drop n [] h = absurd (omega (arith, h))
length-drop zero (i ∷ ids) h = omega arith
length-drop (suc n) (i ∷ []) h = omega arith
length-drop (suc n) (i ∷ j ∷ ids) h =
    let rest = length-drop n (j ∷ ids) (omega arith) in omega (arith, rest)

contains-after_token :
    (t : String) (ids : List String) {r : List String}
    → after_token t ids ≡ some r
    → contains t ids ≡ true
unfolding after_token
contains-after_token t [] h = cc
contains-after_token t (i ∷ ids) {r} h = ground (arith, contains-after_token t ids {r = r})

-- The last id of a page is the token that leads behind it.
after_token-last :
    (n : ℕ) (ids : List String) {t : String}
    → IsDistinct ids
    → last_of (take (suc n) ids) ≡ some t
    → after_token t ids ≡ some (drop (suc n) ids)
unfolding take drop after_token
after_token-last n [] d h = cc
after_token-last zero (i ∷ ids) {t} d h = let same : i ≡ t = cc in rw (same, ==-refl t)
after_token-last (suc n) (i ∷ []) {t} d h = let same : i ≡ t = cc in rw (same, ==-refl t)
after_token-last (suc n) (i ∷ j ∷ ids) {t} d h =
    let rest = after_token-last n (j ∷ ids) d.1 h in
    let there = contains-after_token t (j ∷ ids) rest in
    elim (Bool-cases (i == t)) [
      | inl e ↦ absurd (
          let no : false ≡ true =
            sym d.0 ∙ ap (λ k. contains k (j ∷ ids)) (==-true i t e) ∙ there in
          cc no)
      | inr e ↦ rw e rest
    ]

-- Ids before the token are passed over.
after_token-append :
    (t : String) (before ids : List String)
    → IsDistinct (before ++ ids)
    → contains t ids ≡ true
    → after_token t (before ++ ids) ≡ after_token t ids
unfolding after_token
after_token-append t [] ids d h = refl
after_token-append t (i ∷ before) ids d h = elim (Bool-cases (i == t)) [
  | inl e ↦ absurd (
      let no : false ≡ true =
        sym d.0
        ∙ ap (λ k. contains k (before ++ ids)) (==-true i t e)
        ∙ contains-append t before ids h in
      cc no)
  | inr e ↦ rw e (after_token-append t before ids d.1 h)
]

-- A client that asks for page after page; `fuel` bounds their number.
unfoldable pub walk :
    Platform → Call → Scope → ℕ → Store → ℕ → Option String → Result StorageError (List String)
unfolding list_recovery_order_ids
walk platform call scope size s zero token = err value_error
walk platform call scope size s (suc fuel) token = do
  page ← list_recovery_order_ids platform call scope size token s
  elim page.next_page_token [
    | none ↦ ok page.order_ids
    | some t ↦ do rest ← walk platform call scope size s fuel (some t); ok (page.order_ids ++ rest)
  ]

positive : (n : ℕ) → leb 1 (suc n) ≡ true
positive n = ground arith

last_of-some : (i : String) (ids : List String) → (t : String) × (last_of (i ∷ ids) ≡ some t)
last_of-some i [] = (i, refl)
last_of-some i (j ∷ ids) = last_of-some j ids

next_token-none : (n : ℕ) (ids : List String) → next_token (suc n) ids ≡ none → length ids ≤ suc n
unfolding next_token take
next_token-none n [] h = omega arith
next_token-none n (i ∷ ids) h = let (t, e) = last_of-some i (take n ids) in ground arith

next_token-some :
    (n : ℕ) (ids : List String) {t : String}
    → next_token (suc n) ids ≡ some t
    → (last_of (take (suc n) ids) ≡ some t) × (1 ≤ length ids)
unfolding next_token
next_token-some n ids h = (ground arith, ground arith)

IsDistinct-suffix : (before ids : List String) → IsDistinct (before ++ ids) → IsDistinct ids
IsDistinct-suffix [] ids d = d
IsDistinct-suffix (i ∷ before) ids d = IsDistinct-suffix before ids d.1

-- One page.
page_of :
    (platform : Platform) (call : Call) (scope : Scope) (size : ℕ) (token : Option String)
    (s : Store) (ids : List String)
    → require_deadline call ≡ ok tt
    → leb (suc size) 1000 ≡ true
    → all platform.is_canonical_uuid ids ≡ true
    → remaining token (ids_in scope s) ≡ ok ids
    → list_recovery_order_ids platform call scope (suc size) token s
      ≡ ok (record {
        order_ids = take (suc size) ids;
        next_page_token = next_token (suc size) ids;
        complete = is_none (next_token (suc size) ids);
      })
unfolding list_recovery_order_ids
page_of platform call scope size token s ids d bound valid at =
    rw (d, positive size, bound, at, all-take platform.is_canonical_uuid (suc size) ids valid)

remaining-some :
    (t : String) (ids : List String) {rest : List String}
    → after_token t ids ≡ some rest
    → remaining (some t) ids ≡ ok rest
unfolding remaining
remaining-some t ids h = rw h

shorter : {n m fuel : ℕ} → suc n ≤ m → suc m ≤ suc fuel → suc n ≤ fuel
shorter h e = omega (arith, h, e)

pub walk-from :
    (platform : Platform) (call : Call) (scope : Scope) (size : ℕ) (s : Store) (fuel : ℕ)
    (token : Option String) (before ids : List String)
    → require_deadline call ≡ ok tt
    → leb (suc size) 1000 ≡ true
    → all platform.is_canonical_uuid ids ≡ true
    → IsDistinct (before ++ ids)
    → ids_in scope s ≡ before ++ ids
    → remaining token (ids_in scope s) ≡ ok ids
    → suc (length ids) ≤ fuel
    → walk platform call scope (suc size) s fuel token ≡ ok ids
unfolding walk
walk-from platform call scope size s zero token before ids d bound valid once at from enough =
    absurd (omega (arith, enough))
walk-from platform call scope size s (suc fuel) token before ids d bound valid once at from enough =
    elim (Option-cases (next_token (suc size) ids)) [
      | inl last ↦
          rw (page_of platform call scope size token s ids d bound valid from, last)
            (ap ok (take-all (suc size) ids (next_token-none size ids last)))
      | inr (t, more) ↦
          let (end_of_page, some_left) = next_token-some size ids more in
          let behind = after_token-last size ids (IsDistinct-suffix before ids once) end_of_page in
          let joined : (before ++ take (suc size) ids) ++ drop (suc size) ids ≡ before ++ ids =
            append_assoc before (take (suc size) ids) (drop (suc size) ids)
            ∙ ap (λ l. before ++ l) (take-drop (suc size) ids) in
          let next : remaining (some t) (ids_in scope s) ≡ ok (drop (suc size) ids) =
            ap (remaining (some t)) at
            ∙ remaining-some t (before ++ ids) (
                after_token-append t before ids once (contains-after_token t ids behind)
                ∙ behind) in
          rw
            (
              page_of platform call scope size token s ids d bound valid from,
              more,
              walk-from platform call scope size s fuel (some t) (before ++ take (suc size) ids)
                  (drop (suc size) ids) d bound
                  (all-drop platform.is_canonical_uuid (suc size) ids valid)
                  (subst IsDistinct (sym joined) once) (at ∙ sym joined) next
                  (shorter (length-drop size ids some_left) enough),
            )
            (ap ok (take-drop (suc size) ids))
    ]
