-- ===== src/Risk/Handoff.antt =====
-- The races of a handoff: the thread that runs an evaluation and the callback of the future, in
-- any order (`RiskEvaluationRunner.run` and `_AdmissionOwnership` of src/quantiqmt/risk/runner.py).
use quanti_qmt.Base.{ℕ, ◌≤◌, Bool, true, false, ◌&&◌, some, nat_beq, ◌≡◌, ◌≢◌, refl, arith}
use quanti_qmt.Risk.Ownership.{
  Owner, Ownership, caller, registering, callback, released, admitted, begin_transfer,
  abort_transfer, end_transfer, release_from_caller, release_from_callback,
}

-- Where the caller stands: evaluating; in `add_done_callback`; back from it; after it has raised;
-- in the `finally` after a handoff; gone.
pub data Place : Type 0 where
  evaluating : Place
  adding : Place
  added : Place
  failed : Place
  leaving : Place
  gone : Place

-- The callback: unknown to the future, waiting for its end, or run.
pub data Callback : Type 0 where
  absent : Callback
  waiting : Callback
  ran : Callback

pub record Run : Type 0 where
  pub ownership : Ownership
  pub place : Place
  pub future : Callback

abbrev pub start : Run
start = record { ownership = admitted; place = evaluating; future = absent }

-- One block under the lock, or one event of the future. The registration may raise before or after
-- the future knows the callback; the callback runs at any time after that, once.
pub data Step (r : Run) : Run → Type 0 where
  transfers :
      (o : Ownership)
      → r.place ≡ evaluating
      → begin_transfer r.ownership ≡ some o
      → Step r (record r { ownership = o; place = adding })
  registers : r.place ≡ adding → Step r (record r { place = added; future = waiting })
  raises_before : r.place ≡ adding → Step r (record r { place = failed })
  raises_after : r.place ≡ adding → Step r (record r { place = failed; future = waiting })
  ends :
      r.place ≡ added → Step r (record r { ownership = end_transfer r.ownership; place = leaving })
  aborts :
      r.place ≡ failed
      → Step r (record r { ownership = abort_transfer r.ownership; place = leaving })
  leaves :
      r.place ≡ evaluating
      → Step r (record r { ownership = release_from_caller r.ownership; place = gone })
  leaves_handoff :
      r.place ≡ leaving
      → Step r (record r { ownership = release_from_caller r.ownership; place = gone })
  calls_back :
      r.future ≡ waiting
      → Step r (record r { ownership = release_from_callback r.ownership; future = ran })

pub data Reach : Run → Type 0 where
  begun : Reach start
  later : {r r' : Run} → Reach r → Step r r' → Reach r'

-- The owners that go with a place and a callback.
abbrev pub fits : Place → Callback → Owner → Bool
fits evaluating absent caller = true
fits adding absent registering = true
fits added waiting registering = true
fits added ran released = true
fits failed absent registering = true
fits failed waiting registering = true
fits failed ran released = true
fits leaving waiting callback = true
fits leaving absent caller = true
fits leaving waiting caller = true
fits leaving ran caller = true
fits leaving ran released = true
fits gone waiting callback = true
fits gone _ released = true
fits _ _ _ = false

-- The permit has been released once if the owner is `released`, and not at all otherwise.
abbrev pub count : Owner → ℕ
count released = 1
count _ = 0

abbrev consistent : Place → Callback → Owner → ℕ → Bool
consistent p c w n = fits p c w && nat_beq n (count w)

abbrev IsConsistent : Run → Type 0
IsConsistent r = consistent r.place r.future r.ownership.owner r.ownership.releases ≡ true

Step-consistent :
    (p : Place) (c : Callback) (w : Owner) (n : ℕ) (r' : Run)
    → consistent p c w n ≡ true
    → Step (record { ownership = record { owner = w; releases = n }; place = p; future = c }) r'
    → IsConsistent r'
unfolding begin_transfer abort_transfer end_transfer release_from_caller release_from_callback
Step-consistent p c w n _ h (transfers o e b) = ground arith
Step-consistent p c w n _ h (registers e) = ground arith
Step-consistent p c w n _ h (raises_before e) = ground arith
Step-consistent p c w n _ h (raises_after e) = ground arith
Step-consistent p c w n _ h (ends e) = ground arith
Step-consistent p c w n _ h (aborts e) = ground arith
Step-consistent p c w n _ h (leaves e) = ground arith
Step-consistent p c w n _ h (leaves_handoff e) = ground arith
Step-consistent p c w n _ h (calls_back e) = ground arith

reach-IsConsistent : (r : Run) → Reach r → IsConsistent r
reach-IsConsistent _ begun = refl
reach-IsConsistent r' (later {r} p s) =
    Step-consistent r.place r.future r.ownership.owner r.ownership.releases r'
      (reach-IsConsistent r p) s

releases_le_one : (p : Place) (c : Callback) (w : Owner) (n : ℕ) → consistent p c w n ≡ true → n ≤ 1
releases_le_one p c w n h = ground arith

releases_one :
    (p : Place) (c : Callback) (w : Owner) (n : ℕ)
    → consistent p c w n ≡ true
    → p ≡ gone
    → c ≢ waiting
    → n ≡ 1
releases_one gone absent w n h e f = ground arith
releases_one gone ran w n h e f = ground arith
releases_one gone waiting w n h e f = absurd (f refl)
releases_one evaluating c w n h e f = cc
releases_one adding c w n h e f = cc
releases_one added c w n h e f = cc
releases_one failed c w n h e f = cc
releases_one leaving c w n h e f = cc

-- In every interleaving of the caller and the callback, with registrations that raise before or
-- after the future knows the callback, the permit is released at most once.
pub handoff-releases_le_one : (r : Run) → Reach r → r.ownership.releases ≤ 1
handoff-releases_le_one r p =
    releases_le_one r.place r.future r.ownership.owner r.ownership.releases (reach-IsConsistent r p)

-- When the caller has gone and no callback is waiting for the future, the permit has been released
-- exactly once: none is lost, whatever the order of the events.
pub handoff-releases_once :
    (r : Run) → Reach r → r.place ≡ gone → r.future ≢ waiting → r.ownership.releases ≡ 1
handoff-releases_once r p e f =
    releases_one r.place r.future r.ownership.owner r.ownership.releases (reach-IsConsistent r p) e
      f
