-- ===== src/Risk/Examples.antt =====
-- A handoff whose registration raises after the future knows the callback, and a filter of one
-- version (src/quantiqmt/risk/runner.py).
use quanti_qmt.Base.{ℕ, String, true, false, all, List, [], ◌∷◌, ◌≡◌, ◌≢◌, refl}
use quanti_qmt.Risk.Ownership.{
  begin_transfer, abort_transfer, release_from_caller, release_from_callback, released,
}
use quanti_qmt.Risk.Handoff.{
  Run, Reach, begun, later, transfers, raises_after, aborts, leaves_handoff, calls_back, gone,
  waiting, ran, handoff-releases_once,
}
use quanti_qmt.Risk.VersionFilter.{
  has_bits, no_bits, contains, add, add_all, covered, indexes, contains-add_all,
}

-- The callback runs between the failed registration and the handler.
abbrev finished : Run
finished = record {
  ownership = record { owner = released; releases = 1 };
  place = gone;
  future = ran;
}

finished-Reach : Reach finished
unfolding begin_transfer abort_transfer release_from_caller release_from_callback
finished-Reach =
    later
      (later
        (later (later (later begun (transfers _ refl refl)) (raises_after refl)) (calls_back refl))
        (aborts refl))
      (leaves_handoff refl)

no_waiting : finished.future ≢ waiting
no_waiting e = cc

abbrev digest : String → List ℕ
digest _ =
    1 ∷ 2 ∷ 3 ∷ 4 ∷ 5 ∷ 6 ∷ 7 ∷ 8 ∷ 255 ∷ 255 ∷ 11 ∷ 12 ∷ 13 ∷ 14 ∷ 15 ∷ 16 ∷ 17 ∷ 18 ∷ 19 ∷ 20 ∷ 21
    ∷ 22 ∷ 23 ∷ 24 ∷ 25 ∷ 26 ∷ 27 ∷ 28 ∷ 29 ∷ 30 ∷ 31 ∷ 32 ∷ []

handoff-releases_once_example : finished.ownership.releases ≡ 1
handoff-releases_once_example = handoff-releases_once finished finished-Reach refl no_waiting

abbrev others : List String
others = "v2" ∷ "v3" ∷ []

contains-add_all_example :
    (contains digest "v1" (add_all digest others (add digest "v1" (add_all digest [] no_bits)))
      ≡ true)
    × (contains digest "v4" (add_all digest others no_bits)
        ≡ all (covered digest others) (indexes digest "v4"))
contains-add_all_example = contains-add_all digest "v1" [] others "v4"

-- Nothing is found in an empty filter.
contains_none : contains digest "v1" no_bits ≡ false
unfolding contains indexes has_bits
contains_none = refl
