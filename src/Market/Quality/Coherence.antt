-- ===== src/Market/Quality/Coherence.antt =====
-- The counters of an instrument and its quality under the operations
-- (src/quantiqmt/market/quality.py).
use quanti_qmt.Base.{
  ℕ, max, String, Bool, true, false, ◌&&◌, Option, some, [], ◌∷◌, length, all, leb, ◌==◌, string_eq,
  ◌≡◌, ◌≢◌, refl, sym, nat_eq, arith, ==-refl,
}
use mathlib.Core.Path.{subst}
use quanti_qmt.Base.Dict.{Dict, lookup, insert, all-insert, all-lookup}
use quanti_qmt.Market.Quality.State.{
  Quality, QualityState, gap, normal, degraded, stale, unavailable, recovering,
}
use quanti_qmt.Market.Quality.Registry.{RecoveryEvidenceRegistry}
use quanti_qmt.Market.Quality.Drain.{add}
use quanti_qmt.Market.Quality.Store.{
  MarketQuality, Outcome, first_state, widen_gap, enter_gap, backfilled,
}
use quanti_qmt.Market.Quality.Pipeline.{advanced, aged}
use quanti_qmt.Market.Quality.Recovery.{begun, completed}
use quanti_qmt.Market.Quality.Relation.{
  Move, Operation, step, Effect, advances, misses, overflows, widens, fills, ages_by_one, begins,
  completes, raised, kept, created, moved, enters_gap,
}
use quanti_qmt.Market.Quality.Moves.{step-Effect}
use quanti_qmt.Market.Quality.Diagram.{completes-recovering}
use quanti_qmt.Market.Quality.Counters.{settled, is_coherent, all-bound, all-add, drain-bound}

settled-other : (q : Quality) (s : QualityState) → q ≢ gap → settled q s ≡ settled normal s
settled-other gap s n = absurd (n refl)
settled-other normal s n = refl
settled-other degraded s n = refl
settled-other stale s n = refl
settled-other unavailable s n = refl
settled-other recovering s n = refl

enters-other : (q : Quality) → enters_gap q ≡ true → q ≢ gap
enters-other q h e = let no : enters_gap gap ≡ true = subst (λ x. enters_gap x ≡ true) e h in cc

backfilled-is_coherent :
    (n : ℕ) (s : QualityState)
    → s.quality ≡ gap
    → is_coherent s ≡ true
    → is_coherent (backfilled n s) ≡ true
unfolding is_coherent backfilled
backfilled-is_coherent n s q h =
    let top = max s.highest_observed_sequence n in
    let pending = add n s.pending_backfill_sequences in
    let old : all (λ k. leb k top) s.pending_backfill_sequences ≡ true =
      all-bound s.highest_observed_sequence top s.pending_backfill_sequences (ground arith)
        (ground arith) in
    let bounded =
      drain-bound top (length pending) s.contiguous_source_version pending (ground arith)
        (all-add top n s.pending_backfill_sequences (ground arith) old) in
    let was : settled s.quality s ≡ true = ground arith in
    let is : settled s.quality (backfilled n s) ≡ true =
      subst (λ x. settled x (backfilled n s) ≡ true) (sym q)
        (subst (λ x. settled x s ≡ true) q was) in
    ground (arith, bounded.0, bounded.1)

aged-is_coherent :
    (q : Quality) (s : QualityState)
    → s.quality ≡ q
    → is_coherent s ≡ true
    → is_coherent (aged q s) ≡ true
unfolding is_coherent
aged-is_coherent normal s e h =
    let was : settled normal s ≡ true = subst (λ x. settled x s ≡ true) e (ground arith) in
    ground arith
aged-is_coherent degraded s e h =
    let was : settled degraded s ≡ true = subst (λ x. settled x s ≡ true) e (ground arith) in
    ground arith
aged-is_coherent stale s e h = h
aged-is_coherent gap s e h = h
aged-is_coherent unavailable s e h = h
aged-is_coherent recovering s e h = h

Move-is_coherent :
    (registry : Option RecoveryEvidenceRegistry) (s s' : QualityState)
    → Move registry s s'
    → is_coherent s ≡ true
    → is_coherent s' ≡ true
unfolding is_coherent advanced enter_gap widen_gap begun completed
Move-is_coherent registry s _ (advances n q e) h =
    ground (arith, settled-other s.quality s q, settled-other s.quality (advanced n s) q)
Move-is_coherent registry s _ (misses n e l) h =
    ground (arith, settled-other s.quality s (enters-other s.quality e))
Move-is_coherent registry s _ (overflows n e) h = ground arith
Move-is_coherent registry s _ (widens a b n q start end) h =
    let is : settled s.quality (widen_gap a b n n n false s) ≡ true =
      subst (λ x. settled x (widen_gap a b n n n false s) ≡ true) (sym q) refl in
    ground arith
Move-is_coherent registry s _ (fills n q above below) h = backfilled-is_coherent n s q h
Move-is_coherent registry s _ (ages_by_one e) h = aged-is_coherent s.quality s refl h
Move-is_coherent registry s _ (begins ev reason e) h = ground arith
Move-is_coherent registry s _ (completes ev e) h =
    let q = completes-recovering s ev registry e in
    let was : settled recovering s ≡ true = subst (λ x. settled x s ≡ true) q (ground arith) in
    ground arith

-- Each instrument has a state under its own name, whose counters agree with its quality.
abbrev pub entry_is_sound : String × QualityState → Bool
entry_is_sound (i, s) = s.instrument_id == i && is_coherent s

unfoldable pub is_sound : MarketQuality → Bool
is_sound m = all entry_is_sound m.states

pub sound_keys :
    (d : Dict String QualityState)
    → all entry_is_sound d ≡ true
    → all (λ entry. entry.1.instrument_id == entry.0) d ≡ true
sound_keys [] h = refl
sound_keys ((i, s) ∷ d) h = ground (arith, sound_keys d)

pub is_sound-lookup :
    (i : String) (s : QualityState) (d : Dict String QualityState)
    → all entry_is_sound d ≡ true
    → lookup i d ≡ some s
    → (s.instrument_id == i && is_coherent s) ≡ true
is_sound-lookup i s d h l = all-lookup entry_is_sound i {v = s} d h l

aged-instrument_id : (q : Quality) (s : QualityState) → (aged q s).instrument_id ≡ s.instrument_id
aged-instrument_id normal s = refl
aged-instrument_id degraded s = refl
aged-instrument_id stale s = refl
aged-instrument_id gap s = refl
aged-instrument_id unavailable s = refl
aged-instrument_id recovering s = refl

Move-instrument_id :
    (registry : Option RecoveryEvidenceRegistry) (s s' : QualityState)
    → Move registry s s'
    → s'.instrument_id ≡ s.instrument_id
unfolding advanced enter_gap widen_gap backfilled begun completed
Move-instrument_id registry s _ (advances n q e) = refl
Move-instrument_id registry s _ (misses n e l) = refl
Move-instrument_id registry s _ (overflows n e) = refl
Move-instrument_id registry s _ (widens a b n q start end) = refl
Move-instrument_id registry s _ (fills n q above below) = refl
Move-instrument_id registry s _ (ages_by_one e) = aged-instrument_id s.quality s
Move-instrument_id registry s _ (begins ev reason e) = refl
Move-instrument_id registry s _ (completes ev e) = refl

first_state-is_coherent :
    (provider i calendar calendar_version session : String) (source quality : ℕ)
    → is_coherent (first_state provider i calendar calendar_version session source quality) ≡ true
unfolding is_coherent
first_state-is_coherent provider i calendar calendar_version session source quality = ground arith

Effect-is_sound :
    (m : MarketQuality) (o : Outcome)
    → Effect m o
    → all entry_is_sound m.states ≡ true
    → all entry_is_sound o.1.states ≡ true
Effect-is_sound m _ (raised e) h = h
Effect-is_sound m _ (kept i s m' l e) h = rw e h
Effect-is_sound m _ (created p i c v session source quality l) h =
    all-insert entry_is_sound i (first_state p i c v session source quality) m.states
      (ground (arith, ==-refl i, first_state-is_coherent p i c v session source quality)) h
Effect-is_sound m _ (moved i s s' m' l a e) h =
    let was = is_sound-lookup i s m.states h l in
    let key = Move-instrument_id m.recovery_registry s s' a in
    let good = Move-is_coherent m.recovery_registry s s' a (ground arith) in
    subst (λ d. all entry_is_sound (insert i s' d) ≡ true) (sym e)
      (all-insert entry_is_sound i s' m.states (ground (arith, key)) h)

-- Every operation keeps the pipeline sound: each state stands under its own instrument; its source
-- version is the highest observed sequence and bounds the contiguous and the pending ones; in GAP
-- the ends of the gap are on record, and in any other quality no sequence is missing, the three
-- counters agree, nothing is pending and no gap is counted.
pub step-is_sound :
    (op : Operation) (m : MarketQuality) → is_sound m ≡ true → is_sound (step op m).1 ≡ true
unfolding is_sound
step-is_sound op m h = Effect-is_sound m (step op m) (step-Effect op m (sound_keys m.states h)) h
