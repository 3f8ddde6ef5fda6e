-- ===== src/IdentityMap/Tests.antt =====
-- Runs of the identity map, and each theorem at an input where its hypotheses hold. Classes and
-- objects are numbers here.
use mathlib.Core.List.{Memᴰ}
use ddd_kit_ts.Base.{
  ℕ, ◌≡◌, ◌≢◌, refl, Option, none, some, true, false, [], ◌∷◌, arith, ok, throws, ℕ_discrete,
}
use ddd_kit_ts.Base.JsString.{JsString, JsString-discrete}
use ddd_kit_ts.IdentityMap.{
  IdentityMap, aggregate_deleted, different_instance, new_map, get, is_deleted, set, delete, clear,
  instances_with_new_pending_events,
}
use ddd_kit_ts.IdentityMap.Calls.{Call, set_call, delete_call, run_all}
use ddd_kit_ts.IdentityMap.Changes.{new_events_are_reported}
use ddd_kit_ts.IdentityMap.Final.{one_instance, deletion_is_final}

program : Unit {0}
unfolding get is_deleted set delete instances_with_new_pending_events run_all JsString-discrete
    ℕ_discrete
program = tt

abbrev k : JsString
k = b'k' ∷ []

abbrev clean : ℕ → Option ℕ
clean x = some 0

abbrev dirty : ℕ → Option ℕ
dirty x = some 2

abbrev registered : IdentityMap ℕ ℕ
registered = record {
  stores = (7, (k, 42) ∷ []) ∷ [];
  deleted = [];
  pending_at_registration = (42, 0) ∷ [];
}

set_runs : set ℕ_discrete ℕ_discrete clean new_map 7 k 42 ≡ (ok tt, registered)
unfolding program
set_runs = refl

abbrev elsewhere : Call ℕ ℕ
elsewhere = set_call clean 8 k 43

abbrev its_deletion : Call ℕ ℕ
its_deletion = delete_call 7 k

other_elsewhere : elsewhere ≢ its_deletion
other_elsewhere e = ground (arith, e)

one_instance_example :
    let last = run_all ℕ_discrete ℕ_discrete registered (elsewhere ∷ []) in
    (get ℕ_discrete ℕ_discrete last 7 k ≡ some 42)
    × (set ℕ_discrete ℕ_discrete dirty last 7 k 44 ≡ (throws (different_instance k), last))
one_instance_example =
    one_instance ℕ_discrete ℕ_discrete clean dirty new_map registered 7 k 42 44 (elsewhere ∷ [])
      (unfold program in refl) (other_elsewhere, tt) (ground arith)

deletion_is_final_example :
    let m = run_all ℕ_discrete ℕ_discrete new_map (set_call clean 7 k 42 ∷ []) in
    let last =
      run_all ℕ_discrete ℕ_discrete
        (delete ℕ_discrete ℕ_discrete m 7 k)
        (set_call clean 7 k 43 ∷ []) in
    (get ℕ_discrete ℕ_discrete last 7 k ≡ none)
    × (is_deleted ℕ_discrete ℕ_discrete last 7 k ≡ true)
    × (set ℕ_discrete ℕ_discrete clean last 7 k 42 ≡ (throws (aggregate_deleted k), last))
    × (is_deleted ℕ_discrete ℕ_discrete (clear ℕ_discrete ℕ_discrete last) 7 k ≡ false)
deletion_is_final_example =
    deletion_is_final ℕ_discrete ℕ_discrete (set_call clean 7 k 42 ∷ [])
      (set_call clean 7 k 43 ∷ []) 7 k clean 42

new_events_are_reported_example : Memᴰ 42 (
    instances_with_new_pending_events ℕ_discrete ℕ_discrete dirty
      (run_all ℕ_discrete ℕ_discrete registered (elsewhere ∷ [])))
new_events_are_reported_example =
    new_events_are_reported ℕ_discrete ℕ_discrete clean dirty new_map registered 7 k 42 0 2
      (elsewhere ∷ []) refl refl (unfold program in refl) (other_elsewhere, tt) refl (omega arith)
