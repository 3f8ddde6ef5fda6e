-- ===== src/Checkpoints/Tests.antt =====
-- Runs of the checkpoint store, and each theorem at an input where its hypotheses hold.
use ddd_kit_ts.Base.{ℕ, ◌≡◌, refl, none, some, true, [], ◌∷◌, ℕ_discrete}
use ddd_kit_ts.Base.JsNumber.{JsNumber, assert_positive_safe_integer}
use ddd_kit_ts.Base.JsString.{JsString, JsString-discrete}
use ddd_kit_ts.AggregateAddress.{AggregateAddress, AddressKey-discrete}
use ddd_kit_ts.Checkpoints.{
  ProjectionCheckpoint, InMemoryProjectionCheckpointStore, new, load, save, reset, has_reached,
  is_position_after,
}
use ddd_kit_ts.Checkpoints.Invariant.{IsValid}
use ddd_kit_ts.Checkpoints.Reading.{run_all, save_call, reset_call, run_all-new-IsValid}

program : Unit {0}
unfolding new load save reset has_reached run_all JsString-discrete AddressKey-discrete ℕ_discrete
    assert_positive_safe_integer is_position_after
program = tt

abbrev totals : JsString
totals = b't' ∷ []

abbrev order : AggregateAddress
order = record { aggregate_type = b'o' ∷ []; aggregate_id = b'1' ∷ [] }

abbrev invoice : AggregateAddress
invoice = record { aggregate_type = b'i' ∷ []; aggregate_id = b'1' ∷ [] }

abbrev mark : ℕ → ProjectionCheckpoint
mark n = record {
  position = record {
    aggregate_version = n;
    commit_sequence = 0;
    commit_size = 1;
    previous_eventful_aggregate_version = none;
  };
  last_applied_event_id = b'e' ∷ [];
}

abbrev empty : InMemoryProjectionCheckpointStore
empty = record { checkpoints = []; max_checkpoints = some 1; checkpoint_count = 0 }

reached : has_reached (save empty totals order (mark 3)).1 totals order (mark 2).position ≡ true
unfolding program
reached = refl

run_all-new-IsValid_example : IsValid (
    run_all
      (save_call totals order (mark 3) ∷ save_call totals invoice (mark 1) ∷ reset_call totals ∷ [])
      empty)
run_all-new-IsValid_example =
    run_all-new-IsValid (some (JsNumber.int 1))
      (save_call totals order (mark 3) ∷ save_call totals invoice (mark 1) ∷ reset_call totals ∷ [])
      empty (unfold program in refl)
