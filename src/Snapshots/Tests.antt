-- ===== src/Snapshots/Tests.antt =====
-- Runs of the snapshot store, and each theorem at an input where its hypotheses hold.
use ddd_kit_ts.Base.{
  ℕ, ◌+◌, ◌≡◌, refl, none, some, Bool, true, [], ◌∷◌, arith, ltb, ok, if◌then◌else◌, ℕ_discrete,
}
use ddd_kit_ts.Base.JsNumber.{JsNumber, assert_positive_safe_integer}
use ddd_kit_ts.AggregateAddress.{AggregateAddress, AddressKey-discrete}
use ddd_kit_ts.Snapshots.{AggregateSnapshot, InMemorySnapshotStore, new, load, save, delete}
use ddd_kit_ts.Snapshots.Expiry.{read_all, served_until_expiry}
use ddd_kit_ts.Snapshots.Invariant.{IsValid}
use ddd_kit_ts.Snapshots.Survival.{
  load_call, save_call, run_all, run_all-IsValid, recently_used_survives,
}

program : Unit {0}
unfolding new load save delete AddressKey-discrete ℕ_discrete assert_positive_safe_integer read_all
    run_all
program = tt

abbrev always : AggregateSnapshot ℕ → Bool
always x = true

abbrev order : AggregateAddress
order = record { aggregate_type = b'o' ∷ []; aggregate_id = b'1' ∷ [] }

abbrev invoice : AggregateAddress
invoice = record { aggregate_type = b'i' ∷ []; aggregate_id = b'1' ∷ [] }

abbrev quote : AggregateAddress
quote = record { aggregate_type = b'q' ∷ []; aggregate_id = b'1' ∷ [] }

abbrev snap : ℕ → AggregateSnapshot ℕ
snap n = record { state = n; version = n; snapshot_at = 5; schema_version = some 1 }

abbrev empty : InMemorySnapshotStore ℕ
empty = record { snapshots = []; max_entries = some 2; ttl_ms = none }

abbrev timed : InMemorySnapshotStore ℕ
timed = record { snapshots = []; max_entries = some 2; ttl_ms = some 100 }

new_runs : new (some (JsNumber.int 2)) none ≡ ok empty
unfolding program
new_runs = refl

-- In a store of two entries the third address evicts the first, and a load saves it.
evicts :
    (load
      (run_all always empty (
        save_call none order (snap 1)
        ∷ save_call none invoice (snap 2)
        ∷ save_call none quote (snap 3)
        ∷ []))
      none
      order).0
    ≡ ok none
unfolding program
evicts = refl

load_saves :
    (load
      (run_all always empty (
        save_call none order (snap 1)
        ∷ save_call none invoice (snap 2)
        ∷ load_call none order
        ∷ save_call none quote (snap 3)
        ∷ []))
      none
      order).0
    ≡ ok (some (snap 1))
unfolding program
load_saves = refl

empty-IsValid : IsValid empty
empty-IsValid = record { is_map = tt; bounded = omega arith; some_entry = omega arith }

timed-IsValid : IsValid timed
timed-IsValid = record { is_map = tt; bounded = omega arith; some_entry = omega arith }

run_all-IsValid_example :
    IsValid (run_all always empty (save_call none order (snap 1) ∷ load_call none order ∷ []))
run_all-IsValid_example =
    run_all-IsValid always empty (save_call none order (snap 1) ∷ load_call none order ∷ [])
      empty-IsValid

served_until_expiry_example :
    (load
      (read_all (save always timed (some 10) order (snap 1)).1 ((50, order) ∷ []))
      (some 109)
      order).0
    ≡ ok (if ltb 109 (10 + 100) then some (snap 1) else none)
served_until_expiry_example =
    served_until_expiry always timed (save always timed (some 10) order (snap 1)).1 10 100 109 order
      (snap 1) ((50, order) ∷ []) timed-IsValid refl (unfold program in refl) (omega arith, tt)

recently_used_survives_example :
    (load
      (run_all always
        (save always empty none order (snap 1)).1
        (save_call none invoice (snap 2) ∷ []))
      none
      order).0
    ≡ ok (some (snap 1))
recently_used_survives_example =
    recently_used_survives always empty (save always empty none order (snap 1)).1 2 none none order
      (snap 1) (save_call none invoice (snap 2) ∷ []) empty-IsValid refl refl
      (unfold program in refl) (ground arith, tt) (omega arith)
