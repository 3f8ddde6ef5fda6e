-- ===== src/EventStore/Tests.antt =====
-- Runs of the event store, and each theorem at an input where its hypotheses hold.
use ddd_kit_ts.Base.{
  ℕ, ◌≡◌, ◌≢◌, ◌↔◌, ◌⊎◌, refl, none, some, List, [], ◌∷◌, ◌++◌, arith, length, ok, throws,
  ℕ_discrete,
}
use ddd_kit_ts.Base.Capacity.{Within}
use ddd_kit_ts.Base.JsNumber.{JsNumber, assert_positive_safe_integer}
use ddd_kit_ts.AggregateAddress.{AggregateAddress, AddressKey-discrete}
use ddd_kit_ts.EventStore.{
  InMemoryEventStore, concurrency_conflict, capacity_exceeded, event_records, new, append,
  read_stream, stored,
}
use ddd_kit_ts.EventStore.Append.{log, append-log, append_ok_iff, stale_append}
use ddd_kit_ts.EventStore.Invariant.{IsValid, append-IsValid}
use ddd_kit_ts.EventStore.Reading.{load_stream, load_stream_complete}

program : Unit {0}
unfolding new append read_stream AddressKey-discrete ℕ_discrete assert_positive_safe_integer
program = tt

abbrev order : AggregateAddress
order = record { aggregate_type = b'o' ∷ []; aggregate_id = b'1' ∷ [] }

abbrev invoice : AggregateAddress
invoice = record { aggregate_type = b'i' ∷ []; aggregate_id = b'1' ∷ [] }

abbrev empty : InMemoryEventStore ℕ
empty = record { streams = []; max_streams = some 2; max_events = some 4; total_events = 0 }

abbrev started : InMemoryEventStore ℕ
started = record empty {
  streams = ((b'o' ∷ []) ∷ (b'1' ∷ []) ∷ [], 10 ∷ 11 ∷ 12 ∷ []) ∷ [];
  total_events = 3;
}

new_runs : new (some (JsNumber.int 2)) (some (JsNumber.int 4)) ≡ ok empty
unfolding program
new_runs = refl

append_runs : append empty order (10 ∷ 11 ∷ 12 ∷ []) 0 ≡ (ok tt, started)
unfolding program
append_runs = refl

append_over : append started order (13 ∷ 14 ∷ []) 3 ≡ (
  throws (
      capacity_exceeded
        (record { resource = event_records; limit = 4; current = 3; attempted = 2 })),
  started,
)
unfolding program
append_over = refl

empty-IsValid : IsValid empty
empty-IsValid = omega arith

started-IsValid : IsValid started
unfolding program
started-IsValid = append-IsValid empty order (10 ∷ 11 ∷ 12 ∷ []) 0 empty-IsValid

append-IsValid_example : IsValid (append started order (13 ∷ []) 3).1
append-IsValid_example = append-IsValid started order (13 ∷ []) 3 started-IsValid

append-log_example :
    (log (append started order (13 ∷ []) 3).1 order ≡ log started order ++ 13 ∷ [])
    × ((other : AggregateAddress)
        → order ≢ other
        → log (append started order (13 ∷ []) 3).1 other ≡ log started other)
append-log_example = append-log started order (13 ∷ []) 3 (unfold program in refl)

abbrev one : List ℕ
one = 7 ∷ []

append_ok_iff_example : ((append started invoice one 0).0 ≡ ok tt) ↔ (
    (one ≡ [])
    ⊎ (length (log started invoice) ≡ 0)
      × (stored started invoice ≡ none → Within 2 (some 2))
      × Within 4 (some 4))
append_ok_iff_example = append_ok_iff started invoice one 0

stale_append_example :
    append (append empty order (10 ∷ []) 0).1 order (20 ∷ []) 0
    ≡ (throws (concurrency_conflict order 0 1), (append empty order (10 ∷ []) 0).1)
stale_append_example =
    stale_append empty order (10 ∷ []) (20 ∷ []) 0 (omega arith) (omega arith)
      (unfold program in refl)

load_stream_complete_example : load_stream started order 2 4 0 none ≡ ok (some (10 ∷ 11 ∷ 12 ∷ []))
load_stream_complete_example =
    load_stream_complete started order (10 ∷ 11 ∷ 12 ∷ []) 2 (unfold program in refl) (omega arith)
      (omega arith) (omega arith)
