-- ===== src/Deadlines/Tests.antt =====
-- Runs of the deadline store, and each theorem at an input where its hypotheses hold.
use mathlib.Core.List.{Perm, filter}
use ddd_kit_ts.Base.{
  ◌↔◌, ℕ, ◌≡◌, refl, none, some, Bool, true, List, [], ◌∷◌, map, take, arith, ok, throws,
  ℕ_discrete, dec_le,
}
use ddd_kit_ts.Base.Decimal.{decimal}
use ddd_kit_ts.Base.JsMap
use ddd_kit_ts.Base.JsNumber.{JsNumber, assert_positive_safe_integer, assert_positive_integer}
use ddd_kit_ts.Base.JsString.{JsString, JsString-discrete, str_eq}
use ddd_kit_ts.Deadlines.{
  StoredDeadline, InMemoryDeadlineStore, capacity_exceeded, records_held, address, delivery_id_of,
  new, schedule, cancel, due, mark_delivered, mark_failed, dead_letters, to_record, to_dead_letter,
  failed,
}
use ddd_kit_ts.Deadlines.Address.{address_injective, Collides, cancel_exact}
use ddd_kit_ts.Deadlines.Delivery.{incarnation, replaced_delivery_is_inert}
use ddd_kit_ts.Deadlines.Invariant.{IsValid}
use ddd_kit_ts.Deadlines.Order.{IsSorted, due_page}
use ddd_kit_ts.Deadlines.Reachable.{run_all, schedule_call, mark_failed_call, reachable-IsValid}
use ddd_kit_ts.Deadlines.Retries.{fail_all, dead_letter_after_max}

program : Unit {0}
unfolding new schedule cancel due mark_delivered mark_failed dead_letters delivery_id_of decimal
    JsString-discrete ℕ_discrete str_eq assert_positive_safe_integer assert_positive_integer run_all
    fail_all
program = tt

abbrev always : ℕ → Bool
always p = true

abbrev scope : JsString
scope = b's' ∷ []

abbrev key : JsString
key = b'k' ∷ []

abbrev late : JsString
late = b'l' ∷ []

abbrev empty : InMemoryDeadlineStore ℕ
empty = record {
  pending = [];
  dead = [];
  max_delivery_attempts = 2;
  max_records = some 2;
  next_sequence = 0;
}

abbrev first : StoredDeadline ℕ
first = record {
  delivery_id = delivery_id_of 0;
  scope = scope;
  key = key;
  due_at = 100;
  payload = 7;
  attempts = 0;
  sequence = 0;
  last_error = none;
}

abbrev one : InMemoryDeadlineStore ℕ
one = record empty { pending = (address scope key, first) ∷ []; next_sequence = 1 }

new_runs : new (some (JsNumber.int 2)) (some (JsNumber.int 2)) ≡ ok empty
unfolding program
new_runs = refl

schedule_runs : schedule always empty scope key 100 7 ≡ (ok tt, one)
unfolding program
schedule_runs = refl

-- A full store refuses a new address and takes an old one.
full_refuses :
    (schedule always (schedule always one scope late 50 8).1 late late 60 9).0
    ≡ throws (
        capacity_exceeded
          (record { resource = records_held; limit = 2; current = 2; attempted = 1 }))
unfolding program
full_refuses = refl

due_runs :
    due (schedule always one scope late 50 8).1 100 (JsNumber.int 1)
    ≡ ok (
        record {
          delivery_id = delivery_id_of 1;
          scope = scope;
          key = late;
          due_at = 50;
          payload = 8;
          attempts = 0;
        }
        ∷ [])
unfolding program
due_runs = refl

reachable-IsValid_example : IsValid (
    run_all always
      (schedule_call scope key 100 7 ∷ mark_failed_call (delivery_id_of 0) (some late) ∷ [])
      empty)
reachable-IsValid_example =
    reachable-IsValid always (some (JsNumber.int 2)) (some (JsNumber.int 2))
      (schedule_call scope key 100 7 ∷ mark_failed_call (delivery_id_of 0) (some late) ∷ []) empty
      (unfold program in refl)

empty-IsValid : IsValid empty
unfolding program
empty-IsValid =
    reachable-IsValid always (some (JsNumber.int 2)) (some (JsNumber.int 2)) [] empty refl

one-IsValid : IsValid one
unfolding program
one-IsValid =
    reachable-IsValid always (some (JsNumber.int 2)) (some (JsNumber.int 2))
      (schedule_call scope key 100 7 ∷ []) empty refl

due_page_example :
    (all : List (StoredDeadline ℕ)) × (due one 100 (JsNumber.int 5)
      ≡ ok (map to_record (take 5 all)))
    × Perm all (filter (λ d. dec_le d.due_at 100) (JsMap.values one.pending))
    × IsSorted all
due_page_example = due_page one 100 5

replaced_delivery_is_inert_example :
    let s' = (schedule always one scope key 300 8).1 in
    (mark_failed s' (delivery_id_of 0) (some late) ≡ (none, s'))
    × ((mark_delivered s' (delivery_id_of 0 ∷ [])).pending ≡ s'.pending)
replaced_delivery_is_inert_example =
    replaced_delivery_is_inert always one (schedule always one scope key 300 8).1 scope key 300 8
      first (some late) one-IsValid (unfold program in refl) (unfold program in refl)

dead_letter_after_max_example :
    let before : InMemoryDeadlineStore ℕ = fail_all one (delivery_id_of 0) (some late ∷ []) in
    (last : StoredDeadline ℕ) × (JsMap.get JsString-discrete (address scope key) before.pending
      ≡ some last)
    × ((mark_failed before (delivery_id_of 0) none).0 ≡ some (to_dead_letter (failed last none)))
    × ((to_dead_letter (failed last none)).record_of.attempts ≡ 2)
    × (JsMap.get JsString-discrete
          (address scope key)
          (mark_failed before (delivery_id_of 0) none).1.pending
        ≡ none)
    × (JsMap.get JsString-discrete
          (delivery_id_of 0)
          (mark_failed before (delivery_id_of 0) none).1.dead
        ≡ some (failed last none))
dead_letter_after_max_example =
    dead_letter_after_max one (address scope key) first (some late ∷ []) none one-IsValid
      (unfold program in refl) (omega arith)

address_injective_example : (scope ≡ scope) × (key ≡ key)
address_injective_example = address_injective scope scope key key (ground arith) (ground arith) refl

-- The deadline of a scope that holds a NUL, against a cancellation of another address.
cancel_exact_example :
    let s' = (schedule always empty (address scope key) late 100 7).1 in
    (JsMap.get JsString-discrete (address (address scope key) late) s'.pending
      ≡ some (incarnation empty (address scope key) late 100 7))
    × ((JsMap.get JsString-discrete
            (address (address scope key) late)
            (cancel s' scope (address key late)).pending
          ≡ none)
        ↔ Collides (address scope key) late scope (address key late))
cancel_exact_example =
    cancel_exact always empty (schedule always empty (address scope key) late 100 7).1
      (address scope key) late scope (address key late) 100 7 empty-IsValid (unfold program in refl)

cancels_other :
    (cancel
      (schedule always empty (address scope key) late 100 7).1
      scope
      (address key late)).pending
    ≡ []
unfolding program
cancels_other = refl
