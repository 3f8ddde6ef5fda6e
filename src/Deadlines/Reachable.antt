-- ===== src/Deadlines/Reachable.antt =====
-- Sequences of calls on a deadline store.
use mathlib.Core.Path.{subst}
use ddd_kit_ts.Base.{
  ℕ, ◌<◌, ◌≡◌, Option, Bool, List, [], ◌∷◌, arith, ok, ◌>>=◌, get_or, bind_ok, ok-inj,
}
use ddd_kit_ts.Base.Capacity.{Within-zero}
use ddd_kit_ts.Base.JsNumber.{JsNumber, assert_optional_limit, assert_positive_integer}
use ddd_kit_ts.Base.JsString.{JsString}
use ddd_kit_ts.Deadlines.{
  invalid_option, InMemoryDeadlineStore, new, schedule, cancel, mark_delivered, mark_failed,
}
use ddd_kit_ts.Deadlines.Invariant.{IsValid}
use ddd_kit_ts.Deadlines.Preservation.{
  schedule-IsValid, cancel-IsValid, mark_delivered-IsValid, mark_failed-IsValid,
}

-- The calls that change a store.
pub data Call (P : Type 0) : Type 0 where
  schedule_call : (scope key : JsString) → ℕ → P → Call P
  cancel_call : (scope key : JsString) → Call P
  mark_delivered_call : List JsString → Call P
  mark_failed_call : JsString → Option JsString → Call P

module _ {P : Type 0} (cloneable : P → Bool) where
  unfoldable pub run : Call P → InMemoryDeadlineStore P → InMemoryDeadlineStore P
  unfolding schedule cancel mark_delivered mark_failed
  run (schedule_call scope key due_at payload) s = (schedule cloneable s scope key due_at payload).1
  run (cancel_call scope key) s = cancel s scope key
  run (mark_delivered_call ids) s = mark_delivered s ids
  run (mark_failed_call id error) s = (mark_failed s id error).1

  unfoldable pub run_all : List (Call P) → InMemoryDeadlineStore P → InMemoryDeadlineStore P
  unfolding run
  run_all [] s = s
  run_all (c ∷ cs) s = run_all cs (run c s)

  run-IsValid : (c : Call P) (s : InMemoryDeadlineStore P) → IsValid s → IsValid (run c s)
  unfolding run
  run-IsValid (schedule_call scope key due_at payload) s v =
      schedule-IsValid cloneable s scope key due_at payload v
  run-IsValid (cancel_call scope key) s v = cancel-IsValid s scope key v
  run-IsValid (mark_delivered_call ids) s v = mark_delivered-IsValid s ids v
  run-IsValid (mark_failed_call id error) s v = mark_failed-IsValid s id error v

  run_all-IsValid :
      (cs : List (Call P)) (s : InMemoryDeadlineStore P) → IsValid s → IsValid (run_all cs s)
  unfolding run_all
  run_all-IsValid [] s v = v
  run_all-IsValid (c ∷ cs) s v = run_all-IsValid cs (run c s) (run-IsValid c s v)

  -- A store without records.
  abbrev start : ℕ → Option ℕ → InMemoryDeadlineStore P
  start max limit = record {
    pending = [];
    dead = [];
    max_delivery_attempts = max;
    max_records = limit;
    next_sequence = 0;
  }

  assert_positive_integer-pos :
      (n : JsNumber) (max : ℕ) → assert_positive_integer invalid_option n ≡ ok max → 0 < max
  unfolding assert_positive_integer
  assert_positive_integer-pos (JsNumber.int n) max h = ground arith
  assert_positive_integer-pos n max h = absurd (ground arith)

  start-IsValid : (max : ℕ) (limit : Option ℕ) → 0 < max → IsValid (start max limit)
  start-IsValid max limit h = record {
    pending_map = tt;
    dead_map = tt;
    some_attempt = h;
    bounded = Within-zero limit;
    known = λ k d at. absurd (cc);
    distinct = λ k k' d d' at at' e. absurd (cc);
  }

  new-IsValid :
      (max limit : Option JsNumber) (s : InMemoryDeadlineStore P) → new max limit ≡ ok s → IsValid s
  unfolding new
  new-IsValid max limit s h =
      let asked : JsNumber = get_or max (JsNumber.int 5) in
      let (m, top, h1) =
        bind_ok (assert_positive_integer invalid_option asked)
          (λ m. assert_optional_limit invalid_option limit >>= (λ l. ok (start m l))) s h in
      let (l, bound, h2) =
        bind_ok (assert_optional_limit invalid_option limit) (λ l. ok (start m l)) s h1 in
      subst IsValid (ok-inj (start m l) s h2)
        (start-IsValid m l (assert_positive_integer-pos asked m top))

  -- Whatever calls are made on a new store, in whatever order, the invariant holds afterwards.
  pub reachable-IsValid :
      (max limit : Option JsNumber) (cs : List (Call P)) (s : InMemoryDeadlineStore P)
      → new max limit ≡ ok s
      → IsValid (run_all cs s)
  reachable-IsValid max limit cs s h = run_all-IsValid cs s (new-IsValid max limit s h)
