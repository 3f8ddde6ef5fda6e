-- ===== src/Deadlines/Retries.antt =====
-- Failure reports against a pending deadline, up to the one that dead-letters it.
use mathlib.Core.Path.{subst}
use ddd_kit_ts.Base.{
  ◌+◌, ◌<◌, ◌≡◌, ◌≢◌, inl, inr, refl, sym, ap, ◌∙◌, Option, none, some, List, [], ◌∷◌, arith,
  Option-cases, length,
}
use ddd_kit_ts.Base.JsMap
use ddd_kit_ts.Base.JsMap.{JsMap}
use ddd_kit_ts.Base.JsMap.Laws.{get-set_self, get-delete_self}
use ddd_kit_ts.Base.JsString.{JsString, JsString-discrete, str_eq_iff}
use ddd_kit_ts.Deadlines.{
  StoredDeadline, InMemoryDeadlineStore, find_delivery, failed, to_record, to_dead_letter,
  mark_failed_at, mark_failed,
}
use ddd_kit_ts.Deadlines.Delivery.{same_delivery}
use ddd_kit_ts.Deadlines.Invariant.{IsValid, find_delivery-some}
use ddd_kit_ts.Deadlines.Preservation.{mark_failed-IsValid}

module _ {P : Type 0} where
  find_delivery_complete :
      (k : JsString) (d : StoredDeadline P) (m : JsMap JsString (StoredDeadline P))
      → JsMap.get JsString-discrete k m ≡ some d
      → find_delivery d.delivery_id m ≢ none
  unfolding find_delivery
  find_delivery_complete k d [] at nothing = cc
  find_delivery_complete k d (e ∷ m) at nothing =
      ground (arith, find_delivery_complete k d m, str_eq_iff e.1.delivery_id d.delivery_id)

  -- The loop finds a pending record by its delivery id.
  find_delivery_known :
      (s : InMemoryDeadlineStore P) (k : JsString) (d : StoredDeadline P)
      → IsValid s
      → JsMap.get JsString-discrete k s.pending ≡ some d
      → find_delivery d.delivery_id s.pending ≡ some (k, d)
  find_delivery_known s k d v at = elim (Option-cases (find_delivery d.delivery_id s.pending)) [
    | inl nothing ↦ absurd (find_delivery_complete k d s.pending at nothing)
    | inr ((k', d'), found) ↦
        let (at', same) = find_delivery-some d.delivery_id k' d' s.pending v.pending_map found in
        let here : k ≡ k' = same_delivery s k k' d d' v at at' (sym same) in
        let there : JsMap.get JsString-discrete k s.pending ≡ some d' = rw here at' in
        let equal : d ≡ d' = cc (at, there) in found ∙ sym (rw (here, equal) refl)
  ]

  -- A report that leaves attempts.
  retried :
      (s : InMemoryDeadlineStore P) (k : JsString) (d : StoredDeadline P) (error : Option JsString)
      → IsValid s
      → JsMap.get JsString-discrete k s.pending ≡ some d
      → d.attempts + 1 < s.max_delivery_attempts
      → mark_failed s d.delivery_id error
        ≡ (none, record s { pending = JsMap.set JsString-discrete k (failed d error) s.pending })
  unfolding mark_failed mark_failed_at failed
  retried s k d none v at left = rw (find_delivery_known s k d v at, mark_failed) (ground arith)
  retried s k d (some e) v at left = rw (find_delivery_known s k d v at, mark_failed) (ground arith)

  -- The report that uses the last attempt.
  exhausted :
      (s : InMemoryDeadlineStore P) (k : JsString) (d : StoredDeadline P) (error : Option JsString)
      → IsValid s
      → JsMap.get JsString-discrete k s.pending ≡ some d
      → d.attempts + 1 ≡ s.max_delivery_attempts
      → mark_failed s d.delivery_id error ≡ (
        some (to_dead_letter (failed d error)),
        record s {
          pending = JsMap.delete JsString-discrete k s.pending;
          dead = JsMap.set JsString-discrete d.delivery_id (failed d error) s.dead;
        },
      )
  unfolding mark_failed mark_failed_at failed
  exhausted s k d none v at last = rw (find_delivery_known s k d v at, mark_failed) (ground arith)
  exhausted s k d (some e) v at last =
      rw (find_delivery_known s k d v at, mark_failed) (ground arith)

  -- Failure reports of one delivery, with what each reports.
  unfoldable pub fail_all :
      InMemoryDeadlineStore P → JsString → List (Option JsString) → InMemoryDeadlineStore P
  unfolding mark_failed
  fail_all s id [] = s
  fail_all s id (error ∷ errors) = fail_all (mark_failed s id error).1 id errors

  fail_all-IsValid :
      (s : InMemoryDeadlineStore P) (id : JsString) (errors : List (Option JsString))
      → IsValid s
      → IsValid (fail_all s id errors)
  unfolding fail_all
  fail_all-IsValid s id [] v = v
  fail_all-IsValid s id (error ∷ errors) v =
      fail_all-IsValid (mark_failed s id error).1 id errors (mark_failed-IsValid s id error v)

  failed-id :
      (d : StoredDeadline P) (e : Option JsString) → (failed d e).delivery_id ≡ d.delivery_id
  unfolding failed
  failed-id d none = refl
  failed-id d (some e) = refl

  failed-attempts :
      (d : StoredDeadline P) (e : Option JsString) → (failed d e).attempts ≡ d.attempts + 1
  unfolding failed
  failed-attempts d none = refl
  failed-attempts d (some e) = refl

  -- While attempts are left the deadline stays pending and counts the reports.
  fail_all-pending :
      (s : InMemoryDeadlineStore P) (k : JsString) (d : StoredDeadline P)
      (errors : List (Option JsString))
      → IsValid s
      → JsMap.get JsString-discrete k s.pending ≡ some d
      → d.attempts + length errors < s.max_delivery_attempts
      → ((fail_all s d.delivery_id errors).max_delivery_attempts ≡ s.max_delivery_attempts)
        × (d' : StoredDeadline P) × (JsMap.get JsString-discrete k
              (fail_all s d.delivery_id errors).pending
            ≡ some d')
        × (d'.delivery_id ≡ d.delivery_id)
        × (d'.attempts ≡ d.attempts + length errors)
  unfolding fail_all
  fail_all-pending s k d [] v at left = (refl, d, at, refl, omega arith)
  fail_all-pending s k d (error ∷ errors) v at left =
      let d1 : StoredDeadline P = failed d error in
      let s1 : InMemoryDeadlineStore P = record s {
        pending = JsMap.set JsString-discrete k (failed d error) s.pending;
      } in
      let step : (mark_failed s d.delivery_id error).1 ≡ s1 =
        ap (λ r. r.1) (retried s k d error v at (omega (arith, left))) in
      let v1 : IsValid s1 = rw (← step) (mark_failed-IsValid s d.delivery_id error v) in
      let at1 : JsMap.get JsString-discrete k s1.pending ≡ some d1 =
        get-set_self JsString-discrete k (failed d error) s.pending in
      let (top, d', here, same, count) =
        fail_all-pending s1 k d1 errors v1 at1 (omega (arith, failed-attempts d error, left)) in
      let ids : fail_all (mark_failed s d.delivery_id error).1 d.delivery_id errors
          ≡ fail_all s1 d1.delivery_id errors =
        rw (step, failed-id d error) refl in
      (
        ap (λ x. x.max_delivery_attempts) ids ∙ top,
        d',
        ap (λ x. JsMap.get JsString-discrete k x.pending) ids ∙ here,
        same ∙ failed-id d error,
        omega (arith, count, failed-attempts d error),
      )

  to_dead_letter-attempts :
      (d : StoredDeadline P) → (to_dead_letter d).record_of.attempts ≡ d.attempts
  unfolding to_dead_letter to_record
  to_dead_letter-attempts d = refl

  -- A pending deadline takes as many failure reports as it has attempts left, whatever they report:
  -- before the last one it is still pending, and the last one returns its dead letter, with all
  -- attempts counted, takes it out of the pending records and keeps it among the dead ones.
  pub dead_letter_after_max :
      (s : InMemoryDeadlineStore P) (k : JsString) (d : StoredDeadline P)
      (errors : List (Option JsString)) (error : Option JsString)
      → IsValid s
      → JsMap.get JsString-discrete k s.pending ≡ some d
      → d.attempts + length errors + 1 ≡ s.max_delivery_attempts
      → let before : InMemoryDeadlineStore P = fail_all s d.delivery_id errors in
        (last : StoredDeadline P) × (JsMap.get JsString-discrete k before.pending ≡ some last)
        × ((mark_failed before d.delivery_id error).0 ≡ some (to_dead_letter (failed last error)))
        × ((to_dead_letter (failed last error)).record_of.attempts ≡ s.max_delivery_attempts)
        × (JsMap.get JsString-discrete k (mark_failed before d.delivery_id error).1.pending ≡ none)
        × (JsMap.get JsString-discrete d.delivery_id (mark_failed before d.delivery_id error).1.dead
            ≡ some (failed last error))
  dead_letter_after_max s k d errors error v at count =
      let b : InMemoryDeadlineStore P = fail_all s d.delivery_id errors in
      let vb : IsValid b = fail_all-IsValid s d.delivery_id errors v in
      let (top, last, here, same, n) = fail_all-pending s k d errors v at (omega (arith, count)) in
      let step = exhausted b k last error vb here (omega (arith, top, n, count)) in
      let step' : mark_failed b d.delivery_id error ≡ (
        some (to_dead_letter (failed last error)),
        record b {
          pending = JsMap.delete JsString-discrete k b.pending;
          dead = JsMap.set JsString-discrete d.delivery_id (failed last error) b.dead;
        },
      ) =
        subst
          (λ i. mark_failed b i error ≡ (
            some (to_dead_letter (failed last error)),
            record b {
              pending = JsMap.delete JsString-discrete k b.pending;
              dead = JsMap.set JsString-discrete i (failed last error) b.dead;
            },
          ))
          same step in
      (
        last,
        here,
        ap (λ r. r.0) step',
        to_dead_letter-attempts (failed last error)
            ∙ failed-attempts last error
            ∙ omega (arith, n, count),
        ap (λ r. JsMap.get JsString-discrete k r.1.pending) step'
            ∙ get-delete_self JsString-discrete k b.pending vb.pending_map,
        ap (λ r. JsMap.get JsString-discrete d.delivery_id r.1.dead) step'
            ∙ get-set_self JsString-discrete d.delivery_id (failed last error) b.dead,
      )
