-- ===== src/Outbox/Acknowledged.antt =====
-- Adding events again that have been acknowledged.
use mathlib.Core.Path.{subst}
use ddd_kit_ts.Base.{◌≡◌, ◌≢◌, inl, inr, refl, ◌∙◌, none, some, List, [], ◌∷◌, Outcome-cases}
use ddd_kit_ts.Base.JsMap
use ddd_kit_ts.Base.JsMap.{IsMap}
use ddd_kit_ts.Base.JsMap.Laws.{get-set_ne, get-delete_ne, get-delete_self}
use ddd_kit_ts.Base.JsString.{JsString, JsString-discrete}
use ddd_kit_ts.Outbox.{
  EventCommitCandidate, TrackedRecord, DispatchedEventReceipt, InMemoryOutbox, add_one, add_all,
  add, assert_batch, requeue, remember_dispatched, mark_dispatched, mark_dispatched_one,
  candidate_position,
}
use ddd_kit_ts.Outbox.Cases.{Effect, refreshed, requeued, written, add_one-Effect}
use ddd_kit_ts.Outbox.Receipts.{
  IsBounded, remember_dispatched-IsBounded, remember_dispatched_self, remember_dispatched_again,
}

module _ {P : Type 0} where
  -- A call that leaves the receipts alone keeps them within their bound.
  same_receipts :
      {s s' : InMemoryOutbox P}
      → IsBounded s
      → s'.dispatched_event_ids ≡ s.dispatched_event_ids
      → s'.max_retained_dispatched_event_ids ≡ s.max_retained_dispatched_event_ids
      → IsBounded s'
  same_receipts b e max = record {
    receipts_map = rw e b.receipts_map;
    retained = rw (e, max) b.retained;
    some_retained = rw max b.some_retained;
  }

  -- The event is delivered: there is a receipt of it, and no record.
  pub record Delivered (s : InMemoryOutbox P) (id : JsString) : Type 0 where
    pub bounded : IsBounded s
    pub receipt : DispatchedEventReceipt
    pub received : JsMap.get JsString-discrete id s.dispatched_event_ids ≡ some receipt
    pub not_pending : JsMap.get JsString-discrete id s.pending ≡ none
    pub not_dead : JsMap.get JsString-discrete id s.dead ≡ none

  -- An event without a receipt is another one.
  no-receipt-ne :
      (s : InMemoryOutbox P) (id j : JsString)
      → Delivered s id
      → JsMap.get JsString-discrete j s.dispatched_event_ids ≡ none
      → j ≢ id
  no-receipt-ne s id j d h e =
      let h' = subst (λ i. JsMap.get JsString-discrete i s.dispatched_event_ids ≡ none) e h in
      let r = d.received in cc

  Effect-Delivered :
      (s : InMemoryOutbox P) (c : EventCommitCandidate P) (s' : InMemoryOutbox P) (id : JsString)
      → Delivered s id
      → Effect s c s'
      → Delivered s' id
  unfolding requeue remember_dispatched
  Effect-Delivered s c s' id d (refreshed receipt h e) =
      subst (λ t. Delivered t id) e
        (record {
          bounded =
              remember_dispatched-IsBounded s c.event.event_id receipt.source receipt.position
                d.bounded;
          receipt = d.receipt;
          received =
              remember_dispatched_again s c.event.event_id id receipt d.bounded h ∙ d.received;
          not_pending = d.not_pending;
          not_dead = d.not_dead;
        })
  Effect-Delivered s c s' id d (requeued letter new h e) =
      let ne = no-receipt-ne s id c.event.event_id d new in
      subst (λ t. Delivered t id) e
        (record {
          bounded = same_receipts d.bounded refl refl;
          receipt = d.receipt;
          received = d.received;
          not_pending =
              get-set_ne JsString-discrete c.event.event_id id _ s.pending ne ∙ d.not_pending;
          not_dead = get-delete_ne JsString-discrete c.event.event_id id s.dead ne ∙ d.not_dead;
        })
  Effect-Delivered s c s' id d (written new h e) =
      let ne = no-receipt-ne s id c.event.event_id d new in
      subst (λ t. Delivered t id) e
        (record {
          bounded = same_receipts d.bounded refl refl;
          receipt = d.receipt;
          received = d.received;
          not_pending =
              get-set_ne JsString-discrete c.event.event_id id _ s.pending ne ∙ d.not_pending;
          not_dead = d.not_dead;
        })

  add_all-Delivered :
      (cs : List (EventCommitCandidate P)) (s : InMemoryOutbox P) (id : JsString)
      → Delivered s id
      → Delivered (add_all s cs).1 id
  unfolding add_all
  add_all-Delivered [] s id d = d
  add_all-Delivered (c ∷ cs) s id d = elim (Outcome-cases (add_one s c)) [
    | inl (s', e) ↦
        rw (e, add_all)
          (add_all-Delivered cs s' id (Effect-Delivered s c s' id d (add_one-Effect s c s' e)))
    | inr (x, e) ↦ rw (e, add_all) d
  ]

  -- A batch, accepted or not, keeps a delivered event delivered.
  add-Delivered :
      (s : InMemoryOutbox P) (cs : List (EventCommitCandidate P)) (id : JsString)
      → Delivered s id
      → Delivered (add s cs).1 id
  unfolding add
  add-Delivered s cs id d = elim (Outcome-cases (assert_batch s cs)) [
    | inl (x, e) ↦ rw (e, add) (add_all-Delivered cs s id d)
    | inr (x, e) ↦ rw (e, add) d
  ]

  -- Several calls of `add`.
  unfoldable pub add_batches :
      InMemoryOutbox P → List (List (EventCommitCandidate P)) → InMemoryOutbox P
  unfolding add
  add_batches s [] = s
  add_batches s (cs ∷ batches) = add_batches (add s cs).1 batches

  add_batches-Delivered :
      (batches : List (List (EventCommitCandidate P))) (s : InMemoryOutbox P) (id : JsString)
      → Delivered s id
      → Delivered (add_batches s batches) id
  unfolding add_batches
  add_batches-Delivered [] s id d = d
  add_batches-Delivered (cs ∷ batches) s id d =
      add_batches-Delivered batches (add s cs).1 id (add-Delivered s cs id d)

  mark_dispatched-Delivered :
      (s : InMemoryOutbox P) (id : JsString) (r : TrackedRecord P)
      → IsBounded s
      → IsMap JsString-discrete s.pending
      → IsMap JsString-discrete s.dead
      → JsMap.get JsString-discrete id s.pending ≡ some r
      → Delivered (mark_dispatched s (id ∷ [])) id
  unfolding mark_dispatched mark_dispatched_one
  mark_dispatched-Delivered s id r b pending dead h =
      let s' = remember_dispatched s id r.source (candidate_position r.position) in
      let b' = remember_dispatched-IsBounded s id r.source (candidate_position r.position) b in
      rw (h, mark_dispatched_one)
        (record {
          bounded = same_receipts b' refl refl;
          receipt = record { source = r.source; position = candidate_position r.position };
          received = remember_dispatched_self s id r.source (candidate_position r.position) b;
          not_pending = get-delete_self JsString-discrete id s.pending pending;
          not_dead = get-delete_self JsString-discrete id s.dead dead;
        })

  -- Once a pending event has been acknowledged, no later calls of `add`, whatever they add and
  -- whether or not they succeed, make it a pending record or a dead letter again, and its receipt
  -- stays.
  pub acknowledged_stays_delivered :
      (s : InMemoryOutbox P) (id : JsString) (r : TrackedRecord P)
      (batches : List (List (EventCommitCandidate P)))
      → IsBounded s
      → IsMap JsString-discrete s.pending
      → IsMap JsString-discrete s.dead
      → JsMap.get JsString-discrete id s.pending ≡ some r
      → let s' = add_batches (mark_dispatched s (id ∷ [])) batches in
        (JsMap.get JsString-discrete id s'.pending ≡ none)
        × (JsMap.get JsString-discrete id s'.dead ≡ none)
        × ((receipt : DispatchedEventReceipt) × (JsMap.get JsString-discrete id
                s'.dispatched_event_ids
              ≡ some receipt))
  acknowledged_stays_delivered s id r batches b pending dead h =
      let d =
        add_batches-Delivered batches (mark_dispatched s (id ∷ [])) id
          (mark_dispatched-Delivered s id r b pending dead h) in
      (d.not_pending, d.not_dead, (d.receipt, d.received))
