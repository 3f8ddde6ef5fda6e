-- ===== src/EventSourced/Atomic.antt =====
-- The two outcomes of loading and of restoring: the rollback, and the new state.
use ddd_kit_ts.Base.{ℕ, ◌≡◌, ◌≢◌, inl, inr, refl, ap, ◌∙◌, List, [], ◌∷◌, ok, Outcome-cases}
use ddd_kit_ts.Snapshots.{AggregateSnapshot}
use ddd_kit_ts.EventSourced.{
  AggregateClass, EventSourcedAggregate, DomainEvent, done, replay, assert_no_pending_events,
  assert_no_unpersisted_version, load_checked, load_from_history, restored_state, restore_tail,
  restore_from_snapshot_with_events,
}
use ddd_kit_ts.EventSourced.Replay.{replay-frame}

module _ {S N P D X : Type 0} (c : AggregateClass S N P D X) where
  load_checked-undo :
      (a : EventSourcedAggregate S P) (es : List (DomainEvent P))
      → (load_checked c a es).0 ≢ ok done
      → (load_checked c a es).1 ≡ a
  unfolding load_checked
  load_checked-undo a [] h = refl
  load_checked-undo a (e ∷ es) h = elim (Outcome-cases (replay c a (e ∷ es)).0) [
    | inl (u, replayed) ↦ absurd (h (rw (replayed, load_checked) refl))
    | inr (x, thrown) ↦ rw (thrown, load_checked) (replay-frame c a (e ∷ es))
  ]

  -- A load that does not succeed, because the aggregate is no target for a replay or because an
  -- event of the history is foreign, has no handler or is refused by it, leaves the aggregate as it
  -- was, however many events had been replayed.
  pub load_atomic :
      (a : EventSourcedAggregate S P) (es : List (DomainEvent P))
      → (load_from_history c a es).0 ≢ ok done
      → (load_from_history c a es).1 ≡ a
  unfolding load_from_history
  load_atomic a es h = elim (Outcome-cases (assert_no_pending_events c a)) [
    | inr (x, pending) ↦ rw (pending, load_from_history) refl
    | inl (u, clean) ↦ elim (Outcome-cases (assert_no_unpersisted_version c a)) [
      | inr (x, unpersisted) ↦ rw (clean, unpersisted, load_from_history) refl
      | inl (w, persisted) ↦
          let run : load_from_history c a es ≡ load_checked c a es =
            rw (clean, persisted, load_from_history) refl in
          ap (λ r. r.1) run ∙ load_checked-undo a es (λ e. h (ap (λ r. r.0) run ∙ e))
    ]
  ]

  restore_tail-undo :
      (a : EventSourcedAggregate S P) (version : ℕ) (restored : S) (es : List (DomainEvent P))
      → (restore_tail c a version restored es).0 ≢ ok done
      → (restore_tail c a version restored es).1 ≡ a
  unfolding restore_tail
  restore_tail-undo a version restored es h =
      let b : EventSourcedAggregate S P = record a { state = restored; version = version } in
      elim (Outcome-cases (replay c b es).0) [
        | inl (u, replayed) ↦ absurd (h (rw (replayed, restore_tail) refl))
        | inr (x, thrown) ↦
            let back : EventSourcedAggregate S P → EventSourcedAggregate S P =
              λ y. record y { state = a.state; version = a.version } in
            rw (thrown, restore_tail) (ap back (replay-frame c b es))
      ]

  -- A restore that does not succeed, because the snapshot is refused or an event after it is,
  -- leaves the aggregate as it was.
  pub restore_atomic :
      (a : EventSourcedAggregate S P) (snapshot : AggregateSnapshot N) (es : List (DomainEvent P))
      → (restore_from_snapshot_with_events c a snapshot es).0 ≢ ok done
      → (restore_from_snapshot_with_events c a snapshot es).1 ≡ a
  unfolding restore_from_snapshot_with_events
  restore_atomic a snapshot es h = elim (Outcome-cases (assert_no_pending_events c a)) [
    | inr (x, pending) ↦ rw (pending, restore_from_snapshot_with_events) refl
    | inl (u, clean) ↦ elim (Outcome-cases (restored_state c snapshot)) [
      | inr (x, refused) ↦ rw (clean, refused, restore_from_snapshot_with_events) refl
      | inl (r, restored) ↦
          let run : restore_from_snapshot_with_events c a snapshot es
              ≡ restore_tail c a snapshot.version r es =
            rw (clean, restored, restore_from_snapshot_with_events) refl in
          ap (λ q. q.1) run
          ∙ restore_tail-undo a snapshot.version r es (λ e. h (ap (λ q. q.0) run ∙ e))
    ]
  ]
