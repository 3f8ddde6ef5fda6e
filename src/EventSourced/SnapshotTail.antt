-- ===== src/EventSourced/SnapshotTail.antt =====
-- Replay from zero against snapshot plus tail.
use ddd_kit_ts.Base.{
  ℕ, true, ◌+◌, ◌≡◌, inl, inr, refl, sym, ap, ◌∙◌, some, List, [], ◌∷◌, ◌++◌, arith, length, ◌==◌,
  ok, bind_ok, Outcome-cases, ok-inj, get_or, length-append,
}
use ddd_kit_ts.Snapshots.{AggregateSnapshot}
use ddd_kit_ts.EventSourced.{
  AggregateClass, EventSourcedAggregate, DomainEvent, done, caught, load_from_history,
  resolve_snapshot_state, restored_state, restore_from_snapshot_with_events, create_snapshot,
}
use ddd_kit_ts.EventSourced.Effects.{
  IsClean, IsReplayable, loaded, load-folded, load-refused, load_empty, not-caught, restore-folded,
}
use ddd_kit_ts.EventSourced.Replay.{fold, fold-append}

module _ {S N P D X : Type 0} (c : AggregateClass S N P D X) where
  -- What a load that succeeds has done.
  pub load-loaded :
      (a a' : EventSourcedAggregate S P) (es : List (DomainEvent P))
      → IsReplayable a
      → load_from_history c a es ≡ (ok done, a')
      → (fold c a.id a.state es ≡ ok a'.state) × (a'.version ≡ a.version + length es)
  unfolding fold
  load-loaded a a' [] h l =
      let same : a ≡ a' = ap (λ r. r.1) (sym (load_empty c a h) ∙ l) in
      rw (← same) (refl, omega arith)
  load-loaded a a' (e ∷ es) h l = elim (Outcome-cases (fold c a.id a.state (e ∷ es))) [
    | inl (s, f) ↦
        let same : loaded a s (a.version + length (e ∷ es)) ≡ a' =
          ap (λ r. r.1) (sym (load-folded c a e es s h f) ∙ l) in
        rw (← same) (f, refl)
    | inr (x, f) ↦
        let refused : ok done ≡ caught c x =
          ap (λ r. r.0) (sym l) ∙ load-refused c a (e ∷ es) x h f in
        absurd (not-caught c x refused)
  ]

  -- A snapshot of the current schema gives back the state that it was taken of, if the conversions
  -- are inverse on it and the structural check passes.
  pub restored-snapshot :
      (a : EventSourcedAggregate S P) (snapshot : AggregateSnapshot N) (now : ℕ)
      → create_snapshot c a now ≡ ok snapshot
      → c.from_snapshot_state snapshot.state ≡ ok a.state
      → c.validate_restored_state a.state ≡ ok tt
      → (restored_state c snapshot ≡ ok a.state) × (snapshot.version ≡ a.version)
  unfolding create_snapshot restored_state resolve_snapshot_state
  restored-snapshot a snapshot now h inverse checked =
      let (n, converted, built) =
        bind_ok (c.to_snapshot_state a.state)
          (λ state. ok (record {
            state = state;
            version = a.version;
            snapshot_at = now;
            schema_version = some c.snapshot_schema_version;
          }))
          snapshot h in
      let taken : record {
        state = n;
        version = a.version;
        snapshot_at = now;
        schema_version = some c.snapshot_schema_version;
      }
          ≡ snapshot =
        ok-inj _ snapshot built in
      let schema : snapshot.schema_version ≡ some c.snapshot_schema_version =
        ap (λ x. x.schema_version) (sym taken) in
      let current : (get_or snapshot.schema_version 1 == c.snapshot_schema_version) ≡ true =
        rw schema (ground arith) in
      let resolved : resolve_snapshot_state c snapshot ≡ ok snapshot.state =
        rw (current, resolve_snapshot_state) refl in
      (rw (resolved, inverse, checked, restored_state) refl, ap (λ x. x.version) (sym taken))

  -- Replaying a whole history equals replaying its first part, taking a snapshot, and restoring the
  -- snapshot with the rest: the restored aggregate has the state and the version of the replayed
  -- one, and counts as persisted at it.
  pub snapshot_plus_tail :
      (a first whole b : EventSourcedAggregate S P) (xs ys : List (DomainEvent P))
      (snapshot : AggregateSnapshot N) (now : ℕ)
      → IsReplayable a
      → load_from_history c a xs ≡ (ok done, first)
      → create_snapshot c first now ≡ ok snapshot
      → c.from_snapshot_state snapshot.state ≡ ok first.state
      → c.validate_restored_state first.state ≡ ok tt
      → IsClean b
      → b.id ≡ a.id
      → load_from_history c a (xs ++ ys) ≡ (ok done, whole)
      → restore_from_snapshot_with_events c b snapshot ys
        ≡ (ok done, loaded b whole.state whole.version)
  snapshot_plus_tail a first whole b xs ys snapshot now h l1 taken inverse checked clean same_id
        l2 =
      let (f1, v1) = load-loaded a first xs h l1 in
      let (f2, v2) = load-loaded a whole (xs ++ ys) h l2 in
      let (r, v) = restored-snapshot first snapshot now taken inverse checked in
      let f : fold c b.id first.state ys ≡ ok whole.state =
        rw same_id (sym (fold-append c a.id a.state first.state xs ys f1) ∙ f2) in
      let versions : snapshot.version + length ys ≡ whole.version =
        omega (arith, v, v1, v2, length-append xs ys) in
      restore-folded c b snapshot ys first.state whole.state clean r f
      ∙ ap (λ n. (ok done, loaded b whole.state n)) versions
