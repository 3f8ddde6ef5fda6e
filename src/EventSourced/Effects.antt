-- ===== src/EventSourced/Effects.antt =====
-- What loading a history and restoring a snapshot give, in terms of the fold over the events.
use mathlib.Core.Path.{subst}
use ddd_kit_ts.Base.{
  ℕ, ◌+◌, ◌≡◌, ◌≢◌, ◌⊎◌, inl, inr, refl, sym, ap, ◌∙◌, some, List, [], ◌∷◌, arith, length, Outcome,
  ok, throws, Option-cases, ok-inj, throws-inj,
}
use ddd_kit_ts.Snapshots.{AggregateSnapshot}
use ddd_kit_ts.EventSourced.{
  domain_error, snapshot_corrupted, schema_mismatch, unminted, misaddressed, foreign_event,
  missing_handler, unreplayable, other, AggregateClass, EventSourcedAggregate, DomainEvent, Thrown,
  Returned, done, mark_restored, replay, caught, assert_no_pending_events,
  assert_no_unpersisted_version, load_checked, load_from_history, restored_state, restore_tail,
  restore_from_snapshot_with_events,
}
use ddd_kit_ts.EventSourced.Replay.{fold, replay-fold}

module _ {S P : Type 0} where
  -- The aggregate once events have been replayed on it.
  abbrev pub loaded : EventSourcedAggregate S P → S → ℕ → EventSourcedAggregate S P
  loaded a s version = record a { state = s; version = version; persisted_version = some version }

  -- No unflushed events.
  abbrev pub IsClean : EventSourcedAggregate S P → Type 0
  IsClean a = a.pending_events ≡ []

  -- Nothing that was never saved: the version is zero or the aggregate has been persisted.
  abbrev pub IsReplayable : EventSourcedAggregate S P → Type 0
  IsReplayable a = IsClean a × ((a.version ≡ 0) ⊎ (v : ℕ) × (a.persisted_version ≡ some v))

module _ {S N P D X : Type 0} (c : AggregateClass S N P D X) where
  clean_passes : (a : EventSourcedAggregate S P) → IsClean a → assert_no_pending_events c a ≡ ok tt
  unfolding assert_no_pending_events
  clean_passes a h = rw h refl

  replayable_passes :
      (a : EventSourcedAggregate S P) → IsReplayable a → assert_no_unpersisted_version c a ≡ ok tt
  unfolding assert_no_unpersisted_version
  replayable_passes a (h, inl zero_version) = elim (Option-cases a.persisted_version) [
    | inl none_yet ↦ rw (none_yet, zero_version, assert_no_unpersisted_version) refl
    | inr (v, persisted) ↦ rw (persisted, assert_no_unpersisted_version) refl
  ]
  replayable_passes a (h, inr (v, persisted)) = rw (persisted, assert_no_unpersisted_version) refl

  load_runs :
      (a : EventSourcedAggregate S P) (es : List (DomainEvent P))
      → IsReplayable a
      → load_from_history c a es ≡ load_checked c a es
  unfolding load_from_history
  load_runs a es h = rw (clean_passes a h.0, replayable_passes a h, load_from_history) refl

  -- A history that folds is loaded; the version counts its events.
  pub load-folded :
      (a : EventSourcedAggregate S P) (e : DomainEvent P) (es : List (DomainEvent P)) (s : S)
      → IsReplayable a
      → fold c a.id a.state (e ∷ es) ≡ ok s
      → load_from_history c a (e ∷ es) ≡ (ok done, loaded a s (a.version + length (e ∷ es)))
  unfolding load_checked
  load-folded a e es s h f = load_runs a (e ∷ es) h ∙ elim (replay-fold c a (e ∷ es)) [
    | inl (x, f', r) ↦ absurd (ground arith)
    | inr (s', f', r) ↦
        let r' : replay c a (e ∷ es) ≡ (ok tt, record a { state = s }) =
          subst (λ z. replay c a (e ∷ es) ≡ (ok tt, record a { state = z }))
            (ok-inj s' s (sym f' ∙ f)) r in
        let finish : Outcome (Thrown D X) (Unit {0}) × EventSourcedAggregate S P
            → Outcome (Thrown D X) (Returned D X) × EventSourcedAggregate S P =
          λ q. (ok done, mark_restored c (a.version + length (e ∷ es)) q.1) in
        rw (r', load_checked) (ap finish r')
  ]

  -- An empty history changes nothing, the persisted version included.
  pub load_empty :
      (a : EventSourcedAggregate S P) → IsReplayable a → load_from_history c a [] ≡ (ok done, a)
  unfolding load_checked
  load_empty a h = load_runs a [] h

  -- Nothing that is caught counts as success.
  pub not-caught : (x : Thrown D X) → ok done ≢ caught c x
  unfolding caught
  not-caught (domain_error d) h = ground arith
  not-caught (snapshot_corrupted d) h = ground arith
  not-caught (schema_mismatch m n) h = ground arith
  not-caught (unminted t) h = ground arith
  not-caught (misaddressed i t) h = ground arith
  not-caught (foreign_event i t) h = ground arith
  not-caught (missing_handler t) h = ground arith
  not-caught (unreplayable i) h = ground arith
  not-caught (other x) h = ground arith

  -- A history that does not is refused with what its fold throws.
  pub load-refused :
      (a : EventSourcedAggregate S P) (es : List (DomainEvent P)) (x : Thrown D X)
      → IsReplayable a
      → fold c a.id a.state es ≡ throws x
      → (load_from_history c a es).0 ≡ caught c x
  unfolding load_checked fold
  load-refused a [] x h f = absurd (ground arith)
  load-refused a (e ∷ es) x h f =
      ap (λ r. r.0) (load_runs a (e ∷ es) h) ∙ elim (replay-fold c a (e ∷ es)) [
        | inl (y, f', r) ↦
            let same : y ≡ x = throws-inj y x (sym f' ∙ f) in rw (r, load_checked, same) refl
        | inr (s', f', r) ↦ absurd (ground arith)
      ]

  restore_runs :
      (a : EventSourcedAggregate S P) (snapshot : AggregateSnapshot N) (es : List (DomainEvent P))
      (s : S)
      → IsClean a
      → restored_state c snapshot ≡ ok s
      → restore_from_snapshot_with_events c a snapshot es ≡ restore_tail c a snapshot.version s es
  unfolding restore_from_snapshot_with_events
  restore_runs a snapshot es s h r =
      rw (clean_passes a h, r, restore_from_snapshot_with_events) refl

  -- A snapshot that is accepted and events that fold from its state are restored.
  pub restore-folded :
      (a : EventSourcedAggregate S P) (snapshot : AggregateSnapshot N) (es : List (DomainEvent P))
      (s s' : S)
      → IsClean a
      → restored_state c snapshot ≡ ok s
      → fold c a.id s es ≡ ok s'
      → restore_from_snapshot_with_events c a snapshot es
        ≡ (ok done, loaded a s' (snapshot.version + length es))
  unfolding restore_tail
  restore-folded a snapshot es s s' h r f =
      restore_runs a snapshot es s h r
      ∙ elim (replay-fold c (record a { state = s; version = snapshot.version }) es) [
        | inl (x, f', q) ↦ absurd (ground arith)
        | inr (s1, f', q) ↦
            let b : EventSourcedAggregate S P = record a {
              state = s;
              version = snapshot.version;
            } in
            let q' : replay c b es ≡ (ok tt, record b { state = s' }) =
              subst (λ z. replay c b es ≡ (ok tt, record b { state = z }))
                (ok-inj s1 s' (sym f' ∙ f)) q in
            let finish : Outcome (Thrown D X) (Unit {0}) × EventSourcedAggregate S P
                → Outcome (Thrown D X) (Returned D X) × EventSourcedAggregate S P =
              λ t. (ok done, mark_restored c (snapshot.version + length es) t.1) in
            rw (q', restore_tail) (ap finish q')
      ]

  -- Events that do not fold are refused with what their fold throws.
  pub restore-refused :
      (a : EventSourcedAggregate S P) (snapshot : AggregateSnapshot N) (es : List (DomainEvent P))
      (s : S) (x : Thrown D X)
      → IsClean a
      → restored_state c snapshot ≡ ok s
      → fold c a.id s es ≡ throws x
      → (restore_from_snapshot_with_events c a snapshot es).0 ≡ caught c x
  unfolding restore_tail
  restore-refused a snapshot es s x h r f =
      ap (λ q. q.0) (restore_runs a snapshot es s h r)
      ∙ elim (replay-fold c (record a { state = s; version = snapshot.version }) es) [
        | inl (y, f', q) ↦
            let same : y ≡ x = throws-inj y x (sym f' ∙ f) in rw (q, restore_tail, same) refl
        | inr (s', f', q) ↦ absurd (ground arith)
      ]
