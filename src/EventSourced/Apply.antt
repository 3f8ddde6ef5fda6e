-- ===== src/EventSourced/Apply.antt =====
-- What applying one new event does.
use ddd_kit_ts.Base.{
  ◌+◌, ◌≡◌, ◌≢◌, ◌⊎◌, inl, inr, refl, ap, ◌∙◌, Option, none, some, true, false, [], ◌∷◌, ◌++◌,
  arith, ok, throws, Bool-cases, Outcome-cases,
}
use ddd_kit_ts.Base.JsString.{JsString, str_eq_iff}
use ddd_kit_ts.EventSourced.{
  AggregateClass, EventSourcedAggregate, DomainEvent, Thrown, stamped, present_but_other,
  is_foreign, assert_minted_event, stamp_new_event_address, handle, dispatch, add_domain_event,
  bumped, recorded, apply_stamped, apply,
}
use ddd_kit_ts.EventSourced.Replay.{names_other, dispatch-handled, dispatch-thrown}

module _ {S N P D X : Type 0} (c : AggregateClass S N P D X) where
  -- What one event that was applied has done: the event recorded, with the aggregate's address.
  pub record Applied (a a' : EventSourcedAggregate S P) (e' : DomainEvent P) : Type 0 where
    pub own : names_other c a.id e' ≡ false
    pub is_minted : e'.minted ≡ true
    pub handled : handle c a.state e' ≡ ok a'.state
    pub changed : a' ≡ record a {
      state = a'.state;
      version = a.version + 1;
      pending_events = a.pending_events ++ e' ∷ [];
    }

  stamped-own :
      (own_id : JsString) (i t : Option JsString) (e : DomainEvent P)
      → e.aggregate_id ≡ i
      → e.aggregate_type ≡ t
      → e.minted ≡ true
      → names_other c own_id e ≡ false
      → (names_other c own_id (stamped own_id c.aggregate_type i t e) ≡ false)
        × ((stamped own_id c.aggregate_type i t e).minted ≡ true)
  unfolding stamped present_but_other
  stamped-own own_id (some i) (some t) e hi ht m own = (own, m)
  stamped-own own_id none t e hi ht m own =
      (ground (arith, str_eq_iff own_id own_id, str_eq_iff c.aggregate_type c.aggregate_type), refl)
  stamped-own own_id (some i) none e hi ht m own =
      (ground (arith, str_eq_iff own_id own_id, str_eq_iff c.aggregate_type c.aggregate_type), refl)

  -- The stamp of an event, if there is one, is minted and names no other aggregate.
  stamp_ok :
      (a : EventSourcedAggregate S P) (e e' : DomainEvent P)
      → stamp_new_event_address c a e ≡ ok e'
      → (names_other c a.id e' ≡ false) × (e'.minted ≡ true)
  unfolding stamp_new_event_address assert_minted_event is_foreign
  stamp_ok a e e' h = elim (Bool-cases e.minted) [
    | inr raw ↦ absurd (ground arith)
    | inl minted ↦ elim (Bool-cases (names_other c a.id e)) [
      | inl foreign ↦ absurd (ground arith)
      | inr own ↦
          let same : stamped a.id c.aggregate_type e.aggregate_id e.aggregate_type e ≡ e' =
            ground arith in
          rw (← same) (stamped-own a.id e.aggregate_id e.aggregate_type e refl refl minted own)
    ]
  ]

  minted_passes : (e : DomainEvent P) → e.minted ≡ true → assert_minted_event c e ≡ ok tt
  unfolding assert_minted_event
  minted_passes e h = rw (h, assert_minted_event) refl

  add_domain_event-minted :
      (a : EventSourcedAggregate S P) (e : DomainEvent P)
      → e.minted ≡ true
      → add_domain_event c a e ≡ (ok tt, record a { pending_events = a.pending_events ++ e ∷ [] })
  unfolding add_domain_event
  add_domain_event-minted a e h = rw (minted_passes e h, add_domain_event) refl

  apply_stamped-handled :
      (a : EventSourcedAggregate S P) (e : DomainEvent P) (next : S)
      → e.minted ≡ true
      → handle c a.state e ≡ ok next
      → apply_stamped c a e ≡ (
        ok tt,
        record a {
          state = next;
          version = a.version + 1;
          pending_events = a.pending_events ++ e ∷ [];
        },
      )
  unfolding apply_stamped recorded bumped
  apply_stamped-handled a e next m h =
      let b : EventSourcedAggregate S P = record a { state = next } in
      let d : dispatch c a e ≡ (ok tt, b) = dispatch-handled c a e next h in
      let added : add_domain_event c b e
          ≡ (ok tt, record b { pending_events = b.pending_events ++ e ∷ [] }) =
        add_domain_event-minted b e m in
      ap (λ r. recorded c r e) d ∙ ap (bumped c) added

  -- An event that its handler refuses is not recorded.
  apply_stamped-thrown :
      (a : EventSourcedAggregate S P) (e : DomainEvent P) (x : Thrown D X)
      → handle c a.state e ≡ throws x
      → apply_stamped c a e ≡ (throws x, a)
  unfolding apply_stamped recorded bumped
  apply_stamped-thrown a e x h = ap (λ r. recorded c r e) (dispatch-thrown c a e x h)

  -- An event is applied exactly as far as stamp, validation and handler allow: it is refused and
  -- the aggregate stays as it was, or it is recorded.
  pub apply-cases :
      (a : EventSourcedAggregate S P) (e : DomainEvent P)
      → ((x : Thrown D X) × (apply c a e ≡ (throws x, a)))
        ⊎ ((a' : EventSourcedAggregate S P) × (e' : DomainEvent P) × (apply c a e ≡ (ok tt, a'))
            × Applied a a' e')
  unfolding apply
  apply-cases a e = elim (Outcome-cases (stamp_new_event_address c a e)) [
    | inr (x, refused) ↦ inl (x, rw (refused, apply) refl)
    | inl (e', stamp) ↦ elim (Outcome-cases (c.validate_event a.state e')) [
      | inr (x, invalid) ↦ inl (x, rw (stamp, invalid, apply) refl)
      | inl (u, valid) ↦
          let (own, m) = stamp_ok a e e' stamp in
          let run : apply c a e ≡ apply_stamped c a e' = rw (stamp, valid, apply) refl in
          elim (Outcome-cases (handle c a.state e')) [
            | inr (x, thrown) ↦ inl (x, run ∙ apply_stamped-thrown a e' x thrown)
            | inl (next, h) ↦ inr (
              record a {
                state = next;
                version = a.version + 1;
                pending_events = a.pending_events ++ e' ∷ [];
              },
              e',
              run ∙ apply_stamped-handled a e' next m h,
              record { own = own; is_minted = m; handled = h; changed = refl },
            )
          ]
    ]
  ]

  -- An event that is refused leaves state, version and pending events as they were.
  pub apply_atomic :
      (a : EventSourcedAggregate S P) (e : DomainEvent P)
      → (apply c a e).0 ≢ ok tt
      → (apply c a e).1 ≡ a
  apply_atomic a e h = elim (apply-cases a e) [
    | inl (x, refused) ↦ ap (λ r. r.1) refused
    | inr (a', e', applied, v) ↦ absurd (h (ap (λ r. r.0) applied))
  ]
