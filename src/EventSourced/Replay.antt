-- ===== src/EventSourced/Replay.antt =====
-- What the replay loop does to an aggregate: it folds the handlers over the state, and touches
-- nothing else.
use ddd_kit_ts.Base.{
  ◌≡◌, ◌⊎◌, inl, inr, refl, ap, Bool, true, false, List, [], ◌∷◌, ◌++◌, arith, Outcome, ok, throws,
  Bool-cases, Outcome-cases, ok-inj, ◌||◌,
}
use ddd_kit_ts.Base.JsString.{JsString}
use ddd_kit_ts.EventSourced.{
  present_but_other, AggregateClass, EventSourcedAggregate, DomainEvent, Thrown, foreign_event,
  is_foreign, assert_replayed_event_belongs_here, handle, dispatch, replay,
}

module _ {S N P D X : Type 0} (c : AggregateClass S N P D X) where
  -- The event names another aggregate.
  abbrev pub names_other : JsString → DomainEvent P → Bool
  names_other own_id e =
      present_but_other e.aggregate_id own_id || present_but_other e.aggregate_type c.aggregate_type

  -- The state that the handlers give for a history, from the left, up to the first that throws.
  unfoldable pub fold : JsString → S → List (DomainEvent P) → Outcome (Thrown D X) S
  fold own_id state [] = ok state
  fold own_id state (e ∷ es) = elim (names_other own_id e) [
    | true ↦ throws (foreign_event own_id e.event_type)
    | false ↦ elim (handle c state e) [ throws x ↦ throws x | ok next ↦ fold own_id next es ]
  ]

  pub dispatch-handled :
      (a : EventSourcedAggregate S P) (e : DomainEvent P) (next : S)
      → handle c a.state e ≡ ok next
      → dispatch c a e ≡ (ok tt, record a { state = next })
  unfolding dispatch
  dispatch-handled a e next h = rw (h, dispatch) refl

  pub dispatch-thrown :
      (a : EventSourcedAggregate S P) (e : DomainEvent P) (x : Thrown D X)
      → handle c a.state e ≡ throws x
      → dispatch c a e ≡ (throws x, a)
  unfolding dispatch
  dispatch-thrown a e x h = rw (h, dispatch) refl

  replay-step :
      (a : EventSourcedAggregate S P) (e : DomainEvent P) (es : List (DomainEvent P)) (next : S)
      → names_other a.id e ≡ false
      → handle c a.state e ≡ ok next
      → replay c a (e ∷ es) ≡ replay c (record a { state = next }) es
  unfolding replay assert_replayed_event_belongs_here is_foreign
  replay-step a e es next own h =
      rw (own, dispatch-handled a e next h, replay)
        (ap (λ r. replay c r.1 es) (dispatch-handled a e next h))

  -- The loop folds the handlers: it throws what the fold throws, or ends with the fold's state, and
  -- changes no other part of the aggregate.
  pub replay-fold :
      (a : EventSourcedAggregate S P) (es : List (DomainEvent P))
      → ((x : Thrown D X) × (fold a.id a.state es ≡ throws x) × ((replay c a es).0 ≡ throws x))
        ⊎ ((s : S) × (fold a.id a.state es ≡ ok s)
            × (replay c a es ≡ (ok tt, record a { state = s })))
  unfolding replay fold assert_replayed_event_belongs_here dispatch is_foreign
  replay-fold a [] = inr (a.state, refl, refl)
  replay-fold a (e ∷ es) = elim (Bool-cases (names_other a.id e)) [
    | inl foreign ↦
        inl (foreign_event a.id e.event_type, rw (foreign, fold) refl, rw (foreign, replay) refl)
    | inr own ↦ elim (Outcome-cases (handle c a.state e)) [
      | inr (x, thrown) ↦ inl (x, rw (own, thrown, fold) refl, rw (own, thrown, replay) refl)
      | inl (next, handled) ↦ elim (replay-fold (record a { state = next }) es) [
        | inl (x, f, r) ↦
            inl (x, rw (own, handled, fold) f, rw (replay-step a e es next own handled) r)
        | inr (s, f, r) ↦
            inr (s, rw (own, handled, fold) f, rw (replay-step a e es next own handled) r)
      ]
    ]
  ]

  -- Whatever happens the loop changes nothing but the state.
  pub replay-frame :
      (a : EventSourcedAggregate S P) (es : List (DomainEvent P))
      → record (replay c a es).1 { state = a.state } ≡ a
  unfolding replay assert_replayed_event_belongs_here dispatch is_foreign
  replay-frame a [] = refl
  replay-frame a (e ∷ es) = elim (Bool-cases (names_other a.id e)) [
    | inl foreign ↦ rw (foreign, replay) refl
    | inr own ↦ elim (Outcome-cases (handle c a.state e)) [
      | inr (x, thrown) ↦
          let back : Outcome (Thrown D X) (Unit {0}) × EventSourcedAggregate S P
              → EventSourcedAggregate S P =
            λ r. record r.1 { state = a.state } in
          rw (own, thrown, replay) (ap back (dispatch-thrown a e x thrown))
      | inl (next, handled) ↦
          let b : EventSourcedAggregate S P = record a { state = next } in
          let r : record (replay c b es).1 { state = next } ≡ b = replay-frame b es in
          let back : EventSourcedAggregate S P → EventSourcedAggregate S P =
            λ y. record y { state = a.state } in
          rw (replay-step a e es next own handled) (ap back r)
    ]
  ]

  -- A fold over two histories, one after the other.
  pub fold-append :
      (own_id : JsString) (state next : S) (xs ys : List (DomainEvent P))
      → fold own_id state xs ≡ ok next
      → fold own_id state (xs ++ ys) ≡ fold own_id next ys
  unfolding fold
  fold-append own_id state next [] ys h = ap (λ s. fold own_id s ys) (ok-inj state next h)
  fold-append own_id state next (e ∷ xs) ys h = elim (Bool-cases (names_other own_id e)) [
    | inl foreign ↦ absurd (ground arith)
    | inr own ↦ elim (Outcome-cases (handle c state e)) [
      | inr (x, thrown) ↦ absurd (ground arith)
      | inl (s1, handled) ↦
          let h' : fold own_id s1 xs ≡ ok next = ground arith in
          rw (own, handled, fold) (fold-append own_id s1 next xs ys h')
    ]
  ]
