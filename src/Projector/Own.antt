-- ===== src/Projector/Own.antt =====
-- The guards on a record whose address has the record's own checkpoint.
use ddd_kit_ts.Base.{
  ℕ, ◌≡◌, inl, inr, refl, ap, ◌∙◌, true, false, not, Option, none, some, [], ◌∷◌, arith, ok,
  Option-cases,
}
use ddd_kit_ts.Base.JsString.{JsString, str_eq, str_eq_iff}
use ddd_kit_ts.AggregateAddress.{AggregateAddress}
use ddd_kit_ts.Checkpoints.{CommitPosition, ProjectionCheckpoint, is_position_after}
use ddd_kit_ts.Projector.{
  CommittedDomainEvent, Cursored, Plan, Started, watermark_of, watermark_at, key_of,
  is_valid_position, is_valid_checkpoint, is_same_ordered_position, is_same_position_receipt,
  same_previous, is_processed, cursor_of, cursor_all, load_all, stored_in, same_receipt,
  check_stored_one, check_stored, check_batch, check_order, watermarks_of, plan_from, plan_one,
  plan_all, plan_batch, skip,
}
use ddd_kit_ts.Projector.Valid.{cursor_of-valid}

not_after_self : (p : CommitPosition) → is_position_after p p ≡ false
unfolding is_position_after
not_after_self p = ground arith

same_receipt_self : (p : CommitPosition) → is_same_position_receipt p p ≡ true
unfolding is_same_position_receipt is_same_ordered_position same_previous
same_receipt_self p =
    self p.aggregate_version p.commit_sequence p.commit_size p.previous_eventful_aggregate_version
  where
    self :
        (v s z : ℕ) (o : Option ℕ)
        → is_same_position_receipt
            (record {
              aggregate_version = v;
              commit_sequence = s;
              commit_size = z;
              previous_eventful_aggregate_version = o;
            })
            (record {
              aggregate_version = v;
              commit_sequence = s;
              commit_size = z;
              previous_eventful_aggregate_version = o;
            })
          ≡ true
    self v s z none = ground arith
    self v s z (some n) = ground arith

same_ordered_self : (p : CommitPosition) → is_same_ordered_position p p ≡ true
unfolding is_same_ordered_position
same_ordered_self p = ground arith

str_eq_self : (s : JsString) → str_eq s s ≡ true
str_eq_self s = ground (arith, str_eq_iff s s)

module _ {P : Type 0} where
  -- The checkpoint that applying the event leaves.
  abbrev pub checkpoint_of : Cursored P → ProjectionCheckpoint
  checkpoint_of x = record { position = x.position; last_applied_event_id = x.event_id }

  cursor_of-id :
      (c : CommittedDomainEvent P) (x : Cursored P)
      → cursor_of c ≡ ok x
      → str_eq x.event_id [] ≡ false
  unfolding cursor_of
  cursor_of-id c x h = elim (Option-cases c.event.event_id) [
    | inl missing ↦ absurd (ground arith)
    | inr (id, there) ↦ elim (Option-cases c.position) [
      | inl nowhere ↦ absurd (ground arith)
      | inr (p, at) ↦ elim (Option-cases c.source) [
        | inl sourceless ↦ absurd (ground arith)
        | inr (a, from) ↦ ground arith
      ]
    ]
  ]

  own_checkpoint_valid :
      (c : CommittedDomainEvent P) (x : Cursored P)
      → cursor_of c ≡ ok x
      → is_valid_checkpoint (checkpoint_of x) ≡ true
  unfolding is_valid_checkpoint
  own_checkpoint_valid c x h =
      let a : is_valid_position x.position ≡ true = cursor_of-valid c x h in
      let b : str_eq x.event_id [] ≡ false = cursor_of-id c x h in ground (arith, a, b)

  -- What a batch starts from once the one event has been applied.
  abbrev Own : Cursored P → Started → Type 0
  Own x started = stored_in started (key_of x) ≡ some (checkpoint_of x)

  check_receipt : (x : Cursored P) → same_receipt x.event_id x.position x ≡ ok tt
  unfolding same_receipt
  check_receipt x = rw (str_eq_self x.event_id, same_receipt_self x.position, same_receipt) refl

  check_one :
      (x : Cursored P) (started : Started) → Own x started → check_stored_one started x ≡ ok tt
  unfolding check_stored_one
  check_one x started own =
      rw (own, check_receipt x, same_ordered_self x.position, check_stored_one) refl

  check-Own :
      (x : Cursored P) (started : Started) → Own x started → check_stored started (x ∷ []) ≡ ok tt
  unfolding check_stored
  check-Own x started own = rw (check_one x started own, check_stored) refl

  processed_own : (x : Cursored P) → is_processed (some x.position) x.position ≡ true
  unfolding is_processed
  processed_own x = ap not (not_after_self x.position)

  order-Own :
      (x : Cursored P) (started : Started)
      → Own x started
      → check_order started [] [] (x ∷ []) ≡ ok tt
  unfolding check_order
  order-Own x started own =
      let old : is_processed (watermark_of (stored_in started (key_of x))) x.position ≡ true =
        ap (λ s. is_processed (watermark_of s) x.position) own ∙ processed_own x in
      rw (old, check_order) refl

  batch_one : (x : Cursored P) → check_batch [] (x ∷ []) ≡ ok tt
  unfolding check_batch
  batch_one x = refl

  plan_own :
      (x : Cursored P) (plan : Plan P)
      → watermark_at plan (key_of x) ≡ some x.position
      → plan_all plan (x ∷ []) ≡ ok (skip plan)
  unfolding plan_all plan_one
  plan_own x plan mark =
      let old : is_processed (watermark_at plan (key_of x)) x.position ≡ true =
        ap (λ w. is_processed w x.position) mark ∙ processed_own x in
      let one : plan_one plan x ≡ ok (skip plan) = rw (old, plan_one) refl in
      rw (one, plan_all) refl

  load_one :
      (load : AggregateAddress → Option ProjectionCheckpoint) (c : CommittedDomainEvent P)
      (x : Cursored P)
      → cursor_of c ≡ ok x
      → load x.address ≡ some (checkpoint_of x)
      → load_all load [] (x ∷ []) ≡ ok ((key_of x, some (checkpoint_of x)) ∷ [])
  unfolding load_all
  load_one load c x h there = rw (there, own_checkpoint_valid c x h, load_all) refl

  Own-started : (x : Cursored P) → Own x ((key_of x, some (checkpoint_of x)) ∷ [])
  unfolding stored_in
  Own-started x = ground arith

  own_mark :
      (x : Cursored P)
      → watermark_at (plan_from {P = P} ((key_of x, some (checkpoint_of x)) ∷ [])) (key_of x)
        ≡ some x.position
  unfolding plan_from watermarks_of
  own_mark x = ground arith

  -- A batch of one record that has just been applied plans to skip it.
  pub plan_redelivery :
      (load : AggregateAddress → Option ProjectionCheckpoint) (c : CommittedDomainEvent P)
      (x : Cursored P)
      → cursor_of c ≡ ok x
      → load x.address ≡ some (checkpoint_of x)
      → plan_batch load (c ∷ []) ≡ ok (skip (plan_from ((key_of x, some (checkpoint_of x)) ∷ [])))
  unfolding plan_batch cursor_all
  plan_redelivery load c x h there =
      let started : Started = (key_of x, some (checkpoint_of x)) ∷ [] in
      let all : cursor_all (c ∷ []) ≡ ok (x ∷ []) = rw (h, cursor_all) refl in
      rw
        (
          all,
          load_one load c x h there,
          check-Own x started (Own-started x),
          batch_one x,
          order-Own x started (Own-started x),
          plan_batch,
        )
        (plan_own x (plan_from started) (own_mark x))
