-- ===== src/Deadlines/Delivery.antt =====
-- Delivery ids, and reports against a deadline that has been replaced.
use ddd_kit_ts.Base.{
  ℕ, ◌+◌, ◌<◌, ◌≡◌, ◌≢◌, inl, inr, refl, sym, ap, ◌∙◌, Option, none, some, Bool, [], ◌∷◌, arith,
  Option-cases, Bool-cases, ok,
}
use ddd_kit_ts.Base.Decimal.{decimal, decimal-inj}
use ddd_kit_ts.Base.JsMap
use ddd_kit_ts.Base.JsMap.{JsMap}
use ddd_kit_ts.Base.JsMap.Laws.{get-set_cases, set-IsMap}
use ddd_kit_ts.Base.JsString.{JsString, JsString-discrete}
use ddd_kit_ts.Deadlines.{
  StoredDeadline, InMemoryDeadlineStore, address, delivery_id_of, schedule_room, schedule,
  find_delivery, deliver_pending, mark_delivered, mark_failed_at, mark_failed,
}
use ddd_kit_ts.Deadlines.Invariant.{IsValid, find_delivery-none}

-- Two sequence numbers with one delivery id are the same.
delivery_id_of-inj : (m n : ℕ) → delivery_id_of m ≡ delivery_id_of n → m ≡ n
unfolding delivery_id_of
delivery_id_of-inj m n e = let e' : decimal m ≡ decimal n = cc in decimal-inj m n e'

module _ {P : Type 0} where
  -- Pending records with the same delivery id are one record.
  pub same_delivery :
      (s : InMemoryDeadlineStore P) (k k' : JsString) (d d' : StoredDeadline P)
      → IsValid s
      → JsMap.get JsString-discrete k s.pending ≡ some d
      → JsMap.get JsString-discrete k' s.pending ≡ some d'
      → d.delivery_id ≡ d'.delivery_id
      → k ≡ k'
  same_delivery s k k' d d' v at at' same =
      let a : d.delivery_id ≡ delivery_id_of d.sequence = (v.known k d at).own_id in
      let b : d'.delivery_id ≡ delivery_id_of d'.sequence = (v.known k' d' at').own_id in
      v.distinct k k' d d' at at' (delivery_id_of-inj d.sequence d'.sequence (sym a ∙ same ∙ b))

  -- What `schedule` writes.
  abbrev pub incarnation :
      InMemoryDeadlineStore P → (scope key : JsString) → (due_at : ℕ) → P → StoredDeadline P
  incarnation s scope key due_at payload = record {
    delivery_id = delivery_id_of s.next_sequence;
    scope = scope;
    key = key;
    due_at = due_at;
    payload = payload;
    attempts = 0;
    sequence = s.next_sequence;
    last_error = none;
  }

  -- The state after a call to `schedule` that succeeds.
  pub schedule_ok :
      (cloneable : P → Bool) (s s' : InMemoryDeadlineStore P) (scope key : JsString) (due_at : ℕ)
      (payload : P)
      → schedule cloneable s scope key due_at payload ≡ (ok tt, s')
      → s' ≡ record s {
        next_sequence = s.next_sequence + 1;
        pending =
            JsMap.set JsString-discrete
              (address scope key)
              (incarnation s scope key due_at payload)
              s.pending;
      }
  unfolding schedule
  schedule_ok cloneable s s' scope key due_at payload h =
      elim (Option-cases (schedule_room s (address scope key))) [
        | inr (full, refused) ↦ absurd (ground arith)
        | inl room ↦ elim (Bool-cases (cloneable payload)) [
          | inr lost ↦ absurd (ground arith)
          | inl copied ↦ ground arith
        ]
      ]

  -- After a deadline has been replaced no pending record has its delivery id.
  replaced_is_gone :
      (s : InMemoryDeadlineStore P) (scope key : JsString) (due_at : ℕ) (payload : P)
      (d : StoredDeadline P)
      → IsValid s
      → JsMap.get JsString-discrete (address scope key) s.pending ≡ some d
      → find_delivery d.delivery_id (
          JsMap.set JsString-discrete
            (address scope key)
            (incarnation s scope key due_at payload)
            s.pending)
        ≡ none
  replaced_is_gone s scope key due_at payload d v at =
      find_delivery-none d.delivery_id _
        (set-IsMap JsString-discrete (address scope key) (incarnation s scope key due_at payload)
          s.pending v.pending_map)
        other
    where
      new : StoredDeadline P
      new = incarnation s scope key due_at payload

      other :
          (k : JsString) (e : StoredDeadline P)
          → JsMap.get JsString-discrete k (
              JsMap.set JsString-discrete
                (address scope key)
                (incarnation s scope key due_at payload)
                s.pending)
            ≡ some e
          → e.delivery_id ≢ d.delivery_id
      other k e at' same =
          elim (get-set_cases JsString-discrete (address scope key) k
            (incarnation s scope key due_at payload) e s.pending at') [
              | inr (ne, before) ↦
                  ne (same_delivery s (address scope key) k d e v at before (sym same))
              | inl (here, written) ↦
                  let id : delivery_id_of s.next_sequence ≡ delivery_id_of d.sequence =
                    ap (λ x. x.delivery_id) written
                    ∙ same
                    ∙ (v.known (address scope key) d at).own_id in
                  let number : s.next_sequence ≡ d.sequence =
                    delivery_id_of-inj s.next_sequence d.sequence id in
                  let old : d.sequence < s.next_sequence =
                    (v.known (address scope key) d at).given_out in
                  absurd (omega (arith, number, old))
            ]

  -- Scheduling an address again makes the delivery that is on its way harmless: a failure report or
  -- an acknowledgement of the old delivery id leaves the pending records as they are, so the
  -- successor loses no attempt and is not taken for delivered.
  pub replaced_delivery_is_inert :
      (cloneable : P → Bool) (s s' : InMemoryDeadlineStore P) (scope key : JsString) (due_at : ℕ)
      (payload : P) (d : StoredDeadline P) (error : Option JsString)
      → IsValid s
      → JsMap.get JsString-discrete (address scope key) s.pending ≡ some d
      → schedule cloneable s scope key due_at payload ≡ (ok tt, s')
      → (mark_failed s' d.delivery_id error ≡ (none, s'))
        × ((mark_delivered s' (d.delivery_id ∷ [])).pending ≡ s'.pending)
  unfolding mark_failed mark_failed_at mark_delivered deliver_pending
  replaced_delivery_is_inert cloneable s s' scope key due_at payload d error v at h =
      let eq : s'.pending
          ≡ JsMap.set JsString-discrete (address scope key) (incarnation s scope key due_at payload)
              s.pending =
        ap (λ x. x.pending) (schedule_ok cloneable s s' scope key due_at payload h) in
      let gone : find_delivery d.delivery_id s'.pending ≡ none =
        ap (find_delivery d.delivery_id) eq ∙ replaced_is_gone s scope key due_at payload d v at in
      (rw (gone, mark_failed, mark_failed_at) refl, rw (gone, deliver_pending) refl)
