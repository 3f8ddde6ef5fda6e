-- ===== src/Deadlines/Preservation.antt =====
-- Every call of the deadline store keeps its invariant.
use ddd_kit_ts.Base.{
  ℕ, ◌+◌, ◌≤◌, ◌<◌, ◌≡◌, inl, inr, refl, sym, ◌∙◌, Option, none, some, Bool, List, [], ◌∷◌, arith,
  leb, Option-cases, Bool-cases,
}
use ddd_kit_ts.Base.Capacity.{Within, Within-anti, over_limit, over_limit-Within}
use ddd_kit_ts.Base.JsMap
use ddd_kit_ts.Base.JsMap.{JsMap}
use ddd_kit_ts.Base.JsMap.Laws.{
  set-IsMap, delete-IsMap, size-set_new, size-set_old, size-set-le, size-delete, size-delete-le,
}
use ddd_kit_ts.Base.JsString.{JsString, JsString-discrete}
use ddd_kit_ts.Deadlines.{
  StoredDeadline, InMemoryDeadlineStore, records_held, address, delivery_id_of, records,
  schedule_room, schedule, cancel, find_delivery, deliver_pending, mark_delivered, failed,
  mark_failed_at, mark_failed,
}
use ddd_kit_ts.Deadlines.Invariant.{
  IsKnown, AllKnown, IsValid, IsKnown-weaken, AllKnown-set, AllDistinct-set, AllKnown-delete,
  AllDistinct-delete, find_delivery-some,
}

module _ {P : Type 0} where
  failed-fields :
      (d : StoredDeadline P) (error : Option JsString)
      → ((failed d error).attempts ≡ d.attempts + 1)
        × ((failed d error).sequence ≡ d.sequence)
        × ((failed d error).delivery_id ≡ d.delivery_id)
        × ((failed d error).scope ≡ d.scope)
        × ((failed d error).key ≡ d.key)
  unfolding failed
  failed-fields d none = (refl, refl, refl, refl, refl)
  failed-fields d (some e) = (refl, refl, refl, refl, refl)

  failed-IsKnown :
      (next max : ℕ) (k : JsString) (d : StoredDeadline P) (error : Option JsString)
      → (failed d error).attempts < max
      → IsKnown next max k d
      → IsKnown next max k (failed d error)
  failed-IsKnown next max k d error lt v =
      let (a, q, i, c, y) = failed-fields d error in
      record {
        own_address = rw (c, y) v.own_address;
        own_id = rw (i, q) v.own_id;
        given_out = rw q v.given_out;
        attempts_left = lt;
      }

  -- A record leaves the pending ones: the rest stays valid, with one record fewer.
  dropped-IsValid :
      (s : InMemoryDeadlineStore P) (k : JsString) (dead : JsMap JsString (StoredDeadline P))
      → IsValid s
      → JsMap.IsMap JsString-discrete dead
      → JsMap.size (JsMap.delete JsString-discrete k s.pending) + JsMap.size dead ≤ records s
      → IsValid (record s { pending = JsMap.delete JsString-discrete k s.pending; dead = dead })
  dropped-IsValid s k dead v dead_map le = record {
    pending_map = delete-IsMap JsString-discrete k s.pending v.pending_map;
    dead_map = dead_map;
    some_attempt = v.some_attempt;
    bounded = Within-anti _ (records s) s.max_records le v.bounded;
    known =
        AllKnown-delete s.next_sequence s.max_delivery_attempts k s.pending v.pending_map v.known;
    distinct = AllDistinct-delete k s.pending v.pending_map v.distinct;
  }

  -- Cancelling keeps the invariant.
  pub cancel-IsValid :
      (s : InMemoryDeadlineStore P) (scope key : JsString)
      → IsValid s
      → IsValid (cancel s scope key)
  unfolding cancel
  cancel-IsValid s scope key v =
      let le : JsMap.size (JsMap.delete JsString-discrete (address scope key) s.pending)
          ≤ JsMap.size s.pending =
        size-delete-le JsString-discrete (address scope key) s.pending in
      dropped-IsValid s (address scope key) s.dead v v.dead_map (omega (arith, le))

  delivered_one-IsValid :
      (s : InMemoryDeadlineStore P) (id : JsString) (found : Option (JsString × StoredDeadline P))
      → IsValid s
      → IsValid (record s {
        dead = JsMap.delete JsString-discrete id s.dead;
        pending = deliver_pending found s.pending;
      })
  unfolding deliver_pending
  delivered_one-IsValid s id none v = record {
    pending_map = v.pending_map;
    dead_map = delete-IsMap JsString-discrete id s.dead v.dead_map;
    some_attempt = v.some_attempt;
    bounded =
        let le : JsMap.size (JsMap.delete JsString-discrete id s.dead) ≤ JsMap.size s.dead =
          size-delete-le JsString-discrete id s.dead in
        Within-anti _ (records s) s.max_records (omega (arith, le)) v.bounded;
    known = v.known;
    distinct = v.distinct;
  }
  delivered_one-IsValid s id (some (k, d)) v =
      let le : JsMap.size (JsMap.delete JsString-discrete id s.dead) ≤ JsMap.size s.dead =
        size-delete-le JsString-discrete id s.dead in
      let le' : JsMap.size (JsMap.delete JsString-discrete k s.pending) ≤ JsMap.size s.pending =
        size-delete-le JsString-discrete k s.pending in
      dropped-IsValid s k (JsMap.delete JsString-discrete id s.dead) v
        (delete-IsMap JsString-discrete id s.dead v.dead_map) (omega (arith, le, le'))

  -- Acknowledging any list of delivery ids keeps the invariant.
  pub mark_delivered-IsValid :
      (s : InMemoryDeadlineStore P) (ids : List JsString)
      → IsValid s
      → IsValid (mark_delivered s ids)
  unfolding mark_delivered
  mark_delivered-IsValid s [] v = v
  mark_delivered-IsValid s (id ∷ ids) v =
      mark_delivered-IsValid
        (record s {
          dead = JsMap.delete JsString-discrete id s.dead;
          pending = deliver_pending (find_delivery id s.pending) s.pending;
        })
        ids (delivered_one-IsValid s id (find_delivery id s.pending) v)

  failed_at-IsValid :
      (s : InMemoryDeadlineStore P) (error : Option JsString) (k : JsString) (d : StoredDeadline P)
      → IsValid s
      → JsMap.get JsString-discrete k s.pending ≡ some d
      → IsValid (mark_failed_at s error (some (k, d))).1
  unfolding mark_failed_at
  failed_at-IsValid s error k d v at =
      elim (Bool-cases (leb s.max_delivery_attempts (failed d error).attempts)) [
        | inl last ↦
            let dead' : JsMap JsString (StoredDeadline P) =
              JsMap.set JsString-discrete d.delivery_id (failed d error) s.dead in
            let gone : JsMap.size (JsMap.delete JsString-discrete k s.pending) + 1
                ≡ JsMap.size s.pending =
              size-delete JsString-discrete k d s.pending at in
            let grown : JsMap.size dead' ≤ JsMap.size s.dead + 1 =
              size-set-le JsString-discrete d.delivery_id (failed d error) s.dead in
            rw last (
              dropped-IsValid s k dead' v
                (set-IsMap JsString-discrete d.delivery_id (failed d error) s.dead v.dead_map)
                (omega (arith, gone, grown)))
        | inr left ↦
            let (a, q, i, c, y) = failed-fields d error in
            rw left (record {
              pending_map = set-IsMap JsString-discrete k (failed d error) s.pending v.pending_map;
              dead_map = v.dead_map;
              some_attempt = v.some_attempt;
              bounded =
                  rw (size-set_old JsString-discrete k (failed d error) d s.pending at) v.bounded;
              known =
                  AllKnown-set s.next_sequence s.max_delivery_attempts k (failed d error) s.pending
                    (failed-IsKnown s.next_sequence s.max_delivery_attempts k d error
                      (ground (arith, left)) (v.known k d at))
                    v.known;
              distinct =
                  AllDistinct-set k (failed d error) s.pending
                    (λ k' d' at' e. v.distinct k k' d d' at at' (sym q ∙ e)) v.distinct;
            })
      ]

  -- A failure report keeps the invariant.
  pub mark_failed-IsValid :
      (s : InMemoryDeadlineStore P) (id : JsString) (error : Option JsString)
      → IsValid s
      → IsValid (mark_failed s id error).1
  unfolding mark_failed mark_failed_at
  mark_failed-IsValid s id error v = elim (Option-cases (find_delivery id s.pending)) [
    | inl nothing ↦ rw (nothing, mark_failed, mark_failed_at) v
    | inr ((k, d), found) ↦
        rw (found, mark_failed)
          (failed_at-IsValid s error k d v
            (find_delivery-some id k d s.pending v.pending_map found).0)
  ]

  AllKnown-weaken :
      (next max : ℕ) (m : JsMap JsString (StoredDeadline P))
      → AllKnown next max m
      → AllKnown (next + 1) max m
  AllKnown-weaken next max m v k d at =
      IsKnown-weaken next (next + 1) max k d (omega arith) (v k d at)

  -- The numbering moves on without a record: a payload that cannot be copied.
  numbered-IsValid :
      (s : InMemoryDeadlineStore P)
      → IsValid s
      → IsValid (record s { next_sequence = s.next_sequence + 1 })
  numbered-IsValid s v = record {
    pending_map = v.pending_map;
    dead_map = v.dead_map;
    some_attempt = v.some_attempt;
    bounded = v.bounded;
    known = AllKnown-weaken s.next_sequence s.max_delivery_attempts s.pending v.known;
    distinct = v.distinct;
  }

  room_new :
      (s : InMemoryDeadlineStore P) (a : JsString)
      → JsMap.get JsString-discrete a s.pending ≡ none
      → schedule_room s a ≡ over_limit records_held s.max_records (records s) 1
  unfolding schedule_room
  room_new s a new = ground arith

  scheduled-bounded :
      (s : InMemoryDeadlineStore P) (a : JsString) (d : StoredDeadline P)
      → IsValid s
      → schedule_room s a ≡ none
      → Within
          (JsMap.size (JsMap.set JsString-discrete a d s.pending) + JsMap.size s.dead)
          s.max_records
  unfolding schedule_room
  scheduled-bounded s a d v room = elim (Option-cases (JsMap.get JsString-discrete a s.pending)) [
    | inl new ↦
        let fits : over_limit records_held s.max_records (records s) 1 ≡ none =
          sym (room_new s a new) ∙ room in
        let grown : JsMap.size (JsMap.set JsString-discrete a d s.pending)
            ≡ JsMap.size s.pending + 1 =
          size-set_new JsString-discrete a d s.pending new in
        Within-anti _ (records s + 1) s.max_records (omega (arith, grown))
          (over_limit-Within records_held s.max_records (records s) 1 fits)
    | inr (old, at) ↦ rw (size-set_old JsString-discrete a d old s.pending at) v.bounded
  ]

  scheduled-IsValid :
      (s : InMemoryDeadlineStore P) (d : StoredDeadline P)
      → IsValid s
      → schedule_room s (address d.scope d.key) ≡ none
      → d.sequence ≡ s.next_sequence
      → d.delivery_id ≡ delivery_id_of s.next_sequence
      → d.attempts ≡ 0
      → IsValid (record s {
        next_sequence = s.next_sequence + 1;
        pending = JsMap.set JsString-discrete (address d.scope d.key) d s.pending;
      })
  scheduled-IsValid s d v room number id fresh =
      let new : IsKnown (s.next_sequence + 1) s.max_delivery_attempts (address d.scope d.key) d =
        record {
          own_address = refl;
          own_id = rw (number, id);
          given_out = omega (arith, number);
          attempts_left = rw fresh v.some_attempt;
        } in
      record {
        pending_map = set-IsMap JsString-discrete (address d.scope d.key) d s.pending v.pending_map;
        dead_map = v.dead_map;
        some_attempt = v.some_attempt;
        bounded = scheduled-bounded s (address d.scope d.key) d v room;
        known =
            AllKnown-set (s.next_sequence + 1) s.max_delivery_attempts (address d.scope d.key) d
              s.pending new
              (AllKnown-weaken s.next_sequence s.max_delivery_attempts s.pending v.known);
        distinct =
            AllDistinct-set (address d.scope d.key) d s.pending
              (λ k o at same.
                let old : o.sequence < s.next_sequence = (v.known k o at).given_out in
                absurd (omega (arith, old, same, number)))
              v.distinct;
      }

  -- Scheduling keeps the invariant, whether it is refused, fails to copy its payload, replaces a
  -- pending deadline or adds one.
  pub schedule-IsValid :
      (cloneable : P → Bool) (s : InMemoryDeadlineStore P) (scope key : JsString) (due_at : ℕ)
      (payload : P)
      → IsValid s
      → IsValid (schedule cloneable s scope key due_at payload).1
  unfolding schedule
  schedule-IsValid cloneable s scope key due_at payload v =
      elim (Option-cases (schedule_room s (address scope key))) [
        | inr (full, refused) ↦ rw (refused, schedule) v
        | inl room ↦ elim (Bool-cases (cloneable payload)) [
          | inr lost ↦ rw (room, schedule, lost) (numbered-IsValid s v)
          | inl copied ↦
              rw (room, schedule, copied)
                (scheduled-IsValid s
                  (record {
                    delivery_id = delivery_id_of s.next_sequence;
                    scope = scope;
                    key = key;
                    due_at = due_at;
                    payload = payload;
                    attempts = 0;
                    sequence = s.next_sequence;
                    last_error = none;
                  })
                  v room refl refl refl)
        ]
      ]
