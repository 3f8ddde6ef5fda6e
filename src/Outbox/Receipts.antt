-- ===== src/Outbox/Receipts.antt =====
-- The receipts of acknowledged events: a bounded cache, from which only acknowledging drops entries.
use mathlib.Core.Path.{subst}
use ddd_kit_ts.Base.{ℕ, ◌≤◌, ◌<◌, ◌≡◌, refl, sym, ◌∙◌, none, some, [], ◌∷◌, ◌++◌, arith}
use ddd_kit_ts.Base.JsMap
use ddd_kit_ts.Base.JsMap.{JsMap, IsMap}
use ddd_kit_ts.Base.JsMap.Laws.{
  get-set_self, get-set_ne, get-delete_self, get-delete_ne, set-IsMap, delete-IsMap, size-delete,
  size-set_new, set_absent,
}
use ddd_kit_ts.Base.JsString.{JsString, JsString-discrete}
use ddd_kit_ts.AggregateAddress.{AggregateAddress}
use ddd_kit_ts.Outbox.{
  EventCommitCandidatePosition, DispatchedEventReceipt, InMemoryOutbox, evict, remember_dispatched,
}

module _ {V : Type 0} where
  evict_within : (max : ℕ) (m : JsMap JsString V) → JsMap.size m ≤ max → evict max m ≡ m
  unfolding evict
  evict_within max [] h = refl
  evict_within max (e ∷ m) h = ground arith

  size-evict : (max : ℕ) (m : JsMap JsString V) → JsMap.size (evict max m) ≤ max
  unfolding evict
  size-evict max [] = omega arith
  size-evict max (e ∷ m) = ground (arith, size-evict max m)

  evict-IsMap :
      (max : ℕ) (m : JsMap JsString V)
      → IsMap JsString-discrete m
      → IsMap JsString-discrete (evict max m)
  unfolding evict
  evict-IsMap max [] h = tt
  evict-IsMap max (e ∷ m) h = ground (arith, evict-IsMap max m)

  get-append_last :
      (k : JsString) (v : V) (m : JsMap JsString V)
      → JsMap.get JsString-discrete k m ≡ none
      → JsMap.get JsString-discrete k (m ++ (k, v) ∷ []) ≡ some v
  get-append_last k v [] h = ground arith
  get-append_last k v (e ∷ m) h = ground (arith, get-append_last k v m)

  -- The youngest entry stays.
  get-evict_last :
      (max : ℕ) (k : JsString) (v : V) (m : JsMap JsString V)
      → 0 < max
      → JsMap.get JsString-discrete k m ≡ none
      → JsMap.get JsString-discrete k (evict max (m ++ (k, v) ∷ [])) ≡ some v
  unfolding evict
  get-evict_last max k v [] p h = ground arith
  get-evict_last max k v (e ∷ m) p h =
      ground (arith, get-evict_last max k v m p, get-append_last k v m)

module _ {P : Type 0} where
  -- The receipts are a map within its bound, which is not zero.
  pub record IsBounded (s : InMemoryOutbox P) : Type 0 where
    pub receipts_map : IsMap JsString-discrete s.dispatched_event_ids
    pub retained : JsMap.size s.dispatched_event_ids ≤ s.max_retained_dispatched_event_ids
    pub some_retained : 0 < s.max_retained_dispatched_event_ids

  pub remember_dispatched-IsBounded :
      (s : InMemoryOutbox P) (id : JsString) (source : AggregateAddress)
      (position : EventCommitCandidatePosition)
      → IsBounded s
      → IsBounded (remember_dispatched s id source position)
  unfolding remember_dispatched
  remember_dispatched-IsBounded s id source position b =
      let m = JsMap.delete JsString-discrete id s.dispatched_event_ids in
      let r : DispatchedEventReceipt = record { source = source; position = position } in
      record {
        receipts_map =
            evict-IsMap s.max_retained_dispatched_event_ids (JsMap.set JsString-discrete id r m) (
              set-IsMap JsString-discrete id r m
                (delete-IsMap JsString-discrete id s.dispatched_event_ids b.receipts_map));
        retained =
            size-evict s.max_retained_dispatched_event_ids (JsMap.set JsString-discrete id r m);
        some_retained = b.some_retained;
      }

  -- What has just been acknowledged has a receipt.
  pub remember_dispatched_self :
      (s : InMemoryOutbox P) (id : JsString) (source : AggregateAddress)
      (position : EventCommitCandidatePosition)
      → IsBounded s
      → JsMap.get JsString-discrete id
          (remember_dispatched s id source position).dispatched_event_ids
        ≡ some (record { source = source; position = position })
  unfolding remember_dispatched
  remember_dispatched_self s id source position b =
      let m = JsMap.delete JsString-discrete id s.dispatched_event_ids in
      let r : DispatchedEventReceipt = record { source = source; position = position } in
      let gone = get-delete_self JsString-discrete id s.dispatched_event_ids b.receipts_map in
      rw (set_absent JsString-discrete id r m gone)
        (get-evict_last s.max_retained_dispatched_event_ids id r m b.some_retained gone)

  -- Refreshing a receipt drops none.
  pub remember_dispatched_again :
      (s : InMemoryOutbox P) (id j : JsString) (receipt : DispatchedEventReceipt)
      → IsBounded s
      → JsMap.get JsString-discrete id s.dispatched_event_ids ≡ some receipt
      → JsMap.get JsString-discrete j
          (remember_dispatched s id receipt.source receipt.position).dispatched_event_ids
        ≡ JsMap.get JsString-discrete j s.dispatched_event_ids
  unfolding remember_dispatched
  remember_dispatched_again s id j receipt b h =
      let m = JsMap.delete JsString-discrete id s.dispatched_event_ids in
      let gone = get-delete_self JsString-discrete id s.dispatched_event_ids b.receipts_map in
      let kept : JsMap.size (JsMap.set JsString-discrete id receipt m)
          ≤ s.max_retained_dispatched_event_ids =
        omega (
          arith,
          size-set_new JsString-discrete id receipt m gone,
          size-delete JsString-discrete id receipt s.dispatched_event_ids h,
          b.retained,
        ) in
      rw
        (evict_within s.max_retained_dispatched_event_ids (JsMap.set JsString-discrete id receipt m)
          kept)
        (elim (JsString-discrete id j) [
          | yes e ↦
              subst
                (λ i.
                  JsMap.get JsString-discrete i (JsMap.set JsString-discrete id receipt m)
                  ≡ JsMap.get JsString-discrete i s.dispatched_event_ids)
                e (get-set_self JsString-discrete id receipt m ∙ sym h)
          | no ne ↦
              get-set_ne JsString-discrete id j receipt m ne
              ∙ get-delete_ne JsString-discrete id j s.dispatched_event_ids ne
        ])
