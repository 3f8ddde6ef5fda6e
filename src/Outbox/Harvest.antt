-- ===== src/Outbox/Harvest.antt =====
-- Adding the events of one source, in their order, to an outbox that knows none of them.
use mathlib.Core.Path.{subst}
use ddd_kit_ts.Base.{
  ◌≡◌, ◌≢◌, refl, sym, ap, ◌∙◌, Option, none, some, List, [], ◌∷◌, ◌++◌, map, ok, All,
}
use ddd_kit_ts.Base.JsMap
use ddd_kit_ts.Base.JsMap.{JsMap}
use ddd_kit_ts.Base.JsMap.Laws.{get-set_ne, get-set_self, values-set_absent}
use ddd_kit_ts.Base.JsString.{JsString, JsString-discrete}
use ddd_kit_ts.AggregateAddress.{AddressKey, AddressKey-discrete, encode_aggregate_address}
use ddd_kit_ts.Checkpoints.{CommitPosition}
use ddd_kit_ts.Projector.Chain.{Chain, stay, step}
use ddd_kit_ts.Outbox.{
  OutboxEvent, EventCommitCandidate, EventCommitCandidatePosition, EventSourceCursor, TrackedRecord,
  InMemoryOutbox, add_one, add_all, add_record, tracked,
}
use ddd_kit_ts.Outbox.Linking.{
  Sequel, last_of, CursorAt, next_position, next_position-Follows, finalized-next_position,
  last_of-next_position, Linked, link_next,
}
use mathlib.Core.List.{append_assoc, append-nil, map-append}

module _ {P : Type 0} where
  -- The outbox has nothing under the id.
  abbrev pub IsNew : InMemoryOutbox P → JsString → Type 0
  IsNew s id =
      (JsMap.get JsString-discrete id s.pending ≡ none)
      × (JsMap.get JsString-discrete id s.dead ≡ none)
      × (JsMap.get JsString-discrete id s.dispatched_event_ids ≡ none)

  abbrev pub AllNew : InMemoryOutbox P → List (EventCommitCandidate P) → Type 0
  AllNew s = All (λ c. IsNew s c.event.event_id)

  -- No id occurs twice.
  abbrev pub IsDistinct : List (EventCommitCandidate P) → Type 0
  IsDistinct [] = Unit
  IsDistinct (c ∷ cs) = All (λ d. c.event.event_id ≢ d.event.event_id) cs × IsDistinct cs

  -- Each event is the next one of the source with the key.
  abbrev pub IsHarvest :
      AddressKey → Option EventCommitCandidatePosition → List (EventCommitCandidate P) → Type 0
  IsHarvest key w [] = Unit
  IsHarvest key w (c ∷ cs) =
      (encode_aggregate_address c.source ≡ key)
      × Sequel w c.position
      × IsHarvest key (some c.position) cs

  -- The last event of the source stands at the position.
  abbrev pub HeadAt : InMemoryOutbox P → AddressKey → Option CommitPosition → Type 0
  HeadAt s key w = CursorAt (JsMap.get AddressKey-discrete key s.source_cursors) w

  abbrev pub positions : InMemoryOutbox P → List CommitPosition
  positions s = map (λ r. r.position) (JsMap.values s.pending)

  abbrev pub events : InMemoryOutbox P → List (OutboxEvent P)
  events s = map (λ r. r.event) (JsMap.values s.pending)

  -- The outbox after the next event of a source.
  abbrev pub added :
      InMemoryOutbox P
      → EventCommitCandidate P
      → Option CommitPosition
      → EventSourceCursor
      → InMemoryOutbox P
  added s c w cursor = record s {
    source_cursors =
        JsMap.set AddressKey-discrete (encode_aggregate_address c.source) cursor s.source_cursors;
    pending =
        JsMap.set JsString-discrete c.event.event_id
          (tracked none c (next_position w c.position).previous_eventful_aggregate_version)
          s.pending;
  }

  -- An event that the outbox does not know skips all tests on its id.
  pub add_one-IsNew :
      (s : InMemoryOutbox P) (c : EventCommitCandidate P)
      → IsNew s c.event.event_id
      → add_one s c ≡ add_record s c none
  unfolding add_one
  add_one-IsNew s c (pending, dead, dispatched) =
      rw (dispatched, add_one, pending, dead) (ap (add_record s c) pending)

  pub add_one_next :
      (s : InMemoryOutbox P) (c : EventCommitCandidate P) (w : Option CommitPosition)
      → IsNew s c.event.event_id
      → (l : Linked
          (JsMap.get AddressKey-discrete (encode_aggregate_address c.source) s.source_cursors)
          w
          c)
      → add_one s c ≡ ok (added s c w l.cursor')
  unfolding add_record
  add_one_next s c w new l =
      add_one-IsNew s c new ∙ rw (l.not_stale, add_record, l.placed, l.linked) refl

  positions-added :
      (s : InMemoryOutbox P) (c : EventCommitCandidate P) (w : Option CommitPosition)
      (cursor : EventSourceCursor)
      → IsNew s c.event.event_id
      → positions (added s c w cursor) ≡ positions s ++ next_position w c.position ∷ []
  positions-added s c w cursor new =
      let record_of =
        tracked none c (next_position w c.position).previous_eventful_aggregate_version in
      ap (map (λ r. r.position))
        (values-set_absent JsString-discrete c.event.event_id record_of s.pending new.0)
      ∙ map-append (λ (r : TrackedRecord P). r.position) (JsMap.values s.pending) (record_of ∷ [])
      ∙ ap (λ p. positions s ++ p ∷ []) (finalized-next_position w c.position)

  pub events-added :
      (s : InMemoryOutbox P) (c : EventCommitCandidate P) (w : Option CommitPosition)
      (cursor : EventSourceCursor)
      → IsNew s c.event.event_id
      → events (added s c w cursor) ≡ events s ++ c.event ∷ []
  events-added s c w cursor new =
      let record_of =
        tracked none c (next_position w c.position).previous_eventful_aggregate_version in
      ap (map (λ r. r.event))
        (values-set_absent JsString-discrete c.event.event_id record_of s.pending new.0)
      ∙ map-append (λ (r : TrackedRecord P). r.event) (JsMap.values s.pending) (record_of ∷ [])

  pub IsNew-added :
      (s : InMemoryOutbox P) (c : EventCommitCandidate P) (w : Option CommitPosition)
      (cursor : EventSourceCursor) (id : JsString)
      → c.event.event_id ≢ id
      → IsNew s id
      → IsNew (added s c w cursor) id
  IsNew-added s c w cursor id ne (pending, dead, dispatched) = (
    get-set_ne JsString-discrete c.event.event_id id
          (tracked none c (next_position w c.position).previous_eventful_aggregate_version)
          s.pending ne
        ∙ pending,
    dead,
    dispatched,
  )

  AllNew-added :
      (s : InMemoryOutbox P) (c : EventCommitCandidate P) (w : Option CommitPosition)
      (cursor : EventSourceCursor) (cs : List (EventCommitCandidate P))
      → All (λ d. c.event.event_id ≢ d.event.event_id) cs
      → AllNew s cs
      → AllNew (added s c w cursor) cs
  AllNew-added s c w cursor [] ne new = tt
  AllNew-added s c w cursor (d ∷ cs) ne new = (
    IsNew-added s c w cursor d.event.event_id ne.0 new.0,
    AllNew-added s c w cursor cs ne.1 new.1,
  )

  -- What adding the events of a source has done.
  pub record Harvested (s : InMemoryOutbox P) (key : AddressKey) (w : Option CommitPosition)
      (cs : List (EventCommitCandidate P)) : Type 0 where
    pub linked : List CommitPosition
    pub last : Option CommitPosition
    pub succeeded : (add_all s cs).0 ≡ ok tt
    pub in_order : positions (add_all s cs).1 ≡ positions s ++ linked
    pub same_events : events (add_all s cs).1 ≡ events s ++ map (λ c. c.event) cs
    pub chained : Chain w linked last
    pub head_at : HeadAt (add_all s cs).1 key last

  pub add_all_next :
      (cs : List (EventCommitCandidate P)) (s : InMemoryOutbox P) (key : AddressKey)
      (w : Option CommitPosition)
      → AllNew s cs
      → IsDistinct cs
      → HeadAt s key w
      → IsHarvest key (last_of w) cs
      → Harvested s key w cs
  unfolding add_all
  add_all_next [] s key w new distinct head harvest = record {
    linked = [];
    last = w;
    succeeded = refl;
    in_order = rw append-nil refl;
    same_events = rw append-nil refl;
    chained = stay;
    head_at = head;
  }
  add_all_next (c ∷ cs) s key w (new, news) (ne, distinct) head (at_key, sequel, harvest) =
      let l =
        link_next
          (JsMap.get AddressKey-discrete (encode_aggregate_address c.source) s.source_cursors) w c
          (rw at_key head) sequel in
      let next = next_position w c.position in
      let s' = added s c w l.cursor' in
      let one : add_one s c ≡ ok s' = add_one_next s c w new l in
      let rest =
        add_all_next cs s' key (some next) (AllNew-added s c w l.cursor' cs ne news) distinct
          (subst (λ k. HeadAt s' k (some next)) at_key
            (subst (λ o. CursorAt o (some next))
              (sym (
                get-set_self AddressKey-discrete (encode_aggregate_address c.source) l.cursor'
                  s.source_cursors))
              l.at_next))
          (subst (λ p. IsHarvest key (some p) cs) (sym (last_of-next_position w c.position))
            harvest) in
      record {
        linked = next ∷ rest.linked;
        last = rest.last;
        succeeded = rw (one, add_all) rest.succeeded;
        in_order =
            rw (one, add_all)
              (rest.in_order
                ∙ ap (λ ps. ps ++ rest.linked) (positions-added s c w l.cursor' new)
                ∙ append_assoc (positions s) (next ∷ []) rest.linked);
        same_events =
            rw (one, add_all)
              (rest.same_events
                ∙ ap (λ es. es ++ map (λ c. c.event) cs) (events-added s c w l.cursor' new)
                ∙ append_assoc (events s) (c.event ∷ []) (map (λ c. c.event) cs));
        chained = step (next_position-Follows w c.position sequel) rest.chained;
        head_at = rw (one, add_all) rest.head_at;
      }
