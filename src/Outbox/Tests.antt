-- ===== src/Outbox/Tests.antt =====
-- Runs of the outbox, and each theorem at an input where its hypotheses hold.
use ddd_kit_ts.Base.{
  ℕ, ◌≡◌, ◌≢◌, refl, inl, inr, Option, none, some, List, [], ◌∷◌, ◌++◌, map, arith, ok, throws,
  ℕ_discrete,
}
use ddd_kit_ts.Base.JsMap
use ddd_kit_ts.Base.JsString.{JsString-discrete}
use ddd_kit_ts.AggregateAddress.{AggregateAddress, AddressKey-discrete, encode_aggregate_address}
use ddd_kit_ts.Checkpoints.{CommitPosition}
use ddd_kit_ts.Projector.Chain.{Chain}
use ddd_kit_ts.Outbox.{
  EventCommitCandidate, EventSourceCursor, TrackedRecord, DispatchedEventReceipt, InMemoryOutbox,
  Error, Limit, add, assert_capacity, mark_dispatched, mark_failed, get_pending,
}
use ddd_kit_ts.Outbox.Harvest.{HeadAt, positions, events}
use ddd_kit_ts.Outbox.Admission.{harvest_is_chained}
use ddd_kit_ts.Outbox.Acknowledged.{add_batches, acknowledged_stays_delivered}
use ddd_kit_ts.Outbox.Partial.{stale_batch_is_partial}

abbrev order_7 : AggregateAddress
order_7 = record { aggregate_type = b'o' ∷ []; aggregate_id = b'7' ∷ [] }

abbrev cart_1 : AggregateAddress
cart_1 = record { aggregate_type = b'c' ∷ []; aggregate_id = b'1' ∷ [] }

abbrev candidate : ℕ → AggregateAddress → ℕ → ℕ → ℕ → EventCommitCandidate ℕ
candidate id source version sequence size = record {
  event = record { event_id = id ∷ []; event_type = b't' ∷ []; payload = id };
  source = source;
  position = record { aggregate_version = version; commit_sequence = sequence; commit_size = size };
}

abbrev empty_outbox : InMemoryOutbox ℕ
empty_outbox = record {
  pending = [];
  dead = [];
  source_cursors = [];
  dispatched_event_ids = [];
  max_delivery_attempts = 2;
  max_retained_dispatched_event_ids = 1;
  max_records = some 9;
  max_sources = some 2;
}

-- Two commits of one order: two events at version 3, one at version 5.
abbrev order_events : List (EventCommitCandidate ℕ)
order_events =
    candidate 1 order_7 3 0 2 ∷ candidate 2 order_7 3 1 2 ∷ candidate 3 order_7 5 0 1 ∷ []

order_events_linked :
    positions (add empty_outbox order_events).1
    ≡ record {
      aggregate_version = 3;
      commit_sequence = 0;
      commit_size = 2;
      previous_eventful_aggregate_version = none;
    }
      ∷ record {
        aggregate_version = 3;
        commit_sequence = 1;
        commit_size = 2;
        previous_eventful_aggregate_version = none;
      }
      ∷ record {
        aggregate_version = 5;
        commit_sequence = 0;
        commit_size = 1;
        previous_eventful_aggregate_version = some 3;
      }
      ∷ []
unfolding add JsString-discrete AddressKey-discrete ℕ_discrete
order_events_linked = refl

order_events_room : assert_capacity empty_outbox order_events ≡ ok tt
unfolding assert_capacity JsString-discrete AddressKey-discrete
order_events_room = refl

harvest_is_chained_example :
    (linked : List CommitPosition) × (last : Option CommitPosition) × ((add empty_outbox
        order_events).0
      ≡ ok tt)
    × (positions (add empty_outbox order_events).1 ≡ positions empty_outbox ++ linked)
    × (events (add empty_outbox order_events).1
        ≡ events empty_outbox ++ map (λ c. c.event) order_events)
    × Chain none linked last
    × HeadAt (add empty_outbox order_events).1 (encode_aggregate_address order_7) last
harvest_is_chained_example =
    harvest_is_chained empty_outbox (encode_aggregate_address order_7) none order_events
      ((refl, refl, refl), ((refl, refl, refl), ((refl, refl, refl), tt)))
      ((cc, (cc, tt)), ((cc, tt), (tt, tt))) tt
      (refl, refl, (refl, inl (refl, refl, refl), (refl, inr (refl, omega arith, refl), tt)))
      order_events_room

-- The outbox with one pending event of a cart at version 4.
abbrev cart_event : EventCommitCandidate ℕ
cart_event = candidate 9 cart_1 4 0 1

abbrev cart_record : TrackedRecord ℕ
cart_record = record {
  dispatch_id = 9 ∷ [];
  event = cart_event.event;
  source = cart_1;
  position = record {
    aggregate_version = 4;
    commit_sequence = 0;
    commit_size = 1;
    previous_eventful_aggregate_version = none;
  };
  attempts = 0;
  last_error = none;
}

abbrev cart_cursor : EventSourceCursor
cart_cursor = record {
  aggregate_version = 4;
  previous_eventful_aggregate_version = none;
  commit_size = 1;
  event_ids_by_sequence = (0, 9 ∷ []) ∷ [];
}

abbrev cart_outbox : InMemoryOutbox ℕ
cart_outbox = record empty_outbox {
  pending = (9 ∷ [], cart_record) ∷ [];
  source_cursors = (encode_aggregate_address cart_1, cart_cursor) ∷ [];
}

cart_outbox_run : (add empty_outbox (cart_event ∷ [])).1 ≡ cart_outbox
unfolding add JsString-discrete AddressKey-discrete ℕ_discrete
cart_outbox_run = refl

-- After the second failure the event is a dead letter; adding it again gives it its attempts back.
requeue_run :
    (mark_failed (mark_failed cart_outbox (9 ∷ []) (b'x' ∷ [])).1 (9 ∷ []) (b'y' ∷ [])).1.pending
    ≡ []
unfolding mark_failed JsString-discrete
requeue_run = refl

get_pending_run :
    (get_pending cart_outbox (some (Limit.up_to 0)) ≡ [])
    × (get_pending cart_outbox (some Limit.nan) ≡ [])
unfolding get_pending
get_pending_run = (refl, refl)

cart_9_pending : JsMap.get JsString-discrete (9 ∷ []) cart_outbox.pending ≡ some cart_record
unfolding JsString-discrete
cart_9_pending = refl

acknowledged_stays_delivered_example :
    let s' =
      add_batches
        (mark_dispatched cart_outbox ((9 ∷ []) ∷ []))
        ((cart_event ∷ []) ∷ order_events ∷ []) in
    (JsMap.get JsString-discrete (9 ∷ []) s'.pending ≡ none)
    × (JsMap.get JsString-discrete (9 ∷ []) s'.dead ≡ none)
    × ((receipt : DispatchedEventReceipt) × (JsMap.get JsString-discrete
            (9 ∷ [])
            s'.dispatched_event_ids
          ≡ some receipt))
acknowledged_stays_delivered_example =
    acknowledged_stays_delivered cart_outbox (9 ∷ []) cart_record
      ((cart_event ∷ []) ∷ order_events ∷ [])
      (record { receipts_map = tt; retained = omega arith; some_retained = omega arith }) (refl, tt)
      tt cart_9_pending

abbrev stale_cart_event : EventCommitCandidate ℕ
stale_cart_event = candidate 8 cart_1 2 0 1

cart_cursor_found :
    JsMap.get AddressKey-discrete (encode_aggregate_address cart_1) cart_outbox.source_cursors
    ≡ some cart_cursor
unfolding AddressKey-discrete
cart_cursor_found = refl

new_in_cart_outbox :
    (id : ℕ) → id ≢ 9 → JsMap.get JsString-discrete (id ∷ []) cart_outbox.pending ≡ none
new_in_cart_outbox id ne = ground arith

order_7_absent : HeadAt cart_outbox (encode_aggregate_address order_7) none
unfolding AddressKey-discrete
order_7_absent = tt

partial_room :
    assert_capacity cart_outbox (candidate 1 order_7 3 0 1 ∷ stale_cart_event ∷ []) ≡ ok tt
unfolding assert_capacity JsString-discrete AddressKey-discrete
partial_room = refl

stale_batch_is_partial_example :
    ((add cart_outbox (candidate 1 order_7 3 0 1 ∷ stale_cart_event ∷ [])).0
      ≡ throws (Error.stale_event (8 ∷ []) cart_1 2 4))
    × (events (add cart_outbox (candidate 1 order_7 3 0 1 ∷ stale_cart_event ∷ [])).1
        ≡ events cart_outbox ++ (candidate 1 order_7 3 0 1).event ∷ [])
stale_batch_is_partial_example =
    stale_batch_is_partial cart_outbox (candidate 1 order_7 3 0 1) stale_cart_event none cart_cursor
      (new_in_cart_outbox 1 (omega arith), refl, refl)
      (new_in_cart_outbox 8 (omega arith), refl, refl) (λ e. ground arith) order_7_absent refl
      (λ e. ground arith) cart_cursor_found (omega arith) partial_room
