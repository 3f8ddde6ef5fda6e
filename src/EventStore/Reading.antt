-- ===== src/EventStore/Reading.antt =====
-- Reads: one page, and the loop over pages that the port documents for loading an aggregate
-- (src/repo/event-store.ts, the example of `EventStore`).
use mathlib.Core.Option
use ddd_kit_ts.Base.{
  ℕ, zero, suc, ◌+◌, ◌-◌, ◌<◌, ◌≤◌, ◌≡◌, refl, some, List, [], ◌++◌, arith, length, take, drop, min,
  length-drop, length-take, take_of_length-le, drop_of_length-le, take-append-drop, drop-add,
  drop-length-take, dec_le, sym, ap, ◌∙◌, ok, throws, true, Outcome, ◌>>=◌, Option, none, ◌≢◌,
  get_or, not, if◌then◌else◌, ◌==◌, ℕ_discrete,
}
use ddd_kit_ts.Base.JsNumber.{JsNumber, max_safe_integer}
use ddd_kit_ts.AggregateAddress.{AggregateAddress}
use ddd_kit_ts.EventStore.{
  InMemoryEventStore, Error, StreamReadResult, ReadStreamOptions, stored, slice, read_stream,
}

abbrev page_options : ℕ → ℕ → Option ℕ → ReadStreamOptions
page_options limit from target = record {
  limit = JsNumber.int limit;
  from_version = some (JsNumber.int from);
  to_version = Option.map JsNumber.int target;
}

-- The loop ends in an error of the store, or because a page did not move it on.
pub data LoadError : Type 0 where
  store_error : Error → LoadError
  non_progressing : LoadError

module _ {Evt : Type 0} (s : InMemoryEventStore Evt) (stream : AggregateAddress) where
  -- A page of a stream that exists, for options in range. Without a target it ends at the head.
  read_stream_page :
      (events : List Evt) (limit from : ℕ) (target : Option ℕ)
      → stored s stream ≡ some events
      → 0 < limit
      → limit ≤ max_safe_integer
      → from ≤ max_safe_integer
      → get_or target 0 ≤ max_safe_integer
      → read_stream s stream (page_options limit from target)
        ≡ ok (record {
          exists = true;
          last_version = length events;
          events = slice from (min (get_or target (length events)) (from + limit)) events;
        })
  unfolding read_stream
  read_stream_page events limit from none e p q r t = ground arith
  read_stream_page events limit from (some to) e p q r t = ground arith

  -- The rest of one round, after its page has been read.
  after_page :
      StreamReadResult Evt
      → (ℕ → Outcome LoadError (Option (List Evt)))
      → ℕ
      → Option ℕ
      → Outcome LoadError (Option (List Evt))
  after_page page rest from target =
      if not page.exists
      then ok none
      else if from == get_or target page.last_version
      then ok (some [])
      else if length page.events == 0
      then throws non_progressing
      else rest (from + length page.events) >>= λ more.
          ok (Option.map (λ later. page.events ++ later) more)

  after_page_done :
      (page : StreamReadResult Evt) (rest : ℕ → Outcome LoadError (Option (List Evt))) (from : ℕ)
      → page.exists ≡ true
      → after_page page rest from (some from) ≡ ok (some [])
  unfolding after_page
  after_page_done page rest from e = ground arith

  after_page_more :
      (page : StreamReadResult Evt) (rest : ℕ → Outcome LoadError (Option (List Evt)))
      (from head : ℕ) (more : List Evt)
      → page.exists ≡ true
      → from ≢ head
      → 0 < length page.events
      → rest (from + length page.events) ≡ ok (some more)
      → after_page page rest from (some head) ≡ ok (some (page.events ++ more))
  unfolding after_page
  after_page_more page rest from head more e ne p h = ground arith

  -- The loop of the documented `findById`: reads pages of `limit` events, the first page's head
  -- pinned as the target, until the target is reached. `none` is a stream that does not exist.
  pub load_stream : (limit fuel from : ℕ) → Option ℕ → Outcome LoadError (Option (List Evt))
  unfolding after_page
  load_stream limit zero from target = throws non_progressing
  load_stream limit (suc fuel) from target =
      let rest = λ (head n : ℕ). load_stream limit fuel n (some head) in
      elim (read_stream s stream (page_options limit from target)) [
        | throws e ↦ throws (store_error e)
        | ok page ↦ after_page page (rest (get_or target page.last_version)) from target
      ]

  module _ (events : List Evt) (limit : ℕ) (found : stored s stream ≡ some events) where
    -- The page at a version is the next `limit` events.
    page_at :
        (from : ℕ)
        → from ≤ length events
        → slice from (min (length events) (from + limit)) events ≡ take limit (drop from events)
    unfolding slice
    page_at from h = elim (dec_le (from + limit) (length events)) [
      | yes fits ↦
          let e : min (length events) (from + limit) - from ≡ limit = omega arith in rw e refl
      | no over ↦
          let e : min (length events) (from + limit) - from ≡ length events - from = omega arith in
          let rest : length (drop from events) ≡ length events - from = length-drop from events in
          rw e (
            take_of_length-le (length events - from) (drop from events) (omega (arith, rest))
            ∙ sym (take_of_length-le limit (drop from events) (omega (arith, rest))))
    ]

    -- With no target yet, a round does what it does with the head as its target.
    load_stream_pins :
        (fuel from : ℕ)
        → 0 < limit
        → limit ≤ max_safe_integer
        → length events ≤ max_safe_integer
        → from ≤ length events
        → load_stream limit (suc fuel) from none
          ≡ load_stream limit (suc fuel) from (some (length events))
    unfolding load_stream
    load_stream_pins fuel from p q r f = rw (
      read_stream_page events limit from none found p q (omega arith) (omega arith),
      read_stream_page events limit from (some (length events)) found p q (omega arith) r,
      load_stream,
    )

    -- One round, in closed form.
    load_stream_step :
        (fuel from : ℕ)
        → 0 < limit
        → limit ≤ max_safe_integer
        → length events ≤ max_safe_integer
        → from ≤ length events
        → load_stream limit (suc fuel) from (some (length events))
          ≡ after_page
              (record {
                exists = true;
                last_version = length events;
                events = take limit (drop from events);
              })
              (λ n. load_stream limit fuel n (some (length events)))
              from
              (some (length events))
    unfolding load_stream
    load_stream_step fuel from p q r f = rw (
      read_stream_page events limit from (some (length events)) found p q (omega arith) r,
      load_stream,
      page_at from f,
    )

    load_stream_from :
        (fuel from : ℕ)
        → 0 < limit
        → limit ≤ max_safe_integer
        → length events ≤ max_safe_integer
        → from ≤ length events
        → length events - from < fuel
        → load_stream limit fuel from (some (length events)) ≡ ok (some (drop from events))
    load_stream_from zero from p q r f h = absurd (omega arith)
    load_stream_from (suc fuel) from p q r f h =
        load_stream_step fuel from p q r f ∙ elim (ℕ_discrete from (length events)) [
          | yes done ↦ rw (← done) (
              after_page_done _ _ from refl
              ∙ ap (λ l. ok (some l)) (sym (drop_of_length-le from events (omega arith))))
          | no ne ↦
              after_page_more _ _ from (length events) (drop (from + length page) events) refl ne
                (omega (arith, size))
                (load_stream_from fuel (from + length page) p q r (omega (arith, size))
                  (omega (arith, size)))
              ∙ ap (λ l. ok (some l)) next
        ]
      where
        page : List Evt
        page = take limit (drop from events)

        size : length page ≡ min limit (length events - from)
        size = rw (length-take limit (drop from events), length-drop from events)

        next : page ++ drop (from + length page) events ≡ drop from events
        next =
            rw (drop-add from (length page) events, drop-length-take limit (drop from events))
              (take-append-drop limit (drop from events))

  -- Reading page by page from version 0, whatever the page size, gives the whole stream in order
  -- within one read more than the stream has events; it neither stops early nor fails to move on.
  pub load_stream_complete :
      (events : List Evt) (limit : ℕ)
      → stored s stream ≡ some events
      → 0 < limit
      → limit ≤ max_safe_integer
      → length events ≤ max_safe_integer
      → load_stream limit (length events + 1) 0 none ≡ ok (some events)
  load_stream_complete events limit found p q r =
      let e : length events + 1 ≡ suc (length events) = omega arith in
      rw e (
        load_stream_pins events limit found (length events) 0 p q r (omega arith)
        ∙ load_stream_from events limit found (suc (length events)) 0 p q r (omega arith)
            (omega arith))
