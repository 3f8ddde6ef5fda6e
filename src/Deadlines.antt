-- ===== src/Deadlines.antt =====
-- src/deadlines/in-memory-deadline-store.ts: the reference implementation of the deadline port of
-- src/deadlines/deadline-store.ts. Times are milliseconds since 1970 of valid dates; `cloneable`
-- says which payloads `structuredClone` copies, and a copy is an equal value.
pub mod Order
pub mod Address
pub mod Invariant
pub mod Preservation
pub mod Delivery
pub mod Retries
pub mod Reachable
mod Tests
use ddd_kit_ts.Base.{
  ℕ, ◌+◌, Bool, true, false, not, Option, none, some, List, [], ◌∷◌, ◌++◌, map, take, ltb, leb,
  ◌==◌, if◌then◌else◌, Outcome, ok, throws, ◌>>=◌, get_or,
}
use ddd_kit_ts.Base.Capacity.{CapacityExceeded, over_limit}
use ddd_kit_ts.Base.Decimal.{decimal}
use ddd_kit_ts.Base.JsMap
use ddd_kit_ts.Base.JsMap.{JsMap}
use ddd_kit_ts.Base.JsNumber.{JsNumber, assert_optional_limit, assert_positive_integer}
use ddd_kit_ts.Base.JsString.{JsString, JsString-discrete, str_eq}

pub data Resource : Type 0 where
  records_held : Resource

-- `invalid_limit` and `invalid_option` are the plain errors of the guards.
pub data Error : Type 0 where
  capacity_exceeded : CapacityExceeded Resource → Error
  invalid_limit invalid_option data_clone : Error

pub record StoredDeadline (P : Type 0) : Type 0 where
  pub delivery_id : JsString
  pub scope : JsString
  pub key : JsString
  pub due_at : ℕ
  pub payload : P
  pub attempts : ℕ
  pub sequence : ℕ
  pub last_error : Option JsString

pub record DueDeadline (P : Type 0) : Type 0 where
  pub delivery_id : JsString
  pub scope : JsString
  pub key : JsString
  pub due_at : ℕ
  pub payload : P
  pub attempts : ℕ

pub record DeadLetterDeadline (P : Type 0) : Type 0 where
  pub record_of : DueDeadline P
  pub last_error : Option JsString

pub record InMemoryDeadlineStore (P : Type 0) : Type 0 where
  pub pending : JsMap JsString (StoredDeadline P)
  pub dead : JsMap JsString (StoredDeadline P)
  pub max_delivery_attempts : ℕ
  pub max_records : Option ℕ
  pub next_sequence : ℕ

-- `${scope}\u0000${key}`
abbrev pub address : JsString → JsString → JsString
address scope key = scope ++ (0 ∷ key)

-- `deadline-${sequence}`
unfoldable pub delivery_id_of : ℕ → JsString
delivery_id_of sequence =
    b'd' ∷ b'e' ∷ b'a' ∷ b'd' ∷ b'l' ∷ b'i' ∷ b'n' ∷ b'e' ∷ b'-' ∷ decimal sequence

module _ {P : Type 0} where
  unfoldable pub new : Option JsNumber → Option JsNumber → Outcome Error (InMemoryDeadlineStore P)
  unfolding assert_optional_limit assert_positive_integer
  new max_delivery_attempts max_records = do
    max ← assert_positive_integer invalid_option (get_or max_delivery_attempts (JsNumber.int 5))
    limit ← assert_optional_limit invalid_option max_records
    ok (record {
      pending = [];
      dead = [];
      max_delivery_attempts = max;
      max_records = limit;
      next_sequence = 0;
    })

  abbrev pub records : InMemoryDeadlineStore P → ℕ
  records s = JsMap.size s.pending + JsMap.size s.dead

  -- The capacity check runs only for an address that is not pending.
  schedule_room : InMemoryDeadlineStore P → JsString → Option (CapacityExceeded Resource)
  schedule_room s a =
      if JsMap.has JsString-discrete a s.pending
      then none
      else over_limit records_held s.max_records (records s) 1

  unfoldable pub schedule :
      (P → Bool)
      → InMemoryDeadlineStore P
      → (scope key : JsString) → (due_at : ℕ) → P
      → Outcome Error (Unit {0}) × InMemoryDeadlineStore P
  unfolding schedule_room
  schedule cloneable s scope key due_at payload = elim (schedule_room s (address scope key)) [
    | some full ↦ (throws (capacity_exceeded full), s)
    | none ↦
        let s' = record s { next_sequence = s.next_sequence + 1 } in
        if not (cloneable payload) then (throws data_clone, s') else (
          ok tt,
          record s' {
            pending =
                JsMap.set JsString-discrete (address scope key)
                  (record {
                    delivery_id = delivery_id_of s.next_sequence;
                    scope = scope;
                    key = key;
                    due_at = due_at;
                    payload = payload;
                    attempts = 0;
                    sequence = s.next_sequence;
                    last_error = none;
                  })
                  s.pending;
          },
        )
  ]

  unfoldable pub cancel : InMemoryDeadlineStore P → JsString → JsString → InMemoryDeadlineStore P
  cancel s scope key = record s {
    pending = JsMap.delete JsString-discrete (address scope key) s.pending;
  }

  unfoldable pub to_record : StoredDeadline P → DueDeadline P
  to_record d = record {
    delivery_id = d.delivery_id;
    scope = d.scope;
    key = d.key;
    due_at = d.due_at;
    payload = d.payload;
    attempts = d.attempts;
  }

  unfoldable pub to_dead_letter : StoredDeadline P → DeadLetterDeadline P
  unfolding to_record
  to_dead_letter d = record { record_of = to_record d; last_error = d.last_error }

  -- `deadline.dueAt.getTime() <= now.getTime()` over the pending records.
  unfoldable pub due_now : ℕ → List (StoredDeadline P) → List (StoredDeadline P)
  due_now now [] = []
  due_now now (d ∷ ds) = let rest = due_now now ds in if leb d.due_at now then d ∷ rest else rest

  -- The comparison of `due`: by due time, then by scheduling order.
  unfoldable pub before_or_same : StoredDeadline P → StoredDeadline P → Bool
  before_or_same a b =
      if a.due_at == b.due_at then leb a.sequence b.sequence else ltb a.due_at b.due_at

  unfoldable pub by_sequence : StoredDeadline P → StoredDeadline P → Bool
  by_sequence a b = leb a.sequence b.sequence

  -- `Array.prototype.sort` with a comparison: a stable sort.
  unfoldable pub insert_by :
      (StoredDeadline P → StoredDeadline P → Bool)
      → StoredDeadline P
      → List (StoredDeadline P)
      → List (StoredDeadline P)
  insert_by le x [] = x ∷ []
  insert_by le x (y ∷ ys) = let rest = insert_by le x ys in if le x y then x ∷ y ∷ ys else y ∷ rest

  unfoldable pub sort_by :
      (StoredDeadline P → StoredDeadline P → Bool)
      → List (StoredDeadline P)
      → List (StoredDeadline P)
  unfolding insert_by
  sort_by le [] = []
  sort_by le (x ∷ xs) = insert_by le x (sort_by le xs)

  unfoldable pub due : InMemoryDeadlineStore P → ℕ → JsNumber → Outcome Error (List (DueDeadline P))
  unfolding due_now before_or_same sort_by to_record
  due s now (JsNumber.int limit) =
      if limit == 0
      then ok []
      else ok (
          map to_record
            (take limit (sort_by before_or_same (due_now now (JsMap.values s.pending)))))
  due s now _ = throws invalid_limit

  -- The loops over the pending records that look for a delivery id.
  unfoldable pub find_delivery :
      JsString → JsMap JsString (StoredDeadline P) → Option (JsString × StoredDeadline P)
  find_delivery id [] = none
  find_delivery id (e ∷ m) =
      let rest = find_delivery id m in if str_eq e.1.delivery_id id then some (e.0, e.1) else rest

  deliver_pending :
      Option (JsString × StoredDeadline P)
      → JsMap JsString (StoredDeadline P)
      → JsMap JsString (StoredDeadline P)
  deliver_pending none m = m
  deliver_pending (some (k, d)) m = JsMap.delete JsString-discrete k m

  unfoldable pub mark_delivered : InMemoryDeadlineStore P → List JsString → InMemoryDeadlineStore P
  unfolding find_delivery deliver_pending
  mark_delivered s [] = s
  mark_delivered s (id ∷ ids) =
      mark_delivered
        (record s {
          dead = JsMap.delete JsString-discrete id s.dead;
          pending = deliver_pending (find_delivery id s.pending) s.pending;
        })
        ids

  -- The failed record: one attempt more, and the error's text if one was reported.
  unfoldable pub failed : StoredDeadline P → Option JsString → StoredDeadline P
  failed d none = record d { attempts = d.attempts + 1 }
  failed d (some e) = record d { attempts = d.attempts + 1; last_error = some e }

  mark_failed_at :
      InMemoryDeadlineStore P
      → Option JsString
      → Option (JsString × StoredDeadline P)
      → Option (DeadLetterDeadline P) × InMemoryDeadlineStore P
  unfolding failed to_dead_letter
  mark_failed_at s error none = (none, s)
  mark_failed_at s error (some (k, d)) =
      let d' = failed d error in
      if leb s.max_delivery_attempts d'.attempts
      then (
        some (to_dead_letter d'),
        record s {
          pending = JsMap.delete JsString-discrete k s.pending;
          dead = JsMap.set JsString-discrete d.delivery_id d' s.dead;
        },
      )
      else (none, record s { pending = JsMap.set JsString-discrete k d' s.pending })

  unfoldable pub mark_failed :
      InMemoryDeadlineStore P
      → JsString
      → Option JsString
      → Option (DeadLetterDeadline P) × InMemoryDeadlineStore P
  unfolding mark_failed_at find_delivery
  mark_failed s id error = mark_failed_at s error (find_delivery id s.pending)

  unfoldable pub dead_letters : InMemoryDeadlineStore P → List (DeadLetterDeadline P)
  unfolding sort_by by_sequence to_dead_letter
  dead_letters s = map to_dead_letter (sort_by by_sequence (JsMap.values s.dead))
