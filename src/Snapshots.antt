-- ===== src/Snapshots.antt =====
-- src/repo/in-memory-snapshot-store.ts: the reference implementation of the snapshot port of
-- src/repo/snapshot-store.ts, with expiry and eviction. `now` is what the clock gives in the call,
-- in milliseconds, or none for an invalid date; `cloneable` says which snapshots `structuredClone`
-- copies, and a copy is an equal value.
pub mod Room
pub mod Invariant
pub mod Expiry
pub mod Recency
pub mod Survival
mod Tests
use ddd_kit_ts.Base.{
  ℕ, ◌+◌, Bool, true, false, not, Option, none, some, List, [], ◌∷◌, leb, if◌then◌else◌, Outcome,
  ok, throws, ◌>>=◌,
}
use ddd_kit_ts.Base.JsMap
use ddd_kit_ts.Base.JsMap.{JsMap}
use ddd_kit_ts.Base.JsNumber.{JsNumber, assert_optional_limit}
use ddd_kit_ts.AggregateAddress.{
  AggregateAddress, AddressKey, AddressKey-discrete, encode_aggregate_address,
}

-- The `AggregateSnapshot` of src/aggregate/aggregate.ts.
pub record AggregateSnapshot (S : Type 0) : Type 0 where
  pub state : S
  pub version : ℕ
  pub snapshot_at : ℕ
  pub schema_version : Option ℕ

pub record StoredSnapshot (S : Type 0) : Type 0 where
  pub snapshot : AggregateSnapshot S
  pub expires_at_ms : Option ℕ

pub data Error : Type 0 where
  invalid_option invalid_clock data_clone : Error

pub record InMemorySnapshotStore (S : Type 0) : Type 0 where
  pub snapshots : JsMap AddressKey (StoredSnapshot S)
  pub max_entries : Option ℕ
  pub ttl_ms : Option ℕ

-- `expiresAtMs !== undefined && now >= expiresAtMs`
unfoldable pub is_expired : ℕ → Option ℕ → Bool
is_expired now none = false
is_expired now (some expires_at) = leb expires_at now

-- `size >= maxEntries` for a limit that is set.
unfoldable pub is_full : Option ℕ → ℕ → Bool
is_full none size = false
is_full (some limit) size = leb limit size

abbrev pub Reply : Type 0 → Type 0 → Type 0
Reply S A = Outcome Error A × InMemorySnapshotStore S

module _ {S : Type 0} where
  unfoldable pub new : Option JsNumber → Option JsNumber → Outcome Error (InMemorySnapshotStore S)
  unfolding assert_optional_limit
  new max_entries ttl_ms = do
    limit ← assert_optional_limit invalid_option max_entries
    ttl ← assert_optional_limit invalid_option ttl_ms
    ok (record { snapshots = []; max_entries = limit; ttl_ms = ttl })

  -- A hit moves the entry to the end of the map.
  abbrev pub touch :
      AddressKey → StoredSnapshot S → InMemorySnapshotStore S → InMemorySnapshotStore S
  touch key stored s = record s {
    snapshots =
        JsMap.set AddressKey-discrete key stored (JsMap.delete AddressKey-discrete key s.snapshots);
  }

  abbrev pub drop_snapshot : AddressKey → InMemorySnapshotStore S → InMemorySnapshotStore S
  drop_snapshot key s = record s { snapshots = JsMap.delete AddressKey-discrete key s.snapshots }

  -- The clock is read only for an entry that can expire.
  load_at :
      InMemorySnapshotStore S
      → Option ℕ
      → AddressKey
      → StoredSnapshot S
      → Option ℕ
      → Reply S (Option (AggregateSnapshot S))
  unfolding is_expired
  load_at s now key stored none = (ok (some stored.snapshot), touch key stored s)
  load_at s none key stored (some e) = (throws invalid_clock, s)
  load_at s (some now) key stored (some e) =
      if is_expired now (some e)
      then (ok none, drop_snapshot key s)
      else (ok (some stored.snapshot), touch key stored s)

  unfoldable pub load :
      InMemorySnapshotStore S → Option ℕ → AggregateAddress → Reply S (Option (AggregateSnapshot S))
  unfolding load_at
  load s now a = elim (JsMap.get AddressKey-discrete (encode_aggregate_address a) s.snapshots) [
    | none ↦ (ok none, s)
    | some stored ↦ load_at s now (encode_aggregate_address a) stored stored.expires_at_ms
  ]

  unfoldable pub delete_expired :
      ℕ → JsMap AddressKey (StoredSnapshot S) → JsMap AddressKey (StoredSnapshot S)
  unfolding is_expired
  delete_expired now [] = []
  delete_expired now (e ∷ m) =
      let rest = delete_expired now m in if is_expired now e.1.expires_at_ms then rest else e ∷ rest

  -- `keys().next()` and the deletion of that key.
  unfoldable pub evict_oldest :
      JsMap AddressKey (StoredSnapshot S) → JsMap AddressKey (StoredSnapshot S)
  evict_oldest [] = []
  evict_oldest (e ∷ m) = JsMap.delete AddressKey-discrete e.0 (e ∷ m)

  -- The entries once there is room for the key.
  unfoldable pub make_room :
      Option ℕ
      → AddressKey
      → JsMap AddressKey (StoredSnapshot S)
      → JsMap AddressKey (StoredSnapshot S)
  unfolding evict_oldest is_full
  make_room limit key m =
      if JsMap.has AddressKey-discrete key m
      then JsMap.delete AddressKey-discrete key m
      else if is_full limit (JsMap.size m)
      then evict_oldest m
      else m

  abbrev pub write_snapshot :
      InMemorySnapshotStore S
      → JsMap AddressKey (StoredSnapshot S)
      → AddressKey
      → StoredSnapshot S
      → InMemorySnapshotStore S
  unfolding make_room
  write_snapshot s m key stored = record s {
    snapshots = JsMap.set AddressKey-discrete key stored (make_room s.max_entries key m);
  }

  save_at :
      InMemorySnapshotStore S
      → Option ℕ
      → AddressKey
      → AggregateSnapshot S
      → Option ℕ
      → Reply S (Unit {0})
  unfolding make_room delete_expired
  save_at s now key snapshot none = (
    ok tt,
    write_snapshot s s.snapshots key (record { snapshot = snapshot; expires_at_ms = none }),
  )
  save_at s none key snapshot (some ttl) = (throws invalid_clock, s)
  save_at s (some now) key snapshot (some ttl) = (
    ok tt,
    write_snapshot s (delete_expired now s.snapshots) key
        (record { snapshot = snapshot; expires_at_ms = some (now + ttl) }),
  )

  unfoldable pub save :
      (AggregateSnapshot S → Bool)
      → InMemorySnapshotStore S
      → Option ℕ
      → AggregateAddress
      → AggregateSnapshot S
      → Reply S (Unit {0})
  unfolding save_at
  save cloneable s now a snapshot =
      if not (cloneable snapshot)
      then (throws data_clone, s)
      else save_at s now (encode_aggregate_address a) snapshot s.ttl_ms

  unfoldable pub delete : InMemorySnapshotStore S → AggregateAddress → InMemorySnapshotStore S
  delete s a = drop_snapshot (encode_aggregate_address a) s
