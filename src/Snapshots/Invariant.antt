-- ===== src/Snapshots/Invariant.antt =====
-- What holds of a snapshot store between two calls, and that every call keeps it.
use ddd_kit_ts.Base.{
  ℕ, ◌+◌, ◌≤◌, ◌≡◌, ◌⊎◌, inl, inr, refl, Option, none, some, Bool, arith, leb, Option-cases,
  Bool-cases,
}
use ddd_kit_ts.Base.Capacity.{Within, Within-anti}
use ddd_kit_ts.Base.JsMap
use ddd_kit_ts.Base.JsMap.{JsMap}
use ddd_kit_ts.Base.JsMap.Laws.{
  set-IsMap, delete-IsMap, size-set_new, size-delete, size-delete-le, get-delete_self,
}
use ddd_kit_ts.AggregateAddress.{
  AggregateAddress, AddressKey, AddressKey-discrete, encode_aggregate_address,
}
use ddd_kit_ts.Snapshots.{
  AggregateSnapshot, StoredSnapshot, InMemorySnapshotStore, touch, drop_snapshot, is_expired, load,
  load_at, delete_expired, make_room, save, save_at, delete,
}
use ddd_kit_ts.Snapshots.Room.{
  Positive, delete_expired-IsMap, size-delete_expired-le, make_room-IsMap, make_room-absent,
  make_room-Within,
}

-- One snapshot for each address and no more of them than the limit.
pub record IsValid {S : Type 0} (s : InMemorySnapshotStore S) : Type 0 where
  pub is_map : JsMap.IsMap AddressKey-discrete s.snapshots
  pub bounded : Within (JsMap.size s.snapshots) s.max_entries
  pub some_entry : Positive s.max_entries

module _ {S : Type 0} where
  -- A write into a map within the limit.
  pub written-IsValid :
      (s : InMemorySnapshotStore S) (key : AddressKey) (stored : StoredSnapshot S)
      (m : JsMap AddressKey (StoredSnapshot S))
      → JsMap.IsMap AddressKey-discrete m
      → JsMap.size m ≤ JsMap.size s.snapshots
      → IsValid s
      → IsValid (record s {
        snapshots = JsMap.set AddressKey-discrete key stored (make_room s.max_entries key m);
      })
  written-IsValid s key stored m v le valid =
      let absent = make_room-absent s.max_entries key m v in
      let room =
        make_room-Within s.max_entries key m valid.some_entry
          (Within-anti (JsMap.size m) (JsMap.size s.snapshots) s.max_entries le valid.bounded) in
      record {
        is_map =
            set-IsMap AddressKey-discrete key stored (make_room s.max_entries key m)
              (make_room-IsMap s.max_entries key m v);
        bounded = rw (size-set_new AddressKey-discrete key stored _ absent) room;
        some_entry = valid.some_entry;
      }

  save_at-IsValid :
      (s : InMemorySnapshotStore S) (now ttl : Option ℕ) (key : AddressKey)
      (snapshot : AggregateSnapshot S)
      → IsValid s
      → IsValid (save_at s now key snapshot ttl).1
  unfolding save_at
  save_at-IsValid s now none key snapshot v =
      written-IsValid s key (record { snapshot = snapshot; expires_at_ms = none }) s.snapshots
        v.is_map (omega arith) v
  save_at-IsValid s none (some ttl) key snapshot v = v
  save_at-IsValid s (some now) (some ttl) key snapshot v =
      written-IsValid s key (record { snapshot = snapshot; expires_at_ms = some (now + ttl) })
        (delete_expired now s.snapshots) (delete_expired-IsMap now s.snapshots v.is_map)
        (size-delete_expired-le now s.snapshots) v

  -- Saving keeps the invariant, whatever it throws.
  pub save-IsValid :
      (cloneable : AggregateSnapshot S → Bool) (s : InMemorySnapshotStore S) (now : Option ℕ)
      (a : AggregateAddress) (snapshot : AggregateSnapshot S)
      → IsValid s
      → IsValid (save cloneable s now a snapshot).1
  unfolding save
  save-IsValid cloneable s now a snapshot v = elim (Bool-cases (cloneable snapshot)) [
    | inr lost ↦ rw (lost, save) v
    | inl copied ↦
        rw (copied, save) (save_at-IsValid s now s.ttl_ms (encode_aggregate_address a) snapshot v)
  ]

  -- Moving an entry to the end keeps the number of entries.
  touch-IsValid :
      (s : InMemorySnapshotStore S) (key : AddressKey) (stored : StoredSnapshot S)
      → JsMap.get AddressKey-discrete key s.snapshots ≡ some stored
      → IsValid s
      → IsValid (touch key stored s)
  touch-IsValid s key stored found v = record {
    is_map =
        set-IsMap AddressKey-discrete key stored (JsMap.delete AddressKey-discrete key s.snapshots)
          (delete-IsMap AddressKey-discrete key s.snapshots v.is_map);
    bounded =
        rw
          (
            size-set_new AddressKey-discrete key stored
                (JsMap.delete AddressKey-discrete key s.snapshots)
                (get-delete_self AddressKey-discrete key s.snapshots v.is_map),
            size-delete AddressKey-discrete key stored s.snapshots found,
          )
          v.bounded;
    some_entry = v.some_entry;
  }

  drop-IsValid :
      (s : InMemorySnapshotStore S) (key : AddressKey) → IsValid s → IsValid (drop_snapshot key s)
  drop-IsValid s key v = record {
    is_map = delete-IsMap AddressKey-discrete key s.snapshots v.is_map;
    bounded =
        Within-anti _ (JsMap.size s.snapshots) s.max_entries
          (size-delete-le AddressKey-discrete key s.snapshots) v.bounded;
    some_entry = v.some_entry;
  }

  -- Deleting keeps the invariant.
  pub delete-IsValid :
      (s : InMemorySnapshotStore S) (a : AggregateAddress) → IsValid s → IsValid (delete s a)
  unfolding delete
  delete-IsValid s a v = drop-IsValid s (encode_aggregate_address a) v

  load_at_cases :
      (s : InMemorySnapshotStore S) (now e : Option ℕ) (key : AddressKey)
      (stored : StoredSnapshot S)
      → ((load_at s now key stored e).1 ≡ s)
        ⊎ (((load_at s now key stored e).1 ≡ drop_snapshot key s)
            × (n : ℕ) × (x : ℕ) × (now ≡ some n)
            × (e ≡ some x)
            × (x ≤ n))
        ⊎ ((load_at s now key stored e).1 ≡ touch key stored s)
  unfolding load_at is_expired
  load_at_cases s now none key stored = inr (inr refl)
  load_at_cases s none (some e) key stored = inl refl
  load_at_cases s (some now) (some e) key stored = elim (Bool-cases (leb e now)) [
    | inl expired ↦
        inr (inl (rw (expired, load_at) refl, now, e, refl, refl, ground (arith, expired)))
    | inr live ↦ inr (inr (rw (live, load_at)))
  ]

  -- What a load does to the store: nothing, or it drops an expired entry, or it moves one.
  pub load_cases :
      (s : InMemorySnapshotStore S) (now : Option ℕ) (a : AggregateAddress)
      → ((load s now a).1 ≡ s)
        ⊎ (stored : StoredSnapshot S) × (JsMap.get AddressKey-discrete
              (encode_aggregate_address a)
              s.snapshots
            ≡ some stored)
          × ((((load s now a).1 ≡ drop_snapshot (encode_aggregate_address a) s)
                × (n : ℕ) × (x : ℕ) × (now ≡ some n)
                × (stored.expires_at_ms ≡ some x)
                × (x ≤ n))
              ⊎ ((load s now a).1 ≡ touch (encode_aggregate_address a) stored s))
  unfolding load
  load_cases s now a =
      elim (Option-cases (JsMap.get AddressKey-discrete (encode_aggregate_address a) s.snapshots)) [
        | inl absent ↦ inl (rw (absent, load))
        | inr (stored, found) ↦
            elim (load_at_cases s now stored.expires_at_ms (encode_aggregate_address a) stored) [
              | inl same ↦ inl (rw (found, load) same)
              | inr (inl (dropped, n, x, now_is, exp_is, le)) ↦
                  inr (stored, found, inl (rw (found, load) dropped, n, x, now_is, exp_is, le))
              | inr (inr moved) ↦ inr (stored, found, inr (rw (found, load) moved))
            ]
      ]

  -- Loading keeps the invariant.
  pub load-IsValid :
      (s : InMemorySnapshotStore S) (now : Option ℕ) (a : AggregateAddress)
      → IsValid s
      → IsValid (load s now a).1
  load-IsValid s now a v = elim (load_cases s now a) [
    | inl same ↦ rw same v
    | inr (stored, found, inl (dropped, n, x, now_is, exp_is, le)) ↦
        rw dropped (drop-IsValid s (encode_aggregate_address a) v)
    | inr (stored, found, inr moved) ↦
        rw moved (touch-IsValid s (encode_aggregate_address a) stored found v)
  ]
