-- ===== src/Snapshots/Recency.antt =====
-- The order of the entries: which ones stand behind a snapshot, and so are evicted after it.
use ddd_kit_ts.Base.{
  ℕ, ◌+◌, ◌++◌, ◌≤◌, ◌<◌, ◌≡◌, ◌≢◌, inl, inr, ap, ◌∙◌, none, some, [], ◌∷◌, arith, ite,
}
use ddd_kit_ts.Base.JsMap
use ddd_kit_ts.Base.JsMap.{JsMap}
use ddd_kit_ts.Base.JsMap.Laws.{get-set_ne, get-delete_ne, size-delete-le, set_absent}
use ddd_kit_ts.AggregateAddress.{AddressKey, AddressKey-discrete}
use ddd_kit_ts.Snapshots.{StoredSnapshot, InMemorySnapshotStore, evict_oldest, is_full, make_room}
use ddd_kit_ts.Snapshots.Expiry.{stored_at}
use ddd_kit_ts.Snapshots.Invariant.{IsValid}
use ddd_kit_ts.Snapshots.Room.{make_room_cases, evict_oldest-tail}

module _ {S : Type 0} where
  -- How many entries stand behind the key.
  abbrev pub behind : AddressKey → JsMap AddressKey (StoredSnapshot S) → ℕ
  behind k [] = 0
  behind k (e ∷ m) = ite (AddressKey-discrete e.0 k) (JsMap.size m) (behind k m)

  pub behind-delete-le :
      (j k : AddressKey) (m : JsMap AddressKey (StoredSnapshot S))
      → j ≢ k
      → behind k (JsMap.delete AddressKey-discrete j m) ≤ behind k m
  behind-delete-le j k [] ne = omega arith
  behind-delete-le j k (e ∷ m) ne =
      ground (arith, behind-delete-le j k m ne, size-delete-le AddressKey-discrete j m)

  pub size-append_one :
      (m : JsMap AddressKey (StoredSnapshot S)) (e : AddressKey × StoredSnapshot S)
      → JsMap.size (m ++ e ∷ []) ≡ JsMap.size m + 1
  size-append_one [] e = omega arith
  size-append_one (x ∷ m) e = omega (arith, size-append_one m e)

  pub behind-append :
      (j k : AddressKey) (x st : StoredSnapshot S) (m : JsMap AddressKey (StoredSnapshot S))
      → JsMap.get AddressKey-discrete k m ≡ some st
      → behind k (m ++ (j, x) ∷ []) ≡ behind k m + 1
  behind-append j k x st [] h = absurd (cc)
  behind-append j k x st (e ∷ m) h =
      ground (arith, behind-append j k x st m, size-append_one m (j, x))

  pub behind-append_self :
      (k : AddressKey) (x : StoredSnapshot S) (m : JsMap AddressKey (StoredSnapshot S))
      → JsMap.get AddressKey-discrete k m ≡ none
      → behind k (m ++ (k, x) ∷ []) ≡ 0
  behind-append_self k x [] h = ground arith
  behind-append_self k x (e ∷ m) h = ground (arith, behind-append_self k x m)

  -- The snapshot is there, does not expire, and has at most `i` entries behind it.
  abbrev pub Held : ℕ → AddressKey → StoredSnapshot S → ℕ → InMemorySnapshotStore S → Type 0
  Held limit k st i s =
      IsValid s
      × (s.ttl_ms ≡ none)
      × (s.max_entries ≡ some limit)
      × (stored_at k s ≡ some st)
      × (behind k s.snapshots ≤ i)

  -- A new entry of another address at the end of the map.
  pub appended :
      (j k : AddressKey) (x st : StoredSnapshot S) (i : ℕ) (m : JsMap AddressKey (StoredSnapshot S))
      → j ≢ k
      → JsMap.get AddressKey-discrete j m ≡ none
      → JsMap.get AddressKey-discrete k m ≡ some st
      → behind k m ≤ i
      → (JsMap.get AddressKey-discrete k (JsMap.set AddressKey-discrete j x m) ≡ some st)
        × (behind k (JsMap.set AddressKey-discrete j x m) ≤ i + 1)
  appended j k x st i m ne absent found le = (
    get-set_ne AddressKey-discrete j k x m ne ∙ found,
    rw (set_absent AddressKey-discrete j x m absent)
        (omega (arith, behind-append j k x st m found, le)),
  )

  -- Making room for another address does not evict the entry while it is not the last in line.
  pub make_room_keeps :
      (limit : ℕ) (j k : AddressKey) (st : StoredSnapshot S) (i : ℕ)
      (m : JsMap AddressKey (StoredSnapshot S))
      → j ≢ k
      → i + 1 < limit
      → JsMap.get AddressKey-discrete k m ≡ some st
      → behind k m ≤ i
      → (JsMap.get AddressKey-discrete k (make_room (some limit) j m) ≡ some st)
        × (behind k (make_room (some limit) j m) ≤ i)
  unfolding is_full evict_oldest
  make_room_keeps limit j k st i m ne lt found le = elim (make_room_cases (some limit) j m) [
    | inl (there, eq) ↦ (
      ap (JsMap.get AddressKey-discrete k) eq ∙ get-delete_ne AddressKey-discrete j k m ne ∙ found,
      rw eq (omega (arith, behind-delete-le j k m ne, le)),
    )
    | inr (inr (absent, room, eq)) ↦ rw eq (found, le)
    | inr (inl (absent, full, eq)) ↦ rw eq (evicted m found le (ground (arith, full)))
  ]
    where
      evicted :
          (m : JsMap AddressKey (StoredSnapshot S))
          → JsMap.get AddressKey-discrete k m ≡ some st
          → behind k m ≤ i
          → limit ≤ JsMap.size m
          → (JsMap.get AddressKey-discrete k (evict_oldest m) ≡ some st)
            × (behind k (evict_oldest m) ≤ i)
      evicted [] h b f = absurd (cc)
      evicted (e ∷ m) h b f = rw (evict_oldest-tail e m) (ground arith)
