-- ===== src/Snapshots/Room.antt =====
-- What expiry and `make_room` do to the map of snapshots.
use ddd_kit_ts.Base.{
  ℕ, ◌+◌, ◌≤◌, ◌<◌, ◌≡◌, ◌⊎◌, inl, inr, refl, Option, none, some, true, false, [], ◌∷◌, arith,
  Option-cases, Bool-cases,
}
use ddd_kit_ts.Base.Capacity.{Within}
use ddd_kit_ts.Base.JsMap
use ddd_kit_ts.Base.JsMap.{JsMap}
use ddd_kit_ts.Base.JsMap.Laws.{delete-IsMap, size-delete, get-delete_self}
use ddd_kit_ts.AggregateAddress.{AddressKey, AddressKey-discrete}
use ddd_kit_ts.Snapshots.{
  StoredSnapshot, is_expired, delete_expired, evict_oldest, is_full, make_room,
}

abbrev pub Positive : Option ℕ → Type 0
Positive none = Unit
Positive (some n) = 0 < n

module _ {S : Type 0} where
  pub get-delete_expired-none :
      (now : ℕ) (k : AddressKey) (m : JsMap AddressKey (StoredSnapshot S))
      → JsMap.get AddressKey-discrete k m ≡ none
      → JsMap.get AddressKey-discrete k (delete_expired now m) ≡ none
  unfolding delete_expired
  get-delete_expired-none now k [] h = refl
  get-delete_expired-none now k (e ∷ m) h = ground (arith, get-delete_expired-none now k m)

  pub delete_expired-IsMap :
      (now : ℕ) (m : JsMap AddressKey (StoredSnapshot S))
      → JsMap.IsMap AddressKey-discrete m
      → JsMap.IsMap AddressKey-discrete (delete_expired now m)
  unfolding delete_expired
  delete_expired-IsMap now [] v = tt
  delete_expired-IsMap now (e ∷ m) v = elim (Bool-cases (is_expired now e.1.expires_at_ms)) [
    | inl gone ↦ rw gone (delete_expired-IsMap now m v.1)
    | inr live ↦ rw live (get-delete_expired-none now e.0 m v.0, delete_expired-IsMap now m v.1)
  ]

  pub size-delete_expired-le :
      (now : ℕ) (m : JsMap AddressKey (StoredSnapshot S))
      → JsMap.size (delete_expired now m) ≤ JsMap.size m
  unfolding delete_expired
  size-delete_expired-le now [] = omega arith
  size-delete_expired-le now (e ∷ m) = ground (arith, size-delete_expired-le now m)

  -- The first entry goes.
  pub evict_oldest-tail :
      (e : AddressKey × StoredSnapshot S) (m : JsMap AddressKey (StoredSnapshot S))
      → evict_oldest (e ∷ m) ≡ m
  unfolding evict_oldest
  evict_oldest-tail e m = ground arith

  -- What `make_room` leaves: the map without the key, without its first entry, or as it was.
  pub make_room_cases :
      (limit : Option ℕ) (key : AddressKey) (m : JsMap AddressKey (StoredSnapshot S))
      → (((v : StoredSnapshot S) × (JsMap.get AddressKey-discrete key m ≡ some v))
          × (make_room limit key m ≡ JsMap.delete AddressKey-discrete key m))
        ⊎ ((JsMap.get AddressKey-discrete key m ≡ none)
            × (is_full limit (JsMap.size m) ≡ true)
            × (make_room limit key m ≡ evict_oldest m))
        ⊎ ((JsMap.get AddressKey-discrete key m ≡ none)
            × (is_full limit (JsMap.size m) ≡ false)
            × (make_room limit key m ≡ m))
  unfolding make_room
  make_room_cases limit key m = elim (Option-cases (JsMap.get AddressKey-discrete key m)) [
    | inr (v, found) ↦ inl ((v, found), ground arith)
    | inl absent ↦ elim (Bool-cases (is_full limit (JsMap.size m))) [
      | inl full ↦ inr (inl (absent, full, ground arith))
      | inr room ↦ inr (inr (absent, room, ground arith))
    ]
  ]

  pub evict_oldest-IsMap :
      (m : JsMap AddressKey (StoredSnapshot S))
      → JsMap.IsMap AddressKey-discrete m
      → JsMap.IsMap AddressKey-discrete (evict_oldest m)
  unfolding evict_oldest
  evict_oldest-IsMap [] v = tt
  evict_oldest-IsMap (e ∷ m) v = delete-IsMap AddressKey-discrete e.0 (e ∷ m) v

  pub evict_oldest-size :
      (limit : ℕ) (m : JsMap AddressKey (StoredSnapshot S))
      → 0 < limit
      → JsMap.size m ≤ limit
      → JsMap.size (evict_oldest m) + 1 ≤ limit
  unfolding evict_oldest
  evict_oldest-size limit [] pos le = omega arith
  evict_oldest-size limit (e ∷ m) pos le = rw (evict_oldest-tail e m) (omega (arith, le))

  pub make_room-IsMap :
      (limit : Option ℕ) (key : AddressKey) (m : JsMap AddressKey (StoredSnapshot S))
      → JsMap.IsMap AddressKey-discrete m
      → JsMap.IsMap AddressKey-discrete (make_room limit key m)
  make_room-IsMap limit key m v = elim (make_room_cases limit key m) [
    | inl (found, eq) ↦ rw eq (delete-IsMap AddressKey-discrete key m v)
    | inr (inl (absent, full, eq)) ↦ rw eq (evict_oldest-IsMap m v)
    | inr (inr (absent, room, eq)) ↦ rw eq v
  ]

  pub evict_oldest-absent :
      (key : AddressKey) (m : JsMap AddressKey (StoredSnapshot S))
      → JsMap.get AddressKey-discrete key m ≡ none
      → JsMap.get AddressKey-discrete key (evict_oldest m) ≡ none
  unfolding evict_oldest
  evict_oldest-absent key [] h = refl
  evict_oldest-absent key (e ∷ m) h = rw (evict_oldest-tail e m) (ground (arith, h))

  -- Afterwards the key is absent.
  pub make_room-absent :
      (limit : Option ℕ) (key : AddressKey) (m : JsMap AddressKey (StoredSnapshot S))
      → JsMap.IsMap AddressKey-discrete m
      → JsMap.get AddressKey-discrete key (make_room limit key m) ≡ none
  make_room-absent limit key m v = elim (make_room_cases limit key m) [
    | inl (found, eq) ↦ rw eq (get-delete_self AddressKey-discrete key m v)
    | inr (inl (absent, full, eq)) ↦ rw eq (evict_oldest-absent key m absent)
    | inr (inr (absent, room, eq)) ↦ rw eq absent
  ]

  -- Afterwards there is room for one entry more.
  pub make_room-Within :
      (limit : Option ℕ) (key : AddressKey) (m : JsMap AddressKey (StoredSnapshot S))
      → Positive limit
      → Within (JsMap.size m) limit
      → Within (JsMap.size (make_room limit key m) + 1) limit
  unfolding is_full
  make_room-Within none key m pos w = tt
  make_room-Within (some limit) key m pos w = elim (make_room_cases (some limit) key m) [
    | inl ((x, found), eq) ↦ rw (eq, size-delete AddressKey-discrete key x m found) w
    | inr (inl (absent, full, eq)) ↦ rw eq (evict_oldest-size limit m pos w)
    | inr (inr (absent, room, eq)) ↦ rw eq (ground (arith, room))
  ]
