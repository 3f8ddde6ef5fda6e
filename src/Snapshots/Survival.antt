-- ===== src/Snapshots/Survival.antt =====
-- Eviction takes the least recently used snapshot: what a snapshot that was just saved outlives.
use ddd_kit_ts.Base.{
  ℕ, ◌+◌, ◌≤◌, ◌<◌, ◌≡◌, ◌≢◌, inl, inr, refl, sym, ap, ◌∙◌, Option, none, some, Bool, List, [], ◌∷◌,
  arith, All, Bool-cases, ok, length,
}
use ddd_kit_ts.Base.JsMap
use ddd_kit_ts.Base.JsMap.{JsMap}
use ddd_kit_ts.Base.JsMap.Laws.{get-set_self, get-delete_ne, get-delete_self, set_absent}
use ddd_kit_ts.AggregateAddress.{
  AggregateAddress, AddressKey, AddressKey-discrete, encode_aggregate_address,
  encode_aggregate_address-inj,
}
use ddd_kit_ts.Snapshots.{
  AggregateSnapshot, StoredSnapshot, InMemorySnapshotStore, load, load_at, make_room, save, save_at,
  delete,
}
use ddd_kit_ts.Snapshots.Expiry.{stored_at}
use ddd_kit_ts.Snapshots.Invariant.{IsValid, load_cases, load-IsValid, save-IsValid, delete-IsValid}
use ddd_kit_ts.Snapshots.Room.{make_room-absent}
use ddd_kit_ts.Snapshots.Recency.{
  behind, Held, behind-delete-le, behind-append_self, appended, make_room_keeps,
}

-- The calls of the store, with the time of the clock.
pub data Call (S : Type 0) : Type 0 where
  load_call : Option ℕ → AggregateAddress → Call S
  save_call : Option ℕ → AggregateAddress → AggregateSnapshot S → Call S
  delete_call : AggregateAddress → Call S

module _ {S : Type 0} where
  abbrev pub address_of : Call S → AggregateAddress
  address_of (load_call now a) = a
  address_of (save_call now a snapshot) = a
  address_of (delete_call a) = a

  load_keeps :
      (limit : ℕ) (k : AddressKey) (st : StoredSnapshot S) (i : ℕ) (s : InMemorySnapshotStore S)
      (now : Option ℕ) (a : AggregateAddress)
      → encode_aggregate_address a ≢ k
      → Held limit k st i s
      → Held limit k st (i + 1) (load s now a).1
  load_keeps limit k st i s now a ne (v, ttl, max, found, le) =
      let j : AddressKey = encode_aggregate_address a in
      let v' : IsValid (load s now a).1 = load-IsValid s now a v in
      let without : behind k (JsMap.delete AddressKey-discrete j s.snapshots) ≤ i =
        omega (arith, behind-delete-le j k s.snapshots ne, le) in
      let still : JsMap.get AddressKey-discrete k (JsMap.delete AddressKey-discrete j s.snapshots)
          ≡ some st =
        get-delete_ne AddressKey-discrete j k s.snapshots ne ∙ found in
      elim (load_cases s now a) [
        | inl same ↦ (
          v',
          ap (λ x. x.ttl_ms) same ∙ ttl,
          ap (λ x. x.max_entries) same ∙ max,
          ap (stored_at k) same ∙ found,
          rw same (omega (arith, le)),
        )
        | inr (other, at, inl (dropped, n, x, now_is, exp_is, late)) ↦ (
          v',
          ap (λ x. x.ttl_ms) dropped ∙ ttl,
          ap (λ x. x.max_entries) dropped ∙ max,
          ap (stored_at k) dropped ∙ still,
          rw dropped (omega (arith, without)),
        )
        | inr (other, at, inr moved) ↦
            let (there, few) =
              appended j k other st i (JsMap.delete AddressKey-discrete j s.snapshots) ne
                (get-delete_self AddressKey-discrete j s.snapshots v.is_map) still without in
            (
              v',
              ap (λ x. x.ttl_ms) moved ∙ ttl,
              ap (λ x. x.max_entries) moved ∙ max,
              ap (stored_at k) moved ∙ there,
              rw moved few,
            )
      ]

  save_at_eternal :
      (s : InMemorySnapshotStore S) (now : Option ℕ) (j : AddressKey)
      (snapshot : AggregateSnapshot S) (ttl : Option ℕ)
      → ttl ≡ none
      → (save_at s now j snapshot ttl).1 ≡ record s {
        snapshots =
            JsMap.set AddressKey-discrete j
              (record { snapshot = snapshot; expires_at_ms = none })
              (make_room s.max_entries j s.snapshots);
      }
  unfolding save_at
  save_at_eternal s now j snapshot none h = refl
  save_at_eternal s now j snapshot (some t) h = absurd (cc)

  save_keeps :
      (cloneable : AggregateSnapshot S → Bool) (limit : ℕ) (k : AddressKey) (st : StoredSnapshot S)
      (i : ℕ) (s : InMemorySnapshotStore S) (now : Option ℕ) (a : AggregateAddress)
      (snapshot : AggregateSnapshot S)
      → encode_aggregate_address a ≢ k
      → i + 1 < limit
      → Held limit k st i s
      → Held limit k st (i + 1) (save cloneable s now a snapshot).1
  unfolding save
  save_keeps cloneable limit k st i s now a snapshot ne lt (v, ttl, max, found, le) =
      let v' : IsValid (save cloneable s now a snapshot).1 =
        save-IsValid cloneable s now a snapshot v in
      elim (Bool-cases (cloneable snapshot)) [
        | inr lost ↦
            let same : (save cloneable s now a snapshot).1 ≡ s = rw (lost, save) refl in
            (
              v',
              ap (λ x. x.ttl_ms) same ∙ ttl,
              ap (λ x. x.max_entries) same ∙ max,
              ap (stored_at k) same ∙ found,
              rw same (omega (arith, le)),
            )
        | inl copied ↦
            let j : AddressKey = encode_aggregate_address a in
            let new : StoredSnapshot S = record { snapshot = snapshot; expires_at_ms = none } in
            let run : save cloneable s now a snapshot ≡ save_at s now j snapshot s.ttl_ms =
              rw (copied, save) refl in
            let wrote : (save cloneable s now a snapshot).1 ≡ record s {
              snapshots =
                  JsMap.set AddressKey-discrete j new (make_room s.max_entries j s.snapshots);
            } =
              ap (λ r. r.1) run ∙ save_at_eternal s now j snapshot s.ttl_ms ttl in
            let (still, few) = make_room_keeps limit j k st i s.snapshots ne lt found le in
            let (there, few') =
              appended j k new st i (make_room (some limit) j s.snapshots) ne
                (make_room-absent (some limit) j s.snapshots v.is_map) still few in
            (
              v',
              ap (λ x. x.ttl_ms) wrote ∙ ttl,
              ap (λ x. x.max_entries) wrote ∙ max,
              ap (stored_at k) wrote ∙ rw max there,
              rw (wrote, max) few',
            )
      ]

  delete_keeps :
      (limit : ℕ) (k : AddressKey) (st : StoredSnapshot S) (i : ℕ) (s : InMemorySnapshotStore S)
      (a : AggregateAddress)
      → encode_aggregate_address a ≢ k
      → Held limit k st i s
      → Held limit k st (i + 1) (delete s a)
  unfolding delete
  delete_keeps limit k st i s a ne (v, ttl, max, found, le) = (
    delete-IsValid s a v,
    ttl,
    max,
    get-delete_ne AddressKey-discrete (encode_aggregate_address a) k s.snapshots ne ∙ found,
    omega (arith, behind-delete-le (encode_aggregate_address a) k s.snapshots ne, le),
  )

  saved_eternal :
      (cloneable : AggregateSnapshot S → Bool) (s s' : InMemorySnapshotStore S) (now : Option ℕ)
      (a : AggregateAddress) (snapshot : AggregateSnapshot S)
      → s.ttl_ms ≡ none
      → save cloneable s now a snapshot ≡ (ok tt, s')
      → s' ≡ record s {
        snapshots =
            JsMap.set AddressKey-discrete
              (encode_aggregate_address a)
              (record { snapshot = snapshot; expires_at_ms = none })
              (make_room s.max_entries (encode_aggregate_address a) s.snapshots);
      }
  unfolding save
  saved_eternal cloneable s s' now a snapshot ttl h = elim (Bool-cases (cloneable snapshot)) [
    | inr lost ↦ absurd (ground arith)
    | inl copied ↦
        let run : save cloneable s now a snapshot
            ≡ save_at s now (encode_aggregate_address a) snapshot s.ttl_ms =
          rw (copied, save) refl in
        ap (λ r. r.1) (sym h ∙ run)
        ∙ save_at_eternal s now (encode_aggregate_address a) snapshot s.ttl_ms ttl
  ]

  -- Right after its save the entry is the last one.
  saved-Held :
      (cloneable : AggregateSnapshot S → Bool) (s s' : InMemorySnapshotStore S) (limit : ℕ)
      (now : Option ℕ) (a : AggregateAddress) (snapshot : AggregateSnapshot S)
      → IsValid s
      → s.ttl_ms ≡ none
      → s.max_entries ≡ some limit
      → save cloneable s now a snapshot ≡ (ok tt, s')
      → Held limit
          (encode_aggregate_address a)
          (record { snapshot = snapshot; expires_at_ms = none })
          0
          s'
  unfolding save
  saved-Held cloneable s s' limit now a snapshot v ttl max h =
      let j : AddressKey = encode_aggregate_address a in
      let st : StoredSnapshot S = record { snapshot = snapshot; expires_at_ms = none } in
      let absent = make_room-absent s.max_entries j s.snapshots v.is_map in
      let step : s' ≡ record s {
        snapshots = JsMap.set AddressKey-discrete j st (make_room s.max_entries j s.snapshots);
      } =
        saved_eternal cloneable s s' now a snapshot ttl h in
      (
        rw (← ap (λ r. r.1) h) (save-IsValid cloneable s now a snapshot v),
        ap (λ x. x.ttl_ms) step ∙ ttl,
        ap (λ x. x.max_entries) step ∙ max,
        ap (stored_at j) step ∙ get-set_self AddressKey-discrete j st _,
        rw (step, set_absent AddressKey-discrete j st _ absent, behind-append_self j st _ absent)
            (omega arith),
      )

  unfoldable pub run :
      (AggregateSnapshot S → Bool) → InMemorySnapshotStore S → Call S → InMemorySnapshotStore S
  unfolding load save delete
  run cloneable s (load_call now a) = (load s now a).1
  run cloneable s (save_call now a snapshot) = (save cloneable s now a snapshot).1
  run cloneable s (delete_call a) = delete s a

  unfoldable pub run_all :
      (AggregateSnapshot S → Bool)
      → InMemorySnapshotStore S
      → List (Call S)
      → InMemorySnapshotStore S
  unfolding run
  run_all cloneable s [] = s
  run_all cloneable s (c ∷ cs) = run_all cloneable (run cloneable s c) cs

  run_keeps :
      (cloneable : AggregateSnapshot S → Bool) (limit : ℕ) (k : AddressKey) (st : StoredSnapshot S)
      (i : ℕ) (s : InMemorySnapshotStore S) (c : Call S)
      → encode_aggregate_address (address_of c) ≢ k
      → i + 1 < limit
      → Held limit k st i s
      → Held limit k st (i + 1) (run cloneable s c)
  unfolding run
  run_keeps cloneable limit k st i s (load_call now a) ne lt h =
      load_keeps limit k st i s now a ne h
  run_keeps cloneable limit k st i s (save_call now a snapshot) ne lt h =
      save_keeps cloneable limit k st i s now a snapshot ne lt h
  run_keeps cloneable limit k st i s (delete_call a) ne lt h = delete_keeps limit k st i s a ne h

  run_all_keeps :
      (cloneable : AggregateSnapshot S → Bool) (limit : ℕ) (a : AggregateAddress)
      (st : StoredSnapshot S) (i : ℕ) (s : InMemorySnapshotStore S) (cs : List (Call S))
      → All (λ c. address_of c ≢ a) cs
      → i + length cs < limit
      → Held limit (encode_aggregate_address a) st i s
      → stored_at (encode_aggregate_address a) (run_all cloneable s cs) ≡ some st
  unfolding run_all
  run_all_keeps cloneable limit a st i s [] others lt (v, ttl, max, found, le) = found
  run_all_keeps cloneable limit a st i s (c ∷ cs) others lt h =
      run_all_keeps cloneable limit a st (i + 1) (run cloneable s c) cs others.1 (omega (arith, lt))
        (run_keeps cloneable limit (encode_aggregate_address a) st i s c
          (λ e. others.0 (encode_aggregate_address-inj (address_of c) a e)) (omega (arith, lt)) h)

  load_eternal :
      (s : InMemorySnapshotStore S) (now : Option ℕ) (a : AggregateAddress)
      (snapshot : AggregateSnapshot S)
      → stored_at (encode_aggregate_address a) s
        ≡ some (record { snapshot = snapshot; expires_at_ms = none })
      → (load s now a).0 ≡ ok (some snapshot)
  unfolding load load_at
  load_eternal s now a snapshot found = rw (found, load, load_at) refl

  -- In a store without expiry a snapshot that was just saved outlives any calls on other addresses,
  -- loads, saves and deletions, as long as there are fewer of them than the store has entries: the
  -- next load gives it back.
  pub recently_used_survives :
      (cloneable : AggregateSnapshot S → Bool) (s s' : InMemorySnapshotStore S) (limit : ℕ)
      (now later : Option ℕ) (a : AggregateAddress) (snapshot : AggregateSnapshot S)
      (cs : List (Call S))
      → IsValid s
      → s.ttl_ms ≡ none
      → s.max_entries ≡ some limit
      → save cloneable s now a snapshot ≡ (ok tt, s')
      → All (λ c. address_of c ≢ a) cs
      → length cs < limit
      → (load (run_all cloneable s' cs) later a).0 ≡ ok (some snapshot)
  recently_used_survives cloneable s s' limit now later a snapshot cs v ttl max h others lt =
      let st : StoredSnapshot S = record { snapshot = snapshot; expires_at_ms = none } in
      load_eternal (run_all cloneable s' cs) later a snapshot (
        run_all_keeps cloneable limit a st 0 s' cs others (omega (arith, lt))
          (saved-Held cloneable s s' limit now a snapshot v ttl max h))

  -- Any calls keep one snapshot for each address and the limit on their number.
  pub run_all-IsValid :
      (cloneable : AggregateSnapshot S → Bool) (s : InMemorySnapshotStore S) (cs : List (Call S))
      → IsValid s
      → IsValid (run_all cloneable s cs)
  unfolding run_all run
  run_all-IsValid cloneable s [] v = v
  run_all-IsValid cloneable s (load_call now a ∷ cs) v =
      run_all-IsValid cloneable (load s now a).1 cs (load-IsValid s now a v)
  run_all-IsValid cloneable s (save_call now a snapshot ∷ cs) v =
      run_all-IsValid cloneable (save cloneable s now a snapshot).1 cs
        (save-IsValid cloneable s now a snapshot v)
  run_all-IsValid cloneable s (delete_call a ∷ cs) v =
      run_all-IsValid cloneable (delete s a) cs (delete-IsValid s a v)
