-- ===== src/Snapshots/Expiry.antt =====
-- How long a snapshot is served.
use ddd_kit_ts.Base.{
  ℕ, ◌+◌, ◌≤◌, ◌<◌, ◌≡◌, ◌⊎◌, inl, inr, refl, sym, ap, ◌∙◌, Option, none, some, Bool, List, [], ◌∷◌,
  arith, All, ltb, if◌then◌else◌, Bool-cases, ok,
}
use ddd_kit_ts.Base.JsMap
use ddd_kit_ts.Base.JsMap.{JsMap}
use ddd_kit_ts.Base.JsMap.Laws.{get-set_self, get-set_ne, get-delete_ne, get-delete_self}
use ddd_kit_ts.AggregateAddress.{
  AggregateAddress, AddressKey, AddressKey-discrete, encode_aggregate_address,
}
use ddd_kit_ts.Snapshots.{
  AggregateSnapshot, StoredSnapshot, InMemorySnapshotStore, touch, drop_snapshot, is_expired, load,
  load_at, delete_expired, make_room, save, save_at,
}
use ddd_kit_ts.Snapshots.Invariant.{IsValid, load_cases, load-IsValid, save-IsValid}

module _ {S : Type 0} where
  abbrev pub stored_at : AddressKey → InMemorySnapshotStore S → Option (StoredSnapshot S)
  stored_at k s = JsMap.get AddressKey-discrete k s.snapshots

  get-touch :
      (s : InMemorySnapshotStore S) (j k : AddressKey) (stored : StoredSnapshot S)
      → stored_at j s ≡ some stored
      → stored_at k (touch j stored s) ≡ stored_at k s
  get-touch s j k stored found = elim (AddressKey-discrete j k) [
    | yes here ↦
        ap (λ x. stored_at x (touch j stored s)) (sym here)
        ∙ get-set_self AddressKey-discrete j stored (JsMap.delete AddressKey-discrete j s.snapshots)
        ∙ sym found
        ∙ ap (λ x. stored_at x s) here
    | no ne ↦
        get-set_ne AddressKey-discrete j k stored (JsMap.delete AddressKey-discrete j s.snapshots)
          ne
        ∙ get-delete_ne AddressKey-discrete j k s.snapshots ne
  ]

  -- A read takes no entry away before its time is up.
  read_keeps :
      (s : InMemorySnapshotStore S) (r e : ℕ) (b : AggregateAddress) (k : AddressKey)
      (st : StoredSnapshot S)
      → stored_at k s ≡ some st
      → st.expires_at_ms ≡ some e
      → r < e
      → stored_at k (load s (some r) b).1 ≡ some st
  read_keeps s r e b k st found exp early = elim (load_cases s (some r) b) [
    | inl same ↦ ap (stored_at k) same ∙ found
    | inr (other, at, inr moved) ↦
        ap (stored_at k) moved ∙ get-touch s (encode_aggregate_address b) k other at ∙ found
    | inr (other, at, inl (dropped, n, x, now, exp', late)) ↦
        elim (AddressKey-discrete (encode_aggregate_address b) k) [
          | no ne ↦
              ap (stored_at k) dropped
              ∙ get-delete_ne AddressKey-discrete (encode_aggregate_address b) k s.snapshots ne
              ∙ found
          | yes here ↦
              let at' : stored_at k s ≡ some other = rw (← here) at in
              let same : other ≡ st = cc (at', found) in
              let times : x ≡ e = cc (exp', exp, same) in
              let clock : r ≡ n = cc (now) in absurd (omega (arith, times, clock, late, early))
        ]
  ]

  -- A read never brings an entry: afterwards it is what it was or gone.
  read_either :
      (s : InMemorySnapshotStore S) (now : Option ℕ) (b : AggregateAddress) (k : AddressKey)
      (st : StoredSnapshot S)
      → IsValid s
      → (stored_at k s ≡ some st) ⊎ (stored_at k s ≡ none)
      → (stored_at k (load s now b).1 ≡ some st) ⊎ (stored_at k (load s now b).1 ≡ none)
  read_either s now b k st v before = elim (load_cases s now b) [
    | inl same ↦ rw same before
    | inr (other, at, inr moved) ↦
        rw (moved, get-touch s (encode_aggregate_address b) k other at) before
    | inr (other, at, inl (dropped, n, x, now_is, exp_is, le)) ↦
        elim (AddressKey-discrete (encode_aggregate_address b) k) [
          | no ne ↦
              rw
                (
                  dropped,
                  get-delete_ne AddressKey-discrete (encode_aggregate_address b) k s.snapshots ne,
                )
                before
          | yes here ↦ inr (
              ap (stored_at k) dropped
              ∙ ap (λ x. stored_at x (drop_snapshot (encode_aggregate_address b) s)) (sym here)
              ∙ get-delete_self AddressKey-discrete (encode_aggregate_address b) s.snapshots
                  v.is_map)
        ]
  ]

  -- Loads by anyone, with their times.
  unfoldable pub read_all :
      InMemorySnapshotStore S → List (ℕ × AggregateAddress) → InMemorySnapshotStore S
  unfolding load
  read_all s [] = s
  read_all s ((now, a) ∷ reads) = read_all (load s (some now) a).1 reads

  read_all_keeps :
      (s : InMemorySnapshotStore S) (e l : ℕ) (k : AddressKey) (st : StoredSnapshot S)
      (reads : List (ℕ × AggregateAddress))
      → stored_at k s ≡ some st
      → st.expires_at_ms ≡ some e
      → l < e
      → All (λ r. r.0 ≤ l) reads
      → stored_at k (read_all s reads) ≡ some st
  unfolding read_all
  read_all_keeps s e l k st [] found exp early times = found
  read_all_keeps s e l k st ((now, a) ∷ reads) found exp early times =
      read_all_keeps (load s (some now) a).1 e l k st reads
        (read_keeps s now e a k st found exp (omega (arith, early, times.0))) exp early times.1

  read_all_either :
      (s : InMemorySnapshotStore S) (k : AddressKey) (st : StoredSnapshot S)
      (reads : List (ℕ × AggregateAddress))
      → IsValid s
      → (stored_at k s ≡ some st) ⊎ (stored_at k s ≡ none)
      → (stored_at k (read_all s reads) ≡ some st) ⊎ (stored_at k (read_all s reads) ≡ none)
  unfolding read_all
  read_all_either s k st [] v before = before
  read_all_either s k st ((now, a) ∷ reads) v before =
      read_all_either (load s (some now) a).1 k st reads (load-IsValid s (some now) a v)
        (read_either s (some now) a k st v before)

  load_at_timed :
      (s : InMemorySnapshotStore S) (l e : ℕ) (key : AddressKey) (st : StoredSnapshot S)
      (x : Option ℕ)
      → x ≡ some e
      → (load_at s (some l) key st x).0 ≡ ok (if ltb l e then some st.snapshot else none)
  unfolding load_at is_expired
  load_at_timed s l e key st none h = absurd (cc)
  load_at_timed s l e key st (some x) h = ground arith

  load_found :
      (s : InMemorySnapshotStore S) (l e : ℕ) (a : AggregateAddress) (st : StoredSnapshot S)
      → stored_at (encode_aggregate_address a) s ≡ some st
      → st.expires_at_ms ≡ some e
      → (load s (some l) a).0 ≡ ok (if ltb l e then some st.snapshot else none)
  unfolding load
  load_found s l e a st found exp =
      rw (found, load) (load_at_timed s l e (encode_aggregate_address a) st st.expires_at_ms exp)

  load_absent :
      (s : InMemorySnapshotStore S) (now : Option ℕ) (a : AggregateAddress)
      → stored_at (encode_aggregate_address a) s ≡ none
      → (load s now a).0 ≡ ok none
  unfolding load
  load_absent s now a absent = rw (absent, load) refl

  save_at_stored :
      (s : InMemorySnapshotStore S) (n t : ℕ) (key : AddressKey) (snapshot : AggregateSnapshot S)
      (ttl : Option ℕ)
      → ttl ≡ some t
      → stored_at key (save_at s (some n) key snapshot ttl).1
        ≡ some (record { snapshot = snapshot; expires_at_ms = some (n + t) })
  unfolding save_at
  save_at_stored s n t key snapshot none h = absurd (cc)
  save_at_stored s n t key snapshot (some x) h =
      get-set_self AddressKey-discrete key
        (record { snapshot = snapshot; expires_at_ms = some (n + x) })
        (make_room s.max_entries key (delete_expired n s.snapshots))
      ∙ ground (arith, h)

  saved_stored :
      (cloneable : AggregateSnapshot S → Bool) (s s' : InMemorySnapshotStore S) (n t : ℕ)
      (a : AggregateAddress) (snapshot : AggregateSnapshot S)
      → s.ttl_ms ≡ some t
      → save cloneable s (some n) a snapshot ≡ (ok tt, s')
      → stored_at (encode_aggregate_address a) s'
        ≡ some (record { snapshot = snapshot; expires_at_ms = some (n + t) })
  unfolding save
  saved_stored cloneable s s' n t a snapshot ttl h = elim (Bool-cases (cloneable snapshot)) [
    | inr lost ↦ absurd (ground arith)
    | inl copied ↦
        let run : save cloneable s (some n) a snapshot
            ≡ save_at s (some n) (encode_aggregate_address a) snapshot s.ttl_ms =
          rw (copied, save) refl in
        let step : (save_at s (some n) (encode_aggregate_address a) snapshot s.ttl_ms).1 ≡ s' =
          ap (λ r. r.1) (sym run ∙ h) in
        rw (← step) (save_at_stored s n t (encode_aggregate_address a) snapshot s.ttl_ms ttl)
  ]

  -- A snapshot is served for exactly the configured time after its save: whatever is read in
  -- between, a load at a later time gives the snapshot before the time is up and nothing from then
  -- on, so reading a snapshot does not keep it alive.
  pub served_until_expiry :
      (cloneable : AggregateSnapshot S → Bool) (s s' : InMemorySnapshotStore S) (n t l : ℕ)
      (a : AggregateAddress) (snapshot : AggregateSnapshot S) (reads : List (ℕ × AggregateAddress))
      → IsValid s
      → s.ttl_ms ≡ some t
      → save cloneable s (some n) a snapshot ≡ (ok tt, s')
      → All (λ r. r.0 ≤ l) reads
      → (load (read_all s' reads) (some l) a).0 ≡ ok (if ltb l (n + t) then some snapshot else none)
  served_until_expiry cloneable s s' n t l a snapshot reads v ttl h times =
      let k : AddressKey = encode_aggregate_address a in
      let st : StoredSnapshot S = record { snapshot = snapshot; expires_at_ms = some (n + t) } in
      let found : stored_at k s' ≡ some st = saved_stored cloneable s s' n t a snapshot ttl h in
      let v' : IsValid s' =
        rw (← ap (λ r. r.1) h) (save-IsValid cloneable s (some n) a snapshot v) in
      elim (read_all_either s' k st reads v' (inl found)) [
        | inl kept ↦ load_found (read_all s' reads) l (n + t) a st kept refl
        | inr gone ↦ elim (Bool-cases (ltb l (n + t))) [
          | inl early ↦
              let kept : stored_at k (read_all s' reads) ≡ some st =
                read_all_keeps s' (n + t) l k st reads found refl (ground (arith, early)) times in
              absurd (cc (kept, gone))
          | inr late ↦ rw late (load_absent (read_all s' reads) (some l) a gone)
        ]
      ]
