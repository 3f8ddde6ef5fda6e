-- ===== src/IdentityMap/Final.antt =====
-- Registration and deletion over the rest of a unit of work.
use mathlib.Core.Path.{subst}
use ddd_kit_ts.Base.{
  ℕ, ◌≡◌, ◌≢◌, inl, inr, refl, sym, ap, ◌∙◌, true, false, Option, none, some, List, [], ◌∷◌, arith,
  All, ok, throws, ok-throws,
}
use ddd_kit_ts.Base.JsString.{JsString}
use ddd_kit_ts.IdentityMap.{
  IdentityMap, aggregate_deleted, different_instance, new_map, store_of, get, is_deleted,
  set_existing, set, delete, clear,
}
use ddd_kit_ts.IdentityMap.Lookup.{
  value_at, AllMaps, value_at-write_self, value_at-write_other, value_at-drop_self,
  value_at-drop_other, AllMaps-write, AllMaps-drop,
}
use ddd_kit_ts.IdentityMap.Calls.{
  Call, set_call, delete_call, instance_at, tombstone_at, set_deleted, set_alive,
  set_existing-other, set-cases, is_there, is_deleted-there, same_or_IsOther, put-stores,
  delete-stores, run, run_all, Kept, run-Kept,
}

module _ {T I : Type 0} (dec_t : Discrete T) (dec_i : Discrete I) where
  pub run_all-Kept :
      (m : IdentityMap T I) (t : T) (id : JsString) (x : I) (cs : List (Call T I))
      → All (λ c. c ≢ delete_call t id) cs
      → Kept dec_t dec_i t id x m
      → Kept dec_t dec_i t id x (run_all dec_t dec_i m cs)
  unfolding run_all
  run_all-Kept m t id x [] others k = k
  run_all-Kept m t id x (c ∷ cs) others k =
      run_all-Kept (run dec_t dec_i m c) t id x cs others.1
        (run-Kept dec_t dec_i m t id x c others.0 k)

  pub set_ok-Kept :
      (pending : I → Option ℕ) (m m' : IdentityMap T I) (t : T) (id : JsString) (x : I)
      → set dec_t dec_i pending m t id x ≡ (ok tt, m')
      → Kept dec_t dec_i t id x m'
  set_ok-Kept pending m m' t id x h = elim (set-cases dec_t dec_i pending m t id x) [
    | inl (e, refused) ↦ absurd (ok-throws e (ap (λ r. r.0) (sym h ∙ refused)))
    | inr (written, alive, there) ↦
        let (stores, deleted) = put-stores dec_t dec_i pending m t id x in
        subst (Kept dec_t dec_i t id x) (ap (λ r. r.1) (sym written ∙ h)) (
          ap (value_at dec_t t id) stores ∙ value_at-write_self dec_t t id x m.stores,
          ap (value_at dec_t t id) deleted ∙ alive,
        )
  ]

  -- After an instance has been registered, and whatever else is registered or deleted, as long as
  -- its own address is not: looking the address up gives that same instance, and registering a
  -- different instance there is refused and changes nothing.
  pub one_instance :
      (pending later : I → Option ℕ) (m m' : IdentityMap T I) (t : T) (id : JsString) (x y : I)
      (cs : List (Call T I))
      → set dec_t dec_i pending m t id x ≡ (ok tt, m')
      → All (λ c. c ≢ delete_call t id) cs
      → x ≢ y
      → (get dec_t dec_i (run_all dec_t dec_i m' cs) t id ≡ some x)
        × (set dec_t dec_i later (run_all dec_t dec_i m' cs) t id y
            ≡ (throws (different_instance id), run_all dec_t dec_i m' cs))
  unfolding get value_at
  one_instance pending later m m' t id x y cs h others ne =
      let last : IdentityMap T I = run_all dec_t dec_i m' cs in
      let (held, alive) = run_all-Kept m' t id x cs others (set_ok-Kept pending m m' t id x h) in
      (
        held,
        set_alive dec_t dec_i later last t id y alive
            ∙ ap (set_existing dec_t dec_i later last t id y) held
            ∙ set_existing-other dec_t dec_i later last t id y x ne,
      )

  -- Each class has one instance for an id, and the address is deleted and empty.
  abbrev Dead : T → JsString → IdentityMap T I → Type 0
  Dead t id m =
      AllMaps dec_t m.stores
      × (tombstone_at dec_t dec_i t id m ≡ some tt)
      × (instance_at dec_t dec_i t id m ≡ none)

  run-AllMaps :
      (m : IdentityMap T I) (c : Call T I)
      → AllMaps dec_t m.stores
      → AllMaps dec_t (run dec_t dec_i m c).stores
  unfolding run
  run-AllMaps m (set_call pending u j y) v = elim (set-cases dec_t dec_i pending m u j y) [
    | inl (e, refused) ↦ subst (λ z. AllMaps dec_t z.stores) (sym (ap (λ r. r.1) refused)) v
    | inr (written, alive, there) ↦
        subst (λ z. AllMaps dec_t z.stores) (sym (ap (λ r. r.1) written))
          (subst (AllMaps dec_t) (sym (put-stores dec_t dec_i pending m u j y).0)
            (AllMaps-write dec_t u j y m.stores v))
  ]
  run-AllMaps m (delete_call u j) v =
      subst (AllMaps dec_t) (sym (delete-stores dec_t dec_i m u j).0)
        (AllMaps-drop dec_t u j m.stores v)

  delete-Dead :
      (m : IdentityMap T I) (t : T) (id : JsString)
      → AllMaps dec_t m.stores
      → Dead t id (delete dec_t dec_i m t id)
  delete-Dead m t id v =
      let (stores, deleted) = delete-stores dec_t dec_i m t id in
      (
        subst (AllMaps dec_t) (sym stores) (AllMaps-drop dec_t t id m.stores v),
        ap (value_at dec_t t id) deleted ∙ value_at-write_self dec_t t id tt m.deleted,
        ap (value_at dec_t t id) stores ∙ value_at-drop_self dec_t t id m.stores v,
      )

  run-Dead :
      (m : IdentityMap T I) (t : T) (id : JsString) (c : Call T I)
      → Dead t id m
      → Dead t id (run dec_t dec_i m c)
  unfolding run
  run-Dead m t id (set_call pending u j y) (v, dead, free) =
      let v' = run-AllMaps m (set_call pending u j y) v in
      elim (set-cases dec_t dec_i pending m u j y) [
        | inl (e, refused) ↦ subst (Dead t id) (sym (ap (λ r. r.1) refused)) (v, dead, free)
        | inr (written, alive, there) ↦ elim (same_or_IsOther dec_t dec_i u t j id) [
          | inl (e, f) ↦
              let here : tombstone_at dec_t dec_i t id m ≡ none = rw (← e, ← f) alive in
              absurd (ground (arith, here, dead))
          | inr other ↦
              let (stores, deleted) = put-stores dec_t dec_i pending m u j y in
              let eq = ap (λ r. r.1) written in
              (
                v',
                ap (λ z. value_at dec_t t id z.deleted) eq
                    ∙ ap (value_at dec_t t id) deleted
                    ∙ dead,
                ap (λ z. value_at dec_t t id z.stores) eq
                    ∙ ap (value_at dec_t t id) stores
                    ∙ value_at-write_other dec_t u t j id y m.stores other
                    ∙ free,
              )
        ]
      ]
  run-Dead m t id (delete_call u j) (v, dead, free) =
      let (stores, deleted) = delete-stores dec_t dec_i m u j in
      elim (same_or_IsOther dec_t dec_i u t j id) [
        | inl (e, f) ↦
            subst (λ z. Dead z id (delete dec_t dec_i m u j)) e
              (subst (λ z. Dead u z (delete dec_t dec_i m u j)) f (delete-Dead m u j v))
        | inr other ↦ (
          subst (AllMaps dec_t) (sym stores) (AllMaps-drop dec_t u j m.stores v),
          ap (value_at dec_t t id) deleted
              ∙ value_at-write_other dec_t u t j id tt m.deleted other
              ∙ dead,
          ap (value_at dec_t t id) stores
              ∙ value_at-drop_other dec_t u t j id m.stores other
              ∙ free,
        )
      ]

  run_all-Dead :
      (m : IdentityMap T I) (t : T) (id : JsString) (cs : List (Call T I))
      → Dead t id m
      → Dead t id (run_all dec_t dec_i m cs)
  unfolding run_all
  run_all-Dead m t id [] d = d
  run_all-Dead m t id (c ∷ cs) d = run_all-Dead (run dec_t dec_i m c) t id cs (run-Dead m t id c d)

  run_all-AllMaps :
      (m : IdentityMap T I) (cs : List (Call T I))
      → AllMaps dec_t m.stores
      → AllMaps dec_t (run_all dec_t dec_i m cs).stores
  unfolding run_all
  run_all-AllMaps m [] v = v
  run_all-AllMaps m (c ∷ cs) v = run_all-AllMaps (run dec_t dec_i m c) cs (run-AllMaps m c v)

  new-AllMaps : AllMaps dec_t (new_map {T = T} {I = I}).stores
  unfolding store_of
  new-AllMaps t = tt

  clear-tombstone :
      (m : IdentityMap T I) (t : T) (id : JsString)
      → tombstone_at dec_t dec_i t id (clear dec_t dec_i m) ≡ none
  unfolding clear store_of value_at
  clear-tombstone m t id = refl

  -- Deletion lasts until the map is cleared: after any registrations and deletions on a new map, a
  -- deletion, and any registrations and deletions after it, the deleted address has no instance,
  -- counts as deleted, and a registration there is refused and changes nothing; once the map is then
  -- cleared, the address does not count as deleted.
  pub deletion_is_final :
      (before after : List (Call T I)) (t : T) (id : JsString) (pending : I → Option ℕ) (x : I)
      → let m = run_all dec_t dec_i new_map before in
        let last = run_all dec_t dec_i (delete dec_t dec_i m t id) after in
        (get dec_t dec_i last t id ≡ none)
        × (is_deleted dec_t dec_i last t id ≡ true)
        × (set dec_t dec_i pending last t id x ≡ (throws (aggregate_deleted id), last))
        × (is_deleted dec_t dec_i (clear dec_t dec_i last) t id ≡ false)
  unfolding get value_at
  deletion_is_final before after t id pending x =
      let m : IdentityMap T I = run_all dec_t dec_i new_map before in
      let last : IdentityMap T I = run_all dec_t dec_i (delete dec_t dec_i m t id) after in
      let (v, dead, free) =
        run_all-Dead (delete dec_t dec_i m t id) t id after
          (delete-Dead m t id (run_all-AllMaps new_map before new-AllMaps)) in
      (
        free,
        is_deleted-there dec_t dec_i last t id ∙ ap is_there dead,
        set_deleted dec_t dec_i pending last t id x tt dead,
        is_deleted-there dec_t dec_i (clear dec_t dec_i last) t id
            ∙ ap is_there (clear-tombstone last t id),
      )
