-- ===== src/Checkpoints/Invariant.antt =====
-- What the checkpoint store holds after a save, and that its count stays exact.
use mathlib.Core.Path.{subst}
use ddd_kit_ts.Base.{
  ℕ, ◌+◌, ◌≡◌, ◌⊎◌, inl, inr, refl, sym, ap, ◌∙◌, none, some, [], ◌∷◌, arith, ok, throws, get_or,
  Option-cases,
}
use ddd_kit_ts.Base.Capacity.{Within, Within-anti, over_limit, over_limit-Within}
use ddd_kit_ts.Base.JsMap
use ddd_kit_ts.Base.JsMap.{JsMap}
use ddd_kit_ts.Base.JsMap.Laws.{set-IsMap, delete-IsMap, size-set_new, size-set_old}
use ddd_kit_ts.Base.JsString.{JsString, JsString-discrete}
use ddd_kit_ts.AggregateAddress.{
  AggregateAddress, AddressKey, AddressKey-discrete, encode_aggregate_address,
}
use ddd_kit_ts.Checkpoints.{
  ProjectionCheckpoint, InMemoryProjectionCheckpointStore, Error, capacity_exceeded,
  checkpoint_records, load, store_checkpoint, save_at, save, reset,
}

abbrev pub Checkpoints : Type 0
Checkpoints = JsMap JsString (JsMap AddressKey ProjectionCheckpoint)

-- The number of checkpoints of all projections.
abbrev pub total : Checkpoints → ℕ
total [] = 0
total (e ∷ m) = JsMap.size e.1 + total m

abbrev pub of_projection : JsString → Checkpoints → JsMap AddressKey ProjectionCheckpoint
of_projection p m = get_or (JsMap.get JsString-discrete p m) []

total-set :
    (p : JsString) (x : JsMap AddressKey ProjectionCheckpoint) (m : Checkpoints)
    → total (JsMap.set JsString-discrete p x m) + JsMap.size (of_projection p m)
      ≡ total m + JsMap.size x
total-set p x [] = omega arith
total-set p x (e ∷ m) = ground (arith, total-set p x m)

total-delete :
    (p : JsString) (m : Checkpoints)
    → total (JsMap.delete JsString-discrete p m) + JsMap.size (of_projection p m) ≡ total m
total-delete p [] = omega arith
total-delete p (e ∷ m) = ground (arith, total-delete p m)

-- The count is exact and within the limit.
pub record IsValid (s : InMemoryProjectionCheckpointStore) : Type 0 where
  pub is_map : JsMap.IsMap JsString-discrete s.checkpoints
  pub exact : s.checkpoint_count ≡ total s.checkpoints
  pub bounded : Within s.checkpoint_count s.max_checkpoints

-- A save is refused for want of room, or it writes; the count goes up for a new address only.
pub save-cases :
    (s : InMemoryProjectionCheckpointStore) (p : JsString) (a : AggregateAddress)
    (ck : ProjectionCheckpoint)
    → ((e : Error) × (save s p a ck ≡ (throws e, s)))
      ⊎ ((old : ProjectionCheckpoint) × (load s p a ≡ some old)
          × (save s p a ck
              ≡ (ok tt, store_checkpoint s p (encode_aggregate_address a) ck s.checkpoint_count)))
      ⊎ ((load s p a ≡ none)
          × (over_limit checkpoint_records s.max_checkpoints s.checkpoint_count 1 ≡ none)
          × (save s p a ck ≡ (
            ok tt,
            store_checkpoint s p (encode_aggregate_address a) ck (s.checkpoint_count + 1),
          )))
unfolding save save_at
save-cases s p a ck = elim (Option-cases (load s p a)) [
  | inr (old, there) ↦
      inr (inl (old, there, ap (save_at s p (encode_aggregate_address a) ck) there))
  | inl new ↦
      let run : save s p a ck ≡ save_at s p (encode_aggregate_address a) ck none =
        ap (save_at s p (encode_aggregate_address a) ck) new in
      elim (Option-cases (over_limit checkpoint_records s.max_checkpoints s.checkpoint_count 1)) [
        | inr (full, over) ↦ inl (capacity_exceeded full, run ∙ rw (over, save_at) refl)
        | inl room ↦ inr (inr (new, room, run ∙ rw (room, save_at) refl))
      ]
]

-- Saving keeps the count exact and within the limit.
pub save-IsValid :
    (s : InMemoryProjectionCheckpointStore) (p : JsString) (a : AggregateAddress)
    (ck : ProjectionCheckpoint)
    → IsValid s
    → IsValid (save s p a ck).1
unfolding load store_checkpoint
save-IsValid s p a ck v =
    let k : AddressKey = encode_aggregate_address a in
    let m : JsMap AddressKey ProjectionCheckpoint = of_projection p s.checkpoints in
    let x : JsMap AddressKey ProjectionCheckpoint = JsMap.set AddressKey-discrete k ck m in
    let sum : total (JsMap.set JsString-discrete p x s.checkpoints) + JsMap.size m
        ≡ total s.checkpoints + JsMap.size x =
      total-set p x s.checkpoints in
    elim (save-cases s p a ck) [
      | inl (e, refused) ↦ subst IsValid (sym (ap (λ r. r.1) refused)) v
      | inr (inl (old, there, run)) ↦ subst IsValid (sym (ap (λ r. r.1) run)) (record {
        is_map = set-IsMap JsString-discrete p x s.checkpoints v.is_map;
        exact = omega (arith, v.exact, sum, size-set_old AddressKey-discrete k ck old m there);
        bounded = v.bounded;
      })
      | inr (inr (new, room, run)) ↦ subst IsValid (sym (ap (λ r. r.1) run)) (record {
        is_map = set-IsMap JsString-discrete p x s.checkpoints v.is_map;
        exact = omega (arith, v.exact, sum, size-set_new AddressKey-discrete k ck m new);
        bounded = over_limit-Within checkpoint_records s.max_checkpoints s.checkpoint_count 1 room;
      })
    ]

-- Forgetting a projection keeps the count exact and within the limit.
pub reset-IsValid :
    (s : InMemoryProjectionCheckpointStore) (p : JsString) → IsValid s → IsValid (reset s p)
unfolding reset
reset-IsValid s p v =
    let sum : total (JsMap.delete JsString-discrete p s.checkpoints)
          + JsMap.size (of_projection p s.checkpoints)
        ≡ total s.checkpoints =
      total-delete p s.checkpoints in
    record {
      is_map = delete-IsMap JsString-discrete p s.checkpoints v.is_map;
      exact = omega (arith, v.exact, sum);
      bounded =
          Within-anti _ s.checkpoint_count s.max_checkpoints (omega (arith, v.exact, sum))
            v.bounded;
    }
