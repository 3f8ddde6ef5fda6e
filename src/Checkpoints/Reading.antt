-- ===== src/Checkpoints/Reading.antt =====
-- Reading checkpoints back, and sequences of calls on the store.
use mathlib.Core.Path.{subst}
use ddd_kit_ts.Base.{
  ℕ, ◌+◌, ◌≡◌, ◌≢◌, ◌⊎◌, inl, inr, refl, sym, ap, ◌∙◌, Option, some, List, [], ◌∷◌, ok, ok-throws,
  ok-inj, bind_ok, get_or,
}
use ddd_kit_ts.Base.Capacity.{Within-zero}
use ddd_kit_ts.Base.JsMap
use ddd_kit_ts.Base.JsMap.Laws.{get-set_self, get-set_ne}
use ddd_kit_ts.Base.JsNumber.{JsNumber, assert_optional_limit}
use ddd_kit_ts.Base.JsString.{JsString, JsString-discrete}
use ddd_kit_ts.AggregateAddress.{
  AggregateAddress, AddressKey-discrete, encode_aggregate_address, encode_aggregate_address-inj,
}
use ddd_kit_ts.Checkpoints.{
  ProjectionCheckpoint, InMemoryProjectionCheckpointStore, invalid_option, new, per_aggregate, load,
  store_checkpoint, save, reset,
}
use ddd_kit_ts.Checkpoints.Invariant.{IsValid, save-cases, save-IsValid, reset-IsValid}

load-store_self :
    (s : InMemoryProjectionCheckpointStore) (p : JsString) (a : AggregateAddress)
    (ck : ProjectionCheckpoint) (n : ℕ)
    → load (store_checkpoint s p (encode_aggregate_address a) ck n) p a ≡ some ck
unfolding load store_checkpoint
load-store_self s p a ck n =
    ap (λ o. JsMap.get AddressKey-discrete (encode_aggregate_address a) (get_or o []))
      (get-set_self JsString-discrete p
        (JsMap.set AddressKey-discrete (encode_aggregate_address a) ck (per_aggregate s p))
        s.checkpoints)
    ∙ get-set_self AddressKey-discrete (encode_aggregate_address a) ck (per_aggregate s p)

load-store_other :
    (s : InMemoryProjectionCheckpointStore) (p q : JsString) (a b : AggregateAddress)
    (ck : ProjectionCheckpoint) (n : ℕ)
    → (p ≢ q) ⊎ (a ≢ b)
    → load (store_checkpoint s p (encode_aggregate_address a) ck n) q b ≡ load s q b
unfolding load store_checkpoint
load-store_other s p q a b ck n other = elim (JsString-discrete p q) [
  | no ne ↦
      ap (λ o. JsMap.get AddressKey-discrete (encode_aggregate_address b) (get_or o []))
        (get-set_ne JsString-discrete p q
          (JsMap.set AddressKey-discrete (encode_aggregate_address a) ck (per_aggregate s p))
          s.checkpoints ne)
  | yes same ↦
      subst (λ z. load (store_checkpoint s p (encode_aggregate_address a) ck n) z b ≡ load s z b)
        same
        (ap (λ o. JsMap.get AddressKey-discrete (encode_aggregate_address b) (get_or o []))
            (get-set_self JsString-discrete p
              (JsMap.set AddressKey-discrete (encode_aggregate_address a) ck (per_aggregate s p))
              s.checkpoints)
          ∙ get-set_ne AddressKey-discrete (encode_aggregate_address a) (encode_aggregate_address b)
              ck (per_aggregate s p) (λ e. apart other same (encode_aggregate_address-inj a b e)))
]
  where
    apart : (p ≢ q) ⊎ (a ≢ b) → p ≡ q → a ≡ b → ⊥
    apart (inl ne) e f = ne e
    apart (inr ne) e f = ne f

-- A checkpoint that was saved is the one that is loaded.
pub load-save :
    (s s' : InMemoryProjectionCheckpointStore) (p : JsString) (a : AggregateAddress)
    (ck : ProjectionCheckpoint)
    → save s p a ck ≡ (ok tt, s')
    → load s' p a ≡ some ck
load-save s s' p a ck h = elim (save-cases s p a ck) [
  | inl (e, refused) ↦ absurd (ok-throws e (ap (λ r. r.0) (sym h ∙ refused)))
  | inr (inl (old, there, run)) ↦
      ap (λ r. load r.1 p a) (sym h ∙ run) ∙ load-store_self s p a ck s.checkpoint_count
  | inr (inr (new, room, run)) ↦
      ap (λ r. load r.1 p a) (sym h ∙ run) ∙ load-store_self s p a ck (s.checkpoint_count + 1)
]

-- A save, refused or not, leaves the checkpoints of every other projection and address alone.
pub save_frame :
    (s : InMemoryProjectionCheckpointStore) (p q : JsString) (a b : AggregateAddress)
    (ck : ProjectionCheckpoint)
    → (p ≢ q) ⊎ (a ≢ b)
    → load (save s p a ck).1 q b ≡ load s q b
save_frame s p q a b ck other = elim (save-cases s p a ck) [
  | inl (e, refused) ↦ ap (λ r. load r.1 q b) refused
  | inr (inl (old, there, run)) ↦
      ap (λ r. load r.1 q b) run ∙ load-store_other s p q a b ck s.checkpoint_count other
  | inr (inr (new, room, run)) ↦
      ap (λ r. load r.1 q b) run ∙ load-store_other s p q a b ck (s.checkpoint_count + 1) other
]

-- The calls that change the store.
pub data Call : Type 0 where
  save_call : JsString → AggregateAddress → ProjectionCheckpoint → Call
  reset_call : JsString → Call

unfoldable pub run_all :
    List Call → InMemoryProjectionCheckpointStore → InMemoryProjectionCheckpointStore
unfolding save reset
run_all [] s = s
run_all (save_call p a ck ∷ cs) s = run_all cs (save s p a ck).1
run_all (reset_call p ∷ cs) s = run_all cs (reset s p)

run_all-IsValid :
    (cs : List Call) (s : InMemoryProjectionCheckpointStore) → IsValid s → IsValid (run_all cs s)
unfolding run_all
run_all-IsValid [] s v = v
run_all-IsValid (save_call p a ck ∷ cs) s v =
    run_all-IsValid cs (save s p a ck).1 (save-IsValid s p a ck v)
run_all-IsValid (reset_call p ∷ cs) s v = run_all-IsValid cs (reset s p) (reset-IsValid s p v)

abbrev start : Option ℕ → InMemoryProjectionCheckpointStore
start limit = record { checkpoints = []; max_checkpoints = limit; checkpoint_count = 0 }

-- After any calls on a new store the count is the number of checkpoints that it holds, and within
-- the limit.
pub run_all-new-IsValid :
    (max : Option JsNumber) (cs : List Call) (s : InMemoryProjectionCheckpointStore)
    → new max ≡ ok s
    → IsValid (run_all cs s)
unfolding new
run_all-new-IsValid max cs s h =
    let (limit, bound, built) =
      bind_ok (assert_optional_limit invalid_option max) (λ l. ok (start l)) s h in
    run_all-IsValid cs s (
      subst IsValid (ok-inj (start limit) s built)
        (record { is_map = tt; exact = refl; bounded = Within-zero limit }))
