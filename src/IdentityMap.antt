-- ===== src/IdentityMap.antt =====
-- src/repo/identity-map.ts: one instance of each aggregate in a unit of work. `T` is the classes
-- that serve as keys and `I` the objects, both compared as references; `pending` is how many events
-- an object carries when a call reads it, or none for an object without a list of events.
pub mod Lookup
pub mod Calls
pub mod Final
pub mod Changes
mod Tests
use ddd_kit_ts.Base.{
  ℕ, Bool, true, false, Option, none, some, List, [], ◌∷◌, ◌++◌, ltb, if◌then◌else◌, Outcome, ok,
  throws, get_or,
}
use ddd_kit_ts.Base.JsMap
use ddd_kit_ts.Base.JsMap.{JsMap}
use ddd_kit_ts.Base.JsString.{JsString, JsString-discrete}

pub data Error : Type 0 where
  aggregate_deleted : (id : JsString) → Error
  different_instance : (id : JsString) → Error

-- A `Set` of ids is a map to the unit.
pub record IdentityMap (T I : Type 0) : Type 0 where
  pub stores : JsMap T (JsMap JsString I)
  pub deleted : JsMap T (JsMap JsString (Unit {0}))
  pub pending_at_registration : JsMap I ℕ

abbrev pub new_map : {T I : Type 0} → IdentityMap T I
new_map = record { stores = []; deleted = []; pending_at_registration = [] }

module _ {T V : Type 0} (dec_t : Discrete T) where
  -- The map of a class, empty if there is none yet.
  unfoldable pub store_of : T → JsMap T (JsMap JsString V) → JsMap JsString V
  store_of t stores = get_or (JsMap.get dec_t t stores) []

  -- A class without a map of instances gets none.
  unfoldable pub drop_instance :
      T → JsString → JsMap T (JsMap JsString V) → JsMap T (JsMap JsString V)
  drop_instance t id stores = elim (JsMap.get dec_t t stores) [
    | none ↦ stores
    | some store ↦ JsMap.set dec_t t (JsMap.delete JsString-discrete id store) stores
  ]

module _ {T I : Type 0} (dec_t : Discrete T) (dec_i : Discrete I) where
  unfoldable pub get : IdentityMap T I → T → JsString → Option I
  unfolding store_of
  get m t id = JsMap.get JsString-discrete id (store_of dec_t t m.stores)

  unfoldable pub has : IdentityMap T I → T → JsString → Bool
  unfolding store_of
  has m t id = JsMap.has JsString-discrete id (store_of dec_t t m.stores)

  unfoldable pub is_deleted : IdentityMap T I → T → JsString → Bool
  unfolding store_of
  is_deleted m t id = JsMap.has JsString-discrete id (store_of dec_t t m.deleted)

  -- The count of events at the first registration is kept.
  unfoldable pub register : (I → Option ℕ) → I → JsMap I ℕ → JsMap I ℕ
  register pending x m =
      if JsMap.has dec_i x m
      then m
      else elim (pending x) [ none ↦ m | some n ↦ JsMap.set dec_i x n m ]

  unfoldable pub put : (I → Option ℕ) → IdentityMap T I → T → JsString → I → IdentityMap T I
  unfolding store_of register
  put pending m t id x = record m {
    stores =
        JsMap.set dec_t t (JsMap.set JsString-discrete id x (store_of dec_t t m.stores)) m.stores;
    pending_at_registration = register pending x m.pending_at_registration;
  }

  -- An instance that is there is only replaced by itself.
  pub set_existing :
      (I → Option ℕ)
      → IdentityMap T I
      → T
      → JsString
      → I
      → Option I
      → Outcome Error (Unit {0}) × IdentityMap T I
  unfolding put
  set_existing pending m t id x none = (ok tt, put pending m t id x)
  set_existing pending m t id x (some existing) = elim (dec_i existing x) [
    | yes same ↦ (ok tt, put pending m t id x)
    | no other ↦ (throws (different_instance id), m)
  ]

  unfoldable pub set :
      (I → Option ℕ)
      → IdentityMap T I
      → T
      → JsString
      → I
      → Outcome Error (Unit {0}) × IdentityMap T I
  unfolding is_deleted get set_existing
  set pending m t id x =
      if is_deleted m t id
      then (throws (aggregate_deleted id), m)
      else set_existing pending m t id x (get m t id)

  unfoldable pub delete : IdentityMap T I → T → JsString → IdentityMap T I
  unfolding store_of drop_instance
  delete m t id = record m {
    stores = drop_instance dec_t t id m.stores;
    deleted =
        JsMap.set dec_t t (JsMap.set JsString-discrete id tt (store_of dec_t t m.deleted))
          m.deleted;
  }

  unfoldable pub clear : IdentityMap T I → IdentityMap T I
  clear m = new_map

  -- The instances of one class that carry more events than when they were registered.
  unfoldable pub grown : (I → Option ℕ) → JsMap I ℕ → List I → List I
  grown pending registered [] = []
  grown pending registered (x ∷ xs) =
      let rest = grown pending registered xs in
      elim (pending x) [
        | none ↦ rest
        | some n ↦ if ltb (get_or (JsMap.get dec_i x registered) 0) n then x ∷ rest else rest
      ]

  unfoldable pub grown_all : (I → Option ℕ) → JsMap I ℕ → List (JsMap JsString I) → List I
  unfolding grown
  grown_all pending registered [] = []
  grown_all pending registered (store ∷ stores) =
      grown pending registered (JsMap.values store) ++ grown_all pending registered stores

  unfoldable pub instances_with_new_pending_events : (I → Option ℕ) → IdentityMap T I → List I
  unfolding grown_all
  instances_with_new_pending_events pending m =
      grown_all pending m.pending_at_registration (JsMap.values m.stores)
