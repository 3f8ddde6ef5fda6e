-- ===== src/Deadlines/Invariant.antt =====
-- What holds of a deadline store between two calls, and that every call keeps it.
use ddd_kit_ts.Base.{
  ℕ, ◌≤◌, ◌<◌, ◌≡◌, ◌≢◌, inl, inr, sym, ap, ◌∙◌, none, some, [], ◌∷◌, arith, Option-cases,
  Bool-cases,
}
use ddd_kit_ts.Base.Capacity.{Within}
use ddd_kit_ts.Base.JsMap
use ddd_kit_ts.Base.JsMap.{JsMap}
use ddd_kit_ts.Base.JsMap.Laws.{get-set_cases, get-delete_cases}
use ddd_kit_ts.Base.JsString.{JsString, JsString-discrete, str_eq, str_eq_iff}
use ddd_kit_ts.Deadlines.{
  StoredDeadline, InMemoryDeadlineStore, address, delivery_id_of, records, find_delivery,
}

-- A pending record stands under its own address, with the id of its sequence number, which has
-- been given out, and has attempts left.
pub record IsKnown {P : Type 0} (next max : ℕ) (k : JsString) (d : StoredDeadline P) : Type 0 where
  pub own_address : k ≡ address d.scope d.key
  pub own_id : d.delivery_id ≡ delivery_id_of d.sequence
  pub given_out : d.sequence < next
  pub attempts_left : d.attempts < max

module _ {P : Type 0} where
  abbrev pub AllKnown : ℕ → ℕ → JsMap JsString (StoredDeadline P) → Type 0
  AllKnown next max m =
      (k : JsString) (d : StoredDeadline P)
      → JsMap.get JsString-discrete k m ≡ some d
      → IsKnown next max k d

  -- No sequence number is used by two pending records.
  abbrev pub AllDistinct : JsMap JsString (StoredDeadline P) → Type 0
  AllDistinct m =
      (k k' : JsString) (d d' : StoredDeadline P)
      → JsMap.get JsString-discrete k m ≡ some d
      → JsMap.get JsString-discrete k' m ≡ some d'
      → d.sequence ≡ d'.sequence
      → k ≡ k'

pub record IsValid {P : Type 0} (s : InMemoryDeadlineStore P) : Type 0 where
  pub pending_map : JsMap.IsMap JsString-discrete s.pending
  pub dead_map : JsMap.IsMap JsString-discrete s.dead
  pub some_attempt : 0 < s.max_delivery_attempts
  pub bounded : Within (records s) s.max_records
  pub known : AllKnown s.next_sequence s.max_delivery_attempts s.pending
  pub distinct : AllDistinct s.pending

module _ {P : Type 0} where
  pub IsKnown-weaken :
      (next next' max : ℕ) (k : JsString) (d : StoredDeadline P)
      → next ≤ next'
      → IsKnown next max k d
      → IsKnown next' max k d
  IsKnown-weaken next next' max k d le v = record {
    own_address = v.own_address;
    own_id = v.own_id;
    given_out = omega (arith, v.given_out);
    attempts_left = v.attempts_left;
  }

  pub AllKnown-set :
      (next max : ℕ) (key : JsString) (x : StoredDeadline P) (m : JsMap JsString (StoredDeadline P))
      → IsKnown next max key x
      → AllKnown next max m
      → AllKnown next max (JsMap.set JsString-discrete key x m)
  AllKnown-set next max key x m new old k d h =
      elim (get-set_cases JsString-discrete key k x d m h) [
        | inl (here, written) ↦ rw (← here, ← written) new
        | inr (ne, before) ↦ old k d before
      ]

  -- A write keeps the numbers distinct if no other record has the number written.
  pub AllDistinct-set :
      (key : JsString) (x : StoredDeadline P) (m : JsMap JsString (StoredDeadline P))
      → ((k : JsString) (d : StoredDeadline P)
          → JsMap.get JsString-discrete k m ≡ some d
          → x.sequence ≡ d.sequence
          → key ≡ k)
      → AllDistinct m
      → AllDistinct (JsMap.set JsString-discrete key x m)
  AllDistinct-set key x m new old k k' d d' h h' e =
      elim (get-set_cases JsString-discrete key k x d m h) [
        | inl (here, written) ↦ elim (get-set_cases JsString-discrete key k' x d' m h') [
          | inl (here', written') ↦ sym here ∙ here'
          | inr (ne', before') ↦ sym here ∙ new k' d' before' (ap (λ y. y.sequence) written ∙ e)
        ]
        | inr (ne, before) ↦ elim (get-set_cases JsString-discrete key k' x d' m h') [
          | inl (here', written') ↦
              sym (new k d before (ap (λ y. y.sequence) written' ∙ sym e)) ∙ here'
          | inr (ne', before') ↦ old k k' d d' before before' e
        ]
      ]

  pub AllKnown-delete :
      (next max : ℕ) (key : JsString) (m : JsMap JsString (StoredDeadline P))
      → JsMap.IsMap JsString-discrete m
      → AllKnown next max m
      → AllKnown next max (JsMap.delete JsString-discrete key m)
  AllKnown-delete next max key m v old k d h =
      old k d (get-delete_cases JsString-discrete key k d m v h).1

  pub AllDistinct-delete :
      (key : JsString) (m : JsMap JsString (StoredDeadline P))
      → JsMap.IsMap JsString-discrete m
      → AllDistinct m
      → AllDistinct (JsMap.delete JsString-discrete key m)
  AllDistinct-delete key m v old k k' d d' h h' e =
      old k k' d d' (get-delete_cases JsString-discrete key k d m v h).1
        (get-delete_cases JsString-discrete key k' d' m v h').1 e

  -- What the loop finds stands in the map under the key that it reports.
  pub find_delivery-some :
      (id k : JsString) (d : StoredDeadline P) (m : JsMap JsString (StoredDeadline P))
      → JsMap.IsMap JsString-discrete m
      → find_delivery id m ≡ some (k, d)
      → (JsMap.get JsString-discrete k m ≡ some d) × (d.delivery_id ≡ id)
  unfolding find_delivery
  find_delivery-some id k d [] v h = absurd (cc)
  find_delivery-some id k d (e ∷ m) v h = elim (Bool-cases (str_eq e.1.delivery_id id)) [
    | inl match ↦ ground (arith, str_eq_iff e.1.delivery_id id)
    | inr other ↦
        let h' : find_delivery id m ≡ some (k, d) = ground arith in
        ground (arith, find_delivery-some id k d m v.1 h')
  ]

  -- Where no pending record has the id the loop finds nothing.
  pub find_delivery-none :
      (id : JsString) (m : JsMap JsString (StoredDeadline P))
      → JsMap.IsMap JsString-discrete m
      → ((k : JsString) (d : StoredDeadline P)
          → JsMap.get JsString-discrete k m ≡ some d
          → d.delivery_id ≢ id)
      → find_delivery id m ≡ none
  find_delivery-none id m v none_has = elim (Option-cases (find_delivery id m)) [
    | inl nothing ↦ nothing
    | inr ((k, d), found) ↦
        let (at, same) = find_delivery-some id k d m v found in absurd (none_has k d at same)
  ]
