-- ===== src/Projector/Loaded.antt =====
-- The checkpoints that a batch loads at its start.
use mathlib.Core.Path.{subst}
use ddd_kit_ts.Base.{
  ◌≡◌, ◌⊎◌, inl, inr, refl, sym, ap, ◌∙◌, Option, none, some, List, [], ◌∷◌, arith, ok, ok-inj,
  get_or, Bool-cases, Option-cases,
}
use ddd_kit_ts.Base.JsMap
use ddd_kit_ts.Base.JsMap.{JsMap}
use ddd_kit_ts.Base.JsMap.Laws.{get-set_self, get-set_ne, get-set_cases}
use ddd_kit_ts.AggregateAddress.{
  AggregateAddress, AddressKey, AddressKey-discrete, encode_aggregate_address,
  encode_aggregate_address-inj,
}
use ddd_kit_ts.Checkpoints.{ProjectionCheckpoint}
use ddd_kit_ts.Projector.{
  Cursored, Started, key_of, is_valid_checkpoint, load_all, watermark_of, watermarks_of, plan_from,
  watermark_at,
}
use ddd_kit_ts.Projector.Chain.{positions_at, positions_at_no}

-- Each entry is what the store holds for the address.
abbrev pub AllLoaded : (AggregateAddress → Option ProjectionCheckpoint) → Started → Type 0
AllLoaded load started =
    (a : AggregateAddress) (s : Option ProjectionCheckpoint)
    → JsMap.get AddressKey-discrete (encode_aggregate_address a) started ≡ some s
    → s ≡ load a

module _ {P : Type 0} (load : AggregateAddress → Option ProjectionCheckpoint) where
  -- One envelope: its address has been loaded, or is loaded now.
  load_all-cases :
      (started started' : Started) (x : Cursored P) (xs : List (Cursored P))
      → load_all load started (x ∷ xs) ≡ ok started'
      → (((s : Option ProjectionCheckpoint) × (JsMap.get AddressKey-discrete (key_of x) started
              ≡ some s))
          × (load_all load started xs ≡ ok started'))
        ⊎ (load_all load (JsMap.set AddressKey-discrete (key_of x) (load x.address) started) xs
            ≡ ok started')
  unfolding load_all
  load_all-cases started started' x xs h =
      elim (Option-cases (JsMap.get AddressKey-discrete (key_of x) started)) [
        | inr (s, there) ↦ inl ((s, there), ground arith)
        | inl absent ↦ elim (Option-cases (load x.address)) [
          | inl fresh ↦ inr (rw fresh (ground arith))
          | inr (stored, there) ↦ elim (Bool-cases (is_valid_checkpoint stored)) [
            | inl valid ↦ inr (rw there (ground arith))
            | inr legacy ↦ absurd (ground arith)
          ]
        ]
      ]

  pub load_all-AllLoaded :
      (started started' : Started) (xs : List (Cursored P))
      → load_all load started xs ≡ ok started'
      → AllLoaded load started
      → AllLoaded load started'
  unfolding load_all
  load_all-AllLoaded started started' [] h l = subst (AllLoaded load) (ok-inj started started' h) l
  load_all-AllLoaded started started' (x ∷ xs) h l = elim (load_all-cases started started' x xs h) [
    | inl (there, h') ↦ load_all-AllLoaded started started' xs h' l
    | inr h' ↦
        load_all-AllLoaded (JsMap.set AddressKey-discrete (key_of x) (load x.address) started)
          started' xs h'
          (λ a s at.
            elim (get-set_cases AddressKey-discrete (key_of x) (encode_aggregate_address a)
              (load x.address) s started at) [
                | inl (here, written) ↦
                    sym written ∙ ap load (encode_aggregate_address-inj x.address a here)
                | inr (ne, before) ↦ l a s before
              ])
  ]

  load_all-keeps :
      (k : AddressKey) (s : Option ProjectionCheckpoint) (started started' : Started)
      (xs : List (Cursored P))
      → load_all load started xs ≡ ok started'
      → JsMap.get AddressKey-discrete k started ≡ some s
      → (s' : Option ProjectionCheckpoint) × (JsMap.get AddressKey-discrete k started' ≡ some s')
  unfolding load_all
  load_all-keeps k s started started' [] h at =
      (s, subst (λ z. JsMap.get AddressKey-discrete k z ≡ some s) (ok-inj started started' h) at)
  load_all-keeps k s started started' (x ∷ xs) h at =
      elim (load_all-cases started started' x xs h) [
        | inl (there, h') ↦ load_all-keeps k s started started' xs h' at
        | inr h' ↦ elim (AddressKey-discrete (key_of x) k) [
          | yes here ↦
              load_all-keeps k (load x.address)
                (JsMap.set AddressKey-discrete (key_of x) (load x.address) started) started' xs h'
                (subst
                  (λ j.
                    JsMap.get AddressKey-discrete j
                      (JsMap.set AddressKey-discrete (key_of x) (load x.address) started)
                    ≡ some (load x.address))
                  here (get-set_self AddressKey-discrete (key_of x) (load x.address) started))
          | no ne ↦
              load_all-keeps k s (JsMap.set AddressKey-discrete (key_of x) (load x.address) started)
                started' xs h'
                (get-set_ne AddressKey-discrete (key_of x) k (load x.address) started ne ∙ at)
        ]
      ]

  -- An address without an entry has no envelope in the batch.
  pub load_all-covers :
      (k : AddressKey) (started started' : Started) (xs : List (Cursored P))
      → load_all load started xs ≡ ok started'
      → JsMap.get AddressKey-discrete k started' ≡ none
      → positions_at k xs ≡ []
  load_all-covers k started started' [] h absent = refl
  load_all-covers k started started' (x ∷ xs) h absent = elim (AddressKey-discrete (key_of x) k) [
    | no ne ↦ positions_at_no k x xs ne ∙ elim (load_all-cases started started' x xs h) [
      | inl (there, h') ↦ load_all-covers k started started' xs h' absent
      | inr h' ↦
          load_all-covers k (JsMap.set AddressKey-discrete (key_of x) (load x.address) started)
            started' xs h' absent
    ]
    | yes here ↦ elim (load_all-cases started started' x xs h) [
      | inl ((s, there), h') ↦
          let (s', at) = load_all-keeps (key_of x) s started started' xs h' there in
          absurd (
            some_none (
              sym (subst (λ j. JsMap.get AddressKey-discrete j started' ≡ some s') here at)
              ∙ absent))
      | inr h' ↦
          let (s', at) =
            load_all-keeps (key_of x) (load x.address)
              (JsMap.set AddressKey-discrete (key_of x) (load x.address) started) started' xs h'
              (get-set_self AddressKey-discrete (key_of x) (load x.address) started) in
          absurd (
            some_none (
              sym (subst (λ j. JsMap.get AddressKey-discrete j started' ≡ some s') here at)
              ∙ absent))
    ]
  ]
    where
      some_none : {s : Option ProjectionCheckpoint} → some s ≡ none → ⊥
      some_none e = ground (arith, e)

get-watermarks_of :
    (started : Started) (k : AddressKey) (s : Option ProjectionCheckpoint)
    → JsMap.get AddressKey-discrete k started ≡ some s
    → JsMap.get AddressKey-discrete k (watermarks_of started) ≡ some (watermark_of s)
unfolding watermarks_of
get-watermarks_of [] k s at = absurd (cc)
get-watermarks_of (e ∷ started) k s at = elim (AddressKey-discrete e.0 k) [
  | yes here ↦ let it : e.1 ≡ s = ground (arith, here, at) in ground (arith, here, it)
  | no ne ↦
      let rest : JsMap.get AddressKey-discrete k started ≡ some s = ground (arith, ne, at) in
      ground (arith, ne, get-watermarks_of started k s rest)
]

-- The watermark that a plan starts from.
pub watermark-plan_from :
    (P : Type 0) (started : Started) (k : AddressKey) (s : Option ProjectionCheckpoint)
    → JsMap.get AddressKey-discrete k started ≡ some s
    → watermark_at (plan_from {P = P} started) k ≡ watermark_of s
unfolding plan_from
watermark-plan_from P started k s at = ap (λ o. get_or o none) (get-watermarks_of started k s at)
