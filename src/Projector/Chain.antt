-- ===== src/Projector/Chain.antt =====
-- Chains of positions, and what planning a batch does to the watermark of each address.
use mathlib.Core.Path.{subst}
use ddd_kit_ts.Base.{
  ℕ, ◌+◌, ◌==◌, ◌≡◌, ◌≢◌, ◌⊎◌, inl, inr, refl, sym, ap, ◌∙◌, true, Option, none, some, List, [],
  ◌∷◌, ◌++◌, map, length, arith, ok, throws, ok-throws, ok-inj, get_or, Bool-cases,
}
use ddd_kit_ts.Base.JsMap.Laws.{get-set_self, get-set_ne}
use ddd_kit_ts.AggregateAddress.{AddressKey, AddressKey-discrete}
use ddd_kit_ts.Checkpoints.{CommitPosition}
use ddd_kit_ts.Projector.{
  Cursored, Error, gap, Plan, key_of, is_processed, same_previous, is_contiguous_position,
  watermark_at, skip, advance, plan_one, plan_all,
}
use mathlib.Core.List.{append_assoc, append-nil}

-- The position is the next one: the first of the first commit; or the next event of the same commit;
-- or, once a commit is complete, the first event of the next commit that has events.
pub data Follows : Option CommitPosition → CommitPosition → Type 0 where
  genesis :
      {p : CommitPosition}
      → p.commit_sequence ≡ 0
      → p.previous_eventful_aggregate_version ≡ none
      → Follows none p
  same_commit :
      {w p : CommitPosition}
      → p.aggregate_version ≡ w.aggregate_version
      → p.commit_sequence ≡ w.commit_sequence + 1
      → p.commit_size ≡ w.commit_size
      → p.previous_eventful_aggregate_version ≡ w.previous_eventful_aggregate_version
      → Follows (some w) p
  next_commit :
      {w p : CommitPosition}
      → w.commit_sequence + 1 ≡ w.commit_size
      → p.commit_sequence ≡ 0
      → p.previous_eventful_aggregate_version ≡ some w.aggregate_version
      → Follows (some w) p

same_previous-eq : (a b : Option ℕ) → same_previous a b ≡ true → a ≡ b
unfolding same_previous
same_previous-eq none none h = refl
same_previous-eq none (some n) h = absurd (cc)
same_previous-eq (some m) none h = absurd (cc)
same_previous-eq (some m) (some n) h = ground (arith, h)

-- The code's test finds only positions that follow.
contiguous-Follows :
    (p : CommitPosition) (w : Option CommitPosition)
    → is_contiguous_position p w ≡ true
    → Follows w p
unfolding is_contiguous_position
contiguous-Follows p none h =
    Follows.genesis (ground (arith, h))
      (same_previous-eq p.previous_eventful_aggregate_version none (ground (arith, h)))
contiguous-Follows p (some w) h = elim (Bool-cases (p.aggregate_version == w.aggregate_version)) [
  | inl same ↦
      Follows.same_commit (ground (arith, same)) (ground (arith, same, h)) (ground (arith, same, h))
        (same_previous-eq p.previous_eventful_aggregate_version
          w.previous_eventful_aggregate_version (ground (arith, same, h)))
  | inr other ↦ Follows.next_commit (ground (arith, other, h)) (ground (arith, other, h)) (
      same_previous-eq p.previous_eventful_aggregate_version (some w.aggregate_version)
        (ground (arith, other, h)))
]

-- Each position follows the one before it.
pub data Chain : Option CommitPosition → List CommitPosition → Option CommitPosition → Type 0 where
  stay : {w : Option CommitPosition} → Chain w [] w
  step :
      {w w' : Option CommitPosition} {p : CommitPosition} {ps : List CommitPosition}
      → Follows w p
      → Chain (some p) ps w'
      → Chain w (p ∷ ps) w'

-- Some of the elements of a list, in their order.
pub data Picked {A : Type 0} : List A → List A → Type 0 where
  none_left : Picked [] []
  pick : {x : A} {ys xs : List A} → Picked ys xs → Picked (x ∷ ys) (x ∷ xs)
  leave : {x : A} {ys xs : List A} → Picked ys xs → Picked ys (x ∷ xs)

module _ {P : Type 0} where
  -- The positions of one address.
  abbrev pub positions_at : AddressKey → List (Cursored P) → List CommitPosition
  positions_at k [] = []
  positions_at k (x ∷ xs) =
      let rest = positions_at k xs in
      elim (AddressKey-discrete (key_of x) k) [ yes here ↦ x.position ∷ rest | no ne ↦ rest ]

  -- What planning a list of envelopes has done.
  pub record Progress (plan plan' : Plan P) (xs : List (Cursored P)) : Type 0 where
    pub steps : List (Cursored P)
    pub picked : Picked steps xs
    pub events : plan'.to_apply ≡ plan.to_apply ++ map (λ x. x.event) steps
    pub count : plan'.applied ≡ plan.applied + length steps
    pub total : plan'.applied + plan'.skipped ≡ plan.applied + plan.skipped + length xs
    pub chained :
        (k : AddressKey) → Chain (watermark_at plan k) (positions_at k steps) (watermark_at plan' k)

  pub plan_one-cases :
      (plan : Plan P) (x : Cursored P)
      → (plan_one plan x ≡ ok (skip plan))
        ⊎ ((plan_one plan x ≡ ok (advance plan x))
            × (is_contiguous_position x.position (watermark_at plan (key_of x)) ≡ true))
        ⊎ ((e : Error) × (plan_one plan x ≡ throws e))
  unfolding plan_one
  plan_one-cases plan x =
      elim (Bool-cases (is_processed (watermark_at plan (key_of x)) x.position)) [
        | inl old ↦ inl (rw (old, plan_one) refl)
        | inr new ↦
            elim (Bool-cases (is_contiguous_position x.position (watermark_at plan (key_of x)))) [
              | inl next ↦ inr (inl (rw (new, next, plan_one) refl, next))
              | inr broken ↦ inr (
                  inr (
                    gap x.event_id (watermark_at plan (key_of x)) x.position,
                    rw (new, broken, plan_one) refl,
                  ))
            ]
      ]

  watermark-advance_self :
      (plan : Plan P) (x : Cursored P) → watermark_at (advance plan x) (key_of x) ≡ some x.position
  watermark-advance_self plan x =
      ap (λ o. get_or o none)
        (get-set_self AddressKey-discrete (key_of x) (some x.position) plan.watermarks)

  watermark-advance_ne :
      (plan : Plan P) (x : Cursored P) (k : AddressKey)
      → key_of x ≢ k
      → watermark_at (advance plan x) k ≡ watermark_at plan k
  watermark-advance_ne plan x k ne =
      ap (λ o. get_or o none)
        (get-set_ne AddressKey-discrete (key_of x) k (some x.position) plan.watermarks ne)

  pub positions_at_no :
      (k : AddressKey) (x : Cursored P) (xs : List (Cursored P))
      → key_of x ≢ k
      → positions_at k (x ∷ xs) ≡ positions_at k xs
  positions_at_no k x xs ne = ground (arith, ne)

  pub positions_at_yes :
      (k : AddressKey) (x : Cursored P) (xs : List (Cursored P))
      → key_of x ≡ k
      → positions_at k (x ∷ xs) ≡ x.position ∷ positions_at k xs
  positions_at_yes k x xs here = ground (arith, here)

  -- The positions of an address when one more event is applied.
  Chain-step :
      (plan plan' : Plan P) (x : Cursored P) (steps : List (Cursored P)) (k : AddressKey)
      → is_contiguous_position x.position (watermark_at plan (key_of x)) ≡ true
      → Chain (watermark_at (advance plan x) k) (positions_at k steps) (watermark_at plan' k)
      → Chain (watermark_at plan k) (positions_at k (x ∷ steps)) (watermark_at plan' k)
  Chain-step plan plan' x steps k next rest = elim (AddressKey-discrete (key_of x) k) [
    | no ne ↦
        let listed : positions_at k (x ∷ steps) ≡ positions_at k steps =
          positions_at_no k x steps ne in
        subst (λ ps. Chain (watermark_at plan k) ps (watermark_at plan' k)) (sym listed)
          (subst (λ w. Chain w (positions_at k steps) (watermark_at plan' k))
            (watermark-advance_ne plan x k ne) rest)
    | yes here ↦
        let listed : positions_at k (x ∷ steps) ≡ x.position ∷ positions_at k steps =
          positions_at_yes k x steps here in
        let mark : watermark_at (advance plan x) k ≡ some x.position =
          subst (λ j. watermark_at (advance plan x) j ≡ some x.position) here
            (watermark-advance_self plan x) in
        let next' : is_contiguous_position x.position (watermark_at plan k) ≡ true =
          subst (λ j. is_contiguous_position x.position (watermark_at plan j) ≡ true) here next in
        subst (λ ps. Chain (watermark_at plan k) ps (watermark_at plan' k)) (sym listed)
          (Chain.step (contiguous-Follows x.position (watermark_at plan k) next')
            (subst (λ w. Chain w (positions_at k steps) (watermark_at plan' k)) mark rest))
  ]

  pub plan_all-refused :
      (plan : Plan P) (x : Cursored P) (xs : List (Cursored P)) (e : Error)
      → plan_one plan x ≡ throws e
      → plan_all plan (x ∷ xs) ≡ throws e
  unfolding plan_all
  plan_all-refused plan x xs e h = rw (h, plan_all) refl

  pub plan_all-next :
      (plan next : Plan P) (x : Cursored P) (xs : List (Cursored P))
      → plan_one plan x ≡ ok next
      → plan_all plan (x ∷ xs) ≡ plan_all next xs
  unfolding plan_all
  plan_all-next plan next x xs h = rw (h, plan_all) refl

  pub plan_all-Progress :
      (plan plan' : Plan P) (xs : List (Cursored P))
      → plan_all plan xs ≡ ok plan'
      → Progress plan plan' xs
  unfolding plan_all
  plan_all-Progress plan plan' [] h =
      subst (λ z. Progress plan z []) (ok-inj plan plan' h)
        (record {
          steps = [];
          picked = Picked.none_left;
          events = sym (append-nil plan.to_apply);
          count = omega arith;
          total = omega arith;
          chained = λ k. Chain.stay;
        })
  plan_all-Progress plan plan' (x ∷ xs) h = elim (plan_one-cases plan x) [
    | inr (inr (e, broken)) ↦ absurd (ok-throws e (sym h ∙ plan_all-refused plan x xs e broken))
    | inl old ↦
        let rest : Progress (skip plan) plan' xs =
          plan_all-Progress (skip plan) plan' xs
            (sym (plan_all-next plan (skip plan) x xs old) ∙ h) in
        record {
          steps = rest.steps;
          picked = Picked.leave rest.picked;
          events = rest.events;
          count = rest.count;
          total = omega (arith, rest.total);
          chained = rest.chained;
        }
    | inr (inl (new, next)) ↦
        let rest : Progress (advance plan x) plan' xs =
          plan_all-Progress (advance plan x) plan' xs
            (sym (plan_all-next plan (advance plan x) x xs new) ∙ h) in
        record {
          steps = x ∷ rest.steps;
          picked = Picked.pick rest.picked;
          events =
              rest.events
              ∙ append_assoc plan.to_apply (x.event ∷ []) (map (λ y. y.event) rest.steps);
          count = omega (arith, rest.count);
          total = omega (arith, rest.total);
          chained = λ k. Chain-step plan plan' x rest.steps k next (rest.chained k);
        }
  ]
