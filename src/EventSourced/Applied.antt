-- ===== src/EventSourced/Applied.antt =====
-- Applying new events, and replaying them afterwards.
use ddd_kit_ts.Base.{
  ℕ, suc, ◌+◌, ◌≡◌, inl, inr, refl, sym, ap, ◌∙◌, some, false, List, [], ◌∷◌, ◌++◌, arith, length,
  Outcome, ok, throws, ok-throws,
}
use ddd_kit_ts.Base.JsString.{JsString}
use ddd_kit_ts.EventSourced.{
  AggregateClass, EventSourcedAggregate, DomainEvent, Thrown, done, handle, apply,
  load_from_history, acknowledge,
}
use ddd_kit_ts.EventSourced.Effects.{IsReplayable, loaded, load-folded}
use ddd_kit_ts.EventSourced.Replay.{names_other, fold}
use mathlib.Core.List.{append_assoc, append-nil}
use mathlib.Core.Path.{subst}
use ddd_kit_ts.EventSourced.Apply.{apply-cases}

module _ {S N P D X : Type 0} (c : AggregateClass S N P D X) where
  -- Events applied one after the other, up to the first that is refused.
  unfoldable pub apply_all :
      EventSourcedAggregate S P
      → List (DomainEvent P)
      → Outcome (Thrown D X) (Unit {0}) × EventSourcedAggregate S P
  unfolding apply
  apply_all a [] = (ok tt, a)
  apply_all a (e ∷ es) = elim (apply c a e).0 [
    | throws x ↦ (throws x, (apply c a e).1)
    | ok u ↦ apply_all (apply c a e).1 es
  ]

  apply_all-refused :
      (a : EventSourcedAggregate S P) (e : DomainEvent P) (es : List (DomainEvent P))
      (x : Thrown D X)
      → apply c a e ≡ (throws x, a)
      → (apply_all a (e ∷ es)).0 ≡ throws x
  unfolding apply_all
  apply_all-refused a e es x h = rw (h, apply_all) refl

  apply_all-applied :
      (a a1 : EventSourcedAggregate S P) (e : DomainEvent P) (es : List (DomainEvent P))
      → apply c a e ≡ (ok tt, a1)
      → apply_all a (e ∷ es) ≡ apply_all a1 es
  unfolding apply_all
  apply_all-applied a a1 e es h = rw (h, apply_all) (ap (λ r. apply_all r.1 es) h)

  -- What a run of events that were applied has done.
  pub record AppliedAll (a a' : EventSourcedAggregate S P) (n : ℕ) : Type 0 where
    pub new : List (DomainEvent P)
    pub count : length new ≡ n
    pub folded : fold c a.id a.state new ≡ ok a'.state
    pub same_id : a'.id ≡ a.id
    pub version_counts : a'.version ≡ a.version + n
    pub recorded_new : a'.pending_events ≡ a.pending_events ++ new

  fold-cons :
      (own_id : JsString) (state next : S) (e : DomainEvent P) (es : List (DomainEvent P))
      → names_other c own_id e ≡ false
      → handle c state e ≡ ok next
      → fold c own_id state (e ∷ es) ≡ fold c own_id next es
  unfolding fold
  fold-cons own_id state next e es own h = rw (own, h, fold) refl

  apply_all-AppliedAll :
      (a a' : EventSourcedAggregate S P) (es : List (DomainEvent P))
      → apply_all a es ≡ (ok tt, a')
      → AppliedAll a a' (length es)
  unfolding apply_all fold
  apply_all-AppliedAll a a' [] h =
      subst (λ z. AppliedAll a z 0) (ap (λ r. r.1) h)
        (record {
          new = [];
          count = refl;
          folded = refl;
          same_id = refl;
          version_counts = omega arith;
          recorded_new = sym (append-nil a.pending_events);
        })
  apply_all-AppliedAll a a' (e ∷ es) h = elim (apply-cases c a e) [
    | inl (x, refused) ↦
        absurd (ok-throws x (ap (λ r. r.0) (sym h) ∙ apply_all-refused a e es x refused))
    | inr (a1, e', applied, v) ↦
        let rest : AppliedAll a1 a' (length es) =
          apply_all-AppliedAll a1 a' es (sym (apply_all-applied a a1 e es applied) ∙ h) in
        let id1 : a1.id ≡ a.id = ap (λ x. x.id) v.changed in
        let version1 : a1.version ≡ a.version + 1 = ap (λ x. x.version) v.changed in
        let pending1 : a1.pending_events ≡ a.pending_events ++ e' ∷ [] =
          ap (λ x. x.pending_events) v.changed in
        record {
          new = e' ∷ rest.new;
          count = omega (arith, rest.count);
          folded =
              fold-cons a.id a.state a1.state e' rest.new v.own v.handled
              ∙ ap (λ i. fold c i a1.state rest.new) (sym id1)
              ∙ rest.folded;
          same_id = rest.same_id ∙ id1;
          version_counts = omega (arith, rest.version_counts, version1);
          recorded_new =
              rest.recorded_new
              ∙ ap (λ p. p ++ rest.new) pending1
              ∙ append_assoc a.pending_events (e' ∷ []) rest.new;
        }
  ]

  load-folded_some :
      (a : EventSourcedAggregate S P) (es : List (DomainEvent P)) (s : S) (n : ℕ)
      → length es ≡ suc n
      → IsReplayable a
      → fold c a.id a.state es ≡ ok s
      → load_from_history c a es ≡ (ok done, loaded a s (a.version + length es))
  load-folded_some a [] s n count h f = absurd (omega (arith, count))
  load-folded_some a (e ∷ es) s n count h f = load-folded c a e es s h f

  -- What was applied and recorded replays: on an aggregate without pending events, loading the
  -- events that a run of `apply` has recorded gives exactly the aggregate that `apply` has left
  -- once its events are acknowledged, the same state, and the version higher by their number.
  pub applied_events_replay :
      (a a' : EventSourcedAggregate S P) (e : DomainEvent P) (es : List (DomainEvent P))
      → IsReplayable a
      → apply_all a (e ∷ es) ≡ (ok tt, a')
      → (load_from_history c a a'.pending_events ≡ (ok done, acknowledge a' a'.version))
        × (a'.version ≡ a.version + length (e ∷ es))
  unfolding acknowledge
  applied_events_replay a a' e es h run =
      let v : AppliedAll a a' (length (e ∷ es)) = apply_all-AppliedAll a a' (e ∷ es) run in
      let pending : a'.pending_events ≡ v.new = v.recorded_new ∙ ap (λ p. p ++ v.new) h.0 in
      let number : a.version + length v.new ≡ a'.version =
        omega (arith, v.count, v.version_counts) in
      let made : JsString → ℕ → List (DomainEvent P) → EventSourcedAggregate S P = λ i n p. record {
        id = i;
        state = a'.state;
        version = n;
        persisted_version = some n;
        pending_events = p;
      } in
      let load : load_from_history c a v.new
          ≡ (ok done, made a.id (a.version + length v.new) a.pending_events) =
        load-folded_some a v.new a'.state (length es) v.count h v.folded in
      (
        ap (load_from_history c a) pending
            ∙ load
            ∙ ap (λ i. (ok done, made i (a.version + length v.new) a.pending_events))
                (sym v.same_id)
            ∙ ap (λ n. (ok done, made a'.id n a.pending_events)) number
            ∙ ap (λ p. (ok done, made a'.id a'.version p)) h.0,
        v.version_counts,
      )
