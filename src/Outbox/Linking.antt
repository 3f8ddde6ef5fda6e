-- ===== src/Outbox/Linking.antt =====
-- The position that the outbox gives to the next event of a source.
use ddd_kit_ts.Base.{
  ℕ, ◌+◌, ◌<◌, ◌≡◌, ◌⊎◌, inl, inr, refl, ltb, true, false, ap, ◌∙◌, ◌==◌, Option, none, some, arith,
  ok, ℕ_discrete, if◌then◌else◌,
}
use ddd_kit_ts.Base.JsMap
use ddd_kit_ts.Base.JsMap.Laws.{get-set_ne}
use ddd_kit_ts.Base.JsString.{JsString}
use ddd_kit_ts.Checkpoints.{CommitPosition}
use ddd_kit_ts.Projector.Chain.{Follows, genesis, same_commit, next_commit}
use ddd_kit_ts.Outbox.{
  EventCommitCandidate, EventCommitCandidatePosition, EventSourceCursor, candidate_position,
  stale_head, link, with_new_place, cursor_with_event, finalized, fresh_cursor, assert_place,
  assert_place_at, simulated_cursor,
}

abbrev pub last_of : Option CommitPosition → Option EventCommitCandidatePosition
last_of none = none
last_of (some w) = some (candidate_position w)

-- The candidate is the next event of its source: the first of all; or the next one of the same
-- commit; or, once the commit is complete, the first one of a later commit.
abbrev pub Sequel : Option EventCommitCandidatePosition → EventCommitCandidatePosition → Type 0
Sequel none p = p.commit_sequence ≡ 0
Sequel (some w) p =
    ((p.aggregate_version ≡ w.aggregate_version)
      × (p.commit_sequence ≡ w.commit_sequence + 1)
      × (p.commit_size ≡ w.commit_size))
    ⊎ ((w.commit_sequence + 1 ≡ w.commit_size)
        × (w.aggregate_version < p.aggregate_version)
        × (p.commit_sequence ≡ 0))

-- The cursor of a source whose last event stands at the position.
abbrev pub CursorAt : Option EventSourceCursor → Option CommitPosition → Type 0
CursorAt none none = Unit
CursorAt none (some w) = ⊥
CursorAt (some u) none = ⊥
CursorAt (some u) (some w) =
    (u.aggregate_version ≡ w.aggregate_version)
    × (u.commit_size ≡ w.commit_size)
    × (u.previous_eventful_aggregate_version ≡ w.previous_eventful_aggregate_version)
    × ((n : ℕ) → w.commit_sequence < n → JsMap.get ℕ_discrete n u.event_ids_by_sequence ≡ none)

-- The position after the last one, with its predecessor.
abbrev pub next_position : Option CommitPosition → EventCommitCandidatePosition → CommitPosition
next_position none p = finalized p none
next_position (some w) p =
    if w.aggregate_version == p.aggregate_version
    then finalized p w.previous_eventful_aggregate_version
    else finalized p (some w.aggregate_version)

pub next_position-Follows :
    (w : Option CommitPosition) (p : EventCommitCandidatePosition)
    → Sequel (last_of w) p
    → Follows w (next_position w p)
next_position-Follows none p h = genesis h refl
next_position-Follows (some w) p (inl (version, sequence, size)) =
    let same : (w.aggregate_version == p.aggregate_version) ≡ true = ground (arith, version) in
    rw same (same_commit version sequence size refl)
next_position-Follows (some w) p (inr (complete, later, zero)) =
    let other : (w.aggregate_version == p.aggregate_version) ≡ false = ground (arith, later) in
    rw other (next_commit complete zero refl)

-- A fresh cursor has no event after its first.
fresh-free :
    (p : EventCommitCandidatePosition) (previous : Option ℕ) (id : JsString) (n : ℕ)
    → p.commit_sequence < n
    → JsMap.get ℕ_discrete n (fresh_cursor p previous id).event_ids_by_sequence ≡ none
fresh-free p previous id n h = ground arith

-- What the outbox writes for the next event of a source: no test refuses it, and the cursor moves.
pub record Linked {P : Type 0} (cursor : Option EventSourceCursor) (w : Option CommitPosition)
    (c : EventCommitCandidate P) : Type 0 where
  pub cursor' : EventSourceCursor
  pub not_stale : stale_head none cursor c.position.aggregate_version ≡ none
  pub placed : assert_place_at cursor c ≡ ok tt
  pub linked :
      link none cursor c.position c.event.event_id
      ≡ ((next_position w c.position).previous_eventful_aggregate_version, some cursor')
  pub simulated : simulated_cursor cursor c ≡ ok (some cursor')
  pub at_next : CursorAt (some cursor') (some (next_position w c.position))

with_new_place-free :
    (u : EventSourceCursor) (p : EventCommitCandidatePosition) (id : JsString)
    → JsMap.get ℕ_discrete p.commit_sequence u.event_ids_by_sequence ≡ none
    → with_new_place u p id ≡ some (cursor_with_event u p.commit_sequence id)
unfolding with_new_place
with_new_place-free u p id h = ground (arith, h)

-- A place after the last one is still free once the next one is taken.
cursor_with_event-free :
    (u : EventSourceCursor) (k : ℕ) (id : JsString) (n : ℕ)
    → k < n
    → JsMap.get ℕ_discrete n u.event_ids_by_sequence ≡ none
    → JsMap.get ℕ_discrete n (cursor_with_event u k id).event_ids_by_sequence ≡ none
unfolding cursor_with_event
cursor_with_event-free u k id n lt h =
    get-set_ne ℕ_discrete k n id u.event_ids_by_sequence (λ e. omega arith) ∙ h

pub link_next :
    {P : Type 0} (cursor : Option EventSourceCursor) (w : Option CommitPosition)
    (c : EventCommitCandidate P)
    → CursorAt cursor w
    → Sequel (last_of w) c.position
    → Linked cursor w c
unfolding stale_head assert_place_at link simulated_cursor assert_place cursor_with_event
link_next none none c at h = record {
  cursor' = fresh_cursor c.position none c.event.event_id;
  not_stale = refl;
  placed = refl;
  linked = refl;
  simulated = refl;
  at_next = (refl, refl, refl, fresh-free c.position none c.event.event_id);
}
link_next none (some w) c at h = absurd at
link_next (some u) none c at h = absurd at
link_next (some u) (some w) c (version, size, previous, free) (inl (same, next, size')) =
    let p = c.position in
    let id = c.event.event_id in
    let stands : (u.aggregate_version == p.aggregate_version) ≡ true =
      ground (arith, version, same) in
    let fits : (u.commit_size == p.commit_size) ≡ true = ground (arith, size, size') in
    let stands' : (w.aggregate_version == p.aggregate_version) ≡ true = ground (arith, same) in
    let not_before : ltb u.aggregate_version p.aggregate_version ≡ false =
      ground (arith, version, same) in
    let not_after : ltb p.aggregate_version u.aggregate_version ≡ false =
      ground (arith, version, same) in
    let empty : JsMap.get ℕ_discrete p.commit_sequence u.event_ids_by_sequence ≡ none =
      free p.commit_sequence (ground (arith, next)) in
    record {
      cursor' = cursor_with_event u p.commit_sequence id;
      not_stale = ground (arith, version, same);
      placed = rw (stands, fits, empty) refl;
      linked = rw (stands, stands') (λ i. (previous i, with_new_place-free u p id empty i));
      simulated =
          rw (not_before, not_after, fits, empty) (ap ok (with_new_place-free u p id empty));
      at_next = rw stands' (
        ground (arith, version, same),
        ground (arith, size, size'),
        previous,
        λ n lt.
            cursor_with_event-free u p.commit_sequence id n lt (free n (ground (arith, next, lt))),
      );
    }
link_next (some u) (some w) c (version, size, previous, free) (inr (complete, later, zero)) =
    let p = c.position in
    let id = c.event.event_id in
    let moved : (u.aggregate_version == p.aggregate_version) ≡ false =
      ground (arith, version, later) in
    let before : ltb u.aggregate_version p.aggregate_version ≡ true =
      ground (arith, version, later) in
    let moved' : (w.aggregate_version == p.aggregate_version) ≡ false = ground (arith, later) in
    record {
      cursor' = fresh_cursor p (some u.aggregate_version) id;
      not_stale = ground (arith, version, later);
      placed = rw moved refl;
      linked =
          rw (moved, moved')
            (λ i. (some (version i), some (fresh_cursor p (some u.aggregate_version) id)));
      simulated = rw before refl;
      at_next = rw moved' (refl, refl, ap some version, fresh-free p (some u.aggregate_version) id);
    }

pub finalized-next_position :
    (w : Option CommitPosition) (p : EventCommitCandidatePosition)
    → finalized p (next_position w p).previous_eventful_aggregate_version ≡ next_position w p
finalized-next_position none p = refl
finalized-next_position (some w) p = ground arith

pub last_of-next_position :
    (w : Option CommitPosition) (p : EventCommitCandidatePosition)
    → candidate_position (next_position w p) ≡ p
last_of-next_position none p = refl
last_of-next_position (some w) p = ground arith
