-- ===== src/Idempotency/Invariant.antt =====
-- The invariant of the records, and what no call can change.
use ddd_kit_ts.Base.{
  ℕ, ◌+◌, ◌≤◌, ◌≡◌, ◌≢◌, inl, inr, refl, sym, ◌∙◌, Option, some, Bool, false, List, [], ◌∷◌, arith,
  All,
}
use ddd_kit_ts.Base.Capacity.{Within, over_limit-Within, Within-anti}
use ddd_kit_ts.Base.JsMap
use ddd_kit_ts.Base.JsMap.Laws.{
  get-set_ne, get-delete_ne, set-IsMap, delete-IsMap, size-set_new, size-set_old, size-delete-le,
  get-set_cases, get-delete_cases,
}
use ddd_kit_ts.Base.JsString.{JsString, JsString-discrete}
use ddd_kit_ts.Idempotency.{
  InMemoryIdempotencyStore, Entry, confirmed, token_of, entries_held, mint, entry_at, clear,
}
use ddd_kit_ts.Idempotency.Steps.{is_confirmed, Step, kept, updated, added, reclaimed, removed}
use ddd_kit_ts.Idempotency.Calls.{Call, clear_call, key_of, run, run_all, run-cases}

-- The token was minted by a generation up to this one.
abbrev pub MintedBy : ℕ → JsString → Type 0
MintedBy generation token = (g : ℕ) × (part : JsString) × (g ≤ generation) × (token ≡ mint g part)

pub MintedBy-weaken : (g g' : ℕ) (token : JsString) → g ≤ g' → MintedBy g token → MintedBy g' token
MintedBy-weaken g g' token le (n, part, below, e) = (n, part, omega arith, e)

-- One record for each key, no more records than the limit, and only tokens that were minted.
pub record IsValid {O : Type 0} (s : InMemoryIdempotencyStore O) : Type 0 where
  pub is_map : JsMap.IsMap JsString-discrete s.entries
  pub bounded : Within (JsMap.size s.entries) s.max_entries
  pub minted :
      (k : JsString) (e : Entry O)
      → entry_at k s ≡ some e
      → MintedBy s.token_generation (token_of e)

module _ {O : Type 0} where
  not-confirmed :
      (f t : JsString) (o : O) (old : Entry O) (r : Option (Entry O))
      → r ≡ some (confirmed f t o)
      → r ≡ some old
      → is_confirmed old ≡ false
      → ⊥
  not-confirmed f t o (confirmed f' t' o') r h found live = cc
  not-confirmed f t o old r h found live = cc

  abbrev AllMinted : ℕ → JsMap.JsMap JsString (Entry O) → Type 0
  AllMinted generation m =
      (k : JsString) (e : Entry O)
      → JsMap.get JsString-discrete k m ≡ some e
      → MintedBy generation (token_of e)

  -- Tokens stay minted under a write of one record.
  AllMinted-set :
      (generation : ℕ) (key : JsString) (e : Entry O) (m : JsMap.JsMap JsString (Entry O))
      → MintedBy generation (token_of e)
      → AllMinted generation m
      → AllMinted generation (JsMap.set JsString-discrete key e m)
  AllMinted-set generation key e m new old k x h =
      elim (get-set_cases JsString-discrete key k e x m h) [
        | inl (here, written) ↦ rw (← written) new
        | inr (ne, before) ↦ old k x before
      ]

  AllMinted-delete :
      (generation : ℕ) (key : JsString) (m : JsMap.JsMap JsString (Entry O))
      → JsMap.IsMap JsString-discrete m
      → AllMinted generation m
      → AllMinted generation (JsMap.delete JsString-discrete key m)
  AllMinted-delete generation key m v old k x h =
      old k x (get-delete_cases JsString-discrete key k x m v h).1

module _ {O : Type 0} {key : JsString} {s s' : InMemoryIdempotencyStore O} where
  -- A call on one key leaves the record of every other key alone.
  pub Step-frame : (k : JsString) → key ≢ k → Step key s s' → entry_at k s' ≡ entry_at k s
  Step-frame k ne (kept g le eq) = rw eq refl
  Step-frame k ne (updated old e found live tok eq) =
      rw eq (get-set_ne JsString-discrete key k e s.entries ne)
  Step-frame k ne (added e part absent room tok eq) =
      rw eq (get-set_ne JsString-discrete key k e s.entries ne)
  Step-frame k ne (reclaimed old e part found live tok eq) =
      rw eq (get-set_ne JsString-discrete key k e s.entries ne)
  Step-frame k ne (removed old found live eq) =
      rw eq (get-delete_ne JsString-discrete key k s.entries ne)

  Step-confirmed_self :
      (f t : JsString) (o : O)
      → entry_at key s ≡ some (confirmed f t o)
      → Step key s s'
      → entry_at key s' ≡ some (confirmed f t o)
  Step-confirmed_self f t o h (kept g le eq) = rw eq h
  Step-confirmed_self f t o h (updated old e found live tok eq) =
      absurd (not-confirmed f t o old _ h found live)
  Step-confirmed_self f t o h (added e part absent room tok eq) = cc (absent, h)
  Step-confirmed_self f t o h (reclaimed old e part found live tok eq) =
      absurd (not-confirmed f t o old _ h found live)
  Step-confirmed_self f t o h (removed old found live eq) =
      absurd (not-confirmed f t o old _ h found live)

  -- No step touches a confirmed record.
  pub Step-confirmed :
      (k f t : JsString) (o : O)
      → entry_at k s ≡ some (confirmed f t o)
      → Step key s s'
      → entry_at k s' ≡ some (confirmed f t o)
  Step-confirmed k f t o h step = elim (JsString-discrete key k) [
    | no ne ↦ Step-frame k ne step ∙ h
    | yes here ↦
        let h' : entry_at key s ≡ some (confirmed f t o) = rw here h in
        let r : entry_at key s' ≡ some (confirmed f t o) = Step-confirmed_self f t o h' step in
        rw (← here) r
  ]

  Step-minted : IsValid s → Step key s s' → AllMinted s'.token_generation s'.entries
  Step-minted v (kept g le eq) = rw eq (λ k x h. MintedBy-weaken _ _ _ le (v.minted k x h))
  Step-minted v (updated old e found live tok eq) =
      rw eq (
        AllMinted-set s.token_generation key e s.entries (rw tok (v.minted key old found)) v.minted)
  Step-minted v (added e part absent room tok eq) = rw eq (
      AllMinted-set (s.token_generation + 1) key e s.entries
        (s.token_generation + 1, part, omega arith, tok)
        (λ k x h. MintedBy-weaken _ _ _ (omega arith) (v.minted k x h)))
  Step-minted v (reclaimed old e part found live tok eq) = rw eq (
      AllMinted-set (s.token_generation + 1) key e s.entries
        (s.token_generation + 1, part, omega arith, tok)
        (λ k x h. MintedBy-weaken _ _ _ (omega arith) (v.minted k x h)))
  Step-minted v (removed old found live eq) =
      rw eq (AllMinted-delete s.token_generation key s.entries v.is_map v.minted)

  Step-IsMap : IsValid s → Step key s s' → JsMap.IsMap JsString-discrete s'.entries
  Step-IsMap v (kept g le eq) = rw eq v.is_map
  Step-IsMap v (updated old e found live tok eq) =
      rw eq (set-IsMap JsString-discrete key e s.entries v.is_map)
  Step-IsMap v (added e part absent room tok eq) =
      rw eq (set-IsMap JsString-discrete key e s.entries v.is_map)
  Step-IsMap v (reclaimed old e part found live tok eq) =
      rw eq (set-IsMap JsString-discrete key e s.entries v.is_map)
  Step-IsMap v (removed old found live eq) =
      rw eq (delete-IsMap JsString-discrete key s.entries v.is_map)

  Step-bounded : IsValid s → Step key s s' → Within (JsMap.size s'.entries) s'.max_entries
  Step-bounded v (kept g le eq) = rw eq v.bounded
  Step-bounded v (updated old e found live tok eq) =
      rw (eq, size-set_old JsString-discrete key e old s.entries found) v.bounded
  Step-bounded v (added e part absent room tok eq) =
      rw (eq, size-set_new JsString-discrete key e s.entries absent)
        (over_limit-Within entries_held s.max_entries (JsMap.size s.entries) 1 room)
  Step-bounded v (reclaimed old e part found live tok eq) =
      rw (eq, size-set_old JsString-discrete key e old s.entries found) v.bounded
  Step-bounded v (removed old found live eq) = rw eq (
      Within-anti _ (JsMap.size s.entries) s.max_entries
        (size-delete-le JsString-discrete key s.entries) v.bounded)

module _ {O : Type 0} (cloneable : O → Bool) where
  clear-IsValid : (s : InMemoryIdempotencyStore O) → IsValid s → IsValid (clear s)
  unfolding clear
  clear-IsValid s v = record {
    is_map = tt;
    bounded = Within-anti 0 (JsMap.size s.entries) s.max_entries (omega arith) v.bounded;
    minted = λ k e h. absurd (cc);
  }

  -- Every call, `clear` included, keeps one record for each key, no more records than the limit, and
  -- only tokens that the store has minted.
  pub run-IsValid :
      (call : Call O) (s : InMemoryIdempotencyStore O) → IsValid s → IsValid (run cloneable call s)
  run-IsValid call s v = elim (run-cases cloneable call s) [
    | inr cleared ↦ rw cleared (clear-IsValid s v)
    | inl (key, about, step) ↦ record {
      is_map = Step-IsMap v step;
      bounded = Step-bounded v step;
      minted = Step-minted v step;
    }
  ]

  pub run_all-IsValid :
      (calls : List (Call O)) (s : InMemoryIdempotencyStore O)
      → IsValid s
      → IsValid (run_all cloneable calls s)
  run_all-IsValid [] s v = v
  run_all-IsValid (call ∷ calls) s v =
      run_all-IsValid calls (run cloneable call s) (run-IsValid call s v)

  -- Once an outcome is confirmed, no sequence of calls by any clients changes or removes it, unless
  -- the store is cleared.
  pub run_all-confirmed :
      (calls : List (Call O)) (s : InMemoryIdempotencyStore O) (key f t : JsString) (o : O)
      → All (λ call. call ≢ clear_call) calls
      → entry_at key s ≡ some (confirmed f t o)
      → entry_at key (run_all cloneable calls s) ≡ some (confirmed f t o)
  run_all-confirmed [] s key f t o no_clear h = h
  run_all-confirmed (call ∷ calls) s key f t o no_clear h = elim (run-cases cloneable call s) [
    | inr cleared ↦ absurd (no_clear.0 cleared)
    | inl (j, about, step) ↦
        run_all-confirmed calls (run cloneable call s) key f t o no_clear.1
          (Step-confirmed key f t o h step)
  ]

  -- A call on another key leaves the record of a key alone.
  pub run-frame :
      (call : Call O) (s : InMemoryIdempotencyStore O) (key j : JsString)
      → key_of cloneable call ≡ some j
      → j ≢ key
      → entry_at key (run cloneable call s) ≡ entry_at key s
  run-frame call s key j about ne = elim (run-cases cloneable call s) [
    | inr cleared ↦ absurd (ground (arith, cleared, about))
    | inl (i, also, step) ↦
        let same : i ≡ j = cc (about, also) in Step-frame key (λ e. ne (sym same ∙ e)) step
  ]
