-- ===== src/EventBuffer/Replay.antt =====
-- What `subscribe` returns, and that a reader who pages with the last id it saw misses nothing.
use a2a_broker.Prelude.{
  ℕ, zero, suc, ◌+◌, ◌-◌, ◌≤◌, ◌<◌, ◌≡◌, refl, sym, ap, ◌∙◌, subst, List, [], ◌∷◌, ◌++◌, arith,
  length, take, filter, Option, none, some, Bool, false, ◌&&◌, ltb, max, or_else, Bool-cases, inl,
  inr, length-append,
}
use mathlib.Core.List.{append-nil, append_assoc}
use a2a_broker.EventBuffer.{CursorEventBuffer, subscribe, collect}

-- What a limit leaves of a result. A limit of 0 leaves one event, since the loop tests it only
-- after it has pushed.
abbrev pub clip {ℓ} : {E : Type ℓ} → Option ℕ → List E → List E
clip none es = es
clip (some limit) es = take (max 1 limit) es

module _ {ℓ} {E : Type ℓ} (id_of : E → ℕ) where
  -- The events past a cursor that the reader asks for.
  abbrev pub wanted : ℕ → (E → Bool) → E → Bool
  wanted after_id matches e = ltb after_id (id_of e) && matches e

  collect-unlimited :
      (after_id : ℕ) (matches : E → Bool) (result es : List E)
      → collect id_of after_id none matches result es
        ≡ result ++ filter (wanted after_id matches) es
  unfolding collect
  collect-unlimited after_id matches result [] = rw append-nil
  collect-unlimited after_id matches result (e ∷ es) = ground (
    arith,
    collect-unlimited after_id matches result es,
    collect-unlimited after_id matches (result ++ e ∷ []) es,
    append_assoc result (e ∷ []) (filter (wanted after_id matches) es),
  )

  collect-limited :
      (after_id limit : ℕ) (matches : E → Bool) (result es : List E) (room : ℕ)
      → length result + suc room ≡ max 1 limit
      → collect id_of after_id (some limit) matches result es
        ≡ result ++ take (suc room) (filter (wanted after_id matches) es)
  unfolding collect
  collect-limited after_id limit matches result [] room h = rw append-nil
  collect-limited after_id limit matches result (e ∷ es) zero h = ground (
    arith,
    collect-limited after_id limit matches result es zero h,
    length-append result (e ∷ []),
  )
  collect-limited after_id limit matches result (e ∷ es) (suc room) h = ground (
    arith,
    collect-limited after_id limit matches result es (suc room) h,
    collect-limited after_id limit matches (result ++ e ∷ []) es room,
    length-append result (e ∷ []),
    append_assoc result (e ∷ []) (take (suc room) (filter (wanted after_id matches) es)),
  )

  -- `subscribe` returns the retained events with an id past the cursor that match, in order: all of them
  -- without a limit, and under a limit the first of them, up to as many as the limit says, where a
  -- limit of 0 counts as 1.
  pub subscribe-eq-filter :
      (b : CursorEventBuffer E) (after_id limit : Option ℕ) (matches : E → Bool)
      → subscribe id_of b after_id limit matches
        ≡ clip limit (filter (wanted (or_else after_id 0) matches) b.events)
  unfolding subscribe
  subscribe-eq-filter b after_id none matches =
      collect-unlimited (or_else after_id 0) matches [] b.events
  subscribe-eq-filter b after_id (some limit) matches =
      let room : ℕ = max 1 limit - 1 in
      let whole : suc room ≡ max 1 limit = omega arith in
      rw (← whole)
        (collect-limited (or_else after_id 0) limit matches [] b.events room (omega arith))

  -- Ids ascend along the list, and are past `n`.
  abbrev pub Ascends : ℕ → List E → Type 0
  Ascends n [] = Unit
  Ascends n (e ∷ es) = (n < id_of e) × Ascends (id_of e) es

  -- The cursor for the next page: the id of the last event seen.
  abbrev pub cursor : ℕ → List E → ℕ
  cursor n [] = n
  cursor n (e ∷ es) = cursor (id_of e) es

  module _ (matches : E → Bool) where
    abbrev past : ℕ → List E → List E
    past after_id = filter (wanted after_id matches)

    cursor-le : (k n c : ℕ) (es : List E) → n ≤ c → n ≤ cursor c (take k (past n es))
    cursor-le zero n c es h = h
    cursor-le (suc k) n c [] h = h
    cursor-le (suc k) n c (e ∷ es) h =
        ground (arith, cursor-le (suc k) n c es h, cursor-le k n (id_of e) es)

    -- A cursor below the ids of an ascending list drops nothing.
    past-Ascends : (m n l : ℕ) (es : List E) → m ≤ l → n ≤ l → Ascends l es → past m es ≡ past n es
    past-Ascends m n l [] h h' a = refl
    past-Ascends m n l (e ∷ es) h h' a =
        ground (arith, past-Ascends m n (id_of e) es (omega arith) (omega arith) a.1)

    past-skip :
        (n : ℕ) (e : E) (es : List E) → wanted n matches e ≡ false → past n (e ∷ es) ≡ past n es
    past-skip n e es h = rw h

    paging :
        (k n l : ℕ) (es whole : List E)
        → Ascends l es
        → past n es ≡ whole
        → whole ≡ take k whole ++ past (cursor n (take k whole)) es
    paging zero n l es whole a w = sym w
    paging (suc k) n l [] whole a w = rw (← w)
    paging (suc k) n l (e ∷ es) whole a w = elim (Bool-cases (wanted n matches e)) [
      | inl hit ↦
          let same : past n es ≡ past (id_of e) es =
            past-Ascends n (id_of e) (id_of e) es (ground arith) (omega arith) a.1 in
          let c : ℕ = cursor (id_of e) (take k (past (id_of e) es)) in
          let seen : wanted c matches e ≡ false =
            ground (arith, cursor-le k (id_of e) (id_of e) es (omega arith)) in
          let split : whole ≡ e ∷ past (id_of e) es = rw (← w, hit, same) in
          let w : List E = past (id_of e) es in
          subst (λ v. v ≡ take (suc k) v ++ past (cursor n (take (suc k) v)) (e ∷ es)) (sym split)
            (ap (◌∷◌ e) (
              paging k (id_of e) (id_of e) es w a.1 refl
              ∙ ap (◌++◌ (take k w)) (sym (past-skip c e es seen))))
      | inr miss ↦
          let rest : past n es ≡ whole = rw (← w, miss) in
          let c : ℕ = cursor n (take (suc k) whole) in
          let seen : wanted c matches e ≡ false =
            ground (arith, rest, cursor-le (suc k) n n es (omega arith)) in
          rw seen (paging (suc k) n (id_of e) es whole a.1 rest)
    ]

  -- Reading in pages loses and repeats nothing: over ascending ids, what a reader gets without a limit
  -- is the page it gets under any limit, followed by what it gets from the page's last id on (from the
  -- same cursor, if the page is empty).
  pub subscribe-pages :
      (b : CursorEventBuffer E) (after_id limit : ℕ) (matches : E → Bool)
      → Ascends 0 b.events
      → let page = subscribe id_of b (some after_id) (some limit) matches in
        subscribe id_of b (some after_id) none matches
        ≡ page ++ subscribe id_of b (some (cursor after_id page)) none matches
  subscribe-pages b after_id limit matches a =
      rw
        (
          subscribe-eq-filter b (some after_id) (some limit) matches,
          subscribe-eq-filter b (some after_id) none matches,
          subscribe-eq-filter b
              (some (cursor after_id (clip (some limit) (past matches after_id b.events)))) none
              matches,
        )
        (paging matches (max 1 limit) after_id 0 b.events (past matches after_id b.events) a refl)
