-- ===== src/EventBuffer/Retention.antt =====
-- What the buffer keeps: the newest events of its history, under ascending ids. The managers append
-- an event only as `emitEvent` does, with the id that `allocateId` has just given out.
use mathlib.Core.List.{append-nil, append_assoc}
use a2a_broker.Prelude.{
  ℕ, suc, ◌+◌, ◌-◌, ◌≤◌, ◌≡◌, refl, ap, sym, drop-nil, ◌∙◌, subst, List, [], ◌∷◌, ◌++◌, arith,
  length, drop, length-append, length-drop, drop-append, drop-drop, ltb, Bool-cases, inl, inr,
}
use a2a_broker.EventBuffer.{CursorEventBuffer, new, emit, trim, latest_id, size}

module _ {ℓ} {E : Type ℓ} where
  unfoldable pub emit_all : CursorEventBuffer E → List (ℕ → E) → CursorEventBuffer E
  unfolding emit
  emit_all b [] = b
  emit_all b (make ∷ makes) = emit_all (emit b make) makes

  -- The whole history after `n` events, none of them evicted.
  unfoldable pub numbered : ℕ → List (ℕ → E) → List E
  numbered n [] = []
  numbered n (make ∷ makes) = make (n + 1) ∷ numbered (n + 1) makes

  pub record Retains (b : CursorEventBuffer E) (history : List E) : Type ℓ where
    pub newest : b.events ≡ drop (length history - b.max_events) history
    pub counted : b.next_id ≡ length history

  pub trim-eq-drop : (m : ℕ) (es : List E) → trim m es ≡ drop (length es - m) es
  unfolding trim
  trim-eq-drop m es = elim (Bool-cases (ltb m (length es))) [
    | inl longer ↦ rw longer
    | inr fits ↦ let none_over : length es - m ≡ 0 = ground arith in rw (fits, none_over)
  ]

  trim-drop :
      (m : ℕ) (h : List E) (e : E)
      → trim m (drop (length h - m) h ++ e ∷ []) ≡ drop (length (h ++ e ∷ []) - m) (h ++ e ∷ [])
  trim-drop m h e =
      let k : ℕ = length h - m in
      let whole : List E = h ++ e ∷ [] in
      let shift : drop k whole ≡ drop k h ++ e ∷ [] = drop-append k h (e ∷ []) (omega arith) in
      let over : k + (length (drop k whole) - m) ≡ length whole - m =
        omega (arith, length-drop k whole, length-append h (e ∷ [])) in
      rw (← shift, trim-eq-drop m (drop k whole), drop-drop (length (drop k whole) - m) k whole)
        (ap (λ n. drop n whole) over)

  -- The refinement step: the buffer stays the end of its history.
  pub emit-Retains :
      (b : CursorEventBuffer E) (history : List E) (make : ℕ → E)
      → Retains b history
      → Retains (emit b make) (history ++ make (length history + 1) ∷ [])
  unfolding emit
  emit-Retains b history make r = record {
    newest = rw (r.newest, r.counted) (trim-drop b.max_events history (make (length history + 1)));
    counted = omega (arith, r.counted, length-append history (make (length history + 1) ∷ []));
  }

  emit_all-Retains :
      (b : CursorEventBuffer E) (history : List E) (makes : List (ℕ → E))
      → Retains b history
      → Retains (emit_all b makes) (history ++ numbered (length history) makes)
  unfolding emit_all numbered
  emit_all-Retains b history [] r = rw append-nil r
  emit_all-Retains b history (make ∷ makes) r =
      let event : E = make (length history + 1) in
      let longer : length (history ++ event ∷ []) ≡ length history + 1 =
        omega (arith, length-append history (event ∷ [])) in
      let rest : List E = numbered (length history + 1) makes in
      let regroup : (history ++ event ∷ []) ++ rest ≡ history ++ event ∷ rest =
        append_assoc history (event ∷ []) rest in
      subst (Retains (emit_all (emit b make) makes)) regroup (
        subst
          (λ n.
            Retains (emit_all (emit b make) makes) ((history ++ event ∷ []) ++ numbered n makes))
          longer
          (emit_all-Retains (emit b make) (history ++ event ∷ []) makes
            (emit-Retains b history make r)))

  max_events-emit_all :
      (b : CursorEventBuffer E) (makes : List (ℕ → E))
      → (emit_all b makes).max_events ≡ b.max_events
  unfolding emit_all emit
  max_events-emit_all b [] = refl
  max_events-emit_all b (make ∷ makes) = max_events-emit_all (emit b make) makes

  length-numbered : (n : ℕ) (makes : List (ℕ → E)) → length (numbered n makes) ≡ length makes
  unfolding numbered
  length-numbered n [] = refl
  length-numbered n (make ∷ makes) = ap suc (length-numbered (n + 1) makes)

  -- After any number of emitted events, a buffer built for `m` events holds exactly the newest `m` of
  -- them, oldest first, with the ids 1, 2, … in the order of emission, and `latestId` is their count.
  pub emit_all-keeps_newest :
      (m : ℕ) (makes : List (ℕ → E))
      → let history = numbered 0 makes in
        ((emit_all (new m) makes).events ≡ drop (length history - m) history)
        × (latest_id (emit_all (new m) makes) ≡ length makes)
        × (size (emit_all (new m) makes) ≤ m)
  unfolding new latest_id size
  emit_all-keeps_newest m makes =
      let built : Retains (new {E = E} m) [] = record {
        newest = sym (drop-nil (0 - m));
        counted = refl;
      } in
      let kept = emit_all-Retains (new m) [] makes built in
      let same_max = max_events-emit_all (new m) makes in
      let history : List E = numbered 0 makes in
      let newest : (emit_all (new m) makes).events ≡ drop (length history - m) history =
        subst (λ k. (emit_all (new m) makes).events ≡ drop (length history - k) history) same_max
          kept.newest in
      (
        newest,
        kept.counted ∙ length-numbered 0 makes,
        omega (arith, ap length newest, length-drop (length history - m) history),
      )
