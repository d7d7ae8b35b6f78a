-- ===== src/EventBuffer/Latest.antt =====
-- The newest retained event of a subject, and how emitting changes it.
use a2a_broker.Prelude.{
  ℕ, zero, suc, ◌+◌, ◌-◌, ◌≡◌, refl, sym, ◌∙◌, subst, String, List, [], ◌∷◌, ◌++◌, arith, length,
  drop, Option, none, some, ◌==◌, if◌then◌else◌,
}
use a2a_broker.EventBuffer.{CursorEventBuffer, emit}
use a2a_broker.EventBuffer.Retention.{trim-eq-drop}

module _ {ℓ} {E : Type ℓ} (subject : E → String) where
  abbrev pub latest : String → List E → Option E
  latest k [] = none
  latest k (e ∷ es) = elim (latest k es) [
    | none ↦ if subject e == k then some e else none
    | some newer ↦ some newer
  ]

  latest-append :
      (k : String) (es : List E) (e : E)
      → latest k (es ++ e ∷ []) ≡ (if subject e == k then some e else latest k es)
  latest-append k [] e = refl
  latest-append k (x ∷ es) e = ground (arith, latest-append k es e)

  latest-drop :
      (k : String) (n : ℕ) (es : List E) {e : E}
      → latest k (drop n es) ≡ some e
      → latest k es ≡ some e
  latest-drop k zero es h = h
  latest-drop k (suc n) [] h = h
  latest-drop k (suc n) (x ∷ es) {e} h = ground (arith, latest-drop k n es {e = e} h)

  pub latest-emit :
      (k : String) (b : CursorEventBuffer E) (make : ℕ → E) {x : E}
      → latest k (emit b make).events ≡ some x
      → (if subject (make (b.next_id + 1)) == k
          then some (make (b.next_id + 1))
          else latest k b.events)
        ≡ some x
  unfolding emit
  latest-emit k b make {x} h =
      let pushed : List E = b.events ++ make (b.next_id + 1) ∷ [] in
      sym (latest-append k b.events (make (b.next_id + 1)))
      ∙ latest-drop k (length pushed - b.max_events) pushed
          (subst (λ es. latest k es ≡ some x) (trim-eq-drop b.max_events pushed) h)
