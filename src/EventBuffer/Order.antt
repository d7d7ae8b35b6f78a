-- ===== src/EventBuffer/Order.antt =====
-- The ids in the buffer stay ascending and at most `latestId`, whatever is emitted.
use a2a_broker.Prelude.{
  ℕ, zero, suc, ◌+◌, ◌-◌, ◌≤◌, ◌<◌, ◌≡◌, subst, sym, List, [], ◌∷◌, ◌++◌, arith, length, drop, All,
  All-append, All-drop,
}
use a2a_broker.EventBuffer.{CursorEventBuffer, new, emit, trim}
use a2a_broker.EventBuffer.Retention.{trim-eq-drop}
use a2a_broker.EventBuffer.Replay.{Ascends}

module _ {ℓ} {E : Type ℓ} (id_of : E → ℕ) where
  pub record IsOrdered (b : CursorEventBuffer E) : Type 0 where
    pub ascending : Ascends id_of 0 b.events
    pub bounded : All (λ e. id_of e ≤ b.next_id) b.events

  pub Ascends-le : (m n : ℕ) (es : List E) → m ≤ n → Ascends id_of n es → Ascends id_of m es
  Ascends-le m n [] h a = tt
  Ascends-le m n (e ∷ es) h a = (omega arith, a.1)

  Ascends-drop : (k n : ℕ) (es : List E) → Ascends id_of n es → Ascends id_of n (drop k es)
  Ascends-drop zero n es a = a
  Ascends-drop (suc k) n [] a = a
  Ascends-drop (suc k) n (e ∷ es) a =
      Ascends-le n (id_of e) (drop k es) (omega arith) (Ascends-drop k (id_of e) es a.1)

  Ascends-append :
      (n m : ℕ) (es : List E) (e : E)
      → n ≤ m
      → m < id_of e
      → All (λ x. id_of x ≤ m) es
      → Ascends id_of n es
      → Ascends id_of n (es ++ e ∷ [])
  Ascends-append n m [] e h past below a = (omega arith, tt)
  Ascends-append n m (x ∷ es) e h past below a =
      (a.0, Ascends-append (id_of x) m es e below.0 past below.1 a.1)

  All-le : (m n : ℕ) (es : List E) → m ≤ n → All (λ x. id_of x ≤ m) es → All (λ x. id_of x ≤ n) es
  All-le m n [] h a = tt
  All-le m n (x ∷ es) h a = (omega arith, All-le m n es h a.1)

  pub new-IsOrdered : (m : ℕ) → IsOrdered (new m)
  unfolding new
  new-IsOrdered m = record { ascending = tt; bounded = tt }

  -- An event that carries the id it was given keeps the order.
  pub emit-IsOrdered :
      (b : CursorEventBuffer E) (make : ℕ → E)
      → id_of (make (b.next_id + 1)) ≡ b.next_id + 1
      → IsOrdered b
      → IsOrdered (emit b make)
  unfolding emit
  emit-IsOrdered b make carries o =
      let e : E = make (b.next_id + 1) in
      let pushed : List E = b.events ++ e ∷ [] in
      let over : ℕ = length pushed - b.max_events in
      let trimmed : drop over pushed ≡ trim b.max_events pushed =
        sym (trim-eq-drop b.max_events pushed) in
      record {
        ascending = subst (Ascends id_of 0) trimmed (
            Ascends-drop over 0 pushed (
              Ascends-append 0 b.next_id b.events e (omega arith) (omega arith) o.bounded
                o.ascending));
        bounded = subst (All (λ x. id_of x ≤ b.next_id + 1)) trimmed (
            All-drop (λ x. id_of x ≤ b.next_id + 1) over pushed
              (All-append (λ x. id_of x ≤ b.next_id + 1) b.events (e ∷ [])
                (All-le b.next_id (b.next_id + 1) b.events (omega arith) o.bounded)
                (omega arith, tt)));
      }
