-- ===== src/EventBuffer/Announce.antt =====
-- What the managers share: a map of records, and a buffer with an event for each change of one of them.
use a2a_broker.Prelude.{
  ℕ, ◌+◌, ◌≡◌, subst, ◌∙◌, String, ◌==◌, some, inl, inr, Bool-cases, if◌then◌else◌, eq_iff, sym,
}
use a2a_broker.Prelude.Dict
use a2a_broker.Prelude.Dict.{Dict}
use a2a_broker.EventBuffer.{CursorEventBuffer, emit}
use a2a_broker.EventBuffer.Latest.{latest, latest-emit}
use a2a_broker.EventBuffer.Order.{IsOrdered, emit-IsOrdered}

module _ {S E : Type 0} (id_of : E → ℕ) (subject : E → String) (Names : S → E → Type 0) where
  -- One event is emitted, about the record of a key as it is now.
  pub record Emits (k : String) (p : S) (b b' : CursorEventBuffer E) : Type 0 where
    pub make : ℕ → E
    pub appended : b' ≡ emit b make
    pub carries : (n : ℕ) → id_of (make n) ≡ n
    pub about : (n : ℕ) → subject (make n) ≡ k
    pub announces : (n : ℕ) → Names p (make n)

  -- The newest retained event of a key names the record as it is.
  abbrev pub IsAnnounced : Dict S → CursorEventBuffer E → Type 0
  IsAnnounced d b =
      (k : String) (e : E)
      → latest subject k b.events ≡ some e
      → (p : S) × (Dict.get d k ≡ some p) × Names p e

  pub Emits-IsOrdered :
      (k : String) (p : S) (b b' : CursorEventBuffer E)
      → Emits k p b b'
      → IsOrdered id_of b
      → IsOrdered id_of b'
  Emits-IsOrdered k p b b' s o =
      rw s.appended (emit-IsOrdered id_of b s.make (s.carries (b.next_id + 1)) o)

  pub Emits-IsAnnounced :
      (k : String) (p : S) (d : Dict S) (b b' : CursorEventBuffer E)
      → Emits k p b b'
      → IsAnnounced d b
      → IsAnnounced (Dict.set d k p) b'
  Emits-IsAnnounced k p d b b' s v j e found =
      let event : E = s.make (b.next_id + 1) in
      let moved_in : latest subject j (emit b s.make).events ≡ some e =
        subst (λ c. latest subject j c.events ≡ some e) s.appended found in
      let newest : (if k == j then some event else latest subject j b.events) ≡ some e =
        subst (λ n. (if n == j then some event else latest subject j b.events) ≡ some e)
          (s.about (b.next_id + 1)) (latest-emit subject j b s.make moved_in) in
      elim (Bool-cases (k == j)) [
        | inl same ↦
            let is_event : some event ≡ some e =
              subst (λ c. (if c then some event else latest subject j b.events) ≡ some e) same
                newest in
            let is : event ≡ e = cc in
            (p, Dict.get-set_same d k j p same, subst (Names p) is (s.announces (b.next_id + 1)))
        | inr other ↦
            let older : latest subject j b.events ≡ some e =
              subst (λ c. (if c then some event else latest subject j b.events) ≡ some e) other
                newest in
            let (q, held, names) = v j e older in
            (q, Dict.get-set_other d k j p other ∙ held, names)
      ]

  -- A record may change without an event, where the change does not touch what the events name.
  pub IsAnnounced-set :
      (k : String) (p p' : S) (d : Dict S) (b : CursorEventBuffer E)
      → Dict.get d k ≡ some p
      → ((e : E) → Names p e → Names p' e)
      → IsAnnounced d b
      → IsAnnounced (Dict.set d k p') b
  IsAnnounced-set k p p' d b held keeps v j e found =
      let (q, was, names) = v j e found in
      elim (Bool-cases (k == j)) [
        | inl same ↦
            let at : k ≡ j = (eq_iff k j).0 same in
            let is : p ≡ q = cc in
            (p', Dict.get-set_same d k j p' same, keeps e (subst (λ x. Names x e) (sym is) names))
        | inr other ↦ (q, Dict.get-set_other d k j p' other ∙ was, names)
      ]
