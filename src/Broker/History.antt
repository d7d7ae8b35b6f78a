-- ===== src/Broker/History.antt =====
-- What the operations do to one task: what it keeps for good.
use a2a_broker.Prelude.{
  ◌≡◌, refl, sym, ◌∙◌, subst, ap, String, some, none, ◌⊎◌, inl, inr, ◌==◌, eq_iff, Bool-cases,
}
use a2a_broker.Prelude.Dict
use a2a_broker.Broker.Types.{TaskRecord}
use a2a_broker.Broker.State.{Broker}
use a2a_broker.Broker.Lifecycle.{Turn, Turns, rest, turn, settle, IsValid, Turns-IsValid}

-- What an operation never changes of a task: its id, its parent and its policy.
pub record Becomes (t u : TaskRecord) : Type 0 where
  pub same_id : u.id ≡ t.id
  pub same_parent : u.parent_task_id ≡ t.parent_task_id
  pub same_policy : u.policy_context ≡ t.policy_context

pub Becomes-refl : (t : TaskRecord) → Becomes t t
Becomes-refl t = record { same_id = refl; same_parent = refl; same_policy = refl }

pub Becomes-trans : (t u w : TaskRecord) → Becomes t u → Becomes u w → Becomes t w
Becomes-trans t u w f g = record {
  same_id = g.same_id ∙ f.same_id;
  same_parent = g.same_parent ∙ f.same_parent;
  same_policy = g.same_policy ∙ f.same_policy;
}

-- A turn on the task under a key, or on another.
pub Turn-at :
    (b b' : Broker) (s : Turn b b') (k : String) (t : TaskRecord)
    → IsValid b
    → Dict.get b.tasks k ≡ some t
    → (Dict.get b'.tasks k ≡ some t) ⊎ ((s.old ≡ t) × (Dict.get b'.tasks k ≡ some s.new))
Turn-at b b' s k t v found =
    let (named, sound) = v.stored s.key s.old s.found in
    elim (Bool-cases (s.new.id == k)) [
      | inl same ↦
          let at : s.key ≡ k = sym named ∙ sym s.same_id ∙ (eq_iff s.new.id k).0 same in
          let old_is_t : some s.old ≡ some t =
            sym (subst (λ i. Dict.get b.tasks i ≡ some s.old) at s.found) ∙ found in
          inr (
            cc old_is_t,
            subst (λ m. Dict.get m k ≡ some s.new) (sym s.written)
                (Dict.get-set_same b.tasks s.new.id k s.new same),
          )
      | inr other ↦ inl (
          subst (λ m. Dict.get m k ≡ some t) (sym s.written)
            (Dict.get-set_other b.tasks s.new.id k s.new other ∙ found))
    ]

Turn-Becomes :
    (b b' : Broker) (s : Turn b b') (t u : TaskRecord) → Becomes t u → s.old ≡ u → Becomes t s.new
Turn-Becomes b b' s t u h e = record {
  same_id = s.same_id ∙ ap (λ x. x.id) e ∙ h.same_id;
  same_parent = s.same_parent ∙ ap (λ x. x.parent_task_id) e ∙ h.same_parent;
  same_policy = s.same_policy ∙ ap (λ x. x.policy_context) e ∙ h.same_policy;
}

pub Turns-Becomes :
    {b b' : Broker} (k : String) (t : TaskRecord)
    → Turns b b'
    → IsValid b
    → Dict.get b.tasks k ≡ some t
    → (u : TaskRecord) × (Dict.get b'.tasks k ≡ some u) × Becomes t u
Turns-Becomes k t (rest f) v found = (t, rw f.tasks found, Becomes-refl t)
Turns-Becomes k t (settle ts f) v found =
    let (u, at, h) = Turns-Becomes k t ts v found in (u, rw f.tasks at, h)
Turns-Becomes k t (turn {c} {d} ts s) v found =
    let (u, at, h) = Turns-Becomes k t ts v found in
    elim (Turn-at c d s k u (Turns-IsValid ts v) at) [
      | inl kept ↦ (u, kept, h)
      | inr (e, now_at) ↦ (s.new, now_at, Turn-Becomes c d s t u h e)
    ]

-- A key without a task gets none.
pub Turns-missing :
    {b b' : Broker} (k : String)
    → Turns b b'
    → IsValid b
    → Dict.get b.tasks k ≡ none
    → Dict.get b'.tasks k ≡ none
Turns-missing k (rest f) v gone = rw f.tasks gone
Turns-missing k (settle ts f) v gone = rw f.tasks (Turns-missing k ts v gone)
Turns-missing k (turn {c} {d} ts s) v gone =
    let still = Turns-missing k ts v gone in
    let (named, sound) = (Turns-IsValid ts v).stored s.key s.old s.found in
    elim (Bool-cases (s.new.id == k)) [
      | inl same ↦
          let at : s.key ≡ k = sym named ∙ sym s.same_id ∙ (eq_iff s.new.id k).0 same in
          let there : none ≡ some s.old =
            sym still ∙ subst (λ i. Dict.get c.tasks i ≡ some s.old) at s.found in
          absurd (cc there)
      | inr other ↦
          subst (λ m. Dict.get m k ≡ none) (sym s.written)
            (Dict.get-set_other c.tasks s.new.id k s.new other ∙ still)
    ]
