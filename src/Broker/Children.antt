-- ===== src/Broker/Children.antt =====
-- The children of a task, as the walk of a cancellation lists them.
use a2a_broker.Prelude.{
  ◌≡◌, refl, sym, ap, ◌∙◌, subst, String, true, false, List, [], ◌∷◌, map, filter, some, one_of,
  ◌==◌, eq_iff, eq_refl, arith, Bool-cases, Option-cases, inl, inr, if◌then◌else◌, ◌⊎◌,
}
use a2a_broker.Prelude.Dict
use a2a_broker.Prelude.Dict.{Dict}
use a2a_broker.Broker.Types.{TaskRecord}
use a2a_broker.Broker.State.{Broker}
use a2a_broker.Broker.Cancel.{insert_newest, newest_first, is_child_of, list_child_tasks}
use a2a_broker.Broker.Lifecycle.{Turns, IsValid}
use a2a_broker.Broker.Recovery.{Turns-absent}
use a2a_broker.Broker.History.{Turns-Becomes}

-- A task under a key whose parent is the given one.
pub record IsChild (b : Broker) (parent child : String) : Type 0 where
  pub record_of : TaskRecord
  pub found : Dict.get b.tasks child ≡ some record_of
  pub is_below : record_of.parent_task_id ≡ some parent

abbrev pub ids_of : List TaskRecord → List String
ids_of ts = map (λ t. t.id) ts

insert_newest-ids :
    (t : TaskRecord) (ts : List TaskRecord) (k : String)
    → one_of (ids_of (insert_newest t ts)) k ≡ (if t.id == k then true else one_of (ids_of ts) k)
insert_newest-ids t [] k = refl
insert_newest-ids t (u ∷ us) k = ground (arith, insert_newest-ids t us k)

moved :
    (t : TaskRecord) (sorted ts : List TaskRecord) (k : String)
    → (one_of (ids_of sorted) k ≡ true) ⊎ (one_of (ids_of (t ∷ ts)) k ≡ true)
    → (one_of (ids_of (insert_newest t sorted)) k ≡ true) ⊎ (one_of (ids_of ts) k ≡ true)
moved t sorted ts k h = ground (arith, insert_newest-ids t sorted k)

newest_first-ids :
    (sorted ts : List TaskRecord) (k : String)
    → (one_of (ids_of sorted) k ≡ true) ⊎ (one_of (ids_of ts) k ≡ true)
    → one_of (ids_of (newest_first sorted ts)) k ≡ true
newest_first-ids sorted [] k (inl h) = h
newest_first-ids sorted [] k (inr h) = absurd (cc h)
newest_first-ids sorted (t ∷ ts) k h =
    newest_first-ids (insert_newest t sorted) ts k (moved t sorted ts k h)

keeps :
    (parent : String) (t : TaskRecord)
    → t.parent_task_id ≡ some parent
    → is_child_of parent t ≡ true
keeps parent t below = ground (arith, eq_refl parent)

widen :
    (parent : String) (u : TaskRecord) (ts : List TaskRecord) (k : String)
    → one_of (ids_of ts) k ≡ true
    → one_of (ids_of (if is_child_of parent u then u ∷ ts else ts)) k ≡ true
widen parent u ts k h = ground arith

head_found :
    (j k : String) (u : TaskRecord) (m : Dict TaskRecord)
    → j == k ≡ true
    → Dict.get ((j, u) ∷ m) k ≡ some u
unfolding Dict.get
head_found j k u m same = rw same refl

tail_found :
    (j k : String) (u : TaskRecord) (m : Dict TaskRecord)
    → j == k ≡ false
    → Dict.get ((j, u) ∷ m) k ≡ Dict.get m k
unfolding Dict.get
tail_found j k u m other = rw other refl

filtered :
    (parent : String) (m : Dict TaskRecord) (k : String) (t : TaskRecord)
    → Dict.get m k ≡ some t
    → t.id ≡ k
    → t.parent_task_id ≡ some parent
    → one_of (ids_of (filter (is_child_of parent) (Dict.values m))) k ≡ true
unfolding Dict.get
filtered parent [] k t found named below = absurd (cc found)
filtered parent ((j, u) ∷ m) k t found named below = elim (Bool-cases (j == k)) [
  | inl same ↦
      let is_t : u ≡ t = cc (sym (head_found j k u m same) ∙ found) in
      let child : is_child_of parent u ≡ true =
        subst (λ x. is_child_of parent x ≡ true) (sym is_t) (keeps parent t below) in
      let here : u.id == k ≡ true = (eq_iff u.id k).1 (ap (λ x. x.id) is_t ∙ named) in
      rw (child, here) refl
  | inr other ↦
      widen parent u (filter (is_child_of parent) (Dict.values m)) k
        (filtered parent m k t (sym (tail_found j k u m other) ∙ found) named below)
]

-- Every child is in the list of the children.
pub IsChild-listed :
    (b : Broker) (parent child : String)
    → IsValid b
    → IsChild b parent child
    → one_of (ids_of (list_child_tasks b parent)) child ≡ true
unfolding list_child_tasks
IsChild-listed b parent child v c =
    newest_first-ids [] (filter (is_child_of parent) (Dict.values b.tasks)) child (
      inr (
        filtered parent b.tasks child c.record_of c.found (v.stored child c.record_of c.found).0
          c.is_below))

-- The operations leave every task its parent: a child afterwards was one before, and the other way
-- round.
pub IsChild-before :
    {b b' : Broker} (parent child : String)
    → Turns b b'
    → IsValid b
    → IsChild b' parent child
    → IsChild b parent child
IsChild-before {b} {b'} parent child ts v c = elim (Option-cases (Dict.get b.tasks child)) [
  | inl missing ↦ absurd (cc (sym (Turns-absent child ts v missing) ∙ c.found))
  | inr (t, was) ↦
      let (u, now_is, h) = Turns-Becomes child t ts v was in
      let same : u ≡ c.record_of = cc (sym now_is ∙ c.found) in
      record {
        record_of = t;
        found = was;
        is_below = sym h.same_parent ∙ ap (λ x. x.parent_task_id) same ∙ c.is_below;
      }
]

pub IsChild-after :
    {b b' : Broker} (parent child : String)
    → Turns b b'
    → IsValid b
    → IsChild b parent child
    → IsChild b' parent child
IsChild-after parent child ts v c =
    let (u, now_is, h) = Turns-Becomes child c.record_of ts v c.found in
    record { record_of = u; found = now_is; is_below = h.same_parent ∙ c.is_below }
