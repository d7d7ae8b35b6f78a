-- ===== src/Broker/Decisions.antt =====
-- The operations of hubs and operators on one task, approval and reassignment: turns along the
-- diagram, or an error that changes nothing.
use a2a_broker.Prelude.{
  ◌≡◌, refl, String, Option, none, some, arith, ◌+◌, is_some, ◌⊎◌, inl, inr, or_else, ◌==◌,
  Bool-cases, Option-cases,
}
use a2a_broker.Prelude.Dict
use a2a_broker.Prelude.Exec.{ok, err}
use a2a_broker.Prelude.Trim.{normalize_string}
use a2a_broker.Broker.Types.{Party, is_terminal}
use a2a_broker.Broker.State.{Broker, bad_request, require_task, require_worker, now, fresh_id}
use a2a_broker.Broker.Guards.{actor_or_throw, is_privileged, requires_approval, is_waiting}
use a2a_broker.Broker.Tasks.{approve_task, reassign_task, id_or_fresh}
use a2a_broker.Broker.Frame.{Frame, Frame-refl}
use a2a_broker.Broker.Lifecycle.{rest}
use a2a_broker.Broker.Turns.{save-Runs, Runs, refused, answered}

-- A present actor with an id is let through, and nobody else.
pub actor_or_throw-cases :
    (actor : Option Party) (b : Broker)
    → ((p : Party) × (actor ≡ some p) × (actor_or_throw actor b ≡ (ok p, b)))
      ⊎ (actor_or_throw actor b ≡ (err bad_request, b))
actor_or_throw-cases none b = inr refl
actor_or_throw-cases (some p) b = elim (Bool-cases (p.id == "")) [
  | inl empty ↦ inr (rw empty)
  | inr named ↦ inl (p, refl, rw named)
]

pub id_or_fresh-Frame :
    (given : Option String) (b : Broker)
    → (id : String) × (b' : Broker) × (id_or_fresh given b ≡ (ok id, b')) × Frame b b'
unfolding fresh_id
id_or_fresh-Frame none b = (
  _,
  _,
  refl,
  record { tasks = refl; tombstones = refl; workers = refl; limit = refl; numbers = λ n. n },
)
id_or_fresh-Frame (some id) b = (id, b, refl, Frame-refl b)

pub approve_task-Runs :
    (id : String) (actor : Option Party) (approval_id reason : Option String) (b : Broker)
    → Runs b (approve_task id actor approval_id reason b)
unfolding approve_task require_task now
approve_task-Runs id actor approval_id reason b = elim (Option-cases (Dict.get b.tasks id)) [
  | inl missing ↦ rw missing refused
  | inr (t, found) ↦ elim (actor_or_throw-cases actor b) [
    | inr e ↦ rw (found, e) refused
    | inl (p, given, e) ↦ elim (Bool-cases (is_privileged p.role)) [
      | inr stranger ↦ rw (found, e, stranger) refused
      | inl privileged ↦ elim (Bool-cases (requires_approval t)) [
        | inr open_task ↦ rw (found, e, privileged, open_task) refused
        | inl required ↦ elim (Bool-cases (is_some t.approval)) [
          | inl had ↦ rw (found, e, privileged, required, had) (answered (rest (Frame-refl b)))
          | inr fresh ↦ elim (Bool-cases (is_terminal t.status)) [
            | inl over ↦ rw (found, e, privileged, required, fresh, over) refused
            | inr alive ↦ elim (Bool-cases (is_waiting t.status)) [
              | inr busy ↦ rw (found, e, privileged, required, fresh, alive, busy) refused
              | inl waiting ↦
                  let b₁ : Broker = record b { readings = b.readings + 1 } in
                  let (drawn, b₂, e₂, f) = id_or_fresh-Frame (normalize_string approval_id) b₁ in
                  rw (found, e, privileged, required, fresh, alive, waiting, e₂)
                    (save-Runs id t _ b b₂ _ _ _ _ _
                      (record {
                        tasks = f.tasks;
                        tombstones = f.tombstones;
                        workers = f.workers;
                        limit = f.limit;
                        numbers = f.numbers;
                      })
                      found
                      (record {
                        same_id = refl;
                        same_parent = refl;
                        same_policy = refl;
                        legal = ground arith;
                        keeps = λ limit s. ground arith;
                      })
                      refl)
            ]
          ]
        ]
      ]
    ]
  ]
]

pub reassign_task-Runs :
    (id : String) (actor : Option Party) (target worker text : Option String) (b : Broker)
    → Runs b (reassign_task id actor target worker text b)
unfolding reassign_task require_task require_worker now
reassign_task-Runs id actor target worker text b = elim (Option-cases (Dict.get b.tasks id)) [
  | inl missing ↦ rw missing refused
  | inr (t, found) ↦ elim (actor_or_throw-cases actor b) [
    | inr e ↦ rw (found, e) refused
    | inl (p, given, e) ↦ elim (Bool-cases (is_privileged p.role)) [
      | inr stranger ↦ rw (found, e, stranger) refused
      | inl privileged ↦ elim (Bool-cases (is_terminal t.status)) [
        | inl over ↦ rw (found, e, privileged, over) refused
        | inr alive ↦
            let next_target : String = or_else target t.target_node_id in
            let next_worker : String =
              or_else worker (or_else target (or_else t.assigned_worker_id next_target)) in
            elim (Option-cases (Dict.get b.workers next_target)) [
              | inl missing ↦ rw (found, e, privileged, alive, missing) refused
              | inr (w, node) ↦ elim (Option-cases (Dict.get b.workers next_worker)) [
                | inl missing ↦ rw (found, e, privileged, alive, node, missing) refused
                | inr (a, assigned) ↦
                    rw (found, e, privileged, alive, node, assigned)
                      (save-Runs id t _ b _ _ _ _ _ _
                        (record {
                          tasks = refl;
                          tombstones = refl;
                          workers = refl;
                          limit = refl;
                          numbers = λ n. n;
                        })
                        found
                        (record {
                          same_id = refl;
                          same_parent = refl;
                          same_policy = refl;
                          legal = ground arith;
                          keeps = λ limit s. ground arith;
                        })
                        (ground arith))
              ]
            ]
      ]
    ]
  ]
]
