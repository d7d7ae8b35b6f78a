-- ===== src/Broker/Rejections.antt =====
-- Rejecting an approval: the outcome is written, then the task and those below it are canceled.
use a2a_broker.Prelude.{
  suc, ◌+◌, ◌≡◌, refl, String, false, [], length, Option, some, arith, is_some, inl, inr, or_else,
  eq_refl, Bool-cases, Option-cases,
}
use a2a_broker.Prelude.Dict
use a2a_broker.Prelude.Exec.{◌>>=◌, ◌>>◌, pure}
use a2a_broker.Prelude.Trim.{normalize_string}
use a2a_broker.Broker.Types.{
  task_approval_rejected, decided, Message, TaskRecord, Party, ApprovalStatus, is_terminal,
}
use a2a_broker.Broker.State.{Broker, require_task, now, append_audit}
use a2a_broker.Broker.Guards.{is_privileged, requires_approval, is_waiting}
use a2a_broker.Broker.Cancel.{
  CancelParams, cancel_tree, cancel_task_tree, reject_task_approval, is_over, already_approved,
}
use a2a_broker.Broker.Frame.{Frame, Frame-refl, append_audit-Quiet}
use a2a_broker.Broker.Lifecycle.{needs_stone, Turns, rest, turn, settle, Turns-trans, IsValid}
use a2a_broker.Broker.Turns.{Legal, Runs, refused, Runs-Turns, answered}
use a2a_broker.Broker.Decisions.{actor_or_throw-cases, id_or_fresh-Frame}
use a2a_broker.Broker.Cancels.{cancel_task_tree-Runs}

-- The closing lines of a rejection: the outcome is set, the tree is canceled, the decision is
-- audited.
refuse-Runs :
    (k : String) (t t' : TaskRecord) (params : CancelParams) (status : ApprovalStatus)
    (text : Message) (b b₁ : Broker)
    → Frame b b₁
    → Dict.get b.tasks k ≡ some t
    → Legal t t'
    → is_terminal t'.status ≡ false
    → needs_stone t'.status ≡ false
    → Runs b (
        (cancel_task_tree t' params >>= λ done.
        append_audit params.actor_id task_approval_rejected done.id done.proposal_id
          (some (decided status text))
        >> pure done)
          (record b₁ { tasks = Dict.set b₁.tasks t'.id t' }))
unfolding cancel_task_tree
refuse-Runs k t t' params status text b b₁ f found l alive no_stone =
    let b₂ : Broker = record b₁ { tasks = Dict.set b₁.tasks t'.id t' } in
    let w = cancel_tree (suc (length (Dict.values b₂.tasks))) params t'.id ([], b₂) in
    let done : TaskRecord = or_else (Dict.get w.1.tasks t'.id) t' in
    let at : Dict.get b₂.tasks t'.id ≡ some t' =
      Dict.get-set_same b₁.tasks t'.id t'.id t' (eq_refl t'.id) in
    let opened : Turns b b₂ = turn (rest f) (record {
      key = k;
      old = t;
      new = t';
      found = rw f.tasks found;
      same_id = l.same_id;
      same_parent = l.same_parent;
      same_policy = l.same_policy;
      legal = l.legal;
      keeps = l.keeps b₁.max_requeue_attempts;
      written = refl;
      limit = refl;
      numbers = λ n. n;
      workers = refl;
      stone = inl (no_stone, refl);
    }) in
    let (o, g) =
      append_audit-Quiet params.actor_id task_approval_rejected done.id done.proposal_id
        (some (decided status text)) w.1 in
    rw o (
      answered (
        settle
          (Turns-trans opened
            (Runs-Turns (cancel_task_tree-Runs t' params b₂ (rw (at, is_over) alive))))
          g))

pub reject_task_approval-Runs :
    (id : String) (actor : Option Party) (requested : Option ApprovalStatus)
    (approval_id reason : Option String) (b : Broker)
    → IsValid b
    → Runs b (reject_task_approval id actor requested approval_id reason b)
unfolding reject_task_approval require_task now
reject_task_approval-Runs id actor requested approval_id reason b v =
    elim (Option-cases (Dict.get b.tasks id)) [
      | inl missing ↦ rw missing refused
      | inr (t, found) ↦ elim (actor_or_throw-cases actor b) [
        | inr e ↦ rw (found, e) refused
        | inl (p, given, e) ↦ elim (Bool-cases (is_privileged p.role)) [
          | inr stranger ↦ rw (found, e, stranger) refused
          | inl privileged ↦ elim (Bool-cases (requires_approval t)) [
            | inr open_task ↦ rw (found, e, privileged, open_task) refused
            | inl required ↦ elim (Bool-cases (already_approved t)) [
              | inl had ↦ rw (found, e, privileged, required, had) refused
              | inr fresh ↦ elim (Bool-cases (is_some t.approval_outcome)) [
                | inl settled ↦
                    rw (found, e, privileged, required, fresh, settled)
                      (answered (rest (Frame-refl b)))
                | inr unsettled ↦ elim (Bool-cases (is_terminal t.status)) [
                  | inl over ↦ rw (found, e, privileged, required, fresh, unsettled, over) refused
                  | inr alive ↦ elim (Bool-cases (is_waiting t.status)) [
                    | inr busy ↦
                        rw (found, e, privileged, required, fresh, unsettled, alive, busy) refused
                    | inl waiting ↦
                        let b₁ : Broker = record b { readings = b.readings + 1 } in
                        let (drawn, b₂, e₂, f) =
                          id_or_fresh-Frame (normalize_string approval_id) b₁ in
                        rw (found, e, privileged, required, fresh, unsettled, alive, waiting, e₂)
                          (refuse-Runs id t _ _ _ _ b b₂
                            (record {
                              tasks = f.tasks;
                              tombstones = f.tombstones;
                              workers = f.workers;
                              limit = f.limit;
                              numbers = f.numbers;
                            })
                            found
                            (record {
                              same_id = refl;
                              same_parent = refl;
                              same_policy = refl;
                              legal = ground arith;
                              keeps = λ limit s. ground arith;
                            })
                            alive (ground arith))
                  ]
                ]
              ]
            ]
          ]
        ]
      ]
    ]
