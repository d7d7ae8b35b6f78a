-- ===== src/Policy/Gates.antt =====
-- Which requests wait for an approval, and how review and apply rights compare.
use a2a_broker.Prelude.{some, none, not, ◌&&◌, ◌≡◌, Bool, Option, arith, or_else, ◌&&◌, refl}
use a2a_broker.Policy.{
  TaskRequest, is_task_approval_required, normalize_task_policy_context, starts_blocked, context_of,
  ChangeProposal, may_apply, is_live_impact_task, Party, may_review, false, not, is_researcher,
  is_live_trader,
}

-- `policyContext.requiresApproval`, where the request says it.
abbrev pub said_approval : TaskRequest → Option Bool
said_approval r = (context_of r).requires_approval

-- A task starts blocked exactly where the request itself says whether it requires an approval, as it says,
-- and otherwise where the policy requires one.
pub starts_blocked-policy :
    (r : TaskRequest) → starts_blocked r ≡ or_else (said_approval r) (is_task_approval_required r)
unfolding starts_blocked normalize_task_policy_context
starts_blocked-policy r = ground arith

-- A researcher that acts on a live trader's proposal.
abbrev pub research_on_live : ChangeProposal → Option Party → Bool
research_on_live proposal none = false
research_on_live proposal (some p) = is_researcher p.role && is_live_trader proposal.target.role

-- Who may apply a proposal is who may review it, but for a researcher on a live trader's proposal.
pub may_apply-may_review :
    (proposal : ChangeProposal) (actor : Option Party)
    → may_apply proposal actor
      ≡ (may_review proposal actor && not (research_on_live proposal actor))
unfolding may_apply may_review
may_apply-may_review proposal none = refl
may_apply-may_review proposal (some p) = ground arith

-- Normalizing the policy context of a request a second time changes nothing.
pub normalize-twice :
    (r : TaskRequest)
    → normalize_task_policy_context (record r { policy_context = normalize_task_policy_context r })
      ≡ normalize_task_policy_context r
unfolding normalize_task_policy_context is_live_impact_task is_task_approval_required
normalize-twice r = ground arith
