-- ===== src/Policy.antt =====
-- src/core/policy.ts: who may do what with a proposal, and which tasks wait for an approval.
pub mod Gates
mod Examples
use a2a_broker.Prelude.{
  String, Bool, true, false, not, ◌||◌, ◌&&◌, ◌==◌, Option, none, some, or_else, or_option, is_some,
  if◌then◌else◌,
}
use a2a_broker.Broker.Types.{
  Intent, apply_local_change, promote_to_live, rollback_live, Party, Role, live_trader, researcher,
  operator, Environment, live, PolicyContext,
}

-- The fields of `CreateTaskRequest` that the policy reads.
pub record TaskRequest : Type 0 where
  pub intent : Intent
  pub target : Party
  pub policy_context : Option PolicyContext

-- `LIVE_IMPACT_INTENTS.has(intent)`
abbrev pub live_impact_intent : Intent → Bool
live_impact_intent promote_to_live = true
live_impact_intent rollback_live = true
live_impact_intent _ = false

-- `DANGEROUS_TASK_INTENTS.has(intent)`
abbrev pub dangerous_intent : Intent → Bool
dangerous_intent apply_local_change = true
dangerous_intent promote_to_live = true
dangerous_intent rollback_live = true
dangerous_intent _ = false

abbrev pub is_apply : Intent → Bool
is_apply apply_local_change = true
is_apply _ = false

abbrev pub is_live_trader : Option Role → Bool
is_live_trader (some live_trader) = true
is_live_trader _ = false

abbrev pub is_operator : Option Role → Bool
is_operator (some operator) = true
is_operator _ = false

abbrev pub is_researcher : Option Role → Bool
is_researcher (some researcher) = true
is_researcher _ = false

abbrev pub is_live : Option Environment → Bool
is_live (some live) = true
is_live _ = false

abbrev pub no_context : PolicyContext
no_context = record { requires_approval = none; live_impact = none; target_environment = none }

-- `request.policyContext ?? {}`
abbrev pub context_of : TaskRequest → PolicyContext
context_of r = or_else r.policy_context no_context

-- `isLiveImpactTask`
unfoldable pub is_live_impact_task : TaskRequest → Bool
is_live_impact_task r =
    live_impact_intent r.intent
    || or_else (context_of r).live_impact false
    || is_live (context_of r).target_environment
    || is_apply r.intent && is_live_trader r.target.role

-- `isTaskApprovalRequired`
unfoldable pub is_task_approval_required : TaskRequest → Bool
is_task_approval_required r =
    dangerous_intent r.intent
    || or_else (context_of r).requires_approval false
    || or_else (context_of r).live_impact false
    || is_live (context_of r).target_environment
    || is_live_impact_task r

-- `if (condition && field === undefined) field = value`
abbrev pub filled : {A : Type 0} → Bool → Option A → A → Option A
filled condition (some a) value = some a
filled condition none value = if condition then some value else none

-- `normalizeTaskPolicyContext`. A context whose fields are all missing has no keys.
unfoldable pub normalize_task_policy_context : TaskRequest → Option PolicyContext
normalize_task_policy_context r =
    let inferred = is_live_impact_task r in
    let gate = is_task_approval_required r in
    let requires = filled gate (context_of r).requires_approval true in
    let impact = filled inferred (context_of r).live_impact true in
    let environment = filled inferred (context_of r).target_environment live in
    if is_some requires || is_some impact || is_some environment
    then some (record {
      requires_approval = requires;
      live_impact = impact;
      target_environment = environment;
    })
    else none

-- `createTask`'s test of the normalized context: the task starts blocked.
unfoldable pub starts_blocked : TaskRequest → Bool
starts_blocked r = elim (normalize_task_policy_context r) [
  | none ↦ false
  | some c ↦ or_else c.requires_approval false
]

-- The fields of `ChangeProposal` that the policy reads.
pub record ChangeProposal : Type 0 where
  pub source_node_id : String
  pub target_node_id : String
  pub target : Party

abbrev pub named : Option Party → Bool
named none = false
named (some p) = not (p.id == "")

-- `assertProposalReviewAllowed` returns, and does not throw `PolicyError`.
unfoldable pub may_review : ChangeProposal → Option Party → Bool
may_review proposal none = false
may_review proposal (some p) =
    not (p.id == "") && (is_operator p.role || p.id == proposal.target_node_id)

-- `assertProposalApplyAllowed` returns, and does not throw `PolicyError`.
unfoldable pub may_apply : ChangeProposal → Option Party → Bool
may_apply proposal none = false
may_apply proposal (some p) =
    not (p.id == "")
    && (is_operator p.role
        || p.id == proposal.target_node_id
          && not (is_researcher p.role && is_live_trader proposal.target.role))

-- `assertValidationSubmissionAllowed` returns, and does not throw `PolicyError`.
unfoldable pub may_submit_validation : ChangeProposal → String → Bool
may_submit_validation proposal node =
    not (node == "") && (node == proposal.target_node_id || node == proposal.source_node_id)
