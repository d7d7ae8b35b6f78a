-- ===== src/Policy/Examples.antt =====
-- The policy's theorems on a promotion that says it needs no approval, and on a researcher.
use a2a_broker.Prelude.{◌≡◌, false, not, ◌&&◌, some, none, or_else}
use a2a_broker.Broker.Types.{Party, promote_to_live, researcher, live_trader}
use a2a_broker.Policy.{
  TaskRequest, ChangeProposal, starts_blocked, is_task_approval_required, may_apply, may_review,
  normalize_task_policy_context,
}
use a2a_broker.Policy.Gates.{
  said_approval, research_on_live, starts_blocked-policy, may_apply-may_review, normalize-twice,
}

abbrev trader : Party
trader = record { id = "trader"; kind = none; role = some live_trader }

abbrev student : Party
student = record { id = "trader"; kind = none; role = some researcher }

abbrev waved_through : TaskRequest
waved_through = record {
  intent = promote_to_live;
  target = trader;
  policy_context =
      some
        (record { requires_approval = some false; live_impact = none; target_environment = none });
}

abbrev change : ChangeProposal
change = record { source_node_id = "lab"; target_node_id = "trader"; target = trader }

starts_blocked-policy_example :
    starts_blocked waved_through
    ≡ or_else (said_approval waved_through) (is_task_approval_required waved_through)
starts_blocked-policy_example = starts_blocked-policy waved_through

may_apply-may_review_example :
    may_apply change (some student)
    ≡ (may_review change (some student) && not (research_on_live change (some student)))
may_apply-may_review_example = may_apply-may_review change (some student)

normalize-twice_example :
    normalize_task_policy_context
      (record waved_through { policy_context = normalize_task_policy_context waved_through })
    ≡ normalize_task_policy_context waved_through
normalize-twice_example = normalize-twice waved_through
