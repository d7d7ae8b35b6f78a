-- ===== src/TerminalBrief.antt =====
-- src/core/terminal-brief-state-machine.ts: the states of a terminal brief's delivery, and the moves
-- between them.
pub mod Paths
mod Examples
use a2a_broker.Prelude.{Bool, true, false, String, if◌then◌else◌, ◌==◌, one_of, [], ◌∷◌}

pub data EventStatus : Type 0 where
  outbox_accepted outbox_started outbox_produced provider_sent provider_accepted : EventStatus
  current_session_visible operator_visible receipt_confirmed failed timed_out stale : EventStatus

-- `canTransitionTerminalBriefEvent`, with `TERMINAL_BRIEF_TRANSITIONS`
abbrev pub can_transition : EventStatus → EventStatus → Bool
can_transition outbox_accepted outbox_started = true
can_transition outbox_accepted outbox_produced = true
can_transition outbox_accepted provider_sent = true
can_transition outbox_accepted failed = true
can_transition outbox_accepted timed_out = true
can_transition outbox_accepted stale = true
can_transition outbox_started outbox_produced = true
can_transition outbox_started provider_sent = true
can_transition outbox_started failed = true
can_transition outbox_started timed_out = true
can_transition outbox_started stale = true
can_transition outbox_produced provider_sent = true
can_transition outbox_produced failed = true
can_transition outbox_produced timed_out = true
can_transition outbox_produced stale = true
can_transition provider_sent provider_accepted = true
can_transition provider_sent current_session_visible = true
can_transition provider_sent operator_visible = true
can_transition provider_sent failed = true
can_transition provider_sent timed_out = true
can_transition provider_sent stale = true
can_transition provider_accepted current_session_visible = true
can_transition provider_accepted operator_visible = true
can_transition provider_accepted failed = true
can_transition provider_accepted timed_out = true
can_transition provider_accepted stale = true
can_transition current_session_visible operator_visible = true
can_transition current_session_visible receipt_confirmed = true
can_transition current_session_visible stale = true
can_transition operator_visible receipt_confirmed = true
can_transition operator_visible stale = true
can_transition failed outbox_accepted = true
can_transition failed outbox_started = true
can_transition failed outbox_produced = true
can_transition failed provider_sent = true
can_transition timed_out outbox_accepted = true
can_transition timed_out outbox_started = true
can_transition timed_out outbox_produced = true
can_transition timed_out stale = true
can_transition _ _ = false

-- `isTerminalBriefEventActive`, with `TERMINAL_BRIEF_ACTIVE_STATES`
abbrev pub is_active : EventStatus → Bool
is_active outbox_accepted = true
is_active outbox_started = true
is_active outbox_produced = true
is_active provider_sent = true
is_active provider_accepted = true
is_active current_session_visible = true
is_active operator_visible = true
is_active _ = false

-- `isTerminalBriefEventTerminal`, with `TERMINAL_BRIEF_TERMINAL_STATES`
abbrev pub is_terminal : EventStatus → Bool
is_terminal receipt_confirmed = true
is_terminal failed = true
is_terminal timed_out = true
is_terminal stale = true
is_terminal _ = false

-- `canAckTerminalBriefEvent`, with `TERMINAL_BRIEF_ACK_ELIGIBLE_EVIDENCE`
unfoldable pub can_ack : String → Bool
can_ack evidence =
    one_of
      ("current_session_visible" ∷ "operator_visible" ∷ "operator_confirmed"
        ∷ "provider_delivery_receipt" ∷ [])
      evidence

-- `mapReceiptStatusToEventStatus`
unfoldable pub map_receipt_status : String → Bool → EventStatus
map_receipt_status receipt confirmed =
    if confirmed
    then receipt_confirmed
    else if receipt == "accepted"
    then outbox_accepted
    else if receipt == "started"
    then outbox_started
    else if receipt == "produced"
    then outbox_produced
    else if receipt == "provider_sent"
    then provider_sent
    else if receipt == "provider_accepted"
    then provider_accepted
    else if receipt == "current_session_visible"
    then current_session_visible
    else if receipt == "operator_visible"
    then operator_visible
    else if receipt == "failed"
    then failed
    else if receipt == "timed_out"
    then timed_out
    else if receipt == "stale"
    then stale
    else outbox_accepted
