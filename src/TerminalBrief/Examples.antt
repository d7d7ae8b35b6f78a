-- ===== src/TerminalBrief/Examples.antt =====
-- The theorem on terminal briefs, for a stale one.
use a2a_broker.Prelude.{◌≡◌, true, false, ◌⊎◌}
use a2a_broker.TerminalBrief.{EventStatus, stale, can_transition}
use a2a_broker.TerminalBrief.Paths.{is_final, final-absorbs}

final-absorbs_example :
    ((is_final stale ≡ true) × ((t : EventStatus) → can_transition stale t ≡ false))
    ⊎ ((is_final stale ≡ false) × ((t : EventStatus) × (can_transition stale t ≡ true)))
final-absorbs_example = final-absorbs stale
