-- ===== src/TerminalBrief/Paths.antt =====
-- Which statuses of a terminal brief the moves never leave.
use a2a_broker.Prelude.{Bool-cases, ◌≡◌, refl, true, false, Bool, ◌⊎◌, inl, inr, arith}
use a2a_broker.TerminalBrief.{
  EventStatus, outbox_accepted, outbox_started, outbox_produced, provider_sent, provider_accepted,
  current_session_visible, operator_visible, receipt_confirmed, failed, timed_out, stale,
  can_transition,
}

-- The statuses without a way out.
abbrev pub is_final : EventStatus → Bool
is_final receipt_confirmed = true
is_final stale = true
is_final _ = false

final_stays : (s t : EventStatus) → is_final s ≡ true → can_transition s t ≡ false
final_stays s t f = ground arith

leaves : (s : EventStatus) → is_final s ≡ false → (t : EventStatus) × (can_transition s t ≡ true)
leaves outbox_accepted f = (stale, refl)
leaves outbox_started f = (stale, refl)
leaves outbox_produced f = (stale, refl)
leaves provider_sent f = (stale, refl)
leaves provider_accepted f = (stale, refl)
leaves current_session_visible f = (stale, refl)
leaves operator_visible f = (stale, refl)
leaves receipt_confirmed f = absurd (cc f)
leaves failed f = (outbox_accepted, refl)
leaves timed_out f = (stale, refl)
leaves stale f = absurd (cc f)

-- Only `receipt_confirmed` and `stale` are absorbing: no move leaves them, and some move leaves every other
-- status, `failed` and `timed_out` included.
pub final-absorbs :
    (s : EventStatus)
    → ((is_final s ≡ true) × ((t : EventStatus) → can_transition s t ≡ false))
      ⊎ ((is_final s ≡ false) × ((t : EventStatus) × (can_transition s t ≡ true)))
final-absorbs s = elim (Bool-cases (is_final s)) [
  | inl f ↦ inl (f, λ t. final_stays s t f)
  | inr f ↦ inr (f, leaves s f)
]
