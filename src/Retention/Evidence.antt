-- ===== src/Retention/Evidence.antt =====
-- The audit events of kept tasks are kept.
use a2a_broker.Prelude.{
  ℕ, ◌≡◌, refl, sym, ◌∙◌, subst, String, Bool, true, false, not, ◌||◌, ◌&&◌, List, [], ◌∷◌, Option,
  none, some, arith, one_of, eq_refl,
}
use mathlib.Core.List.{Memᴰ}
use a2a_broker.Prelude.Dict
use a2a_broker.Retention.Records.{
  Task, AuditEvent, Store, RetentionPolicy, TargetType, is_heartbeat,
}
use a2a_broker.Retention.Selection.{parse_time, Candidate}
use a2a_broker.Retention.Policy.{
  apply_retention_policy, retained, AuditSplit, with_candidate, split_audit,
  is_audit_event_retained, names_proposal, has_target, Retained, sort_event,
}
use a2a_broker.Retention.Keeps.{one_of-append_left}
use a2a_broker.Retention.Safety.{IsFiled, kept-survives, survives-kept, after}

with_candidate-kept :
    (b : Bool) (c : Candidate) (s : AuditSplit) → (with_candidate b c s).kept ≡ s.kept
with_candidate-kept true c s = refl
with_candidate-kept false c s = refl

sort_event-grows :
    (b : Bool) (time : Option ℕ) (e : AuditEvent) (s : AuditSplit) (a : String)
    → one_of s.kept a ≡ true
    → one_of (sort_event b time e s).kept a ≡ true
sort_event-grows true time e s a h = ground (arith, h)
sort_event-grows false none e s a h = ground (arith, h)
sort_event-grows false (some t) e s a h =
    rw
      (with_candidate-kept (is_heartbeat e.action e.target_type)
        (record { id = e.id; timestamp = t }) s)
      h

split_audit-keeps :
    (parse_date : String → Option ℕ) (kept : Retained) (es : List AuditEvent) (e : AuditEvent)
    → Memᴰ e es
    → is_audit_event_retained kept e ≡ true
    → one_of (split_audit parse_date kept es).kept e.id ≡ true
split_audit-keeps parse_date kept [] e member h = elim member [ ]
split_audit-keeps parse_date kept (x ∷ es) e (Memᴰ.head same) h =
    let retains : is_audit_event_retained kept x ≡ true =
      subst (λ y. is_audit_event_retained kept y ≡ true) same h in
    subst (λ y. one_of (split_audit parse_date kept (x ∷ es)).kept y.id ≡ true) (sym same)
      (rw retains (ground (arith, eq_refl x.id)))
split_audit-keeps parse_date kept (x ∷ es) e (Memᴰ.tail member) h =
    sort_event-grows (is_audit_event_retained kept x) (parse_time parse_date x.created_at) x
      (split_audit parse_date kept es) e.id (split_audit-keeps parse_date kept es e member h)

or-true : (b : Bool) → (b || true) ≡ true
or-true true = refl
or-true false = refl

retains-task :
    (kept : Retained) (e : AuditEvent)
    → e.target_type ≡ TargetType.task
    → is_heartbeat e.action TargetType.task ≡ false
    → one_of kept.tasks e.target_id ≡ true
    → is_audit_event_retained kept e ≡ true
unfolding is_audit_event_retained
retains-task kept e about plain has =
    subst
      (λ t.
        (not (is_heartbeat e.action t)
          && (names_proposal kept e.proposal_id || has_target kept t e.target_id))
        ≡ true)
      (sym about) (rw (plain, has) (or-true (names_proposal kept e.proposal_id)))

-- An audit event about a task that the policy keeps is kept, however old it is, unless it records a
-- heartbeat, where records are filed under their ids.
pub apply_retention_policy-keeps_evidence :
    (parse_date : String → Option ℕ) (not_after : String → String → Bool) (policy : RetentionPolicy)
    (now : ℕ) (s : Store) (k : String) (e : AuditEvent) (t : Task)
    → IsFiled s
    → Dict.get s.audit_events k ≡ some e
    → e.target_type ≡ TargetType.task
    → is_heartbeat e.action TargetType.task ≡ false
    → Dict.get (after parse_date not_after policy now s).tasks e.target_id ≡ some t
    → Dict.get (after parse_date not_after policy now s).audit_events k ≡ some e
unfolding apply_retention_policy
apply_retention_policy-keeps_evidence parse_date not_after policy now s k e t filed found about
      plain stays =
    let kept : Retained = retained parse_date not_after policy now s in
    let has : one_of kept.tasks e.target_id ≡ true =
      (survives-kept s.tasks kept.tasks e.target_id t stays).0 in
    let retains : is_audit_event_retained kept e ≡ true = retains-task kept e about plain has in
    let member : one_of (split_audit parse_date kept (Dict.values s.audit_events)).kept k ≡ true =
      subst (λ i. one_of (split_audit parse_date kept (Dict.values s.audit_events)).kept i ≡ true)
        (filed.audit_events k e found)
        (split_audit-keeps parse_date kept (Dict.values s.audit_events) e
          (Dict.get-values s.audit_events k e found) retains) in
    kept-survives s.audit_events _ k (one_of-append_left _ _ k (one_of-append_left _ _ k member))
    ∙ found
