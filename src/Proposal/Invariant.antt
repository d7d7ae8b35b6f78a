-- ===== src/Proposal/Invariant.antt =====
-- What holds of every proposal and of the event buffer after any calls.
use a2a_broker.Prelude.{
  ℕ, ◌≡◌, sym, ◌∙◌, subst, String, List, [], ◌∷◌, Option, none, some, if◌then◌else◌, leb, ◌++◌, ap,
  filter, refl,
}
use a2a_broker.Prelude.Dict
use a2a_broker.EventBuffer.Announce
use a2a_broker.EventBuffer.Replay.{wanted, subscribe-eq-filter, Ascends, cursor, subscribe-pages}
use a2a_broker.Proposal.Manager.{SubscribeOptions, subscribe, matches}
use a2a_broker.EventBuffer.Order.{IsOrdered, new-IsOrdered}
use a2a_broker.EventBuffer.Latest.{latest}
use a2a_broker.Proposal.Types.{Proposal, ProposalEvent, ProposalStatus}
use a2a_broker.Proposal.Manager.{Manager, new}
use a2a_broker.Proposal.Moves.{
  Call, step, run, Move, stay, enter, advance, Names, IsConsistent, key_of, target_of,
}
use a2a_broker.Proposal.Steps.{step-Move}

abbrev pub latest_event : Manager → String → Option ProposalEvent
latest_event m k = latest (λ e. e.proposal_id) k m.buffer.events

abbrev pub IsStored : String → Proposal → Type 0
IsStored k p = (p.id ≡ k) × IsConsistent p

pub record IsValid (m : Manager) : Type 0 where
  pub at_key : Dict.Holds IsStored m.proposals
  pub ordered : IsOrdered (λ e. e.id) m.buffer
  pub announced : Announce.IsAnnounced (λ e. e.id) (λ e. e.proposal_id) Names m.proposals m.buffer

Move-IsValid :
    (k : String) (target : ProposalStatus) (m m' : Manager)
    → Move k target m m'
    → IsValid m
    → IsValid m'
Move-IsValid k target m m' (stay e) v = subst IsValid (sym e) v
Move-IsValid k target m m' (enter p t named status c written s) v = record {
  at_key = rw written (Dict.Holds-set IsStored m.proposals k p v.at_key (named, c));
  ordered =
      Announce.Emits-IsOrdered (λ e. e.id) (λ e. e.proposal_id) Names k p m.buffer m'.buffer s
        v.ordered;
  announced = rw written (
      Announce.Emits-IsAnnounced (λ e. e.id) (λ e. e.proposal_id) Names k p m.proposals m.buffer
        m'.buffer s v.announced);
}
Move-IsValid k target m m' (advance p p' found t u written s) v =
    let (named, c) = v.at_key k p found in
    record {
      at_key =
          rw written
            (Dict.Holds-set IsStored m.proposals k p' v.at_key (u.same_id ∙ named, u.keeps c));
      ordered =
          Announce.Emits-IsOrdered (λ e. e.id) (λ e. e.proposal_id) Names k p' m.buffer m'.buffer s
            v.ordered;
      announced = rw written (
          Announce.Emits-IsAnnounced (λ e. e.id) (λ e. e.proposal_id) Names k p' m.proposals
            m.buffer m'.buffer s v.announced);
    }

new-IsValid : (max_events : Option ℕ) → IsValid (new max_events)
unfolding new Dict.get
new-IsValid none = record {
  at_key = λ k p e. cc;
  ordered = new-IsOrdered (λ e. e.id) 500;
  announced = λ k e h. cc;
}
new-IsValid (some n) = record {
  at_key = λ k p e. cc;
  ordered = new-IsOrdered (λ e. e.id) (if leb n 0 then 500 else n);
  announced = λ k e h. cc;
}

pub run-keeps-IsValid : (m : Manager) (calls : List Call) → IsValid m → IsValid (run m calls)
unfolding run
run-keeps-IsValid m [] v = v
run-keeps-IsValid m (c ∷ calls) v = run-keeps-IsValid (step m c.operation c.now c.emitted) calls (
    Move-IsValid (key_of c.operation) (target_of c.operation) m _
      (step-Move m c.operation c.now c.emitted) v)

-- After any calls on a new manager, whatever their outcomes: every proposal is stored under its own id;
-- a proposal that is applying, applied or failed has its start time, an applied or failed one its end
-- time, a blocked or failed one a reason code, and a failed one at least one attempt; event ids ascend and stay at most
-- `latestId`; and the newest retained event of an id names the status its proposal has now.
pub run-IsValid : (max_events : Option ℕ) (calls : List Call) → IsValid (run (new max_events) calls)
run-IsValid max_events calls = run-keeps-IsValid (new max_events) calls (new-IsValid max_events)

-- A reader that subscribes under one limit after the other, each time from the last id that it saw, and at
-- last without a limit.
abbrev pub read_pages : Manager → SubscribeOptions → ℕ → List ℕ → List ProposalEvent
read_pages m options after [] = subscribe m (record options { after_id = some after; limit = none })
read_pages m options after (limit ∷ limits) =
    let page = subscribe m (record options { after_id = some after; limit = some limit }) in
    page ++ read_pages m options (cursor (λ e. e.id) after page) limits

read_pages-whole :
    (m : Manager) (options : SubscribeOptions) (after : ℕ) (limits : List ℕ)
    → Ascends (λ e. e.id) 0 m.buffer.events
    → read_pages m options after limits
      ≡ subscribe m (record options { after_id = some after; limit = none })
unfolding subscribe
read_pages-whole m options after [] a = refl
read_pages-whole m options after (limit ∷ limits) a =
    let page = subscribe m (record options { after_id = some after; limit = some limit }) in
    ap (λ l. page ++ l) (read_pages-whole m options (cursor (λ e. e.id) after page) limits a)
    ∙ sym (subscribe-pages (λ e. e.id) m.buffer after limit (matches options) a)

-- After any calls on a new manager, a reader that goes through the events page by page, under any limits,
-- each page from the last id seen before it, and at last without a limit, gets exactly the retained
-- events past its first cursor that match, each once and in their order.
pub run-read_pages :
    (max_events : Option ℕ) (calls : List Call) (options : SubscribeOptions) (after : ℕ)
    (limits : List ℕ)
    → let m = run (new max_events) calls in
      read_pages m options after limits
      ≡ filter (wanted (λ e. e.id) after (matches options)) m.buffer.events
unfolding subscribe
run-read_pages max_events calls options after limits =
    let m = run (new max_events) calls in
    read_pages-whole m options after limits (run-IsValid max_events calls).ordered.ascending
    ∙ subscribe-eq-filter (λ e. e.id) m.buffer (some after) none (matches options)
