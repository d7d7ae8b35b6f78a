-- ===== src/TerminalOutbox/Replay.antt =====
-- What the cursor of src/core/terminal-event-outbox.ts promises a notifier.
use mathlib.Core.List.Memᴰ
use mathlib.Core.List.{Memᴰ, append-nil, append_assoc}
use a2a_broker.Prelude.{
  ◌⊎◌, suc, ℕ, List, ◌++◌, [], ◌==◌, Option, ◌≡◌, String, false, none, length, some, ◌≤◌, inl, ◌∷◌,
  ltb, arith, inr, true, filter, ◌+◌, ap, refl, subst, ◌∙◌, sym, drop, length-append, Bool-cases,
  take, Bool, filter-Memᴰ, if◌then◌else◌, not, one_of,
}
use a2a_broker.TerminalOutbox.Types.{OutboxEvent}
use a2a_broker.TerminalOutbox.Outbox.{Outbox, find_from}
use a2a_broker.TerminalOutbox.Cursor.{
  subscribe, subscribe_with_cursor, places, SubscribeResult, is_receipt_confirmed, index_of_id,
  next_index, next_cursor, apply_limit, unacknowledged_before,
}
use a2a_broker.TerminalOutbox.Pages.{limit-Cut, up_to, through-found, through-missing}
use a2a_broker.TerminalOutbox.Places.{
  ids, IsDistinct, find-splits, take-past, ends, last-end, newer-end, none_newer, subscribe-past,
  is_newer, find-own, take-drop,
}

-- No record has the empty id, which `subscribe` reads as no cursor.
abbrev pub HasNames : List OutboxEvent → Type 0
HasNames es = one_of (ids es) "" ≡ false

named-record :
    (es : List OutboxEvent) (e : OutboxEvent) → HasNames es → Memᴰ e es → e.id == "" ≡ false
named-record [] e h m = elim m [ ]
named-record (x ∷ es) e h (Memᴰ.head same) = ground (arith, ap (λ (w : OutboxEvent). w.id) same, h)
named-record (x ∷ es) e h (Memᴰ.tail m) = named-record es e (ground (arith, h)) m

-- A result that leaves nothing out: the records up to the cursor that are not receipt-confirmed, as far
-- as the limit goes, and then the next ones after it; the cursor given back goes on right behind them.
pub record Continues (o : Outbox) (after : Option String) (limit : Option ℕ) (r : SubscribeResult)
    : Type 0 where
  pub replayed : List OutboxEvent
  pub waiting : List OutboxEvent
  pub fresh : List OutboxEvent
  pub returned : r.events ≡ replayed ++ fresh
  pub replays :
      replayed ++ waiting ≡ filter (λ e. not (is_receipt_confirmed e)) (up_to after o.events)
  pub continued : fresh ++ subscribe o r.cursor none ≡ subscribe o after none
  pub in_turn : (waiting ≡ []) ⊎ (fresh ≡ [])
  pub full : ((waiting ≡ []) × (subscribe o r.cursor none ≡ [])) ⊎ (limit ≡ some (length r.events))

-- The cursor that a result with a last record `e` gives back.
next_cursor-end :
    (all : List OutboxEvent) (after : Option String) (index : Option (ℕ × OutboxEvent))
    (es : List OutboxEvent) (e : OutboxEvent) (at : ℕ)
    → find_from 0 e.id all ≡ some (at, e)
    → next_index index ≤ at
    → next_cursor all after index (es ++ e ∷ []) ≡ some e.id
unfolding next_cursor
next_cursor-end all after none es e at found later = rw (last-end es e) refl
next_cursor-end all after (some (i, old)) es e at found later =
    let newer : ltb i at ≡ true = ground (arith, later) in
    rw (next_cursor, newer-end all i es e at found newer) refl

-- A result that ends before the first new record leaves the subscriber where it was.
next_cursor-stays :
    (o : Outbox) (after : Option String) (index : Option (ℕ × OutboxEvent))
    (front replayed rest : List OutboxEvent)
    → index_of_id o after ≡ index
    → o.events ≡ front ++ rest
    → next_index index ≡ length front
    → ((e : OutboxEvent) → Memᴰ e replayed → Memᴰ e front)
    → subscribe o (next_cursor o.events after index replayed) none ≡ subscribe o after none
unfolding next_cursor subscribe apply_limit index_of_id
next_cursor-stays o after none front [] rest e split at from = rw e refl
next_cursor-stays o after none [] (x ∷ replayed) rest e split at from =
    elim (from x (Memᴰ.head refl)) [ ]
next_cursor-stays o after none (y ∷ front) (x ∷ replayed) rest e split at from =
    absurd (omega (arith, at))
next_cursor-stays o after (some (i, found)) front replayed rest e split at from =
    let nothing : filter (is_newer i) (places o.events replayed) ≡ [] =
      subst (λ es. filter (is_newer i) (places es replayed) ≡ []) (sym split)
        (none_newer front rest i replayed (omega (arith, at)) from) in
    rw (next_cursor, nothing) refl

-- The cursor after the records that follow the first `front` of the outbox.
cursor-continues :
    (o : Outbox) (after : Option String) (index : Option (ℕ × OutboxEvent))
    (front replayed fresh rest : List OutboxEvent)
    → IsDistinct (ids o.events)
    → HasNames o.events
    → index_of_id o after ≡ index
    → o.events ≡ front ++ (fresh ++ rest)
    → next_index index ≡ length front
    → ((e : OutboxEvent) → Memᴰ e replayed → Memᴰ e front)
    → subscribe o after none ≡ fresh ++ rest
    → subscribe o (next_cursor o.events after index (replayed ++ fresh)) none ≡ rest
cursor-continues o after index front replayed fresh rest d named e split at from whole =
    elim (ends fresh) [
      | inl nothing ↦
          ap (λ l. subscribe o (next_cursor o.events after index l) none)
            (ap (λ l. replayed ++ l) nothing ∙ append-nil replayed)
          ∙ next_cursor-stays o after index front replayed (fresh ++ rest) e split at from
          ∙ whole
          ∙ ap (λ l. l ++ rest) nothing
      | inr (first, x, parts) ↦
          let place : o.events ≡ (front ++ first) ++ x ∷ rest =
            split
            ∙ ap (λ l. front ++ (l ++ rest)) parts
            ∙ ap (λ l. front ++ l) (append_assoc first (x ∷ []) rest)
            ∙ sym (append_assoc front first (x ∷ rest)) in
          let own : find_from 0 x.id o.events ≡ some (0 + length (front ++ first), x) =
            subst (λ es. find_from 0 x.id es ≡ some (0 + length (front ++ first), x)) (sym place)
              (find-own 0 (front ++ first) x rest (subst (λ es. IsDistinct (ids es)) place d)) in
          let cursor : next_cursor o.events after index (replayed ++ fresh) ≡ some x.id =
            rw (parts, ← append_assoc replayed first (x ∷ []))
              (next_cursor-end o.events after index (replayed ++ first) x
                (0 + length (front ++ first)) own (omega (arith, at, length-append front first))) in
          let name : x.id == "" ≡ false = named-record o.events x named (
            subst (λ es. Memᴰ x es) (sym place)
              (Memᴰ.append_right (front ++ first) (Memᴰ.head refl))) in
          rw cursor (subscribe-past o (front ++ first) x rest place d name)
    ]

index-splits :
    (o : Outbox) (after : Option String) (i : ℕ) (found : OutboxEvent)
    → index_of_id o after ≡ some (i, found)
    → (before rest : List OutboxEvent) × (o.events ≡ before ++ found ∷ rest)
      × (i ≡ 0 + length before)
unfolding index_of_id
index-splits o none i found e = absurd (cc (e))
index-splits o (some id) i found e = elim (Bool-cases (id == "")) [
  | inl empty ↦ absurd (ground (arith, empty, e))
  | inr named ↦
      find-splits 0 id o.events (i, found)
        (subst (λ (b : Bool). (if b then none else find_from 0 id o.events) ≡ some (i, found)) named
          e)
]

-- What `subscribe` and `subscribeWithCursor` split the outbox into.
cut_at :
    (o : Outbox) (after : Option String) (index : Option (ℕ × OutboxEvent))
    → index_of_id o after ≡ index
    → (front : List OutboxEvent) × (o.events ≡ front ++ drop (next_index index) o.events)
      × (next_index index ≡ length front)
      × ((e : OutboxEvent) → Memᴰ e (unacknowledged_before o.events index) → Memᴰ e front)
cut_at o after none e = ([], refl, refl, λ x m. m)
cut_at o after (some (i, found)) e =
    let (before, rest, split, at) = index-splits o after i found e in
    let front : List OutboxEvent = take (i + 1) o.events in
    let shown : front ≡ before ++ found ∷ [] =
      ap (λ es. take (i + 1) es) split ∙ take-past (i + 1) before found rest (omega (arith, at)) in
    let counted : length front ≡ i + 1 =
      omega (arith, ap length shown, length-append before (found ∷ []), at) in
    (
      front,
      sym (take-drop (i + 1) o.events),
      sym counted,
      λ x m. (filter-Memᴰ (λ y. not (is_receipt_confirmed y)) x front m).0,
    )

-- What is replayed is what is not confirmed of the records up to the cursor.
unacknowledged_before-eq :
    (o : Outbox) (after : Option String) (index : Option (ℕ × OutboxEvent))
    → index_of_id o after ≡ index
    → unacknowledged_before o.events index
      ≡ filter (λ e. not (is_receipt_confirmed e)) (up_to after o.events)
unfolding index_of_id up_to
unacknowledged_before-eq o none none e = refl
unacknowledged_before-eq o none (some place) e = absurd (cc e)
unacknowledged_before-eq o (some id) none e = elim (Bool-cases (id == "")) [
  | inl empty ↦ rw empty refl
  | inr named ↦
      let (absent, empty) =
        through-missing 0 id o.events
          (subst (λ (b : Bool). (if b then none else find_from 0 id o.events) ≡ none) named e) in
      rw (named, empty) refl
]
unacknowledged_before-eq o (some id) (some (i, found)) e = elim (Bool-cases (id == "")) [
  | inl empty ↦ absurd (ground (arith, empty, e))
  | inr named ↦
      let (k, at, there, cut) =
        through-found 0 id o.events (i, found)
          (subst (λ (b : Bool). (if b then none else find_from 0 id o.events) ≡ some (i, found))
            named e) in
      let next : i + 1 ≡ suc k = omega (arith, at) in rw (named, next, cut) refl
]

-- If no id stands twice and none is empty, subscribeWithCursor loses no record, whatever the cursor and the
-- limit. Its result is first the records up to the cursor that are not receipt-confirmed, and then the
-- records after it, each in order; the second kind comes only when all of the first kind have, and the
-- result ends early only at the limit. What subscribe gives for the cursor handed back is exactly what
-- is left of the second kind.
pub subscribe_with_cursor-Continues :
    (o : Outbox) (after : Option String) (limit : Option ℕ)
    → IsDistinct (ids o.events)
    → HasNames o.events
    → Continues o after limit (subscribe_with_cursor o after limit)
unfolding subscribe_with_cursor subscribe apply_limit
subscribe_with_cursor-Continues o after limit d named =
    let index : Option (ℕ × OutboxEvent) = index_of_id o after in
    let (front, split, at, from) = cut_at o after index refl in
    let c =
      limit-Cut limit (unacknowledged_before o.events index) (drop (next_index index) o.events) in
    let left : subscribe o (subscribe_with_cursor o after limit).cursor none ≡ c.rest =
      subst (λ es. subscribe o (next_cursor o.events after index es) none ≡ c.rest) (sym c.returned)
        (cursor-continues o after index front c.replayed c.fresh c.rest d named refl
          (split ∙ ap (λ l. front ++ l) (sym c.continued)) at
          (λ e m. from e (subst (λ l. Memᴰ e l) c.replays (Memᴰ.append_left c.waiting m)))
          (sym c.continued)) in
    record {
      replayed = c.replayed;
      waiting = c.waiting;
      fresh = c.fresh;
      returned = c.returned;
      replays = c.replays ∙ unacknowledged_before-eq o after index refl;
      continued = ap (λ l. c.fresh ++ l) left ∙ c.continued;
      in_turn = c.in_turn;
      full = elim c.full [ inl all ↦ inl (all.0, left ∙ all.1) | inr reached ↦ inr reached ];
    }
