-- ===== src/Broker/EventIds.antt =====
-- src/core/broker.ts, `formatSseEventId` and `parseSseEventId`: the id of a task's update in a stream of
-- server-sent events. JavaScript's numbers, how a template prints one, and `Number` are parameters.
use Prim.Native.String.{◌++◌ as append}
use text.Mathlib.TextLemmas.{nil-append, cons-append}
use Prim.Native.Char.{Char, code}
use a2a_broker.Prelude.{
  leb, ◌&&◌, String, Bool, true, ◌≡◌, ◌≢◌, refl, Option, none, some, ◌==◌, if◌then◌else◌, arith,
  eq_iff,
}

abbrev pub is_colon : Char → Bool
is_colon c = let n = code c in leb 58 n && leb n 58

-- `raw.lastIndexOf(":")`, with the text before it and the text after it.
abbrev pub or_here : Char → String → Option (String × String) → Option (String × String)
or_here c s (some (before, after)) = some (String.◌∷◌ c before, after)
or_here c s none = if is_colon c then some (String.[], s) else none

unfoldable pub last_colon : String → Option (String × String)
last_colon String.[] = none
last_colon (String.◌∷◌ c s) = or_here c s (last_colon s)

module _ {N : Type 0} (print : N → String) (number : String → N) (is_seq : N → Bool) where
  unfoldable pub format_sse_event_id : String → N → String
  format_sse_event_id task_id seq = append task_id (String.◌∷◌ ":" (print seq))

  -- `is_seq n` is `Number.isFinite(n) && n >= 0`.
  abbrev pub checked : String → N → Option (String × N)
  checked task_id seq = if is_seq seq then some (task_id, seq) else none

  -- A colon at 0 has no text before it.
  abbrev pub from_parts : Option (String × String) → Option (String × N)
  from_parts none = none
  from_parts (some (task_id, rest)) = if task_id == "" then none else checked task_id (number rest)

  unfoldable pub parse_sse_event_id : String → Option (String × N)
  unfolding last_colon
  parse_sse_event_id raw = from_parts (last_colon raw)

last_colon-append :
    (s t : String) → last_colon t ≡ none → last_colon (append s (String.◌∷◌ ":" t)) ≡ some (s, t)
unfolding last_colon
last_colon-append String.[] t h =
    rw (nil-append (String.◌∷◌ ":" t)) (unfold last_colon in rw h refl)
last_colon-append (String.◌∷◌ c s) t h =
    rw (cons-append c s (String.◌∷◌ ":" t), last_colon-append s t h) refl

-- What an update's id is made of comes back when it is parsed: for a task id that is not empty, colons in
-- it included, and a sequence number that is finite and not negative, if a number is printed without a
-- colon and `Number` reads what was printed.
pub parse-format_sse_event_id :
    {N : Type 0} (print : N → String) (number : String → N) (is_seq : N → Bool) (task_id : String)
    (seq : N)
    → task_id ≢ ""
    → is_seq seq ≡ true
    → last_colon (print seq) ≡ none
    → number (print seq) ≡ seq
    → parse_sse_event_id print number is_seq (format_sse_event_id print number is_seq task_id seq)
      ≡ some (task_id, seq)
unfolding format_sse_event_id parse_sse_event_id
parse-format_sse_event_id print number is_seq task_id seq named valid plain reads =
    rw (last_colon-append task_id (print seq) plain)
      (ground (arith, eq_iff task_id "", named, valid, reads))
