-- ===== src/Retention/Selection.antt =====
-- `selectRetainedTerminalRecordIds` and `selectRetainedWorkerIds`. A set of ids is a list, `one_of` its
-- `has`. How `Date` reads a time, and how `localeCompare` orders two ids, are parameters.
use a2a_broker.Prelude.{
  or_else, ℕ, ◌+◌, String, Bool, true, false, not, ◌||◌, List, [], ◌∷◌, ◌++◌, Option, none, some,
  map, take, one_of, ltb, leb, ◌==◌, if◌then◌else◌,
}

-- `parseRetentionTimestamp`
abbrev pub parse_time : (String → Option ℕ) → String → Option ℕ
parse_time parse_date text = if text == "" then none else parse_date text

pub record Candidate : Type 0 where
  pub id : String
  pub timestamp : ℕ

module _ (not_after : String → String → Bool) where
  -- The comparison `b.timestampMs - a.timestampMs || a.id.localeCompare(b.id)` gives at most 0.
  abbrev pub precedes : Candidate → Candidate → Bool
  precedes a b =
      if ltb b.timestamp a.timestamp
      then true
      else if ltb a.timestamp b.timestamp
      then false
      else not_after a.id b.id

  abbrev pub insert_candidate : Candidate → List Candidate → List Candidate
  insert_candidate a [] = a ∷ []
  insert_candidate a (b ∷ bs) =
      let rest = insert_candidate a bs in if precedes a b then a ∷ b ∷ bs else b ∷ rest

  -- `sortedCopy`, which is stable.
  abbrev pub sorted_copy : List Candidate → List Candidate
  sorted_copy [] = []
  sorted_copy (a ∷ rest) = insert_candidate a (sorted_copy rest)

  abbrev pub newest : ℕ → List Candidate → List String
  newest limit candidates = map (λ c. c.id) (take limit (sorted_copy candidates))

-- `timestampMs === null || timestampMs >= nowMs - retentionMs`
abbrev pub is_recent : ℕ → ℕ → Option ℕ → Bool
is_recent now retention none = true
is_recent now retention (some t) = leb now (t + retention)

module _ {T : Type 0} (is_terminal : T → Bool) (id_of : T → String) (time_of : T → Option ℕ)
    (now retention : ℕ) where
  -- A record that is not terminal, whose id is kept already, or whose time is recent or unreadable.
  unfoldable pub is_kept : List String → T → Bool
  is_kept kept r =
      not (is_terminal r) || one_of kept (id_of r) || is_recent now retention (time_of r)

  -- The time of a record that is not kept can be read.
  abbrev pub candidate_of : T → Candidate
  candidate_of r = record { id = id_of r; timestamp = or_else (time_of r) 0 }

  -- The loop over the records: the ids that are kept, and the candidates.
  unfoldable pub split : List String → List T → List String × List Candidate
  split kept [] = (kept, [])
  split kept (r ∷ rs) = elim (is_kept kept r) [
    | true ↦ split (id_of r ∷ kept) rs
    | false ↦ let (ids, candidates) = split kept rs in (ids, candidate_of r ∷ candidates)
  ]

  unfoldable pub select_retained_ids :
      (String → String → Bool) → List String → ℕ → List T → List String
  unfolding split
  select_retained_ids not_after protected limit records =
      let (ids, candidates) = split protected records in ids ++ newest not_after limit candidates
