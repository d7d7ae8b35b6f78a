-- ===== src/Prelude/Tests.antt =====
-- Boolean tests, branches, and what JavaScript reads as a truth value.
use Prim.Native.Nat.{ℕ, ◌≤◌, ◌<◌, compare, Ordering}
use Prim.Native.String.{String}
use mathlib.Core.Path.{◌≡◌, refl}
use mathlib.Core.Logic.{◌⊎◌, inl, inr}
use mathlib.Core.Bool.{Bool, true, false, not, ◌||◌}
use mathlib.Core.Option.{Option, none, some}
use mathlib.Core.List.{List, [], ◌∷◌}
use native.Mathlib.Omega.{arith}
use text.Mathlib.Text.{◌==◌}

abbrev pub ltb : ℕ → ℕ → Bool
ltb a b = elim (compare a b) [ Ordering.lt ↦ true | _ ↦ false ]

abbrev pub leb : ℕ → ℕ → Bool
leb a b = elim (compare a b) [ Ordering.gt ↦ false | _ ↦ true ]

infix 1 if◌then◌else◌
abbrev pub if◌then◌else◌ {ℓ} : {A : Type ℓ} → Bool → A → A → A
if true then x else y = x
if false then x else y = y

pub Bool-cases : (b : Bool) → (b ≡ true) ⊎ (b ≡ false)
Bool-cases true = inl refl
Bool-cases false = inr refl

pub Option-cases {ℓ} : {A : Type ℓ} (o : Option A) → (o ≡ none) ⊎ ((a : A) × (o ≡ some a))
Option-cases none = inl refl
Option-cases (some a) = inr (a, refl)

pub leb→le : (a b : ℕ) → leb a b ≡ true → a ≤ b
leb→le a b h = ground arith

pub leb→gt : (a b : ℕ) → leb a b ≡ false → b < a
leb→gt a b h = ground arith

-- `!!s` for an optional text: the empty text is falsy.
abbrev pub truthy : Option String → Bool
truthy none = false
truthy (some s) = not (s == "")

-- `a ?? b`
abbrev pub or_else {ℓ} : {A : Type ℓ} → Option A → A → A
or_else none b = b
or_else (some a) b = a

-- `a ?? b` where `b` may be missing too
abbrev pub or_option {ℓ} : {A : Type ℓ} → Option A → Option A → Option A
or_option none b = b
or_option (some a) b = some a

abbrev pub is_some {ℓ} : {A : Type ℓ} → Option A → Bool
is_some none = false
is_some (some a) = true

-- `new Set(xs).has(s)` and `xs.includes(s)` on texts
abbrev pub one_of : List String → String → Bool
one_of [] s = false
one_of (x ∷ xs) s = if x == s then true else one_of xs s

-- `if (option && value !== option) return false`: an empty option does not filter.
abbrev pub passes : Option String → Option String → Bool
passes none value = true
passes (some option) none = option == ""
passes (some option) (some value) = option == "" || value == option

-- `field === text` for an optional field
abbrev pub has_text : String → Option String → Bool
has_text text none = false
has_text text (some s) = s == text

-- `new Date(text) < now`, where `Date` may not read the text.
abbrev pub is_past : (String → Option ℕ) → Option String → ℕ → Bool
is_past parse_date none now = false
is_past parse_date (some text) now = elim (parse_date text) [ none ↦ false | some at ↦ ltb at now ]
