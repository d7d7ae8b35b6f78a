-- ===== src/Prelude/Trim.antt =====
-- `String.prototype.trim`, over the code points that JavaScript counts as white space.
use Prim.Native.Char.{Char, code}
use a2a_broker.Prelude.{
  ℕ, String, Bool, true, false, leb, ◌&&◌, ◌||◌, if◌then◌else◌, Option, none, some, ◌==◌,
}

abbrev is_code : ℕ → ℕ → Bool
is_code c d = leb c d && leb d c

unfoldable pub is_space : Char → Bool
is_space c =
    let n = code c in
    (leb 9 n && leb n 13)
    || is_code n 32
    || is_code n 160
    || is_code n 5760
    || (leb 8192 n && leb n 8202)
    || is_code n 8232
    || is_code n 8233
    || is_code n 8239
    || is_code n 8287
    || is_code n 12288
    || is_code n 65279

unfoldable pub trim_start : String → String
unfolding is_space
trim_start String.[] = String.[]
trim_start (String.◌∷◌ c s) = if is_space c then trim_start s else String.◌∷◌ c s

abbrev is_empty : String → Bool
is_empty String.[] = true
is_empty (String.◌∷◌ c s) = false

unfoldable pub trim_end : String → String
unfolding is_space
trim_end String.[] = String.[]
trim_end (String.◌∷◌ c s) =
    let rest = trim_end s in if is_empty rest && is_space c then String.[] else String.◌∷◌ c rest

-- `typeof value === "string" && value.trim() ? value.trim() : undefined`
unfoldable pub normalize_string : Option String → Option String
unfolding trim_start trim_end
normalize_string none = none
normalize_string (some s) =
    let t : String = trim_end (trim_start s) in if t == "" then none else some t
