-- ===== src/Prelude/Words.antt =====
-- Texts cut at white space, as `split_once`, `split_whitespace` and `find` do.
pub mod Cuts
use Prim.Native.Char.{Char, code}
use Prim.Native.String.{len}
use text.Mathlib.Text.{get?}
use agents_router.Prelude.{
  ℕ, String, Bool, true, false, not, ◌&&◌, Option, none, some, ◌==◌, eqb, List, if◌then◌else◌,
}
use agents_router.Prelude.Text.{is_whitespace, trim_start, trim_end, trim}

abbrev cons_fst : Char → String × String → String × String
cons_fst c (s, t) = (String.◌∷◌ c s, t)

abbrev map_cons : Char → Option (String × String) → Option (String × String)
map_cons c none = none
map_cons c (some p) = some (cons_fst c p)

-- `split_once(char::is_whitespace)`
unfoldable pub split_once_whitespace : String → Option (String × String)
split_once_whitespace String.[] = none
split_once_whitespace (String.◌∷◌ c s) =
    let rest = split_once_whitespace s in if is_whitespace c then some ("", s) else map_cons c rest

-- The text before `find(char::is_whitespace)`, and from it on; all of it, and nothing, if there is
-- none
unfoldable pub before_whitespace : String → String
before_whitespace String.[] = ""
before_whitespace (String.◌∷◌ c s) =
    let rest = before_whitespace s in if is_whitespace c then "" else String.◌∷◌ c rest

unfoldable pub from_whitespace : String → String
from_whitespace String.[] = ""
from_whitespace (String.◌∷◌ c s) =
    let rest = from_whitespace s in if is_whitespace c then String.◌∷◌ c s else rest

abbrev pub is_char : ℕ → Char → Bool
is_char n c = eqb (code c) n

-- `strip_prefix` of one character
abbrev pub strip_char : ℕ → String → Option String
strip_char n String.[] = none
strip_char n (String.◌∷◌ c s) = if is_char n c then some s else none

-- `starts_with` of one character
abbrev pub starts_with_char : ℕ → String → Bool
starts_with_char n String.[] = false
starts_with_char n (String.◌∷◌ c s) = is_char n c

abbrev non_empty : String → Option String
non_empty s = if s == "" then none else some s

-- `split_whitespace().next()`
unfoldable pub first_word : String → Option String
unfolding trim_start before_whitespace
first_word s = non_empty (before_whitespace (trim_start s))

-- No character is white space.
unfoldable pub all_ink : String → Bool
all_ink String.[] = true
all_ink (String.◌∷◌ c s) = not (is_whitespace c) && all_ink s
