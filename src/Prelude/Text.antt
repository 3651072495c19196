-- ===== src/Prelude/Text.antt =====
-- Texts as Rust's `str`: concatenation, `trim`, and the lower-case hexadecimal digits of bytes.
use Prim.Native.Char.{Char, code}
use Prim.Native.String.{◌++◌ as append_text}
use agents_router.Prelude.{
  ℕ, ◌/◌, ◌%◌, String, Bool, ◌&&◌, ◌||◌, Option, none, some, List, [], ◌∷◌, ◌==◌, eqb, leb,
  if◌then◌else◌,
}

-- `format!` of its pieces
unfoldable pub concat : List String → String
concat [] = ""
concat (s ∷ ss) = append_text s (concat ss)

-- `char::is_whitespace`, the Unicode property White_Space
unfoldable pub is_whitespace : Char → Bool
is_whitespace c =
    (leb 0x09 (code c) && leb (code c) 0x0d)
    || eqb (code c) 0x20
    || eqb (code c) 0x85
    || eqb (code c) 0xa0
    || eqb (code c) 0x1680
    || (leb 0x2000 (code c) && leb (code c) 0x200a)
    || eqb (code c) 0x2028
    || eqb (code c) 0x2029
    || eqb (code c) 0x202f
    || eqb (code c) 0x205f
    || eqb (code c) 0x3000

unfoldable pub trim_start : String → String
unfolding is_whitespace
trim_start String.[] = ""
trim_start (String.◌∷◌ c s) =
    let rest = trim_start s in if is_whitespace c then rest else String.◌∷◌ c s

unfoldable pub trim_end : String → String
unfolding is_whitespace
trim_end String.[] = ""
trim_end (String.◌∷◌ c s) =
    let rest = trim_end s in if is_whitespace c && rest == "" then "" else String.◌∷◌ c rest

unfoldable pub trim : String → String
unfolding trim_start trim_end
trim s = trim_end (trim_start s)

-- `value.trim().is_empty()`
unfoldable pub is_blank : String → Bool
unfolding trim
is_blank s = trim s == ""

-- `value.filter(|value| !value.trim().is_empty())`
unfoldable pub present : Option String → Option String
present none = none
present (some s) = if is_blank s then none else some s

abbrev hex_digits : List String
hex_digits =
    "0" ∷ "1" ∷ "2" ∷ "3" ∷ "4" ∷ "5" ∷ "6" ∷ "7" ∷ "8" ∷ "9" ∷ "a" ∷ "b" ∷ "c" ∷ "d" ∷ "e" ∷ "f"
    ∷ []

hex_digit : List String → ℕ → String
hex_digit [] n = ""
hex_digit (d ∷ ds) n = elim n [ ℕ.zero ↦ d | ℕ.suc m ↦ hex_digit ds m ]

-- `format!("{byte:02x}")` of each byte
unfoldable pub hex : List ℕ → String
unfolding hex_digit concat
hex [] = ""
hex (b ∷ bs) =
    concat (hex_digit hex_digits (b / 16 % 16) ∷ hex_digit hex_digits (b % 16) ∷ hex bs ∷ [])
