-- ===== src/Prelude/Paths.antt =====
-- `std::path` on Unix: the components of a path, and the prefix test on them. A path splits at each
-- slash; empty parts and later dots leave no component.
use Prim.Native.Char.{Char, code}
use agents_router.Prelude.{
  String, Bool, true, false, not, ◌&&◌, List, [], ◌∷◌, filter, ◌==◌, eqb, if◌then◌else◌,
}

abbrev add_to_head : Char → List String → List String
add_to_head c [] = String.◌∷◌ c String.[] ∷ []
add_to_head c (p ∷ ps) = String.◌∷◌ c p ∷ ps

-- `split` at the characters of a test
unfoldable pub split : (Char → Bool) → String → List String
split at String.[] = "" ∷ []
split at (String.◌∷◌ c s) = let rest = split at s in if at c then "" ∷ rest else add_to_head c rest

abbrev is_slash : Char → Bool
is_slash c = eqb (code c) 0x2f

abbrev is_component : String → Bool
is_component p = not (p == "") && not (p == ".")

-- The root is the component "/".
abbrev of_pieces : List String → List String
of_pieces [] = []
of_pieces (first ∷ rest) =
    if first == "" then "/" ∷ filter is_component rest else first ∷ filter is_component rest

unfoldable pub components : String → List String
unfolding split
components s = if s == "" then [] else of_pieces (split is_slash s)

unfoldable pub is_prefix : List String → List String → Bool
is_prefix [] ys = true
is_prefix (x ∷ xs) [] = false
is_prefix (x ∷ xs) (y ∷ ys) = x == y && is_prefix xs ys

-- `Path::new(path).starts_with(Path::new(base))`
unfoldable pub starts_with : String → String → Bool
unfolding is_prefix components
starts_with path base = is_prefix (components base) (components path)

-- `Path::is_absolute`
unfoldable pub is_absolute : String → Bool
is_absolute String.[] = false
is_absolute (String.◌∷◌ c s) = is_slash c
