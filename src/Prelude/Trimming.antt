-- ===== src/Prelude/Trimming.antt =====
-- Trimmed texts: trimming again changes nothing, and white space around a text is dropped.
use Prim.Native.Char.{Char}
use text.Mathlib.TextLemmas.{nil≢cons}
use agents_router.Prelude.{
  String, ◌≡◌, refl, sym, ap, ◌∙◌, inl, inr, Bool, true, false, not, arith, ◌==◌, eq_iff,
  Bool-cases, if◌then◌else◌,
}
use agents_router.Prelude.Text.{is_whitespace, trim_start, trim_end, trim}

pub trim_start_idempotent : (s : String) → trim_start (trim_start s) ≡ trim_start s
unfolding trim_start
trim_start_idempotent String.[] = refl
trim_start_idempotent (String.◌∷◌ c s) = ground (arith, trim_start_idempotent s)

pub trim_end_idempotent : (s : String) → trim_end (trim_end s) ≡ trim_end s
unfolding trim_end
trim_end_idempotent String.[] = refl
trim_end_idempotent (String.◌∷◌ c s) = ground (arith, trim_end_idempotent s, eq_iff (trim_end s) "")

-- The first character, if any, is no white space.
abbrev pub begins_with_ink : String → Bool
begins_with_ink String.[] = true
begins_with_ink (String.◌∷◌ c s) = not (is_whitespace c)

pub trim_start_ink : (s : String) → begins_with_ink (trim_start s) ≡ true
unfolding trim_start
trim_start_ink String.[] = refl
trim_start_ink (String.◌∷◌ c s) = ground (arith, trim_start_ink s)

pub trim_start-of_ink : (s : String) → begins_with_ink s ≡ true → trim_start s ≡ s
unfolding trim_start
trim_start-of_ink String.[] h = refl
trim_start-of_ink (String.◌∷◌ c s) h = ground arith

trim_end_ink : (s : String) → begins_with_ink s ≡ true → begins_with_ink (trim_end s) ≡ true
unfolding trim_end
trim_end_ink String.[] h = refl
trim_end_ink (String.◌∷◌ c s) h = ground arith

pub trim_idempotent : (s : String) → trim (trim s) ≡ trim s
unfolding trim
trim_idempotent s =
    ap trim_end
      (trim_start-of_ink (trim_end (trim_start s)) (trim_end_ink (trim_start s) (trim_start_ink s)))
    ∙ trim_end_idempotent (trim_start s)

-- A text whose trimming from the left leaves only white space is white space.
pub trim_end-trim_start :
    (s : String) → (trim_end (trim_start s) == "") ≡ true → (trim_end s == "") ≡ true
unfolding trim_start trim_end
trim_end-trim_start String.[] h = refl
trim_end-trim_start (String.◌∷◌ c s) h = elim (Bool-cases (is_whitespace c)) [
  | inl w ↦ rw (w, trim_end-trim_start s (ground arith)) refl
  | inr ink ↦ ground arith
]

pub space_is_white : is_whitespace " " ≡ true
unfolding is_whitespace
space_is_white = refl

module _ (c : Char) (s : String) where
  pub cons-not_empty : (String.◌∷◌ c s == "") ≡ false
  cons-not_empty = elim (Bool-cases (String.◌∷◌ c s == "")) [
    | inl empty ↦ absurd (nil≢cons (sym ((eq_iff (String.◌∷◌ c s) "").0 empty)))
    | inr more ↦ more
  ]

  pub trim_end-space :
      is_whitespace c ≡ true
      → trim_end (String.◌∷◌ c s) ≡ (if trim_end s == "" then "" else String.◌∷◌ c (trim_end s))
  unfolding trim_end
  trim_end-space w = rw w refl

  pub trim_end-cons_ink :
      is_whitespace c ≡ false → trim_end (String.◌∷◌ c s) ≡ String.◌∷◌ c (trim_end s)
  unfolding trim_end
  trim_end-cons_ink ink = rw ink refl
