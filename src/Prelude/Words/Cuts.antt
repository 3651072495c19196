-- ===== src/Prelude/Words/Cuts.antt =====
-- Where a text is cut, when it is put together from a word, a space and the rest; and what is left of
-- a trimmed text behind its first word.
use Prim.Native.Char.{Char}
use Prim.Native.String.{◌++◌ as append_text}
use text.Mathlib.TextLemmas.{nil-append, cons-append, nil≢cons, tail-eq_of_cons-eq}
use agents_router.Prelude.{
  String, ◌≡◌, refl, sym, ◌∙◌, inl, inr, true, false, some, arith, ◌==◌, Bool-cases, Option-cases,
}
use agents_router.Prelude.Text.{is_whitespace, trim_end, trim}
use agents_router.Prelude.Trimming.{trim_end-trim_start, trim_end-space, trim_end-cons_ink}
use agents_router.Prelude.Words.{split_once_whitespace, before_whitespace, from_whitespace, all_ink}

pub split_once-space :
    (c : Char) (s : String)
    → is_whitespace c ≡ true
    → split_once_whitespace (String.◌∷◌ c s) ≡ some ("", s)
unfolding split_once_whitespace
split_once-space c s w = rw w refl

pub rest_of :
    (c : Char) (s first remaining : String)
    → is_whitespace c ≡ true
    → split_once_whitespace (String.◌∷◌ c s) ≡ some (first, remaining)
    → s ≡ remaining
unfolding split_once_whitespace
rest_of c s first remaining w h = ground arith

-- A text that is trimmed at its end has more than white space behind its first word.
split_once-remaining :
    (s first remaining : String)
    → trim_end s ≡ s
    → split_once_whitespace s ≡ some (first, remaining)
    → (trim_end remaining == "") ≡ false
unfolding split_once_whitespace
split_once-remaining String.[] first remaining t h = ground arith
split_once-remaining (String.◌∷◌ c s) first remaining t h = elim (Bool-cases (is_whitespace c)) [
  | inl w ↦ elim (Bool-cases (trim_end s == "")) [
    | inl blank ↦
        let dropped : trim_end (String.◌∷◌ c s) ≡ "" = trim_end-space c s w ∙ rw blank refl in
        absurd (nil≢cons (sym dropped ∙ t))
    | inr more ↦ rw (← rest_of c s first remaining w h) more
  ]
  | inr ink ↦ elim (Option-cases (split_once_whitespace s)) [
    | inl none' ↦ ground arith
    | inr ((first', rest), e) ↦ ground (
      arith,
      split_once-remaining s first' rest (tail-eq_of_cons-eq (sym (trim_end-cons_ink c s ink) ∙ t))
          e,
    )
  ]
]

pub trim-remaining :
    (s first remaining : String)
    → trim_end s ≡ s
    → split_once_whitespace s ≡ some (first, remaining)
    → (trim remaining == "") ≡ false
unfolding trim
trim-remaining s first remaining t h =
    ground (arith, split_once-remaining s first remaining t h, trim_end-trim_start remaining)

module _ (c : Char) (s : String) (w : is_whitespace c ≡ true) where
  pub before_whitespace-append :
      (word : String)
      → all_ink word ≡ true
      → before_whitespace (append_text word (String.◌∷◌ c s)) ≡ word
  unfolding before_whitespace all_ink
  before_whitespace-append String.[] h = rw (nil-append (String.◌∷◌ c s)) (ground arith)
  before_whitespace-append (String.◌∷◌ d word) h =
      rw (cons-append d word (String.◌∷◌ c s)) (ground (arith, before_whitespace-append word))

  pub from_whitespace-append :
      (word : String)
      → all_ink word ≡ true
      → from_whitespace (append_text word (String.◌∷◌ c s)) ≡ String.◌∷◌ c s
  unfolding from_whitespace all_ink
  from_whitespace-append String.[] h = rw (nil-append (String.◌∷◌ c s)) (ground arith)
  from_whitespace-append (String.◌∷◌ d word) h =
      rw (cons-append d word (String.◌∷◌ c s)) (ground (arith, from_whitespace-append word))

  pub split_once-append :
      (word : String)
      → all_ink word ≡ true
      → split_once_whitespace (append_text word (String.◌∷◌ c s)) ≡ some (word, s)
  unfolding split_once_whitespace all_ink
  split_once-append String.[] h = rw (nil-append (String.◌∷◌ c s)) (ground arith)
  split_once-append (String.◌∷◌ d word) h =
      rw (cons-append d word (String.◌∷◌ c s)) (ground (arith, split_once-append word))
