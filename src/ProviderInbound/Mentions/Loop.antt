-- ===== src/ProviderInbound/Mentions/Loop.antt =====
-- src/provider_inbound.rs: the loop over the mentions at the head of a message ends.
use Prim.Native.String.{count}
use text.Mathlib.TextLemmas.{length-cons}
use agents_router.Prelude.{
  ℕ, zero, suc, ◌≤◌, ◌<◌, String, ◌≡◌, refl, ◌∙◌, ◌⊎◌, true, inl, inr, none, some, arith,
  Bool-cases, Option-cases,
}
use agents_router.Prelude.Text.{trim_start, is_whitespace}
use agents_router.Prelude.Trimming.{trim_start_idempotent}
use agents_router.Prelude.Words.{split_once_whitespace, strip_char, all_ink}
use agents_router.Prelude.Words.Cuts.{rest_of}
use agents_router.ProviderInbound.Mentions.{cut_mention, trim_mentions, trim_leading_lark_mentions}

trim_start-le : (s : String) → count (trim_start s) ≤ count s
unfolding trim_start
trim_start-le String.[] = omega arith
trim_start-le (String.◌∷◌ c s) = elim (Bool-cases (is_whitespace c)) [
  | inl w ↦ rw w (omega (arith, trim_start-le s, length-cons c s))
  | inr ink ↦ rw ink (omega arith)
]

split_once-lt :
    (s first rest : String) → split_once_whitespace s ≡ some (first, rest) → count rest < count s
unfolding split_once_whitespace
split_once-lt String.[] first rest e = ground arith
split_once-lt (String.◌∷◌ c s) first rest e = elim (Bool-cases (is_whitespace c)) [
  | inl w ↦ rw (← rest_of c s first rest w e) (omega (arith, length-cons c s))
  | inr ink ↦ elim (Option-cases (split_once_whitespace s)) [
    | inl none' ↦ ground arith
    | inr ((first', rest'), k) ↦ ground (arith, split_once-lt s first' rest' k, length-cons c s)
  ]
]

cut_mention-lt :
    (s mention rest : String) → cut_mention s ≡ some (mention, rest) → count rest < count s
unfolding cut_mention
cut_mention-lt String.[] mention rest e = ground arith
cut_mention-lt (String.◌∷◌ c s) mention rest e =
    ground (arith, split_once-lt s mention rest, length-cons c s)

next-lt :
    (s mention rest : String)
    → cut_mention (trim_start s) ≡ some (mention, rest)
    → count rest < count s
next-lt s mention rest e =
    omega (arith, cut_mention-lt (trim_start s) mention rest e, trim_start-le s)

-- More fuel than the text has characters changes nothing.
enough_fuel :
    (f g : ℕ) (s : String) → count s ≤ f → count s ≤ g → trim_mentions f s ≡ trim_mentions g s
unfolding trim_mentions
enough_fuel zero zero s h k = refl
enough_fuel zero (suc g) s h k = elim (Option-cases (cut_mention (trim_start s))) [
  | inl ended ↦ rw (ended, trim_mentions) refl
  | inr ((mention, rest), e) ↦ absurd (omega (arith, next-lt s mention rest e))
]
enough_fuel (suc f) zero s h k = elim (Option-cases (cut_mention (trim_start s))) [
  | inl ended ↦ rw (ended, trim_mentions) refl
  | inr ((mention, rest), e) ↦ absurd (omega (arith, next-lt s mention rest e))
]
enough_fuel (suc f) (suc g) s h k = elim (Option-cases (cut_mention (trim_start s))) [
  | inl ended ↦ rw (ended, trim_mentions) refl
  | inr ((mention, rest), e) ↦
      let shorter = next-lt s mention rest e in
      rw (e, trim_mentions) (enough_fuel f g rest (omega arith) (omega arith))
]

-- One round of the source's loop
abbrev pub round : (String → String) → String → String
round again text = elim (cut_mention (trim_start text)) [
  | none ↦ trim_start text
  | some (mention, rest) ↦ again rest
]

loop_round :
    (text : String) → trim_leading_lark_mentions text ≡ round trim_leading_lark_mentions text
unfolding trim_leading_lark_mentions
loop_round text =
    enough_fuel (count text) (suc (count text)) text (omega arith) (omega arith)
    ∙ elim (Option-cases (cut_mention (trim_start text))) [
      | inl ended ↦ unfold trim_mentions in rw (ended, trim_mentions, round) refl
      | inr ((mention, rest), e) ↦
          let shorter = next-lt text mention rest e in
          unfold trim_mentions in
          rw (e, trim_mentions, round)
            (enough_fuel (count text) (count rest) rest (omega arith) (omega arith))
    ]

uncut-all_ink : (s : String) → split_once_whitespace s ≡ none → all_ink s ≡ true
unfolding split_once_whitespace all_ink
uncut-all_ink String.[] h = refl
uncut-all_ink (String.◌∷◌ c s) h = ground (arith, uncut-all_ink s)

-- A text with no white space at its head, which does not begin with a mention, or is one to its end.
pub record IsUnaddressed (text : String) : Type 0 where
  pub trimmed : trim_start text ≡ text
  pub no_mention :
      (strip_char 0x40 text ≡ none)
      ⊎ ((mention : String) × (strip_char 0x40 text ≡ some mention) × (all_ink mention ≡ true))

uncut-IsUnaddressed :
    (s : String) → cut_mention (trim_start s) ≡ none → IsUnaddressed (trim_start s)
unfolding cut_mention
uncut-IsUnaddressed s h = record {
  trimmed = trim_start_idempotent s;
  no_mention = elim (Option-cases (strip_char 0x40 (trim_start s))) [
    | inl plain ↦ inl plain
    | inr (mention, e) ↦ inr (mention, e, ground (arith, uncut-all_ink mention))
  ];
}

trim_mentions-IsUnaddressed : (f : ℕ) (s : String) → count s ≤ f → IsUnaddressed (trim_mentions f s)
unfolding trim_mentions
trim_mentions-IsUnaddressed zero s h = elim (Option-cases (cut_mention (trim_start s))) [
  | inl ended ↦ uncut-IsUnaddressed s ended
  | inr ((mention, rest), e) ↦ absurd (omega (arith, next-lt s mention rest e))
]
trim_mentions-IsUnaddressed (suc f) s h = elim (Option-cases (cut_mention (trim_start s))) [
  | inl ended ↦ rw (ended, trim_mentions) (uncut-IsUnaddressed s ended)
  | inr ((mention, rest), e) ↦
      let shorter = next-lt s mention rest e in
      rw (e, trim_mentions) (trim_mentions-IsUnaddressed f rest (omega arith))
]

-- The loop over the mentions at the head of a text ends: its value is that of one round and then of
-- the loop on what is left. The text that it answers has no white space at its head, and it does not
-- begin with `@`, or else it is a mention to its end: `@` and no white space behind it.
pub mentions_loop_ends :
    (text : String)
    → (trim_leading_lark_mentions text ≡ round trim_leading_lark_mentions text)
      × IsUnaddressed (trim_leading_lark_mentions text)
mentions_loop_ends text =
    let ends : IsUnaddressed (trim_leading_lark_mentions text) =
      unfold trim_leading_lark_mentions in
      trim_mentions-IsUnaddressed (count text) text (omega arith) in
    (loop_round text, ends)
