-- ===== src/ProviderInbound/Mentions.antt =====
-- src/provider_inbound.rs: the mentions at the head of a message.
pub mod Loop
mod Tests
use Prim.Native.String.{len, count}
use text.Mathlib.Text.{get?}
use agents_router.Prelude.{ℕ, zero, suc, ◌+◌, String, Option, none, some, and_then, if◌then◌else◌}
use agents_router.Prelude.Text.{trim_start}
use agents_router.Prelude.Words.{strip_char, split_once_whitespace, first_word}
use agents_router.Exec.{Result, ok, err, sliced_inside_character}

-- `&trimmed[..1 + token.len()]`
abbrev slice_token : String → String → Result (Option String)
slice_token trimmed token = elim (get? trimmed 0 (1 + len token)) [
  | none ↦ err sliced_inside_character
  | some head ↦ ok (some head)
]

abbrev token_of : String → Option String → Result (Option String)
token_of trimmed none = ok none
token_of trimmed (some token) = slice_token trimmed token

unfoldable pub leading_lark_mention_token : String → Result (Option String)
leading_lark_mention_token text =
    let trimmed = trim_start text in
    token_of trimmed (and_then (strip_char 0x40 trimmed) first_word)

-- `strip_prefix('@')` and then `split_once(char::is_whitespace)`: a mention with white space behind it,
-- and the text behind that. A mention that ends the text is none.
unfoldable pub cut_mention : String → Option (String × String)
cut_mention trimmed = and_then (strip_char 0x40 trimmed) split_once_whitespace

-- The loop of `trim_leading_lark_mentions`, whose text grows shorter in each round
unfoldable trim_mentions : ℕ → String → String
trim_mentions zero text = trim_start text
trim_mentions (suc fuel) text =
    let trimmed = trim_start text in
    elim (cut_mention trimmed) [ none ↦ trimmed | some (mention, rest) ↦ trim_mentions fuel rest ]

unfoldable pub trim_leading_lark_mentions : String → String
unfolding trim_mentions
trim_leading_lark_mentions text = trim_mentions (count text) text
