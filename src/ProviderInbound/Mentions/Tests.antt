-- ===== src/ProviderInbound/Mentions/Tests.antt =====
-- Runs of the loop over leading mentions, and of the search for the token of one.
use agents_router.Prelude.{◌≡◌, refl, some}
use agents_router.Prelude.Text.{trim_start}
use agents_router.Prelude.Words.{first_word, before_whitespace, split_once_whitespace}
use agents_router.Exec.{ok, err, sliced_inside_character}
use agents_router.ProviderInbound.Mentions.{
  leading_lark_mention_token, cut_mention, trim_leading_lark_mentions, trim_mentions,
}
use agents_router.ProviderInbound.Mentions.Loop.{round, IsUnaddressed, mentions_loop_ends}

two_mentions : trim_leading_lark_mentions " @_user_1  @bot do it" ≡ "do it"
unfolding trim_leading_lark_mentions trim_mentions cut_mention split_once_whitespace trim_start
two_mentions = refl

a_token : leading_lark_mention_token " @_user_1 do it" ≡ ok (some "@_user_1")
unfolding leading_lark_mention_token trim_start first_word before_whitespace
a_token = refl

-- The slice counts from the sign, and the word begins behind a space.
short_token : leading_lark_mention_token "@ user" ≡ ok (some "@ use")
unfolding leading_lark_mention_token trim_start first_word before_whitespace
short_token = refl

panics : leading_lark_mention_token "@ 你好" ≡ err sliced_inside_character
unfolding leading_lark_mention_token trim_start first_word before_whitespace
panics = refl

-- A mention that ends the text stays.
last_mention : trim_leading_lark_mentions "@_user_1 @bot" ≡ "@bot"
unfolding trim_leading_lark_mentions trim_mentions cut_mention split_once_whitespace trim_start
last_mention = refl

mentions_loop_ends_example :
    (trim_leading_lark_mentions " @_user_1 do it"
      ≡ round trim_leading_lark_mentions " @_user_1 do it")
    × IsUnaddressed (trim_leading_lark_mentions " @_user_1 do it")
mentions_loop_ends_example = mentions_loop_ends " @_user_1 do it"
