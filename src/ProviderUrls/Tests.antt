-- ===== src/ProviderUrls/Tests.antt =====
-- The checks of URLs on a parser that knows two texts.
use agents_router.Prelude.Text.{trim}
use agents_router.Prelude.{none, some, [], ◌∷◌, ◌≡◌, refl, ◌==◌, if◌then◌else◌}
use agents_router.ProviderUrls.{
  Url, UrlParser, valid_url, invalid_url, validate_slack_webhook_url, validate_custom_webhook_url,
  validate_discord_webhook_url, validate_feishu_lark_webhook_url, host_label,
}

abbrev hook : Url
hook = record {
  serialized = "https://hooks.slack.com/services/T0/B0/x";
  scheme = "https";
  host = some "hooks.slack.com";
  username = "";
  password = none;
  path = some ("services" ∷ "T0" ∷ "B0" ∷ "x" ∷ []);
  query = none;
  fragment = none;
}

abbrev local_hook : Url
local_hook = record {
  serialized = "http://127.0.0.1:8080/hook";
  scheme = "http";
  host = some "127.0.0.1";
  username = "";
  password = none;
  path = some ("hook" ∷ []);
  query = none;
  fragment = none;
}

abbrev parse : UrlParser
parse text =
    if text == hook.serialized
    then some hook
    else if text == local_hook.serialized
    then some local_hook
    else none

accepts_slack :
    validate_slack_webhook_url parse " https://hooks.slack.com/services/T0/B0/x"
    ≡ valid_url "https://hooks.slack.com/services/T0/B0/x"
unfolding validate_slack_webhook_url trim
accepts_slack = refl

rejects_plain_slack :
    validate_slack_webhook_url parse "http://127.0.0.1:8080/hook"
    ≡ invalid_url "Slack webhook URL must use HTTPS"
unfolding validate_slack_webhook_url trim
rejects_plain_slack = refl

accepts_local :
    validate_custom_webhook_url parse "http://127.0.0.1:8080/hook"
    ≡ valid_url "http://127.0.0.1:8080/hook"
unfolding validate_custom_webhook_url trim
accepts_local = refl

rejects_other_host :
    validate_discord_webhook_url parse "https://hooks.slack.com/services/T0/B0/x"
    ≡ invalid_url "Discord webhook URL must use `discord.com` or `discordapp.com`"
unfolding validate_discord_webhook_url trim
rejects_other_host = refl

requires_feishu :
    validate_feishu_lark_webhook_url parse "  " ≡ invalid_url "Feishu/Lark webhook URL is required"
unfolding validate_feishu_lark_webhook_url trim
requires_feishu = refl

labels :
    (host_label parse "http://127.0.0.1:8080/hook" ≡ "127.0.0.1")
    × (host_label parse "nowhere" ≡ "configured")
unfolding host_label
labels = (refl, refl)
