-- ===== src/ProviderUrls.antt =====
-- src/provider_urls.rs: the checks of the URLs of providers. `Url::parse` is the parameter `parse`; an
-- error is its message.
pub mod Secure
mod Tests
use Prim.Native.Char.{code}
use agents_router.Prelude.{
  String, Bool, true, false, not, ◌&&◌, ◌||◌, Option, none, some, is_some, List, [], ◌∷◌, ◌==◌, eqb,
  leb, if◌then◌else◌,
}
use agents_router.Prelude.Text.{concat, trim}

pub record Url : Type 0 where
  pub serialized : String
  pub scheme : String
  pub host : Option String
  pub username : String
  pub password : Option String
  pub path : Option (List String)
  pub query : Option String
  pub fragment : Option String

abbrev pub UrlParser : Type 0
UrlParser = String → Option Url

pub data UrlResult (A : Type 0) : Type 0 where
  invalid_url : String → UrlResult A
  valid_url : A → UrlResult A

infixl 10 ◌>>=◌ ◌>>◌
abbrev pub ◌>>=◌ : {A B : Type 0} → UrlResult A → (A → UrlResult B) → UrlResult B
◌>>=◌ (invalid_url message) rest = invalid_url message
◌>>=◌ (valid_url a) rest = rest a

abbrev pub ◌>>◌ : {B : Type 0} → UrlResult (Unit {0}) → UrlResult B → UrlResult B
◌>>◌ (invalid_url message) rest = invalid_url message
◌>>◌ (valid_url done) rest = rest

-- `if test { bail!(message) }`
abbrev pub bail_if : Bool → String → UrlResult (Unit {0})
bail_if test message = if test then invalid_url message else valid_url tt

-- `context` on what was parsed, and the host that is required
abbrev pub or_bail : {A : Type 0} → Option A → String → UrlResult A
or_bail none message = invalid_url message
or_bail (some a) message = valid_url a

-- `str::starts_with`
unfoldable pub begins_with : String → String → Bool
begins_with s String.[] = true
begins_with String.[] (String.◌∷◌ c prefix) = false
begins_with (String.◌∷◌ d s) (String.◌∷◌ c prefix) = eqb (code d) (code c) && begins_with s prefix

unfoldable pub all_digits : String → Bool
all_digits String.[] = true
all_digits (String.◌∷◌ c s) = leb 0x30 (code c) && leb (code c) 0x39 && all_digits s

abbrev pub feishu_webhook_prefix : String
feishu_webhook_prefix = "https://open.feishu.cn/open-apis/bot/v2/hook/"

abbrev pub lark_webhook_prefix : String
lark_webhook_prefix = "https://open.larksuite.com/open-apis/bot/v2/hook/"

abbrev pub has_credentials : Url → Bool
has_credentials u = not (u.username == "") || is_some u.password

-- `url.host_str().unwrap_or_default()`, and `path_segments`
abbrev pub host_or_empty : Option String → String
host_or_empty none = ""
host_or_empty (some host) = host

abbrev pub path_segments : Option (List String) → List String
path_segments none = []
path_segments (some segments) = segments

abbrev pub is_slack_host : String → Bool
is_slack_host host = host == "hooks.slack.com" || host == "hooks.slack-gov.com"

abbrev pub is_discord_host : String → Bool
is_discord_host host = host == "discord.com" || host == "discordapp.com"

abbrev pub is_local_host : String → Bool
is_local_host host = host == "localhost" || host == "127.0.0.1" || host == "::1"

unfoldable pub is_slack_path : List String → Bool
is_slack_path (first ∷ team ∷ bot ∷ token ∷ []) =
    first == "services" && not (team == "") && not (bot == "") && not (token == "")
is_slack_path segments = false

unfoldable pub is_discord_path : List String → Bool
unfolding all_digits
is_discord_path (first ∷ second ∷ id ∷ token ∷ []) =
    first == "api" && second == "webhooks" && all_digits id && not (token == "")
is_discord_path segments = false

module _ (parse : UrlParser) where
  unfoldable pub validate_feishu_lark_webhook_url : String → UrlResult String
  validate_feishu_lark_webhook_url input = do
    bail_if (trim input == "") "Feishu/Lark webhook URL is required"
    bail_if
        (not (begins_with (trim input) feishu_webhook_prefix)
          && not (begins_with (trim input) lark_webhook_prefix))
        (concat (
          "Feishu/Lark webhook URL must start with `" ∷ feishu_webhook_prefix ∷ "` or `"
          ∷ lark_webhook_prefix ∷ "`" ∷ []))
    parsed ← or_bail (parse (trim input)) "Feishu/Lark webhook URL must be a valid URL"
    valid_url (trim input)

  unfoldable pub parse_https_provider_url : String → String → UrlResult Url
  unfolding concat
  parse_https_provider_url input label = do
    bail_if (trim input == "") (concat (label ∷ " is required" ∷ []))
    parsed ← or_bail (parse (trim input)) (concat (label ∷ " must be a valid URL" ∷ []))
    bail_if (not (parsed.scheme == "https")) (concat (label ∷ " must use HTTPS" ∷ []))
    bail_if (not (is_some parsed.host)) (concat (label ∷ " must include a host" ∷ []))
    bail_if (has_credentials parsed)
        (concat (label ∷ " must not include username or password" ∷ []))
    bail_if (is_some parsed.query || is_some parsed.fragment)
        (concat (label ∷ " must not include a query string or fragment" ∷ []))
    valid_url parsed

  unfoldable pub validate_slack_webhook_url : String → UrlResult String
  unfolding parse_https_provider_url is_slack_path
  validate_slack_webhook_url input = do
    url ← parse_https_provider_url input "Slack webhook URL"
    bail_if (not (is_slack_host (host_or_empty url.host)))
        "Slack webhook URL must use `hooks.slack.com` or `hooks.slack-gov.com`"
    bail_if (not (is_slack_path (path_segments url.path)))
        "Slack webhook URL must look like `https://hooks.slack.com/services/...`"
    valid_url url.serialized

  unfoldable pub validate_discord_webhook_url : String → UrlResult String
  unfolding parse_https_provider_url is_discord_path
  validate_discord_webhook_url input = do
    url ← parse_https_provider_url input "Discord webhook URL"
    bail_if (not (is_discord_host (host_or_empty url.host)))
        "Discord webhook URL must use `discord.com` or `discordapp.com`"
    bail_if (not (is_discord_path (path_segments url.path)))
        "Discord webhook URL must look like `https://discord.com/api/webhooks/{id}/{token}`"
    valid_url url.serialized

  unfoldable pub validate_custom_webhook_url : String → UrlResult String
  validate_custom_webhook_url input = do
    bail_if (trim input == "") "webhook URL is required"
    parsed ← or_bail (parse (trim input)) "webhook URL must be a valid URL"
    host ← or_bail parsed.host "webhook URL must include a host"
    bail_if (not (parsed.scheme == "https") && not (parsed.scheme == "http" && is_local_host host))
        "webhook URL must use HTTPS, except localhost test URLs"
    bail_if (has_credentials parsed) "webhook URL must not include username or password"
    valid_url parsed.serialized

  unfoldable pub validate_microsoft_teams_webhook_url : String → UrlResult String
  validate_microsoft_teams_webhook_url input = do
    bail_if (trim input == "") "Microsoft Teams webhook URL is required"
    parsed ← or_bail (parse (trim input)) "Microsoft Teams webhook URL must be a valid URL"
    bail_if (not (parsed.scheme == "https")) "Microsoft Teams webhook URL must use HTTPS"
    bail_if (not (is_some parsed.host)) "Microsoft Teams webhook URL must include a host"
    bail_if (has_credentials parsed)
        "Microsoft Teams webhook URL must not include username or password"
    bail_if (is_some parsed.fragment) "Microsoft Teams webhook URL must not include a fragment"
    valid_url parsed.serialized

  unfoldable pub host_label : String → String
  host_label url = label_of (parse url)
    where
      label_of : Option Url → String
      label_of none = "configured"
      label_of (some u) = elim u.host [ none ↦ "configured" | some host ↦ host ]
