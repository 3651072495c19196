-- ===== src/Config/Confined.antt =====
-- src/config.rs with src/provider_urls.rs: where the webhooks of a validated configuration lead.
use agents_router.Prelude.{
  String, true, false, not, ◌&&◌, ◌||◌, Option, none, some, List, [], ◌∷◌, ◌≡◌, arith, All,
}
use agents_router.Prelude.Text.{present}
use agents_router.ProviderUrls.{
  UrlParser, UrlResult, begins_with, feishu_webhook_prefix, lark_webhook_prefix,
  validate_feishu_lark_webhook_url,
}
use agents_router.ProviderUrls.Secure.{
  IsSecureText, IsPrivateText, Accepts, accepts, rejects, unless_bailed, found_or_bailed,
  slack-Secure, discord-Secure, teams-Secure, custom-Private,
}
use agents_router.Config.{
  ProviderType, webhook_provider, feishu_lark, slack, discord, microsoft_teams,
}
use agents_router.Config.Checked.{ConfigError, Checked, ◌>>=◌, ◌>>◌, refused, accepted}
use agents_router.Config.Providers.{
  RawProviderConfig, ProviderConfig, ProviderConfigDetail, UrlSource, FeishuLarkProviderConfig,
  inline_url, env_url, custom_bot, app_bot, webhook_detail, feishu_lark_detail, slack_detail,
  discord_detail, microsoft_teams_detail,
}
use agents_router.Config.RawFields.{
  checked_url, url_or_env, FeishuLarkRawProviderMode, custom_bot_mode, app_bot_mode,
}
use agents_router.Config.RawProviders.{
  required_url_source, to_validated, validated_detail, validated_ntfy, validated_webhook,
  validated_feishu_lark, validated_pushover, validated_slack, validated_discord, validated_telegram,
  validated_whatsapp, validated_wechat, validated_microsoft_teams, validated_email_smtp,
  to_validated_feishu_lark_provider_config, of_mode, validated_custom_bot, validated_app_bot,
}
use agents_router.Config.Validation.{RawConfig, ValidatedConfig, validate_providers, validate}
use agents_router.Config.Loops.{value_accepted}
use agents_router.Config.Sound.{checked}

-- What holds of a URL that the configuration gives, and not of one that a variable gives later
abbrev Inline : (String → Type 0) → UrlSource → Type 0
Inline Q (inline_url text) = Q text
Inline Q (env_url env_name) = Unit {0}

abbrev IsBotHook : String → Type 0
IsBotHook text =
    (begins_with text feishu_webhook_prefix || begins_with text lark_webhook_prefix) ≡ true

abbrev IsBot : FeishuLarkProviderConfig → Type 0
IsBot (custom_bot c) = Inline IsBotHook c.url
IsBot (app_bot c) = Unit {0}

abbrev pub IsConfined : UrlParser → ProviderConfigDetail → Type 0
IsConfined parse (webhook_detail c) = Inline (IsPrivateText parse) c.url
IsConfined parse (slack_detail c) = Inline (IsSecureText parse) c.url
IsConfined parse (discord_detail c) = Inline (IsSecureText parse) c.url
IsConfined parse (microsoft_teams_detail c) = Inline (IsSecureText parse) c.url
IsConfined parse (feishu_lark_detail c) = IsBot c
IsConfined parse d = Unit {0}

data Gives {A : Type 0} (Q : A → Type 0) : Checked A → Type 0 where
  gives : (a : A) → Q a → Gives Q (accepted a)
  gives_up : (problem : ConfigError) → Gives Q (refused problem)

given : {A : Type 0} (Q : A → Type 0) (m : Checked A) (a : A) → Gives Q m → m ≡ accepted a → Q a
given Q _ a (gives b q) e = let same : a ≡ b = ground arith in rw same q
given Q _ a (gives_up problem) e = ground arith

module _ {A : Type 0} (Q : A → Type 0) where
  whatever :
      {B : Type 0} (m : Checked B) (f : B → Checked A)
      → ((b : B) → Gives Q (f b))
      → Gives Q (m >>= f)
  whatever (accepted b) f h = h b
  whatever (refused problem) f h = gives_up problem

  then_gives : (m : Checked (Unit {0})) (n : Checked A) → Gives Q n → Gives Q (m >> n)
  then_gives (accepted t) n h = h
  then_gives (refused problem) n h = gives_up problem

  after :
      {B : Type 0} (P : B → Type 0) (m : Checked B) (f : B → Checked A)
      → Gives P m
      → ((b : B) → P b → Gives Q (f b))
      → Gives Q (m >>= f)
  after P _ f (gives b p) h = h b p
  after P _ f (gives_up problem) h = gives_up problem

checked_url-Gives :
    (Q : String → Type 0) (id : String) (c : UrlResult String)
    → Accepts Q c
    → Gives (Inline Q) (checked_url id c)
checked_url-Gives Q id _ (accepts text q) = gives _ q
checked_url-Gives Q id _ (rejects message) = gives_up _

url_or_env-Gives :
    (Q : String → Type 0) (id : String) (check : String → UrlResult String)
    (url env : Option String)
    → ((input : String) → Accepts Q (check input))
    → Gives (Inline Q) (url_or_env id check url env)
url_or_env-Gives Q id check (some url) env h = checked_url-Gives Q id (check url) (h url)
url_or_env-Gives Q id check none (some env) h = gives _ tt
url_or_env-Gives Q id check none none h = gives_up _

module _ (parse : UrlParser) where
  hook_found :
      (text : String)
      → (not (begins_with text feishu_webhook_prefix) && not (begins_with text lark_webhook_prefix))
        ≡ false
      → IsBotHook text
  hook_found text h = ground arith

  feishu-Hook : (input : String) → Accepts IsBotHook (validate_feishu_lark_webhook_url parse input)
  unfolding validate_feishu_lark_webhook_url
  feishu-Hook input =
      search (unless_bailed, found_or_bailed IsBotHook, accepts, hook_found) depth 12

  module _ (p : RawProviderConfig) where
    source-Gives :
        (Q : String → Type 0) (problem : ConfigError) (check : String → UrlResult String)
        → ((input : String) → Accepts Q (check input))
        → Gives (Inline Q) (required_url_source parse p problem check)
    unfolding required_url_source
    source-Gives Q problem check h =
        then_gives (Inline Q) _ _
          (url_or_env-Gives Q p.id check (present p.url) (present p.url_env) h)

    of_mode-Gives : (mode : FeishuLarkRawProviderMode) → Gives IsBot (of_mode parse p mode)
    unfolding validated_custom_bot validated_app_bot
    of_mode-Gives custom_bot_mode = then_gives IsBot _ _ (
        after IsBot (Inline IsBotHook) _ _ (source-Gives IsBotHook _ _ feishu-Hook)
          λ url h. whatever IsBot _ _ λ secret. gives _ h)
    of_mode-Gives app_bot_mode = search (whatever, then_gives, gives) depth 20

    detail-Confined : (t : ProviderType) → Gives (IsConfined parse) (validated_detail parse p t)
    unfolding validated_detail validated_ntfy validated_webhook validated_feishu_lark
        validated_pushover validated_slack validated_discord validated_telegram validated_whatsapp
        validated_wechat validated_microsoft_teams validated_email_smtp
        to_validated_feishu_lark_provider_config
    detail-Confined webhook_provider =
        after _ (Inline (IsPrivateText parse)) _ _ (source-Gives _ _ _ (custom-Private parse))
          λ u h. gives _ h
    detail-Confined slack =
        after _ (Inline (IsSecureText parse)) _ _ (source-Gives _ _ _ (slack-Secure parse))
          λ u h. gives _ h
    detail-Confined discord =
        after _ (Inline (IsSecureText parse)) _ _ (source-Gives _ _ _ (discord-Secure parse))
          λ u h. gives _ h
    detail-Confined microsoft_teams =
        after _ (Inline (IsSecureText parse)) _ _ (source-Gives _ _ _ (teams-Secure parse))
          λ u h. gives _ h
    detail-Confined feishu_lark =
        after _ IsBot _ _ (whatever IsBot _ _ of_mode-Gives) λ c h. gives _ h
    detail-Confined t = search (whatever, then_gives, gives) depth 24

    provider-Confined :
        (v : ProviderConfig) → to_validated parse p ≡ accepted v → IsConfined parse v.detail
    unfolding to_validated
    provider-Confined v e =
        given (λ w. IsConfined parse w.detail) _ v
          (after _ (IsConfined parse) _ _ (detail-Confined p.provider_type) λ d h. gives _ h) e

  providers-Confined :
      (ps : List RawProviderConfig) (vs : List ProviderConfig)
      → validate_providers parse ps ≡ accepted vs
      → All (λ v. IsConfined parse v.detail) vs
  unfolding validate_providers
  providers-Confined [] vs e = let none_left : vs ≡ [] = ground arith in rw none_left tt
  providers-Confined (p ∷ ps) vs e =
      let (v, ev, more) = value_accepted (to_validated parse p) _ vs e in
      let (rest, er, last) = value_accepted (validate_providers parse ps) _ vs more in
      let built : vs ≡ v ∷ rest = ground arith in
      rw built (provider-Confined p v ev, providers-Confined ps rest er)

-- In a configuration that is validated, each URL of Slack, Discord or Microsoft Teams that is written
-- in it is the URL of some parsed text, goes over HTTPS and shows no user name and no password; that of
-- a custom webhook does so too, or it goes over HTTP to this machine; and that of a custom bot of
-- Feishu or Lark begins with one of the two prefixes of their hooks.
pub configured_url-IsConfined :
    (parse : UrlParser) (raw : RawConfig) (v : ValidatedConfig)
    → validate parse raw ≡ accepted v
    → All (λ provider. IsConfined parse provider.detail) v.providers
configured_url-IsConfined parse raw v e =
    providers-Confined parse raw.providers v.providers (checked parse raw v e).validated
