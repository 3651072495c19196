-- ===== src/Config/Safe.antt =====
-- src/config.rs: no `expect` of the validation fails.
use agents_router.Prelude.{◌≡◌, ◌≢◌, ◌∙◌, refl, sym, ap, true, false, false≢true, arith}
use agents_router.Prelude.{String, Bool, Option, none, some, is_some, if◌then◌else◌}
use agents_router.Prelude.Text.{present}
use agents_router.Config.{ProviderType, feishu_lark}
use agents_router.Config.Checked.{
  ConfigError, Checked, ◌>>=◌, ◌>>◌, required, refuse_if, panicked, refused, accepted,
}
use agents_router.Config.Providers.{RawProviderConfig}
use agents_router.Config.RawFields.{
  one_source, at_most_one_source, checked_url, url_or_env, same_bool, FeishuLarkRawProviderMode,
  mode_of, custom_bot_mode, app_bot_mode,
}
use agents_router.ProviderUrls.{UrlParser, UrlResult, valid_url, invalid_url}
use agents_router.Config.RawProviders.{
  required_url_source, to_validated, validated_detail, validated_ntfy, validated_webhook,
  validated_feishu_lark, validated_pushover, validated_slack, validated_discord, validated_telegram,
  validated_whatsapp, validated_wechat, validated_microsoft_teams, validated_email_smtp,
  to_validated_feishu_lark_provider_config, feishu_lark_provider_mode, of_mode,
  validated_custom_bot, validated_app_bot,
}

abbrev is_panic : ConfigError → Bool
is_panic panicked = true
is_panic problem = false

pub data Safe {A : Type 0} : Checked A → Type 0 where
  is_accepted : (a : A) → Safe (accepted a)
  is_refused : (problem : ConfigError) → is_panic problem ≡ false → Safe (refused problem)

pub not_panicked : {A : Type 0} (m : Checked A) → Safe m → m ≢ refused panicked
not_panicked _ (is_accepted a) e = ground arith
not_panicked _ (is_refused problem h) e =
    let same : problem ≡ panicked = ground arith in false≢true (sym h ∙ ap is_panic same)

pub Safe->>= :
    {A B : Type 0} (m : Checked A) (f : A → Checked B)
    → Safe m
    → ((a : A) → Safe (f a))
    → Safe (m >>= f)
Safe->>= _ f (is_accepted a) h = h a
Safe->>= _ f (is_refused problem k) h = is_refused problem k

pub Safe->> :
    {B : Type 0} (m : Checked (Unit {0})) (f : Checked B) → Safe m → Safe f → Safe (m >> f)
Safe->> _ f (is_accepted a) h = h
Safe->> _ f (is_refused problem k) h = is_refused problem k

pub refuse_if-Safe :
    (test : Bool) (problem : ConfigError) → is_panic problem ≡ false → Safe (refuse_if test problem)
refuse_if-Safe true problem h = is_refused problem h
refuse_if-Safe false problem h = is_accepted tt

pub required-Safe :
    {A : Type 0} (problem : ConfigError) (o : Option A)
    → is_panic problem ≡ false
    → Safe (required problem o)
required-Safe problem none h = is_refused problem h
required-Safe problem (some a) h = is_accepted a

one_source-Safe :
    (value env_name : Option String) (problem : ConfigError)
    → is_panic problem ≡ false
    → Safe (one_source value env_name problem)
one_source-Safe none none problem h = is_refused problem h
one_source-Safe none (some e) problem h = is_accepted _
one_source-Safe (some v) none problem h = is_accepted _
one_source-Safe (some v) (some e) problem h = is_refused problem h

at_most_one_source-Safe :
    (value env_name : Option String) (problem : ConfigError)
    → is_panic problem ≡ false
    → Safe (at_most_one_source value env_name problem)
at_most_one_source-Safe none none problem h = is_accepted _
at_most_one_source-Safe none (some e) problem h = is_accepted _
at_most_one_source-Safe (some v) none problem h = is_accepted _
at_most_one_source-Safe (some v) (some e) problem h = is_refused problem h

checked_url-Safe : (id : String) (c : UrlResult String) → Safe (checked_url id c)
checked_url-Safe id (valid_url url) = is_accepted _
checked_url-Safe id (invalid_url message) = is_refused _ refl

-- Where exactly one of the two is there
url_or_env-Safe :
    (id : String) (check : String → UrlResult String) (url env_name : Option String)
    (problem : ConfigError)
    → is_panic problem ≡ false
    → Safe (
        refuse_if (same_bool (is_some url) (is_some env_name)) problem
        >> url_or_env id check url env_name)
url_or_env-Safe id check none none problem h = is_refused problem h
url_or_env-Safe id check none (some e) problem h = is_accepted _
url_or_env-Safe id check (some u) none problem h = checked_url-Safe id (check u)
url_or_env-Safe id check (some u) (some e) problem h = is_refused problem h

pub if-Safe :
    {A : Type 0} (test : Bool) (m n : Checked A) → Safe m → Safe n → Safe (if test then m else n)
if-Safe true m n h k = h
if-Safe false m n h k = k

mode_of-Safe : (id : String) (test : Bool) (o : Option String) → Safe (mode_of id test o)
mode_of-Safe id test none = search (if-Safe, is_accepted, is_refused)
mode_of-Safe id test (some mode) = search (if-Safe, is_accepted, is_refused)

module _ (parse : UrlParser) (p : RawProviderConfig) where
  required_url_source-Safe :
      (problem : ConfigError) (check : String → UrlResult String)
      → is_panic problem ≡ false
      → Safe (required_url_source parse p problem check)
  unfolding required_url_source
  required_url_source-Safe problem check h =
      url_or_env-Safe p.id check (present p.url) (present p.url_env) problem h

ruleset rules = (
  Safe->>=, Safe->>, refuse_if-Safe, required-Safe, one_source-Safe, at_most_one_source-Safe,
  required_url_source-Safe, if-Safe, mode_of-Safe, is_accepted, is_refused,
)

module _ (parse : UrlParser) (p : RawProviderConfig) where
  of_mode-Safe : (mode : FeishuLarkRawProviderMode) → Safe (of_mode parse p mode)
  unfolding validated_custom_bot validated_app_bot
  of_mode-Safe custom_bot_mode = search rules depth 24
  of_mode-Safe app_bot_mode = search rules depth 24

  validated_feishu_lark-Safe : Safe (validated_feishu_lark parse p)
  unfolding validated_feishu_lark to_validated_feishu_lark_provider_config feishu_lark_provider_mode
  validated_feishu_lark-Safe = search (of_mode-Safe, rules) depth 24

  detail-Safe : (t : ProviderType) → Safe (validated_detail parse p t)
  unfolding validated_detail validated_ntfy validated_webhook validated_pushover validated_slack
      validated_discord validated_telegram validated_whatsapp validated_wechat
      validated_microsoft_teams validated_email_smtp
  detail-Safe feishu_lark = validated_feishu_lark-Safe
  detail-Safe t = search rules depth 24

  pub to_validated-Safe : Safe (to_validated parse p)
  unfolding to_validated
  to_validated-Safe = search (detail-Safe, rules) depth 8
