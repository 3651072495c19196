-- ===== src/Config/RawFields.antt =====
-- src/config.rs: the fields of a provider, present or absent.
use agents_router.Prelude.{
  String, Bool, not, Option, none, some, is_some, List, [], ◌∷◌, ◌==◌, if◌then◌else◌,
}
use agents_router.Prelude.Text.{trim, present}
use agents_router.Config.Checked.{
  ConfigError, Checked, invalid_provider_url, missing_feishu_lark_app_bot_mode,
  invalid_feishu_lark_mode, invalid_feishu_lark_app_bot_domain, panicked, refused, accepted,
}
use agents_router.ProviderUrls.{UrlResult, valid_url, invalid_url}
use agents_router.Config.Providers.{
  UrlSource, SecretSource, FeishuLarkAppDomain, inline_url, env_url, inline_secret, env_secret,
  feishu_domain, lark_domain,
}

abbrev pub present_trimmed : String → Option String
present_trimmed value = let trimmed = trim value in if trimmed == "" then none else some trimmed

abbrev pub present_trimmed_owned : Option String → Option String
present_trimmed_owned none = none
present_trimmed_owned (some value) = present_trimmed value

-- `is_present`, and `present_exact_owned` is `present`
abbrev pub is_present : Option String → Bool
is_present value = is_some (present value)

-- The two sources of a secret, of which one, or at most one, is set
abbrev pub one_source : Option String → Option String → ConfigError → Checked SecretSource
one_source (some value) none problem = accepted (inline_secret value)
one_source none (some env_name) problem = accepted (env_secret env_name)
one_source none none problem = refused problem
one_source (some value) (some env_name) problem = refused problem

abbrev pub at_most_one_source :
    Option String → Option String → ConfigError → Checked (Option SecretSource)
at_most_one_source (some value) none problem = accepted (some (inline_secret value))
at_most_one_source none (some env_name) problem = accepted (some (env_secret env_name))
at_most_one_source none none problem = accepted none
at_most_one_source (some value) (some env_name) problem = refused problem

abbrev pub required_exact_secret_source :
    Option String → Option String → ConfigError → Checked SecretSource
required_exact_secret_source value env_name problem =
    one_source (present value) (present env_name) problem

abbrev pub optional_exact_secret_source :
    Option String → Option String → ConfigError → Checked (Option SecretSource)
optional_exact_secret_source value env_name problem =
    at_most_one_source (present value) (present env_name) problem

abbrev pub optional_trimmed_secret_source :
    Option String → Option String → ConfigError → Checked (Option SecretSource)
optional_trimmed_secret_source value env_name problem =
    at_most_one_source (present_trimmed_owned value) (present_trimmed_owned env_name) problem

abbrev pub checked_url : String → UrlResult String → Checked UrlSource
checked_url id (valid_url url) = accepted (inline_url url)
checked_url id (invalid_url message) = refused (invalid_provider_url id "url" message)

-- The URL that is given, or else the variable, whose presence `expect`s
abbrev pub url_or_env :
    String → (String → UrlResult String) → Option String → Option String → Checked UrlSource
url_or_env id validate (some raw_url) env_name = checked_url id (validate raw_url)
url_or_env id validate none (some env_name) = accepted (env_url env_name)
url_or_env id validate none none = refused panicked

abbrev pub same_bool : Bool → Bool → Bool
same_bool a b = if a then b else not b

abbrev pub domain_of : String → String → Checked FeishuLarkAppDomain
domain_of id domain =
    if domain == "feishu"
    then accepted feishu_domain
    else if domain == "lark"
    then accepted lark_domain
    else refused (invalid_feishu_lark_app_bot_domain id domain)

pub data FeishuLarkRawProviderMode : Type 0 where
  custom_bot_mode app_bot_mode : FeishuLarkRawProviderMode

abbrev pub mode_of : String → Bool → Option String → Checked FeishuLarkRawProviderMode
mode_of id has_app_fields none =
    if has_app_fields
    then refused (missing_feishu_lark_app_bot_mode id)
    else accepted custom_bot_mode
mode_of id has_app_fields (some mode) =
    if mode == "custom_bot"
    then accepted custom_bot_mode
    else if mode == "app_bot"
    then accepted app_bot_mode
    else refused (invalid_feishu_lark_mode id mode)

-- `filter(|recipients| !recipients.is_empty())`
abbrev pub recipients : Option (List String) → Option (List String)
recipients none = none
recipients (some []) = none
recipients (some (r ∷ rs)) = some (r ∷ rs)
