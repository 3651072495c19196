-- ===== src/Config/RawProviders.antt =====
-- src/config.rs: the validation of a provider, over the parser of URLs.
use agents_router.Prelude.{String, Bool, not, Option, is_some, [], ◌∷◌, any}
use agents_router.Prelude.Text.{present}
use agents_router.Config.{
  ProviderType, ntfy, webhook_provider, feishu_lark, pushover, slack, discord, telegram, whatsapp,
  wechat, microsoft_teams, email,
}
use agents_router.Config.Checked.{
  ConfigError, Checked, ◌>>=◌, ◌>>◌, required, refuse_if, missing_provider_field,
  invalid_webhook_url_source, invalid_feishu_lark_url_source, invalid_feishu_lark_secret_source,
  invalid_feishu_lark_app_bot_webhook_fields, invalid_feishu_lark_custom_bot_app_fields,
  invalid_feishu_lark_app_secret_source, invalid_pushover_app_token_source,
  invalid_pushover_user_key_source, invalid_slack_url_source, invalid_discord_url_source,
  invalid_telegram_bot_token_source, invalid_whatsapp_access_token_source,
  invalid_wechat_token_source, invalid_wechat_context_token_source,
  invalid_microsoft_teams_url_source, invalid_email_smtp_username_source,
  invalid_email_smtp_password_source, invalid_email_smtp_credentials, accepted,
}
use agents_router.ProviderUrls.{
  UrlParser, UrlResult, validate_custom_webhook_url, validate_feishu_lark_webhook_url,
  validate_slack_webhook_url, validate_discord_webhook_url, validate_microsoft_teams_webhook_url,
}
use agents_router.Config.Providers.{
  RawProviderConfig, UrlSource, FeishuLarkProviderConfig, ProviderConfigDetail, ProviderConfig,
  custom_bot, app_bot, ntfy_detail, webhook_detail, feishu_lark_detail, pushover_detail,
  slack_detail, discord_detail, telegram_detail, whatsapp_detail, wechat_detail,
  microsoft_teams_detail, email_smtp_detail,
}
use agents_router.Config.RawFields.{
  present_trimmed_owned, is_present, required_exact_secret_source, optional_exact_secret_source,
  optional_trimmed_secret_source, url_or_env, same_bool, domain_of, FeishuLarkRawProviderMode,
  mode_of, recipients, custom_bot_mode, app_bot_mode,
}

module _ (parse : UrlParser) (p : RawProviderConfig) where
  unfoldable pub required_url_source : ConfigError → (String → UrlResult String) → Checked UrlSource
  required_url_source problem validate = do
    refuse_if (same_bool (is_present p.url) (is_present p.url_env)) problem
    url_or_env p.id validate (present p.url) (present p.url_env)

  abbrev pub required_exact_string : String → Option String → Checked String
  required_exact_string field value = required (missing_provider_field p.id field) (present value)

  abbrev pub required_trimmed_string : String → Option String → Checked String
  required_trimmed_string field value =
      required (missing_provider_field p.id field) (present_trimmed_owned value)

  abbrev pub has_feishu_lark_app_bot_fields : Bool
  has_feishu_lark_app_bot_fields = any is_present (
      p.domain ∷ p.app_id ∷ p.app_secret ∷ p.app_secret_env ∷ p.app_registration_source
      ∷ p.operator_open_id ∷ p.tenant_key ∷ p.chat_id ∷ [])

  abbrev pub has_feishu_lark_custom_bot_fields : Bool
  has_feishu_lark_custom_bot_fields =
      any is_present (p.url ∷ p.url_env ∷ p.secret ∷ p.secret_env ∷ [])

  unfoldable pub feishu_lark_provider_mode : Checked FeishuLarkRawProviderMode
  feishu_lark_provider_mode =
      mode_of p.id has_feishu_lark_app_bot_fields (present_trimmed_owned p.mode)

  unfoldable pub validated_custom_bot : Checked FeishuLarkProviderConfig
  unfolding required_url_source
  validated_custom_bot = do
    refuse_if has_feishu_lark_app_bot_fields (invalid_feishu_lark_custom_bot_app_fields p.id)
    url ←
        required_url_source (invalid_feishu_lark_url_source p.id)
          (validate_feishu_lark_webhook_url parse)
    secret ←
        optional_exact_secret_source p.secret p.secret_env (invalid_feishu_lark_secret_source p.id)
    accepted (custom_bot (record { url = url; secret = secret }))

  unfoldable pub validated_app_bot : Checked FeishuLarkProviderConfig
  validated_app_bot = do
    refuse_if has_feishu_lark_custom_bot_fields (invalid_feishu_lark_app_bot_webhook_fields p.id)
    domain_name ← required_exact_string "domain" p.domain
    domain ← domain_of p.id domain_name
    app_id ← required_exact_string "app_id" p.app_id
    app_secret ←
        required_exact_secret_source p.app_secret p.app_secret_env
          (invalid_feishu_lark_app_secret_source p.id)
    accepted (
        app_bot (record {
          domain = domain;
          app_id = app_id;
          app_secret = app_secret;
          app_registration_source = present p.app_registration_source;
          operator_open_id = present p.operator_open_id;
          tenant_key = present p.tenant_key;
          chat_id = present p.chat_id;
        }))

  abbrev pub of_mode : FeishuLarkRawProviderMode → Checked FeishuLarkProviderConfig
  of_mode custom_bot_mode = validated_custom_bot
  of_mode app_bot_mode = validated_app_bot

  unfoldable pub to_validated_feishu_lark_provider_config : Checked FeishuLarkProviderConfig
  unfolding feishu_lark_provider_mode
  to_validated_feishu_lark_provider_config = feishu_lark_provider_mode >>= of_mode

  unfoldable pub validated_ntfy : Checked ProviderConfigDetail
  validated_ntfy = do
    server ← required_exact_string "server" p.server
    topic ← required_exact_string "topic" p.topic
    accepted (ntfy_detail (record { server = server; topic = topic }))

  unfoldable pub validated_webhook : Checked ProviderConfigDetail
  unfolding required_url_source
  validated_webhook = do
    url ← required_url_source (invalid_webhook_url_source p.id) (validate_custom_webhook_url parse)
    accepted (webhook_detail (record { url = url }))

  unfoldable pub validated_feishu_lark : Checked ProviderConfigDetail
  unfolding to_validated_feishu_lark_provider_config
  validated_feishu_lark = do
    detail ← to_validated_feishu_lark_provider_config
    accepted (feishu_lark_detail detail)

  unfoldable pub validated_pushover : Checked ProviderConfigDetail
  validated_pushover = do
    app_token ←
        required_exact_secret_source p.app_token p.app_token_env
          (invalid_pushover_app_token_source p.id)
    user_key ←
        required_exact_secret_source p.user_key p.user_key_env
          (invalid_pushover_user_key_source p.id)
    accepted (
        pushover_detail (record {
          app_token = app_token;
          user_key = user_key;
          device = present p.device;
          sound = present p.sound;
        }))

  unfoldable pub validated_slack : Checked ProviderConfigDetail
  unfolding required_url_source
  validated_slack = do
    url ← required_url_source (invalid_slack_url_source p.id) (validate_slack_webhook_url parse)
    accepted (slack_detail (record { url = url }))

  unfoldable pub validated_discord : Checked ProviderConfigDetail
  unfolding required_url_source
  validated_discord = do
    url ← required_url_source (invalid_discord_url_source p.id) (validate_discord_webhook_url parse)
    accepted (discord_detail (record { url = url }))

  unfoldable pub validated_telegram : Checked ProviderConfigDetail
  validated_telegram = do
    bot_token ←
        required_exact_secret_source p.bot_token p.bot_token_env
          (invalid_telegram_bot_token_source p.id)
    chat_id ← required_exact_string "chat_id" p.chat_id
    accepted (telegram_detail (record { bot_token = bot_token; chat_id = chat_id }))

  unfoldable pub validated_whatsapp : Checked ProviderConfigDetail
  validated_whatsapp = do
    access_token ←
        required_exact_secret_source p.access_token p.access_token_env
          (invalid_whatsapp_access_token_source p.id)
    phone_number_id ← required_exact_string "phone_number_id" p.phone_number_id
    recipient ← required_exact_string "recipient_phone_number" p.recipient_phone_number
    accepted (
        whatsapp_detail (record {
          access_token = access_token;
          phone_number_id = phone_number_id;
          recipient_phone_number = recipient;
        }))

  unfoldable pub validated_wechat : Checked ProviderConfigDetail
  validated_wechat = do
    base_url ← required_exact_string "base_url" p.base_url
    token ← required_exact_secret_source p.token p.token_env (invalid_wechat_token_source p.id)
    recipient_user_id ← required_exact_string "recipient_user_id" p.recipient_user_id
    context_token ←
        required_exact_secret_source p.context_token p.context_token_env
          (invalid_wechat_context_token_source p.id)
    accepted (
        wechat_detail (record {
          base_url = base_url;
          token = token;
          recipient_user_id = recipient_user_id;
          context_token = context_token;
          route_tag = present p.route_tag;
        }))

  unfoldable pub validated_microsoft_teams : Checked ProviderConfigDetail
  unfolding required_url_source
  validated_microsoft_teams = do
    url ←
        required_url_source (invalid_microsoft_teams_url_source p.id)
          (validate_microsoft_teams_webhook_url parse)
    accepted (microsoft_teams_detail (record { url = url }))

  unfoldable pub validated_email_smtp : Checked ProviderConfigDetail
  validated_email_smtp = do
    username ←
        optional_trimmed_secret_source p.username p.username_env
          (invalid_email_smtp_username_source p.id)
    password ←
        optional_trimmed_secret_source p.password p.password_env
          (invalid_email_smtp_password_source p.id)
    refuse_if (not (same_bool (is_some username) (is_some password)))
        (invalid_email_smtp_credentials p.id)
    host ← required_trimmed_string "host" p.host
    port ← required (missing_provider_field p.id "port") p.port
    security ← required (missing_provider_field p.id "security") p.security
    sender ← required_trimmed_string "from" p.from
    receivers ← required (missing_provider_field p.id "to") (recipients p.to)
    accepted (
        email_smtp_detail (record {
          host = host;
          port = port;
          security = security;
          username = username;
          password = password;
          from = sender;
          to = receivers;
          reply_to = present_trimmed_owned p.reply_to;
        }))

  -- The `match` on the type of the provider
  unfoldable pub validated_detail : ProviderType → Checked ProviderConfigDetail
  unfolding validated_ntfy validated_webhook validated_feishu_lark validated_pushover
      validated_slack validated_discord validated_telegram validated_whatsapp validated_wechat
      validated_microsoft_teams validated_email_smtp
  validated_detail ntfy = validated_ntfy
  validated_detail webhook_provider = validated_webhook
  validated_detail feishu_lark = validated_feishu_lark
  validated_detail pushover = validated_pushover
  validated_detail slack = validated_slack
  validated_detail discord = validated_discord
  validated_detail telegram = validated_telegram
  validated_detail whatsapp = validated_whatsapp
  validated_detail wechat = validated_wechat
  validated_detail microsoft_teams = validated_microsoft_teams
  validated_detail email = validated_email_smtp

  unfoldable pub to_validated : Checked ProviderConfig
  unfolding validated_detail
  to_validated = do
    detail ← validated_detail p.provider_type
    accepted (record { id = p.id; detail = detail })
