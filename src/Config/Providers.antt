-- ===== src/Config/Providers.antt =====
-- src/config.rs: the providers of a configuration, as they are written and as they are validated.
use agents_router.Prelude.{ℕ, String, Option, List}
use agents_router.Config.{
  ProviderType, ntfy, webhook_provider, feishu_lark, pushover, slack, discord, telegram, whatsapp,
  wechat, microsoft_teams, email,
}

pub data EmailSmtpSecurity : Type 0 where
  starttls implicit_tls : EmailSmtpSecurity

pub record RawProviderConfig : Type 0 where
  pub id : String
  pub provider_type : ProviderType
  pub mode : Option String
  pub base_url : Option String
  pub domain : Option String
  pub server : Option String
  pub topic : Option String
  pub url : Option String
  pub url_env : Option String
  pub secret : Option String
  pub secret_env : Option String
  pub app_id : Option String
  pub app_secret : Option String
  pub app_secret_env : Option String
  pub app_registration_source : Option String
  pub operator_open_id : Option String
  pub tenant_key : Option String
  pub app_token : Option String
  pub app_token_env : Option String
  pub user_key : Option String
  pub user_key_env : Option String
  pub device : Option String
  pub sound : Option String
  pub bot_token : Option String
  pub bot_token_env : Option String
  pub chat_id : Option String
  pub access_token : Option String
  pub access_token_env : Option String
  pub phone_number_id : Option String
  pub recipient_phone_number : Option String
  pub host : Option String
  pub port : Option ℕ
  pub security : Option EmailSmtpSecurity
  pub username : Option String
  pub username_env : Option String
  pub password : Option String
  pub password_env : Option String
  pub from : Option String
  pub to : Option (List String)
  pub reply_to : Option String
  pub token : Option String
  pub token_env : Option String
  pub recipient_user_id : Option String
  pub context_token : Option String
  pub context_token_env : Option String
  pub route_tag : Option String

pub data UrlSource : Type 0 where
  inline_url env_url : String → UrlSource

pub data SecretSource : Type 0 where
  inline_secret env_secret : String → SecretSource

pub record NtfyProviderConfig : Type 0 where
  pub server : String
  pub topic : String

pub record WebhookProviderConfig : Type 0 where
  pub url : UrlSource

pub record FeishuLarkCustomBotProviderConfig : Type 0 where
  pub url : UrlSource
  pub secret : Option SecretSource

pub data FeishuLarkAppDomain : Type 0 where
  feishu_domain lark_domain : FeishuLarkAppDomain

pub record FeishuLarkAppBotProviderConfig : Type 0 where
  pub domain : FeishuLarkAppDomain
  pub app_id : String
  pub app_secret : SecretSource
  pub app_registration_source : Option String
  pub operator_open_id : Option String
  pub tenant_key : Option String
  pub chat_id : Option String

pub data FeishuLarkProviderConfig : Type 0 where
  custom_bot : FeishuLarkCustomBotProviderConfig → FeishuLarkProviderConfig
  app_bot : FeishuLarkAppBotProviderConfig → FeishuLarkProviderConfig

pub record PushoverProviderConfig : Type 0 where
  pub app_token : SecretSource
  pub user_key : SecretSource
  pub device : Option String
  pub sound : Option String

pub record SlackProviderConfig : Type 0 where
  pub url : UrlSource

pub record DiscordProviderConfig : Type 0 where
  pub url : UrlSource

pub record TelegramProviderConfig : Type 0 where
  pub bot_token : SecretSource
  pub chat_id : String

pub record WhatsappProviderConfig : Type 0 where
  pub access_token : SecretSource
  pub phone_number_id : String
  pub recipient_phone_number : String

pub record WechatProviderConfig : Type 0 where
  pub base_url : String
  pub token : SecretSource
  pub recipient_user_id : String
  pub context_token : SecretSource
  pub route_tag : Option String

pub record MicrosoftTeamsProviderConfig : Type 0 where
  pub url : UrlSource

pub record EmailSmtpProviderConfig : Type 0 where
  pub host : String
  pub port : ℕ
  pub security : EmailSmtpSecurity
  pub username : Option SecretSource
  pub password : Option SecretSource
  pub from : String
  pub to : List String
  pub reply_to : Option String

pub data ProviderConfigDetail : Type 0 where
  ntfy_detail : NtfyProviderConfig → ProviderConfigDetail
  webhook_detail : WebhookProviderConfig → ProviderConfigDetail
  feishu_lark_detail : FeishuLarkProviderConfig → ProviderConfigDetail
  pushover_detail : PushoverProviderConfig → ProviderConfigDetail
  slack_detail : SlackProviderConfig → ProviderConfigDetail
  discord_detail : DiscordProviderConfig → ProviderConfigDetail
  telegram_detail : TelegramProviderConfig → ProviderConfigDetail
  whatsapp_detail : WhatsappProviderConfig → ProviderConfigDetail
  wechat_detail : WechatProviderConfig → ProviderConfigDetail
  microsoft_teams_detail : MicrosoftTeamsProviderConfig → ProviderConfigDetail
  email_smtp_detail : EmailSmtpProviderConfig → ProviderConfigDetail

pub record ProviderConfig : Type 0 where
  pub id : String
  pub detail : ProviderConfigDetail

-- `ProviderConfigDetail::provider_type`
unfoldable pub detail_provider_type : ProviderConfigDetail → ProviderType
detail_provider_type (ntfy_detail d) = ntfy
detail_provider_type (webhook_detail d) = webhook_provider
detail_provider_type (feishu_lark_detail d) = feishu_lark
detail_provider_type (pushover_detail d) = pushover
detail_provider_type (slack_detail d) = slack
detail_provider_type (discord_detail d) = discord
detail_provider_type (telegram_detail d) = telegram
detail_provider_type (whatsapp_detail d) = whatsapp
detail_provider_type (wechat_detail d) = wechat
detail_provider_type (microsoft_teams_detail d) = microsoft_teams
detail_provider_type (email_smtp_detail d) = email
