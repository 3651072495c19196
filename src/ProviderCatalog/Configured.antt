-- ===== src/ProviderCatalog/Configured.antt =====
-- src/provider_catalog.rs: the mode of a provider that is configured.
use agents_router.Prelude.{String, ◌≡◌, refl, Bool, true, false, some, find, any}
use agents_router.ProviderCatalog.{
  ProviderMode, ProviderModeCapability, ntfy_topic, webhook, feishu_lark_custom_bot,
  feishu_lark_app_bot, pushover_messages_api, slack_incoming_webhook, discord_webhook,
  telegram_bot_api, whatsapp_cloud_api, wechat_ilink, microsoft_teams_workflow_webhook, email_smtp,
  ProviderMode-discrete,
}
use agents_router.Config.Providers.{
  ProviderConfig, ProviderConfigDetail, ntfy_detail, webhook_detail, feishu_lark_detail,
  pushover_detail, slack_detail, discord_detail, telegram_detail, whatsapp_detail, wechat_detail,
  microsoft_teams_detail, email_smtp_detail, custom_bot, app_bot, detail_provider_type,
}
use agents_router.ProviderCatalog.Descriptors.{provider_mode_capability}
use agents_router.ProviderInbound.Claim.{provider_mode_accepts_local_surface_replies}

abbrev mode_of_detail : ProviderConfigDetail → ProviderMode
mode_of_detail (ntfy_detail d) = ntfy_topic
mode_of_detail (webhook_detail d) = webhook
mode_of_detail (feishu_lark_detail (custom_bot d)) = feishu_lark_custom_bot
mode_of_detail (feishu_lark_detail (app_bot d)) = feishu_lark_app_bot
mode_of_detail (pushover_detail d) = pushover_messages_api
mode_of_detail (slack_detail d) = slack_incoming_webhook
mode_of_detail (discord_detail d) = discord_webhook
mode_of_detail (telegram_detail d) = telegram_bot_api
mode_of_detail (whatsapp_detail d) = whatsapp_cloud_api
mode_of_detail (wechat_detail d) = wechat_ilink
mode_of_detail (microsoft_teams_detail d) = microsoft_teams_workflow_webhook
mode_of_detail (email_smtp_detail d) = email_smtp

unfoldable pub provider_config_mode : ProviderConfig → ProviderMode
provider_config_mode provider = mode_of_detail provider.detail

abbrev pub is_app_bot : ProviderConfigDetail → Bool
is_app_bot (feishu_lark_detail (app_bot d)) = true
is_app_bot detail = false

-- The entry of the catalog for a provider that is configured
pub record IsCataloged (provider : ProviderConfig) (c : ProviderModeCapability) : Type 0 where
  pub found : provider_mode_capability (provider_config_mode provider) ≡ some c
  pub of_its_mode : c.mode ≡ provider_config_mode provider
  pub of_its_type : c.provider_type ≡ detail_provider_type provider.detail
  pub replies : provider_mode_accepts_local_surface_replies c ≡ is_app_bot provider.detail

detail-IsCataloged :
    (id : String) (detail : ProviderConfigDetail)
    → (c : ProviderModeCapability) × IsCataloged (record { id = id; detail = detail }) c
unfolding provider_mode_capability provider_config_mode detail_provider_type find any
    provider_mode_accepts_local_surface_replies ProviderMode-discrete
detail-IsCataloged id (ntfy_detail d) =
    (_, record { found = refl; of_its_mode = refl; of_its_type = refl; replies = refl })
detail-IsCataloged id (feishu_lark_detail (custom_bot d)) =
    (_, record { found = refl; of_its_mode = refl; of_its_type = refl; replies = refl })
detail-IsCataloged id detail =
    (_, record { found = refl; of_its_mode = refl; of_its_type = refl; replies = refl })

-- Each provider that can be configured has its mode in the catalog, with the type of the provider, so
-- that the lookup does not panic; and it accepts replies exactly if it is an app bot of Feishu or
-- Lark.
pub configured_mode-IsCataloged :
    (provider : ProviderConfig) → (c : ProviderModeCapability) × IsCataloged provider c
configured_mode-IsCataloged provider = detail-IsCataloged provider.id provider.detail
