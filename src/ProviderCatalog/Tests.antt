-- ===== src/ProviderCatalog/Tests.antt =====
-- An app bot of Lark.
use agents_router.Prelude.{none}
use agents_router.ProviderCatalog.{ProviderModeCapability}
use agents_router.Config.Providers.{
  ProviderConfig, feishu_lark_detail, app_bot, lark_domain, env_secret,
}
use agents_router.ProviderCatalog.Configured.{IsCataloged, configured_mode-IsCataloged}

abbrev lark_app : ProviderConfig
lark_app = record {
  id = "lark";
  detail = feishu_lark_detail (
      app_bot (record {
        domain = lark_domain;
        app_id = "app";
        app_secret = env_secret "LARK_SECRET";
        app_registration_source = none;
        operator_open_id = none;
        tenant_key = none;
        chat_id = none;
      }));
}

configured_mode-IsCataloged_example : (c : ProviderModeCapability) × IsCataloged lark_app c
configured_mode-IsCataloged_example = configured_mode-IsCataloged lark_app
