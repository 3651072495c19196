-- ===== src/ProviderCatalog/Modes.antt =====
-- src/provider_catalog.rs: what each mode of a provider can do.
use agents_router.Prelude.{false, none, some, List, [], ◌∷◌}
use agents_router.Config.{
  ntfy, webhook_provider, feishu_lark, pushover, slack, discord, telegram, whatsapp, wechat,
  microsoft_teams, email,
}
use agents_router.ProviderCatalog.{
  ntfy_topic, webhook, feishu_lark_custom_bot, feishu_lark_app_bot, pushover_messages_api,
  slack_incoming_webhook, slack_app, discord_webhook, telegram_bot_api, whatsapp_cloud_api,
  wechat_ilink, microsoft_teams_workflow_webhook, email_smtp, no_reply, local_connection,
  socket_mode, long_connection, available, unavailable, ProviderReplySurface, thread_root_reply,
  DeliveryReceiptField, InboundReplyCapability, DeliveryReceiptCapability, ProviderModeCapability,
  response_surface_delivery_receipt_fields,
}

abbrev pub no_reply_surfaces : List ProviderReplySurface
no_reply_surfaces = []

abbrev pub thread_root_reply_surfaces : List ProviderReplySurface
thread_root_reply_surfaces = thread_root_reply ∷ []

abbrev pub no_delivery_receipt_fields : List DeliveryReceiptField
no_delivery_receipt_fields = []

abbrev pub outbound_only_inbound_reply : InboundReplyCapability
outbound_only_inbound_reply = record {
  mode = no_reply;
  local_connection_kind = none;
  requires_public_endpoint = false;
  stable_event_id = unavailable;
  reply_surfaces = no_reply_surfaces;
}

abbrev pub slack_socket_mode_inbound_reply : InboundReplyCapability
slack_socket_mode_inbound_reply = record {
  mode = local_connection;
  local_connection_kind = some socket_mode;
  requires_public_endpoint = false;
  stable_event_id = available;
  reply_surfaces = thread_root_reply_surfaces;
}

abbrev pub feishu_lark_long_connection_inbound_reply : InboundReplyCapability
feishu_lark_long_connection_inbound_reply = record {
  mode = local_connection;
  local_connection_kind = some long_connection;
  requires_public_endpoint = false;
  stable_event_id = available;
  reply_surfaces = thread_root_reply_surfaces;
}

abbrev pub no_delivery_receipt_capability : DeliveryReceiptCapability
no_delivery_receipt_capability = record { fields = no_delivery_receipt_fields }

abbrev pub response_surface_delivery_receipt_capability : DeliveryReceiptCapability
response_surface_delivery_receipt_capability = record {
  fields = response_surface_delivery_receipt_fields;
}

abbrev pub ntfy_provider_modes : List ProviderModeCapability
ntfy_provider_modes =
    (record {
      provider_type = ntfy;
      mode = ntfy_topic;
      display_name = "ntfy topic";
      inbound_reply = outbound_only_inbound_reply;
      delivery_receipt = no_delivery_receipt_capability;
    })
    ∷ []

abbrev pub webhook_provider_modes : List ProviderModeCapability
webhook_provider_modes =
    (record {
      provider_type = webhook_provider;
      mode = webhook;
      display_name = "Webhook";
      inbound_reply = outbound_only_inbound_reply;
      delivery_receipt = no_delivery_receipt_capability;
    })
    ∷ []

abbrev pub feishu_lark_provider_modes : List ProviderModeCapability
feishu_lark_provider_modes =
    (record {
      provider_type = feishu_lark;
      mode = feishu_lark_custom_bot;
      display_name = "Feishu/Lark custom bot";
      inbound_reply = outbound_only_inbound_reply;
      delivery_receipt = no_delivery_receipt_capability;
    })
    ∷ (record {
      provider_type = feishu_lark;
      mode = feishu_lark_app_bot;
      display_name = "Feishu/Lark Personal Agent";
      inbound_reply = feishu_lark_long_connection_inbound_reply;
      delivery_receipt = response_surface_delivery_receipt_capability;
    })
    ∷ []

abbrev pub pushover_provider_modes : List ProviderModeCapability
pushover_provider_modes =
    (record {
      provider_type = pushover;
      mode = pushover_messages_api;
      display_name = "Pushover Messages API";
      inbound_reply = outbound_only_inbound_reply;
      delivery_receipt = no_delivery_receipt_capability;
    })
    ∷ []

abbrev pub slack_provider_modes : List ProviderModeCapability
slack_provider_modes =
    (record {
      provider_type = slack;
      mode = slack_incoming_webhook;
      display_name = "Slack incoming webhook";
      inbound_reply = outbound_only_inbound_reply;
      delivery_receipt = no_delivery_receipt_capability;
    })
    ∷ (record {
      provider_type = slack;
      mode = slack_app;
      display_name = "Slack app";
      inbound_reply = slack_socket_mode_inbound_reply;
      delivery_receipt = response_surface_delivery_receipt_capability;
    })
    ∷ []

abbrev pub discord_provider_modes : List ProviderModeCapability
discord_provider_modes =
    (record {
      provider_type = discord;
      mode = discord_webhook;
      display_name = "Discord webhook";
      inbound_reply = outbound_only_inbound_reply;
      delivery_receipt = no_delivery_receipt_capability;
    })
    ∷ []

abbrev pub telegram_provider_modes : List ProviderModeCapability
telegram_provider_modes =
    (record {
      provider_type = telegram;
      mode = telegram_bot_api;
      display_name = "Telegram Bot API";
      inbound_reply = outbound_only_inbound_reply;
      delivery_receipt = no_delivery_receipt_capability;
    })
    ∷ []

abbrev pub whatsapp_provider_modes : List ProviderModeCapability
whatsapp_provider_modes =
    (record {
      provider_type = whatsapp;
      mode = whatsapp_cloud_api;
      display_name = "WhatsApp Cloud API";
      inbound_reply = outbound_only_inbound_reply;
      delivery_receipt = no_delivery_receipt_capability;
    })
    ∷ []

abbrev pub wechat_provider_modes : List ProviderModeCapability
wechat_provider_modes =
    (record {
      provider_type = wechat;
      mode = wechat_ilink;
      display_name = "WeChat iLink";
      inbound_reply = outbound_only_inbound_reply;
      delivery_receipt = no_delivery_receipt_capability;
    })
    ∷ []

abbrev pub microsoft_teams_provider_modes : List ProviderModeCapability
microsoft_teams_provider_modes =
    (record {
      provider_type = microsoft_teams;
      mode = microsoft_teams_workflow_webhook;
      display_name = "Microsoft Teams workflow webhook";
      inbound_reply = outbound_only_inbound_reply;
      delivery_receipt = no_delivery_receipt_capability;
    })
    ∷ []

abbrev pub email_smtp_provider_modes : List ProviderModeCapability
email_smtp_provider_modes =
    (record {
      provider_type = email;
      mode = email_smtp;
      display_name = "Email SMTP";
      inbound_reply = outbound_only_inbound_reply;
      delivery_receipt = no_delivery_receipt_capability;
    })
    ∷ []
