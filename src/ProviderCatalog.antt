-- ===== src/ProviderCatalog.antt =====
-- src/provider_catalog.rs: the modes in which a provider is configured, and what each can do. The
-- tests of equality compare names.
pub mod Modes
pub mod Constraints
pub mod Descriptors
pub mod Configured
mod Tests
use agents_router.Prelude.{String, Bool, true, false, Option, List, [], ◌∷◌, any, ◌==◌}
use agents_router.Config.{ProviderType}

pub data ProviderMode : Type 0 where
  ntfy_topic webhook feishu_lark_custom_bot feishu_lark_app_bot pushover_messages_api : ProviderMode
  slack_incoming_webhook slack_app discord_webhook telegram_bot_api whatsapp_cloud_api :
      ProviderMode
  wechat_ilink microsoft_teams_workflow_webhook email_smtp : ProviderMode

unfoldable pub ProviderMode-discrete : Discrete ProviderMode
ProviderMode-discrete = hlevel

pub data InboundReplyMode : Type 0 where
  no_reply local_connection public_webhook_only : InboundReplyMode

pub data LocalConnectionKind : Type 0 where
  socket_mode websocket long_connection : LocalConnectionKind

pub data StableEventIdCapability : Type 0 where
  available unavailable : StableEventIdCapability

pub data ProviderReplySurface : Type 0 where
  thread_root_reply message_reply : ProviderReplySurface

pub data DeliveryReceiptField : Type 0 where
  provider_account_id_field provider_conversation_id_field : DeliveryReceiptField
  provider_message_id_field provider_thread_id_field : DeliveryReceiptField

pub record InboundReplyCapability : Type 0 where
  pub mode : InboundReplyMode
  pub local_connection_kind : Option LocalConnectionKind
  pub requires_public_endpoint : Bool
  pub stable_event_id : StableEventIdCapability
  pub reply_surfaces : List ProviderReplySurface

pub record DeliveryReceiptCapability : Type 0 where
  pub fields : List DeliveryReceiptField

pub record ProviderModeCapability : Type 0 where
  pub provider_type : ProviderType
  pub mode : ProviderMode
  pub display_name : String
  pub inbound_reply : InboundReplyCapability
  pub delivery_receipt : DeliveryReceiptCapability

abbrev field_name : DeliveryReceiptField → String
field_name provider_account_id_field = "provider_account_id"
field_name provider_conversation_id_field = "provider_conversation_id"
field_name provider_message_id_field = "provider_message_id"
field_name provider_thread_id_field = "provider_thread_id"

abbrev surface_name : ProviderReplySurface → String
surface_name thread_root_reply = "thread_root_reply"
surface_name message_reply = "message_reply"

abbrev pub response_surface_reply_surfaces : List ProviderReplySurface
response_surface_reply_surfaces = thread_root_reply ∷ message_reply ∷ []

abbrev pub response_surface_delivery_receipt_fields : List DeliveryReceiptField
response_surface_delivery_receipt_fields =
    provider_account_id_field ∷ provider_conversation_id_field ∷ provider_message_id_field
    ∷ provider_thread_id_field ∷ []

abbrev pub contains_surface : List ProviderReplySurface → ProviderReplySurface → Bool
contains_surface ss s = any (λ t. surface_name t == surface_name s) ss

-- `DeliveryReceiptCapability::has_field`
abbrev pub capability_has_field : DeliveryReceiptCapability → DeliveryReceiptField → Bool
capability_has_field c f = any (λ g. field_name g == field_name f) c.fields

-- `== InboundReplyMode::LocalConnection` and `== StableEventIdCapability::Available`
abbrev pub is_local : InboundReplyMode → Bool
is_local no_reply = false
is_local local_connection = true
is_local public_webhook_only = false

abbrev pub is_available : StableEventIdCapability → Bool
is_available available = true
is_available unavailable = false
