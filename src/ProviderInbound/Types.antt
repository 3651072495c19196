-- ===== src/ProviderInbound/Types.antt =====
-- src/provider_inbound.rs: the normalized replies and commands, and the reasons to skip a message.
use agents_router.Prelude.{String, Bool, true, false, Option}
use agents_router.ProviderCatalog.{ProviderMode}
use agents_router.ResponseSurface.Records.{ResponseSurfaceLookupRecord}

pub record NormalizedProviderSurfaceReply : Type 0 where
  pub provider_id : String
  pub provider_type : String
  pub provider_mode : ProviderMode
  pub provider_account_id : String
  pub provider_conversation_id : String
  pub provider_thread_id : String
  pub provider_event_id : String
  pub provider_reply_message_id : Option String
  pub reply_text : String

pub data ProviderInboundSkipReason : Type 0 where
  unsupported_provider_mode : ProviderMode → ProviderInboundSkipReason
  unsupported_envelope_type unsupported_event_type : ProviderInboundSkipReason
  ignored_message_subtype non_user_message not_addressed_to_bot : ProviderInboundSkipReason
  not_surface_reply unsupported_message_type empty_reply_text : ProviderInboundSkipReason
  surface_lookup_miss : ProviderInboundSkipReason
  surface_closed duplicate_event event_already_processing : String → ProviderInboundSkipReason

pub data ProviderInboundNormalizeResult : Type 0 where
  surface_reply : NormalizedProviderSurfaceReply → ProviderInboundNormalizeResult
  skip : ProviderInboundSkipReason → ProviderInboundNormalizeResult

pub record ProviderInboundReady : Type 0 where
  pub reply : NormalizedProviderSurfaceReply
  pub surface : ResponseSurfaceLookupRecord
  pub provider_event_id_hash : String

pub data ProviderInboundDecision : Type 0 where
  ready : ProviderInboundReady → ProviderInboundDecision
  skipped : ProviderInboundSkipReason → ProviderInboundDecision

pub data ProviderControlCommand : Type 0 where
  bind_project direct_project_room_prompt : String → ProviderControlCommand
  direct_chat_guidance direct_help direct_status : ProviderControlCommand
  direct_unbind_project_guidance : ProviderControlCommand
  direct_new_session new_session : Option String → String → ProviderControlCommand
  help room_guidance status : ProviderControlCommand
  unbind_project : Option String → ProviderControlCommand
  invalid : String → ProviderControlCommand

unfoldable pub requires_project_room : ProviderControlCommand → Bool
requires_project_room (bind_project p) = true
requires_project_room (direct_project_room_prompt p) = false
requires_project_room direct_chat_guidance = false
requires_project_room direct_help = false
requires_project_room direct_status = false
requires_project_room direct_unbind_project_guidance = false
requires_project_room (direct_new_session p q) = false
requires_project_room (new_session p q) = true
requires_project_room help = false
requires_project_room room_guidance = false
requires_project_room status = true
requires_project_room (unbind_project p) = true
requires_project_room (invalid m) = false

unfoldable pub requires_room_root : ProviderControlCommand → Bool
requires_room_root (bind_project p) = true
requires_room_root (direct_project_room_prompt p) = true
requires_room_root direct_chat_guidance = false
requires_room_root direct_help = false
requires_room_root direct_status = false
requires_room_root direct_unbind_project_guidance = true
requires_room_root (direct_new_session p q) = true
requires_room_root (new_session p q) = true
requires_room_root help = false
requires_room_root room_guidance = false
requires_room_root status = false
requires_room_root (unbind_project p) = true
requires_room_root (invalid m) = false

pub record NormalizedProviderControlCommand : Type 0 where
  pub provider_id : String
  pub provider_type : String
  pub provider_mode : ProviderMode
  pub provider_account_id : String
  pub provider_conversation_id : String
  pub provider_thread_id : String
  pub provider_event_id : String
  pub command : ProviderControlCommand

pub data ProviderRoomEvent : Type 0 where
  bot_added_to_chat : ProviderRoomEvent

pub record NormalizedProviderRoomEvent : Type 0 where
  pub provider_id : String
  pub provider_type : String
  pub provider_mode : ProviderMode
  pub provider_account_id : String
  pub provider_conversation_id : String
  pub provider_event_id : String
  pub event : ProviderRoomEvent

pub data ProviderProjectRoomAction : Type 0 where
  create_project_room use_existing_room ignore_project : ProviderProjectRoomAction

pub record NormalizedProviderProjectRoomAction : Type 0 where
  pub provider_id : String
  pub provider_type : String
  pub provider_mode : ProviderMode
  pub provider_account_id : String
  pub provider_conversation_id : String
  pub provider_event_id : String
  pub proposal_id : String
  pub operator_open_id : Option String
  pub action : ProviderProjectRoomAction

pub data ProviderControlSkipReason : Type 0 where
  unsupported_envelope_type unsupported_event_type : ProviderControlSkipReason
  non_user_message not_addressed_to_bot unsupported_message_type : ProviderControlSkipReason
  empty_message_text not_control_command : ProviderControlSkipReason

pub data ProviderControlNormalizeResult : Type 0 where
  control_command : NormalizedProviderControlCommand → ProviderControlNormalizeResult
  room_event : NormalizedProviderRoomEvent → ProviderControlNormalizeResult
  project_room_action : NormalizedProviderProjectRoomAction → ProviderControlNormalizeResult
  skip : ProviderControlSkipReason → ProviderControlNormalizeResult
