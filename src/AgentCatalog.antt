-- ===== src/AgentCatalog.antt =====
-- src/agent_integration_catalog.rs: the agents whose sessions are followed, and which of them can be
-- continued.
pub mod Descriptors
pub mod Sources
use agents_router.Prelude.{ℕ, String, Option}
use agents_router.Config.{SourceType}

pub data AgentIntegrationId : Type 0 where
  codex_desktop codex_cli claude_code cursor_cli open_code_cli : AgentIntegrationId
  open_claw hermes_agent_cli github_copilot_cli gemini_cli aider : AgentIntegrationId

pub data PlatformSupport : Type 0 where
  all_platforms macos_and_windows : PlatformSupport

pub data DurationSupport : Type 0 where
  duration_supported duration_unsupported : DurationSupport

pub data LocalIntegrationKind : Type 0 where
  no_local_integration codex_cli_stop_hook claude_code_hooks : LocalIntegrationKind

pub record LocalizedSetupText : Type 0 where
  pub english : String
  pub simplified_chinese : String

pub data SetupIntegrationKind : Type 0 where
  codex_desktop_watch setup_codex_cli_stop_hook setup_claude_code_hooks : SetupIntegrationKind
  manual_hook_command : LocalizedSetupText → SetupIntegrationKind

pub data SourceIngestFormat : Type 0 where
  agent_hook_event claude_code_hook codex_cli_stop : SourceIngestFormat
  gemini_cli_hook github_copilot_cli_notification opencode_cli_session : SourceIngestFormat

-- The source id, and the format of `Ingest`
pub data HookCommandTemplate : Type 0 where
  emit : String → HookCommandTemplate
  ingest : String → SourceIngestFormat → HookCommandTemplate

pub record SourceCapability : Type 0 where
  pub display_name : String
  pub canonical_source_id : String
  pub source_type : SourceType
  pub setup_order : ℕ
  pub platform_support : PlatformSupport
  pub duration_support : DurationSupport
  pub ingest_format : Option SourceIngestFormat
  pub hook_command : Option HookCommandTemplate
  pub local_integration : LocalIntegrationKind
  pub setup_integration : SetupIntegrationKind

pub data AgentControllerKind : Type 0 where
  codex_app_server : AgentControllerKind

pub data ContinuationSessionBinding : Type 0 where
  signal_conversation_session_id : ContinuationSessionBinding

pub data ContinuationActiveTurnControl : Type 0 where
  respect_agent_session_turn_lifecycle : ContinuationActiveTurnControl

pub data ContinuationLocalityRequirement : Type 0 where
  local_controller_only : ContinuationLocalityRequirement

pub data ContinuationReleaseStage : Type 0 where
  experimental stable : ContinuationReleaseStage

pub record ContinuationTarget : Type 0 where
  pub controller_kind : AgentControllerKind
  pub session_binding : ContinuationSessionBinding
  pub active_turn_control : ContinuationActiveTurnControl
  pub locality_requirement : ContinuationLocalityRequirement

pub record ContinuationAvailability : Type 0 where
  pub target : ContinuationTarget
  pub release_stage : ContinuationReleaseStage

pub data ContinuationCapability : Type 0 where
  unsupported : ContinuationCapability
  planned : ContinuationTarget → ContinuationCapability
  available : ContinuationAvailability → ContinuationCapability

pub record AgentIntegrationDescriptor : Type 0 where
  pub id : AgentIntegrationId
  pub source_capability : SourceCapability
  pub continuation_capability : ContinuationCapability
