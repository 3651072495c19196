-- ===== src/ResponseSurface/Records.antt =====
-- src/response_surface_ledger.rs: the records of the ledger, and the arguments and answers of its
-- operations.
use agents_router.Prelude.{ℕ, String, Bool, true, false, Option, List, []}
use agents_router.ProviderCatalog.{ProviderMode}

abbrev pub ledger_schema_version : ℕ
ledger_schema_version = 1

pub data ResponseSurfaceStatus : Type 0 where
  open_status closed_status expired_status : ResponseSurfaceStatus

pub record ResponseSurfaceRecord : Type 0 where
  pub surface_id : String
  pub signal_id : String
  pub delivery_id : String
  pub source_id : String
  pub source_type : String
  pub source_session_id : String
  pub source_turn_id : Option String
  pub provider_id : String
  pub provider_type : String
  pub provider_mode : ProviderMode
  pub provider_account_id : String
  pub provider_conversation_id : String
  pub provider_message_id : String
  pub provider_thread_id : String
  pub route_binding_hash : Option String
  pub status : ResponseSurfaceStatus
  pub created_at : ℕ

pub record NewResponseSurface : Type 0 where
  pub signal_id : String
  pub delivery_id : String
  pub source_id : String
  pub source_type : String
  pub source_session_id : String
  pub source_turn_id : Option String
  pub provider_id : String
  pub provider_type : String
  pub provider_mode : ProviderMode
  pub provider_account_id : String
  pub provider_conversation_id : String
  pub provider_message_id : String
  pub provider_thread_id : String
  pub route_binding_hash : Option String

pub record ResponseSurfaceLookupQuery : Type 0 where
  pub provider_id : String
  pub provider_account_id : String
  pub provider_conversation_id : String
  pub provider_thread_id : String

pub record ResponseSurfaceLookupRecord : Type 0 where
  pub surface_id : String
  pub signal_id : String
  pub delivery_id : String
  pub source_id : String
  pub source_type : String
  pub source_session_id : String
  pub source_turn_id : Option String
  pub provider_id : String
  pub provider_type : String
  pub provider_mode : ProviderMode
  pub provider_account_id : String
  pub provider_conversation_id : String
  pub provider_message_id : String
  pub provider_thread_id : String
  pub route_binding_hash : Option String
  pub status : ResponseSurfaceStatus

pub data ResponseSurfaceLookupResult : Type 0 where
  hit : ResponseSurfaceLookupRecord → ResponseSurfaceLookupResult
  miss : ResponseSurfaceLookupResult
  closed : String → ResponseSurfaceLookupResult

pub data InboundEventDedupStatus : Type 0 where
  claimed_before_submit submitted_possible : InboundEventDedupStatus
  processed failed_notified submitted_unknown_notified : InboundEventDedupStatus

pub record InboundEventDedupInput : Type 0 where
  pub provider_id : String
  pub provider_type : String
  pub provider_account_id : String
  pub provider_conversation_id : String
  pub provider_event_id : String
  pub surface_id : String

pub record InboundEventDedupRecord : Type 0 where
  pub provider_id : String
  pub provider_type : String
  pub provider_event_id_hash : String
  pub surface_id : String
  pub status : InboundEventDedupStatus
  pub received_at : ℕ

-- Of each answer: the hash, the surface and the status that it carries.
pub data InboundEventClaimDecision : Type 0 where
  claimed : String → InboundEventClaimDecision
  already_processing : String → String → InboundEventDedupStatus → InboundEventClaimDecision
  duplicate_processed : String → String → InboundEventDedupStatus → InboundEventClaimDecision

pub data InboundEventRecordDecision : Type 0 where
  recorded : String → InboundEventDedupStatus → InboundEventRecordDecision
  duplicate : String → String → InboundEventDedupStatus → InboundEventRecordDecision

pub record InboundEventDiagnosticRecord : Type 0 where
  pub provider_id : String
  pub provider_type : String
  pub provider_event_id_hash : String
  pub surface_id : String
  pub status : InboundEventDedupStatus
  pub received_at : ℕ

pub record UnfinishedInboundEventRecoveryRecord : Type 0 where
  pub provider_id : String
  pub provider_type : String
  pub provider_event_id_hash : String
  pub surface_id : String
  pub status : InboundEventDedupStatus
  pub received_at : ℕ
  pub provider_account_id : String
  pub provider_conversation_id : String
  pub provider_thread_id : String

pub record ResponseSurfaceContinuationTurnRecord : Type 0 where
  pub surface_id : String
  pub source_session_id : String
  pub source_turn_id : String
  pub recorded_at : ℕ

pub record ResponseSurfaceContinuationTurnInput : Type 0 where
  pub surface_id : String
  pub source_session_id : String
  pub source_turn_id : String

pub record ResponseSurfaceContinuationTurnKey : Type 0 where
  pub source_session_id : String
  pub source_turn_id : String

pub record ResponseSurfaceLedgerFile : Type 0 where
  pub schema_version : ℕ
  pub surfaces : List ResponseSurfaceRecord
  pub inbound_events : List InboundEventDedupRecord
  pub continuation_turns : List ResponseSurfaceContinuationTurnRecord

abbrev pub default_file : ResponseSurfaceLedgerFile
default_file = record {
  schema_version = ledger_schema_version;
  surfaces = [];
  inbound_events = [];
  continuation_turns = [];
}

unfoldable pub is_processing : InboundEventDedupStatus → Bool
is_processing claimed_before_submit = true
is_processing submitted_possible = true
is_processing processed = false
is_processing failed_notified = false
is_processing submitted_unknown_notified = false

unfoldable pub is_terminal : InboundEventDedupStatus → Bool
is_terminal claimed_before_submit = false
is_terminal submitted_possible = false
is_terminal processed = true
is_terminal failed_notified = true
is_terminal submitted_unknown_notified = true
