-- ===== src/BridgeBinding/Listings.antt =====
-- src/bridge_binding_ledger.rs: the rooms of a provider and of a project, and the thread of a session.
use agents_router.Prelude.{String, Bool, ◌&&◌, Option, List, find_last, filter, ◌==◌}
use agents_router.Prelude.Paths.{starts_with}
use agents_router.Exec.{Result, ok, err}
use agents_router.BridgeBinding.Records.{
  RoomProjectBindingRecord, ThreadSessionBindingRecord, BridgeBindingLedgerFile, validate_present,
  validate_project_path, validate_provider_binding_parts, and_next,
}
use agents_router.BridgeBinding.Rooms.{is_connected}
use agents_router.BridgeBinding.Threads.{project_paths_share_tree}

-- The value of a listing whose arguments are valid
abbrev list_if_valid : {A : Type 0} → Result (Unit {0}) → A → Result A
list_if_valid (ok t) a = ok a
list_if_valid (err e) a = err e

unfoldable connected_room_project_bindings_for_provider :
    String → String → BridgeBindingLedgerFile → Result (List RoomProjectBindingRecord)
connected_room_project_bindings_for_provider provider_id provider_type f =
    list_if_valid
      (and_next (validate_present "provider_id" provider_id)
        (validate_present "provider_type" provider_type))
      (filter
        (λ r.
          r.provider_id == provider_id && r.provider_type == provider_type && is_connected r.status)
        f.room_project_bindings)

unfoldable connected_room_project_bindings_for_provider_account :
    String → String → String → BridgeBindingLedgerFile → Result (List RoomProjectBindingRecord)
connected_room_project_bindings_for_provider_account provider_id provider_type account f =
    list_if_valid
      (and_next (validate_present "provider_id" provider_id) (
        and_next (validate_present "provider_type" provider_type)
          (validate_present "provider_account_id" account)))
      (filter
        (λ r.
          r.provider_id == provider_id
          && r.provider_type == provider_type
          && r.provider_account_id == account
          && is_connected r.status)
        f.room_project_bindings)

unfoldable connected_rooms_for_project :
    String → BridgeBindingLedgerFile → List RoomProjectBindingRecord
connected_rooms_for_project project_path f =
    filter (λ r. r.project_path == project_path && is_connected r.status) f.room_project_bindings

unfoldable connected_rooms_for_project_tree :
    String → BridgeBindingLedgerFile → List RoomProjectBindingRecord
connected_rooms_for_project_tree project_path f =
    filter (λ r. is_connected r.status && starts_with project_path r.project_path)
      f.room_project_bindings

pub record SourceSessionThreadBindingQuery : Type 0 where
  pub provider_id : String
  pub provider_type : String
  pub provider_account_id : String
  pub provider_conversation_id : String
  pub project_path : String
  pub source_id : String
  pub source_type : String
  pub source_session_id : String

unfoldable validate_source_session_thread_binding_query :
    SourceSessionThreadBindingQuery → Result (Unit {0})
validate_source_session_thread_binding_query q =
    and_next
      (validate_provider_binding_parts q.provider_id q.provider_type q.provider_account_id
        q.provider_conversation_id)
      (and_next (validate_project_path q.project_path) (
        and_next (validate_present "source_id" q.source_id) (
          and_next (validate_present "source_type" q.source_type)
            (validate_present "source_session_id" q.source_session_id))))

unfoldable source_session_thread_binding_matches :
    SourceSessionThreadBindingQuery → ThreadSessionBindingRecord → Bool
source_session_thread_binding_matches q r =
    r.provider_id == q.provider_id
    && r.provider_type == q.provider_type
    && r.provider_account_id == q.provider_account_id
    && r.provider_conversation_id == q.provider_conversation_id
    && project_paths_share_tree r.project_path q.project_path
    && r.source_id == q.source_id
    && r.source_type == q.source_type
    && r.source_session_id == q.source_session_id

unfoldable lookup_thread_session_for_source_session :
    SourceSessionThreadBindingQuery
    → BridgeBindingLedgerFile
    → Result (Option ThreadSessionBindingRecord)
lookup_thread_session_for_source_session q f =
    list_if_valid (validate_source_session_thread_binding_query q)
      (find_last (source_session_thread_binding_matches q) f.thread_session_bindings)
