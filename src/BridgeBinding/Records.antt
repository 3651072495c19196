-- ===== src/BridgeBinding/Records.antt =====
-- src/bridge_binding_ledger.rs: the records of the ledger, and the arguments of its operations.
use agents_router.Prelude.{ℕ, String, not, Option, List, [], ◌==◌, if◌then◌else◌}
use agents_router.Prelude.Text.{is_blank, trim}
use agents_router.Exec.{
  Result, ok, err, must_not_be_empty, surrounding_whitespace, project_path_not_clean,
}
use agents_router.Config.{is_clean_absolute_project_path}

abbrev pub bridge_schema_version : ℕ
bridge_schema_version = 1

pub data RoomProjectBindingStatus : Type 0 where
  connected disconnected : RoomProjectBindingStatus

pub record RoomProjectBindingRecord : Type 0 where
  pub provider_id : String
  pub provider_type : String
  pub provider_account_id : String
  pub provider_conversation_id : String
  pub project_path : String
  pub status : RoomProjectBindingStatus
  pub created_at : ℕ
  pub updated_at : ℕ

pub record RoomProjectBindingInput : Type 0 where
  pub provider_id : String
  pub provider_type : String
  pub provider_account_id : String
  pub provider_conversation_id : String
  pub project_path : String

pub record RoomBindingQuery : Type 0 where
  pub provider_id : String
  pub provider_type : String
  pub provider_account_id : String
  pub provider_conversation_id : String

pub record OwnerDirectChatRecord : Type 0 where
  pub provider_id : String
  pub provider_type : String
  pub provider_account_id : String
  pub provider_conversation_id : String
  pub created_at : ℕ
  pub updated_at : ℕ

pub record OwnerDirectChatInput : Type 0 where
  pub provider_id : String
  pub provider_type : String
  pub provider_account_id : String
  pub provider_conversation_id : String

pub record LegacyDirectChatProjectBindingRecord : Type 0 where
  pub provider_id : String
  pub provider_type : String
  pub provider_account_id : String
  pub provider_conversation_id : String
  pub project_path : String
  pub status : RoomProjectBindingStatus
  pub created_at : ℕ
  pub updated_at : ℕ

pub data ProjectRoomProposalStatus : Type 0 where
  pending prompt_failed ignored room_created bound_to_existing : ProjectRoomProposalStatus

pub record ProjectRoomProposalRecord : Type 0 where
  pub proposal_id : String
  pub provider_id : String
  pub provider_type : String
  pub project_path : String
  pub project_name : String
  pub status : ProjectRoomProposalStatus
  pub provider_account_id : Option String
  pub prompt_conversation_id : Option String
  pub prompt_message_id : Option String
  pub created_room_id : Option String
  pub created_at : ℕ
  pub first_seen_at : ℕ
  pub last_seen_at : ℕ
  pub updated_at : ℕ

pub record ProjectRoomProposalInput : Type 0 where
  pub provider_id : String
  pub provider_type : String
  pub project_path : String

pub data ProjectRoomProposalSkipReason : Type 0 where
  already_pending ignored room_created bound_to_existing : ProjectRoomProposalSkipReason

pub data ProjectRoomProposalPromptDecision : Type 0 where
  prompt : ProjectRoomProposalRecord → ProjectRoomProposalPromptDecision
  skip : ProjectRoomProposalSkipReason → ProjectRoomProposalPromptDecision

pub record ThreadSessionBindingRecord : Type 0 where
  pub provider_id : String
  pub provider_type : String
  pub provider_account_id : String
  pub provider_conversation_id : String
  pub provider_thread_id : String
  pub project_path : String
  pub source_id : String
  pub source_type : String
  pub source_session_id : String
  pub route_binding_hash : Option String
  pub created_at : ℕ

pub record ThreadSessionBindingInput : Type 0 where
  pub provider_id : String
  pub provider_type : String
  pub provider_account_id : String
  pub provider_conversation_id : String
  pub provider_thread_id : String
  pub project_path : String
  pub source_id : String
  pub source_type : String
  pub source_session_id : String
  pub route_binding_hash : Option String

pub record ThreadBindingQuery : Type 0 where
  pub provider_id : String
  pub provider_type : String
  pub provider_account_id : String
  pub provider_conversation_id : String
  pub provider_thread_id : String

pub record BridgeBindingLedgerFile : Type 0 where
  pub schema_version : ℕ
  pub room_project_bindings : List RoomProjectBindingRecord
  pub owner_direct_chats : List OwnerDirectChatRecord
  pub direct_chat_project_bindings : List LegacyDirectChatProjectBindingRecord
  pub project_room_proposals : List ProjectRoomProposalRecord
  pub thread_session_bindings : List ThreadSessionBindingRecord

abbrev pub empty_bridge_file : BridgeBindingLedgerFile
empty_bridge_file = record {
  schema_version = bridge_schema_version;
  room_project_bindings = [];
  owner_direct_chats = [];
  direct_chat_project_bindings = [];
  project_room_proposals = [];
  thread_session_bindings = [];
}

unfoldable pub validate_present : String → String → Result (Unit {0})
validate_present field value =
    if is_blank value
    then err (must_not_be_empty field)
    else if not (trim value == value)
    then err (surrounding_whitespace field)
    else ok tt

unfoldable pub validate_project_path : String → Result (Unit {0})
validate_project_path path =
    if is_clean_absolute_project_path path then ok tt else err project_path_not_clean

-- `a?; b`
abbrev pub and_next : Result (Unit {0}) → Result (Unit {0}) → Result (Unit {0})
and_next (ok t) r = r
and_next (err e) r = err e

abbrev pub validate_provider_binding_parts : String → String → String → String → Result (Unit {0})
validate_provider_binding_parts provider_id provider_type account conversation =
    and_next (validate_present "provider_id" provider_id) (
      and_next (validate_present "provider_type" provider_type) (
        and_next (validate_present "provider_account_id" account)
          (validate_present "provider_conversation_id" conversation)))
