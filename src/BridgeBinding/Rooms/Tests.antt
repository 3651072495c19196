-- ===== src/BridgeBinding/Rooms/Tests.antt =====
-- A room that is connected to a project and disconnected from it.
use agents_router.Prelude.{◌≡◌, refl, true, false, none, List, [], ◌∷◌, any, filter}
use agents_router.Prelude.Text.{is_blank}
use agents_router.Prelude.Paths.{split, components, is_absolute}
use agents_router.Exec.{ok}
use agents_router.Persist.{absent}
use agents_router.Ledger.{Ledger}
use agents_router.Config.{is_clean_absolute_project_path}
use agents_router.BridgeBinding.Records.{
  RoomProjectBindingRecord, RoomProjectBindingInput, BridgeBindingLedgerFile, empty_bridge_file,
  validate_present, validate_project_path, connected,
}
use agents_router.BridgeBinding.Fixtures.{b}
use agents_router.BridgeBinding.Rooms.{
  connect_room_project_at, disconnect_room_project_at, validate_room_project_binding_input,
}
use agents_router.BridgeBinding.Rooms.Connected.{
  lists_project, connect_lists_project, disconnect_removes_project,
}

abbrev request : RoomProjectBindingInput
request = record {
  provider_id = "lark";
  provider_type = "feishu_lark";
  provider_account_id = "account";
  provider_conversation_id = "room";
  project_path = "/work/app";
}

abbrev binding : RoomProjectBindingRecord
binding = record {
  provider_id = "lark";
  provider_type = "feishu_lark";
  provider_account_id = "account";
  provider_conversation_id = "room";
  project_path = "/work/app";
  status = connected;
  created_at = 7;
  updated_at = 7;
}

abbrev ledger :
    List RoomProjectBindingRecord → Ledger BridgeBindingLedgerFile BridgeBindingLedgerFile
ledger rs = record {
  state_path = none;
  state = record empty_bridge_file { room_project_bindings = rs };
  disk = record { file = absent; can_create_dir = true; can_write = true; can_rename = true };
}

request_valid : validate_room_project_binding_input request ≡ ok tt
unfolding validate_room_project_binding_input validate_present is_blank validate_project_path
    is_clean_absolute_project_path is_absolute split components any filter
request_valid = refl

connect_lists_project_example :
    lists_project request (connect_room_project_at b request 9 (ledger [])).1.state ≡ true
connect_lists_project_example = connect_lists_project b request 9 (ledger []) request_valid

disconnect_removes_project_example :
    lists_project request (disconnect_room_project_at b request 9 (ledger (binding ∷ []))).1.state
    ≡ false
disconnect_removes_project_example =
    disconnect_removes_project b request 9 (ledger (binding ∷ [])) (tt, tt) request_valid
