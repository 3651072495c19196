-- ===== src/BridgeBinding/Store/Tests.antt =====
-- A thread that is bound by one process and looked up by the next.
use agents_router.Prelude.Paths.{components, split, is_absolute}
use agents_router.Config.{is_clean_absolute_project_path}
use agents_router.Prelude.Text.{is_blank}
use agents_router.Prelude.{find, filter, any, true, ◌≡◌, refl, sym, none, some}
use agents_router.Exec.{ok}
use agents_router.Persist.{Json, Disk, FileContent, absent, unreadable}
use agents_router.Ledger.{commit, update}
use agents_router.BridgeBinding.Records.{
  validate_project_path, validate_present, BridgeBindingLedgerFile, ThreadSessionBindingRecord,
  ThreadSessionBindingInput,
}
use agents_router.BridgeBinding.Threads.{
  new_thread_binding, bind_found, validate_thread_session_binding_input, bind_thread_session_at,
  thread_query,
}
use agents_router.BridgeBinding.Store.{save_state, bridge_backend}
use agents_router.BridgeBinding.Store.Restart.{looks_up, bound_thread_survives_restart}

-- A file that holds the value itself, and is lost by a write that fails
abbrev mirror : Json BridgeBindingLedgerFile BridgeBindingLedgerFile
mirror = record { to_vec_pretty = some; from_str = some; round_trip = λ f raw e. sym e }

abbrev lost :
    BridgeBindingLedgerFile
    → FileContent BridgeBindingLedgerFile
    → FileContent BridgeBindingLedgerFile
lost f c = unreadable

abbrev no_file : Disk BridgeBindingLedgerFile
no_file = record { file = absent; can_create_dir = true; can_write = true; can_rename = true }

abbrev input : ThreadSessionBindingInput
input = record {
  provider_id = "lark";
  provider_type = "feishu_lark";
  provider_account_id = "account";
  provider_conversation_id = "room";
  provider_thread_id = "thread";
  project_path = "/work/app";
  source_id = "codex_desktop";
  source_type = "codex_desktop";
  source_session_id = "session";
  route_binding_hash = none;
}

abbrev bound : ThreadSessionBindingRecord
bound = record {
  provider_id = "lark";
  provider_type = "feishu_lark";
  provider_account_id = "account";
  provider_conversation_id = "room";
  provider_thread_id = "thread";
  project_path = "/work/app";
  source_id = "codex_desktop";
  source_type = "codex_desktop";
  source_session_id = "session";
  route_binding_hash = none;
  created_at = 7;
}

bound_now :
    (update
      (bridge_backend mirror lost)
      "bindings.json"
      (bind_thread_session_at (bridge_backend mirror lost) input 7)
      no_file).0
    ≡ ok bound
unfolding update bind_thread_session_at validate_thread_session_binding_input validate_present
    is_blank validate_project_path is_clean_absolute_project_path is_absolute any split components
    filter bind_found find commit save_state new_thread_binding
bound_now = refl

bound_thread_survives_restart_example :
    (update
      (bridge_backend mirror lost)
      "bindings.json"
      (looks_up mirror lost "bindings.json" (thread_query input))
      (update
        (bridge_backend mirror lost)
        "bindings.json"
        (bind_thread_session_at (bridge_backend mirror lost) input 7)
        no_file).1).0
    ≡ ok (some bound)
bound_thread_survives_restart_example =
    bound_thread_survives_restart mirror lost "bindings.json" input 7 no_file bound bound_now
