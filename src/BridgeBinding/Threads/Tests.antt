-- ===== src/BridgeBinding/Threads/Tests.antt =====
-- A thread that is bound twice.
use agents_router.BridgeBinding.Fixtures.{b}
use agents_router.Prelude.{
  ℕ, String, ◌≡◌, refl, true, none, some, List, [], ◌∷◌, find, Option, any, filter,
}
use agents_router.Prelude.Text.{is_blank}
use agents_router.Prelude.Paths.{split, components, is_absolute}
use agents_router.Exec.{ok}
use agents_router.Persist.{absent}
use agents_router.Ledger.{Ledger, commit, save}
use agents_router.Config.{is_clean_absolute_project_path}
use agents_router.BridgeBinding.Records.{
  ThreadSessionBindingRecord, ThreadSessionBindingInput, BridgeBindingLedgerFile, empty_bridge_file,
  validate_present, validate_project_path,
}
use agents_router.BridgeBinding.Threads.{
  validate_thread_session_binding_input, thread_query, thread_binding_matches, bind_found,
  bind_thread_session_at, new_thread_binding, lookup_thread_session, same_session,
}
use agents_router.BridgeBinding.Threads.Immutable.{StillBound, bind_all, binding_is_immutable}
use agents_router.BridgeBinding.Threads.Found.{bound_thread_is_found}

abbrev ledger :
    List ThreadSessionBindingRecord → Ledger BridgeBindingLedgerFile BridgeBindingLedgerFile
ledger rs = record {
  state_path = none;
  state = record empty_bridge_file { thread_session_bindings = rs };
  disk = record { file = absent; can_create_dir = true; can_write = true; can_rename = true };
}

abbrev input : String → Option String → ThreadSessionBindingInput
input session hash = record {
  provider_id = "lark";
  provider_type = "feishu_lark";
  provider_account_id = "account";
  provider_conversation_id = "room";
  provider_thread_id = "thread";
  project_path = "/work/app";
  source_id = "codex_desktop";
  source_type = "codex_desktop";
  source_session_id = session;
  route_binding_hash = hash;
}

abbrev bound : Option String → ThreadSessionBindingRecord
bound hash = record {
  provider_id = "lark";
  provider_type = "feishu_lark";
  provider_account_id = "account";
  provider_conversation_id = "room";
  provider_thread_id = "thread";
  project_path = "/work/app";
  source_id = "codex_desktop";
  source_type = "codex_desktop";
  source_session_id = "session-1";
  route_binding_hash = hash;
  created_at = 7;
}

bound_now : (bind_thread_session_at b (input "session-1" none) 7 (ledger [])).0 ≡ ok (bound none)
unfolding bind_thread_session_at validate_thread_session_binding_input validate_present is_blank
    validate_project_path is_clean_absolute_project_path is_absolute split components find
    bind_found new_thread_binding commit save any filter
bound_now = refl

bound_thread_is_found_example :
    (lookup_thread_session
        (thread_query (input "session-1" none))
        (bind_thread_session_at b (input "session-1" none) 7 (ledger [])).1.state
      ≡ some (bound none))
    × (same_session (bound none) (input "session-1" none) ≡ true)
bound_thread_is_found_example =
    bound_thread_is_found b (input "session-1" none) 7 (ledger []) (bound none) bound_now

-- Another session is refused, and the same one adds its route hash.
abbrev calls : List (ThreadSessionBindingInput × ℕ)
calls = (input "session-2" (some "h2"), 8) ∷ (input "session-1" (some "h1"), 9) ∷ []

found_before :
    lookup_thread_session (thread_query (input "session-1" none)) (ledger (bound none ∷ [])).state
    ≡ some (bound none)
unfolding lookup_thread_session find thread_binding_matches
found_before = refl

binding_is_immutable_example :
    StillBound
      (thread_query (input "session-1" none))
      (bound none)
      (bind_all b calls (ledger (bound none ∷ []))).state
binding_is_immutable_example =
    binding_is_immutable b (thread_query (input "session-1" none)) (bound none) calls
      (ledger (bound none ∷ [])) found_before
