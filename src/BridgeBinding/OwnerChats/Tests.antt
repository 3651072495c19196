-- ===== src/BridgeBinding/OwnerChats/Tests.antt =====
-- A chat that is remembered after another one.
use agents_router.Prelude.Text.{is_blank}
use agents_router.Prelude.{find, true, ◌≡◌, refl, some, [], ◌∷◌, arith}
use agents_router.Exec.{ok}
use agents_router.Persist.{absent}
use agents_router.Ledger.{commit, Ledger}
use agents_router.BridgeBinding.Fixtures.{b}
use agents_router.BridgeBinding.Records.{
  validate_present, BridgeBindingLedgerFile, OwnerDirectChatInput, OwnerDirectChatRecord,
  empty_bridge_file,
}
use agents_router.BridgeBinding.OwnerChats.{
  owner_direct_chat_matches, validate_owner_direct_chat_input, none, remember_owner_direct_chat_at,
  owner_direct_chat_for_provider,
}
use agents_router.BridgeBinding.OwnerChats.Latest.{remembered_chat_is_found}

abbrev chat : OwnerDirectChatRecord
chat = record {
  provider_id = "lark";
  provider_type = "feishu_lark";
  provider_account_id = "account";
  provider_conversation_id = "old";
  created_at = 3;
  updated_at = 5;
}

abbrev ledger : Ledger BridgeBindingLedgerFile BridgeBindingLedgerFile
ledger = record {
  state_path = none;
  state = record empty_bridge_file { owner_direct_chats = chat ∷ [] };
  disk = record { file = absent; can_create_dir = true; can_write = true; can_rename = true };
}

abbrev input : OwnerDirectChatInput
input = record {
  provider_id = "lark";
  provider_type = "feishu_lark";
  provider_account_id = "account";
  provider_conversation_id = "new";
}

abbrev chat_found : OwnerDirectChatRecord
chat_found = record {
  provider_id = "lark";
  provider_type = "feishu_lark";
  provider_account_id = "account";
  provider_conversation_id = "new";
  created_at = 7;
  updated_at = 7;
}

remembered : (remember_owner_direct_chat_at b input 7 ledger).0 ≡ ok chat_found
unfolding remember_owner_direct_chat_at validate_owner_direct_chat_input validate_present is_blank
    find owner_direct_chat_matches commit
remembered = refl

remembered_chat_is_found_example :
    (owner_direct_chat_for_provider b "lark" "feishu_lark"
      (remember_owner_direct_chat_at b input 7 ledger).1).0
    ≡ ok (some chat_found)
remembered_chat_is_found_example =
    remembered_chat_is_found b input 7 ledger chat_found remembered (omega arith, tt)
