-- ===== src/BridgeBinding/OwnerChats.antt =====
-- src/bridge_binding_ledger.rs: the direct chats of the owner with a provider's bot.
pub mod Latest
mod Tests
use agents_router.Prelude.{
  ℕ, String, Bool, ◌&&◌, Option, none, some, List, [], ◌∷◌, ◌++◌, find, filter, max_by_key,
  update_first, ◌==◌,
}
use agents_router.Exec.{Exec, Result, ok, lift, ◌>>=◌, ◌>>◌}
use agents_router.Ledger.{Ledger, Backend, commit}
use agents_router.BridgeBinding.Records.{
  OwnerDirectChatRecord, OwnerDirectChatInput, LegacyDirectChatProjectBindingRecord,
  BridgeBindingLedgerFile, validate_present, validate_provider_binding_parts,
}

pub validate_owner_direct_chat_input : OwnerDirectChatInput → Result (Unit {0})
validate_owner_direct_chat_input i =
    validate_provider_binding_parts i.provider_id i.provider_type i.provider_account_id
      i.provider_conversation_id

unfoldable owner_direct_chat_matches : OwnerDirectChatInput → OwnerDirectChatRecord → Bool
owner_direct_chat_matches i r =
    r.provider_id == i.provider_id
    && r.provider_type == i.provider_type
    && r.provider_account_id == i.provider_account_id
    && r.provider_conversation_id == i.provider_conversation_id

abbrev new_chat : OwnerDirectChatInput → ℕ → OwnerDirectChatRecord
new_chat i now = record {
  provider_id = i.provider_id;
  provider_type = i.provider_type;
  provider_account_id = i.provider_account_id;
  provider_conversation_id = i.provider_conversation_id;
  created_at = now;
  updated_at = now;
}

abbrev touched : ℕ → OwnerDirectChatRecord → OwnerDirectChatRecord
touched now r = record r { updated_at = now }

abbrev of_provider : String → String → OwnerDirectChatRecord → Bool
of_provider provider_id provider_type r =
    r.provider_id == provider_id && r.provider_type == provider_type

abbrev legacy_of_provider : String → String → LegacyDirectChatProjectBindingRecord → Bool
legacy_of_provider provider_id provider_type r =
    r.provider_id == provider_id && r.provider_type == provider_type

abbrev owner_chat : LegacyDirectChatProjectBindingRecord → OwnerDirectChatRecord
owner_chat r = record {
  provider_id = r.provider_id;
  provider_type = r.provider_type;
  provider_account_id = r.provider_account_id;
  provider_conversation_id = r.provider_conversation_id;
  created_at = r.created_at;
  updated_at = r.updated_at;
}

abbrev owner_chat_of : Option LegacyDirectChatProjectBindingRecord → Option OwnerDirectChatRecord
owner_chat_of none = none
owner_chat_of (some r) = some (owner_chat r)

-- A chat of the provider, or else one that an older version bound to a project
abbrev chat_or_legacy :
    Option OwnerDirectChatRecord
    → Option LegacyDirectChatProjectBindingRecord
    → Option OwnerDirectChatRecord
chat_or_legacy (some r) legacy = some r
chat_or_legacy none legacy = owner_chat_of legacy

module _ {Raw : Type 0} (b : Backend BridgeBindingLedgerFile Raw) where
  abbrev pub ChatLedger : Type 0
  ChatLedger = Ledger BridgeBindingLedgerFile Raw

  abbrev put_chats :
      List OwnerDirectChatRecord → OwnerDirectChatRecord → Exec ChatLedger OwnerDirectChatRecord
  put_chats chats r l = commit b (record l.state { owner_direct_chats = chats }) r l

  unfoldable remember_found :
      Option OwnerDirectChatRecord
      → OwnerDirectChatInput
      → ℕ
      → Exec ChatLedger OwnerDirectChatRecord
  remember_found (some r) i now l =
      put_chats
        (update_first (owner_direct_chat_matches i) (touched now) l.state.owner_direct_chats)
        (touched now r) l
  remember_found none i now l =
      put_chats (l.state.owner_direct_chats ++ new_chat i now ∷ []) (new_chat i now) l

  pub remember_owner_direct_chat_at :
      OwnerDirectChatInput → ℕ → Exec ChatLedger OwnerDirectChatRecord
  unfolding remember_found
  remember_owner_direct_chat_at i now = do
    lift (validate_owner_direct_chat_input i)
    λ (l : ChatLedger).
        remember_found (find (owner_direct_chat_matches i) l.state.owner_direct_chats) i now l

  pub owner_direct_chat_for_provider :
      String → String → Exec ChatLedger (Option OwnerDirectChatRecord)
  owner_direct_chat_for_provider provider_id provider_type = do
    lift (validate_present "provider_id" provider_id)
    lift (validate_present "provider_type" provider_type)
    λ (l : ChatLedger). (
      ok (
          chat_or_legacy
            (max_by_key (λ r. r.updated_at)
              (filter (of_provider provider_id provider_type) l.state.owner_direct_chats))
            (max_by_key (λ r. r.updated_at)
              (filter (legacy_of_provider provider_id provider_type)
                l.state.direct_chat_project_bindings))),
      l,
    )
