-- ===== src/ProviderInbound/Control/InPlace.antt =====
-- src/provider_inbound.rs: where a command may be given.
use agents_router.Prelude.{
  String, ◌≡◌, refl, inl, inr, Bool-cases, subst, Bool, true, false, not, ◌&&◌, Option, none, some,
  is_some, unwrap_or, arith, ◌==◌, eq_refl,
}
use agents_router.ProviderCatalog.{feishu_lark_app_bot}
use agents_router.ProviderInbound.Types.{
  ProviderControlCommand, bind_project, new_session, NormalizedProviderControlCommand,
  requires_project_room, requires_room_root,
}
use agents_router.ProviderInbound.Fields.{optional_field}
use agents_router.ProviderInbound.Lark.{FeishuLarkEventMessage, feishu_lark_message_is_direct_chat}
use agents_router.ProviderInbound.Control.{direct_command, command_in_place}

-- A command of a direct chat is about no project room, and one in a thread, whose id is then not that
-- of the message itself, does not need the room itself.
pub record IsPlaced (message : FeishuLarkEventMessage) (c : NormalizedProviderControlCommand)
    : Type 0 where
  pub direct :
      (feishu_lark_message_is_direct_chat message && requires_project_room c.command) ≡ false
  pub threaded :
      (not (c.provider_thread_id == c.provider_event_id) && requires_room_root c.command) ≡ false

direct_in_place :
    (has_root : Bool) (command : ProviderControlCommand)
    → requires_project_room (command_in_place has_root true command) ≡ false
unfolding requires_project_room command_in_place requires_room_root direct_command
direct_in_place true (bind_project p) = refl
direct_in_place has_root command = ground arith

threaded_in_place :
    (is_direct_chat : Bool) (command : ProviderControlCommand)
    → requires_room_root (command_in_place true is_direct_chat command) ≡ false
unfolding command_in_place requires_room_root direct_command requires_project_room
threaded_in_place is_direct_chat (bind_project p) = refl
threaded_in_place is_direct_chat (new_session p q) = refl
threaded_in_place is_direct_chat command = ground arith

module _ (message : FeishuLarkEventMessage) where
  has_thread :
      (root_id : Option String) (message_id : String)
      → (unwrap_or root_id message_id == message_id) ≡ false
      → is_some root_id ≡ true
  has_thread none message_id h = ground (arith, eq_refl message_id)
  has_thread (some r) message_id h = refl

  IsPlaced-command :
      (command : ProviderControlCommand) (c : NormalizedProviderControlCommand)
      → c.command
        ≡ command_in_place
            (is_some (optional_field message.root_id))
            (feishu_lark_message_is_direct_chat message)
            command
      → c.provider_thread_id ≡ unwrap_or (optional_field message.root_id) c.provider_event_id
      → IsPlaced message c
  IsPlaced-command command c e t =
      let has_root = is_some (optional_field message.root_id) in
      let is_direct_chat = feishu_lark_message_is_direct_chat message in
      record {
        direct = elim (Bool-cases is_direct_chat) [
          | inl d ↦ rw e (rw d (direct_in_place has_root command))
          | inr room ↦ rw room refl
        ];
        threaded = elim (Bool-cases (c.provider_thread_id == c.provider_event_id)) [
          | inl itself ↦ rw itself refl
          | inr h ↦
              let rooted =
                has_thread (optional_field message.root_id) c.provider_event_id
                  (subst (λ t. (t == c.provider_event_id) ≡ false) t h) in
              rw h (rw e (rw rooted (threaded_in_place is_direct_chat command)))
        ];
      }

  module _ (provider_id tenant_key message_id chat_id : String) where
    pub IsPlaced-in_place :
        (command : ProviderControlCommand)
        → IsPlaced message (record {
          provider_id = provider_id;
          provider_type = "feishu_lark";
          provider_mode = feishu_lark_app_bot;
          provider_account_id = tenant_key;
          provider_conversation_id = chat_id;
          provider_thread_id = unwrap_or (optional_field message.root_id) message_id;
          provider_event_id = message_id;
          command =
              command_in_place
                (is_some (optional_field message.root_id))
                (feishu_lark_message_is_direct_chat message)
                command;
        })
    IsPlaced-in_place command = IsPlaced-command command _ refl refl
