-- ===== src/ProviderInbound/Control.antt =====
-- src/provider_inbound.rs: the commands, room events and card actions of Feishu and Lark.
-- `from_slice` and `from_str` stand for serde_json, of an event and of the content of a message.
pub mod InPlace
pub mod Placed
mod Tests
use agents_router.Prelude.{
  String, Bool, not, ◌&&◌, Option, none, some, is_some, and_then, unwrap_or, ◌==◌, if◌then◌else◌,
}
use agents_router.Exec.{Result, ok, missing_part, parse_failed, or_fail}
use agents_router.Exec.Results.{◌>>=◌, ◌>>◌, or_return, return_unless}
use agents_router.ProviderCatalog.{feishu_lark_app_bot}
use agents_router.ProviderInbound.Types.{
  ProviderControlCommand, bind_project, direct_project_room_prompt, direct_chat_guidance,
  direct_help, direct_status, direct_unbind_project_guidance, direct_new_session, new_session, help,
  room_guidance, status, unbind_project, invalid, bot_added_to_chat, ProviderProjectRoomAction,
  create_project_room, use_existing_room, ignore_project, ProviderControlSkipReason,
  ProviderControlNormalizeResult, control_command, room_event, project_room_action,
  requires_project_room, requires_room_root,
}
use agents_router.ProviderInbound.Fields.{optional_field, required_trimmed, ensure_field, is_text}
use agents_router.ProviderInbound.Commands.{parse_provider_control_command}
use agents_router.ProviderInbound.Slack.{other_than}
use agents_router.ProviderInbound.Lark.{
  FeishuLarkEventHeader, FeishuLarkEventBody, FeishuLarkEventMessage, FeishuLarkEventEnvelope,
  FeishuLarkTextContent, feishu_lark_message_is_direct_chat, addressed_feishu_lark_text,
}

abbrev pub thread_guidance : String
thread_guidance =
    "That command only works in the room itself, not inside a Lark thread.\n\nGo back to the room, mention me, and send the command there. Thread replies are only for continuing the Codex task that posted the update."

abbrev pub direct_unbind_guidance : String
direct_unbind_guidance =
    "Direct chat does not bind a project folder. Use `/new /path/to/project what you want Codex to do` to start a new session, or use `/unbind` in a group room to disconnect that room."

abbrev pub group_room_guidance : String
group_room_guidance =
    "That command is for group rooms. In direct chat, start a new Codex session with `/new /path/to/project what you want Codex to do`."

-- The `match` on a command in a direct chat
unfoldable pub direct_command : ProviderControlCommand → ProviderControlCommand
direct_command (bind_project project_path) = direct_project_room_prompt project_path
direct_command help = direct_help
direct_command status = direct_status
direct_command (new_session project_path prompt) = direct_new_session project_path prompt
direct_command (unbind_project none) = direct_unbind_project_guidance
direct_command (unbind_project (some project_path)) = invalid direct_unbind_guidance
direct_command command =
    if requires_project_room command then invalid group_room_guidance else command

unfoldable pub command_in_place : Bool → Bool → ProviderControlCommand → ProviderControlCommand
unfolding direct_command
command_in_place has_root is_direct_chat command =
    if has_root && requires_room_root command
    then invalid thread_guidance
    else if is_direct_chat
    then direct_command command
    else command

-- The command of a text, or the guidance of a chat or room; a reply in a thread has neither.
unfoldable pub recognized_command :
    Bool → Bool → Option ProviderControlCommand → Option ProviderControlCommand
recognized_command is_direct_chat is_thread_reply (some command) = some command
recognized_command is_direct_chat is_thread_reply none =
    if is_direct_chat && not is_thread_reply
    then some direct_chat_guidance
    else if not is_direct_chat && not is_thread_reply
    then some room_guidance
    else none

abbrev leave : ProviderControlSkipReason → ProviderControlNormalizeResult
leave reason = ProviderControlNormalizeResult.skip reason

abbrev action_of : Option String → Option ProviderProjectRoomAction
action_of none = none
action_of (some name) =
    if name == "create_project_room"
    then some create_project_room
    else if name == "use_existing_room"
    then some use_existing_room
    else if name == "ignore_project"
    then some ignore_project
    else none

unfoldable pub normalize_feishu_lark_project_room_action :
    String
    → FeishuLarkEventHeader
    → Option FeishuLarkEventBody
    → Result ProviderControlNormalizeResult
normalize_feishu_lark_project_room_action provider_id header body = do
  tenant_key ← required_trimmed "feishu_lark header.tenant_key" header.tenant_key
  event_id ← required_trimmed "feishu_lark header.event_id" header.event_id
  event ← or_fail body (missing_part "event")
  context ← or_fail event.context (missing_part "context")
  chat_id ← required_trimmed "feishu_lark card context.open_chat_id" context.open_chat_id
  action ← or_fail event.action (missing_part "action")
  value ← or_fail action.value (missing_part "action value")
  proposal_id ← required_trimmed "feishu_lark card action.value.proposal_id" value.proposal_id
  or_return (action_of (optional_field value.action))
      (leave ProviderControlSkipReason.not_control_command)
      λ room_action. ok (
        project_room_action (record {
          provider_id = provider_id;
          provider_type = "feishu_lark";
          provider_mode = feishu_lark_app_bot;
          provider_account_id = tenant_key;
          provider_conversation_id = chat_id;
          provider_event_id = event_id;
          proposal_id = proposal_id;
          operator_open_id = and_then event.operator (λ operator. operator.open_id);
          action = room_action;
        }))

unfoldable pub normalize_bot_added :
    String
    → FeishuLarkEventHeader
    → Option FeishuLarkEventBody
    → Result ProviderControlNormalizeResult
normalize_bot_added provider_id header body = do
  tenant_key ← required_trimmed "feishu_lark header.tenant_key" header.tenant_key
  event_id ← required_trimmed "feishu_lark header.event_id" header.event_id
  event ← or_fail body (missing_part "event")
  chat_id ← required_trimmed "feishu_lark event.chat_id" event.chat_id
  ok (
      room_event (record {
        provider_id = provider_id;
        provider_type = "feishu_lark";
        provider_mode = feishu_lark_app_bot;
        provider_account_id = tenant_key;
        provider_conversation_id = chat_id;
        provider_event_id = event_id;
        event = bot_added_to_chat;
      }))

-- The command of a message, whose ids and text are known
unfoldable pub normalize_command :
    String
    → String
    → String
    → String
    → FeishuLarkEventMessage
    → String
    → Result ProviderControlNormalizeResult
unfolding recognized_command command_in_place
normalize_command provider_id tenant_key message_id chat_id message text =
    let is_direct_chat = feishu_lark_message_is_direct_chat message in
    let is_thread_reply = is_some (other_than message.root_id message_id) in
    let root_id = optional_field message.root_id in
    or_return
      (recognized_command is_direct_chat is_thread_reply (parse_provider_control_command text))
      (leave ProviderControlSkipReason.not_control_command)
      λ command. ok (
        control_command (record {
          provider_id = provider_id;
          provider_type = "feishu_lark";
          provider_mode = feishu_lark_app_bot;
          provider_account_id = tenant_key;
          provider_conversation_id = chat_id;
          provider_thread_id = unwrap_or root_id message_id;
          provider_event_id = message_id;
          command = command_in_place (is_some root_id) is_direct_chat command;
        }))

module _ (from_str : String → Option FeishuLarkTextContent) where
  -- The checks of a command from its message on
  unfoldable pub normalize_command_message :
      String → String → String → FeishuLarkEventMessage → Result ProviderControlNormalizeResult
  normalize_command_message provider_id bot_open_id tenant_key message =
      return_unless (is_text (optional_field message.message_type) "text")
        (leave ProviderControlSkipReason.unsupported_message_type)
        λ _. do
          message_id ← required_trimmed "feishu_lark message.message_id" message.message_id
          chat_id ← required_trimmed "feishu_lark message.chat_id" message.chat_id
          content ← required_trimmed "feishu_lark message.content" message.content
          text_content ← or_fail (from_str content) parse_failed
          or_return (optional_field text_content.text)
              (leave ProviderControlSkipReason.empty_message_text)
              λ raw_text. do
                addressed_text ← addressed_feishu_lark_text message raw_text bot_open_id
                or_return addressed_text (leave ProviderControlSkipReason.not_addressed_to_bot)
                    λ text.
                      return_unless (not (text == ""))
                        (leave ProviderControlSkipReason.empty_message_text)
                        λ _.
                          normalize_command provider_id tenant_key message_id chat_id message text

  -- The checks of a command from its header on
  unfoldable pub normalize_command_event :
      String
      → String
      → FeishuLarkEventHeader
      → Option FeishuLarkEventBody
      → Result ProviderControlNormalizeResult
  normalize_command_event provider_id bot_open_id header body = do
    tenant_key ← required_trimmed "feishu_lark header.tenant_key" header.tenant_key
    event ← or_fail body (missing_part "event")
    sender ← or_fail event.sender (missing_part "sender")
    return_unless (is_text (optional_field sender.sender_type) "user")
        (leave ProviderControlSkipReason.non_user_message)
        λ _. do
          message ← or_fail event.message (missing_part "message")
          normalize_command_message provider_id bot_open_id tenant_key message

  -- The `if`s on the type of the event
  unfoldable pub normalize_by_event_type :
      String
      → String
      → FeishuLarkEventHeader
      → Option FeishuLarkEventBody
      → Result ProviderControlNormalizeResult
  normalize_by_event_type provider_id bot_open_id header body =
      let event_type = optional_field header.event_type in
      if is_text event_type "card.action.trigger"
      then normalize_feishu_lark_project_room_action provider_id header body
      else if is_text event_type "im.chat.member.bot.added_v1"
      then normalize_bot_added provider_id header body
      else if not (is_text event_type "im.message.receive_v1")
      then ok (leave ProviderControlSkipReason.unsupported_event_type)
      else normalize_command_event provider_id bot_open_id header body

  module _ {Bytes : Type 0} (from_slice : Bytes → Option FeishuLarkEventEnvelope) where
    unfoldable pub normalize_feishu_lark_long_connection_control_command :
        String → String → Bytes → Result ProviderControlNormalizeResult
    normalize_feishu_lark_long_connection_control_command provider_id bot_open_id raw_event = do
      ensure_field "provider_id" provider_id
      ensure_field "bot_open_id" bot_open_id
      envelope ← or_fail (from_slice raw_event) parse_failed
      return_unless (is_text (optional_field envelope.schema) "2.0")
          (leave ProviderControlSkipReason.unsupported_envelope_type)
          λ _. do
            header ← or_fail envelope.header (missing_part "header")
            normalize_by_event_type provider_id bot_open_id header envelope.event
