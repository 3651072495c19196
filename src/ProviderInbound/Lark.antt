-- ===== src/ProviderInbound/Lark.antt =====
-- src/provider_inbound.rs: the messages of Feishu and Lark, and whether they are addressed to the bot.
-- `from_slice` and `from_str` stand for serde_json, of an event and of the content of a message.
use agents_router.Prelude.{
  String, Bool, false, not, ◌&&◌, Option, none, some, List, [], any, and_then, unwrap_or, ◌==◌,
  if◌then◌else◌,
}
use agents_router.Prelude.Text.{trim}
use agents_router.Exec.{Result, ok, missing_part, parse_failed, or_fail}
use agents_router.Exec.Results.{◌>>=◌, ◌>>◌, or_return, return_unless}
use agents_router.ProviderCatalog.{feishu_lark_app_bot}
use agents_router.ProviderInbound.Types.{
  ProviderInboundNormalizeResult, surface_reply, skip, unsupported_envelope_type,
  unsupported_event_type, non_user_message, not_addressed_to_bot, not_surface_reply,
  unsupported_message_type, empty_reply_text,
}
use agents_router.ProviderInbound.Fields.{optional_field, required_trimmed, ensure_field, is_text}
use agents_router.ProviderInbound.Slack.{other_than, skip_reply}
use agents_router.ProviderInbound.Mentions.{leading_lark_mention_token, trim_leading_lark_mentions}

pub record FeishuLarkEventHeader : Type 0 where
  pub event_id : Option String
  pub event_type : Option String
  pub tenant_key : Option String

pub record FeishuLarkEventSender : Type 0 where
  pub sender_type : Option String

pub record FeishuLarkEventMentionId : Type 0 where
  pub open_id : Option String

pub record FeishuLarkEventMention : Type 0 where
  pub key : Option String
  pub id : Option FeishuLarkEventMentionId

pub record FeishuLarkEventMessage : Type 0 where
  pub message_id : Option String
  pub root_id : Option String
  pub chat_id : Option String
  pub chat_type : Option String
  pub message_type : Option String
  pub content : Option String
  pub mentions : Option (List FeishuLarkEventMention)

pub record FeishuLarkTextContent : Type 0 where
  pub text : Option String

pub record FeishuLarkCardOperator : Type 0 where
  pub open_id : Option String

pub record FeishuLarkProjectRoomActionValue : Type 0 where
  pub action : Option String
  pub proposal_id : Option String

pub record FeishuLarkCardAction : Type 0 where
  pub value : Option FeishuLarkProjectRoomActionValue

pub record FeishuLarkCardContext : Type 0 where
  pub open_chat_id : Option String

pub record FeishuLarkEventBody : Type 0 where
  pub sender : Option FeishuLarkEventSender
  pub message : Option FeishuLarkEventMessage
  pub chat_id : Option String
  pub operator : Option FeishuLarkCardOperator
  pub action : Option FeishuLarkCardAction
  pub context : Option FeishuLarkCardContext

pub record FeishuLarkEventEnvelope : Type 0 where
  pub schema : Option String
  pub header : Option FeishuLarkEventHeader
  pub event : Option FeishuLarkEventBody

unfoldable pub feishu_lark_message_is_direct_chat : FeishuLarkEventMessage → Bool
feishu_lark_message_is_direct_chat message = is_text (optional_field message.chat_type) "p2p"

abbrev mention_open_id : FeishuLarkEventMention → Option String
mention_open_id mention = and_then mention.id (λ id. optional_field id.open_id)

abbrev is_mention_of : String → String → FeishuLarkEventMention → Bool
is_mention_of token bot_open_id mention =
    is_text (optional_field mention.key) token && is_text (mention_open_id mention) bot_open_id

abbrev mentions_bot : FeishuLarkEventMessage → String → Option String → Bool
mentions_bot message bot_open_id none = false
mentions_bot message bot_open_id (some token) =
    any (is_mention_of token bot_open_id) (unwrap_or message.mentions [])

unfoldable pub has_structured_leading_lark_bot_mention :
    FeishuLarkEventMessage → String → String → Result Bool
has_structured_leading_lark_bot_mention message text bot_open_id = do
  token ← leading_lark_mention_token text
  ok (mentions_bot message bot_open_id token)

abbrev addressed : String → Option String
addressed text = some (trim (trim_leading_lark_mentions text))

unfoldable pub addressed_feishu_lark_text :
    FeishuLarkEventMessage → String → String → Result (Option String)
unfolding has_structured_leading_lark_bot_mention
addressed_feishu_lark_text message text bot_open_id =
    if feishu_lark_message_is_direct_chat message then ok (addressed text) else do
      is_mentioned ← has_structured_leading_lark_bot_mention message text bot_open_id
      ok (if is_mentioned then addressed text else none)

module _ (from_str : String → Option FeishuLarkTextContent) where
  -- The checks of a reply from its message on
  unfoldable pub normalize_reply_message :
      String → String → String → FeishuLarkEventMessage → Result ProviderInboundNormalizeResult
  normalize_reply_message provider_id bot_open_id tenant_key message =
      if not (is_text (optional_field message.message_type) "text")
      then skip_reply unsupported_message_type
      else do
        reply_message_id ← required_trimmed "feishu_lark message.message_id" message.message_id
        or_return (other_than message.root_id reply_message_id) (skip not_surface_reply) λ root_id.
            do
              chat_id ← required_trimmed "feishu_lark message.chat_id" message.chat_id
              content ← required_trimmed "feishu_lark message.content" message.content
              text_content ← or_fail (from_str content) parse_failed
              or_return (optional_field text_content.text) (skip empty_reply_text) λ raw_reply_text.
                  do
                    addressed_text ← addressed_feishu_lark_text message raw_reply_text bot_open_id
                    or_return addressed_text (skip not_addressed_to_bot) λ reply_text.
                        if reply_text == ""
                        then skip_reply empty_reply_text
                        else ok (
                            surface_reply (record {
                              provider_id = provider_id;
                              provider_type = "feishu_lark";
                              provider_mode = feishu_lark_app_bot;
                              provider_account_id = tenant_key;
                              provider_conversation_id = chat_id;
                              provider_thread_id = root_id;
                              provider_event_id = reply_message_id;
                              provider_reply_message_id = some reply_message_id;
                              reply_text = reply_text;
                            }))

  -- The checks of a reply from its header on
  unfoldable pub normalize_reply_event :
      String
      → String
      → FeishuLarkEventHeader
      → Option FeishuLarkEventBody
      → Result ProviderInboundNormalizeResult
  normalize_reply_event provider_id bot_open_id header body =
      if not (is_text (optional_field header.event_type) "im.message.receive_v1")
      then skip_reply unsupported_event_type
      else do
        _ ← required_trimmed "feishu_lark header.event_id" header.event_id
        tenant_key ← required_trimmed "feishu_lark header.tenant_key" header.tenant_key
        event ← or_fail body (missing_part "event")
        sender ← or_fail event.sender (missing_part "sender")
        return_unless (is_text (optional_field sender.sender_type) "user") (skip non_user_message)
            λ _. do
              message ← or_fail event.message (missing_part "message")
              normalize_reply_message provider_id bot_open_id tenant_key message

  module _ {Bytes : Type 0} (from_slice : Bytes → Option FeishuLarkEventEnvelope) where
    unfoldable pub normalize_feishu_lark_long_connection_surface_reply :
        String → String → Bytes → Result ProviderInboundNormalizeResult
    normalize_feishu_lark_long_connection_surface_reply provider_id bot_open_id raw_event = do
      ensure_field "provider_id" provider_id
      ensure_field "bot_open_id" bot_open_id
      envelope ← or_fail (from_slice raw_event) parse_failed
      return_unless (is_text (optional_field envelope.schema) "2.0")
          (skip unsupported_envelope_type)
          λ _. do
            header ← or_fail envelope.header (missing_part "header")
            normalize_reply_event provider_id bot_open_id header envelope.event
