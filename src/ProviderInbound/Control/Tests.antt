-- ===== src/ProviderInbound/Control/Tests.antt =====
-- A command in a thread of a room.
use agents_router.Prelude.Words.{before_whitespace}
use agents_router.ProviderInbound.Mentions.{cut_mention, trim_leading_lark_mentions}
use agents_router.Prelude.{String, ◌≡◌, refl, none, some, Option}
use agents_router.Exec.{ok}
use agents_router.ProviderInbound.Types.{invalid, control_command, NormalizedProviderControlCommand}
use agents_router.ProviderCatalog.{feishu_lark_app_bot}
use agents_router.ProviderInbound.Lark.{
  feishu_lark_message_is_direct_chat, FeishuLarkEventEnvelope, FeishuLarkEventBody,
  FeishuLarkEventMessage, FeishuLarkTextContent,
}
use agents_router.Prelude.Text.{is_blank}
use agents_router.ProviderInbound.Types.{requires_room_root}
use agents_router.ProviderInbound.Fields.{ensure_field, required_trimmed, optional_trimmed}
use agents_router.ProviderInbound.Commands.{parse_provider_control_command}
use agents_router.ProviderInbound.Lark.{addressed_feishu_lark_text}
use agents_router.ProviderInbound.Control.{
  thread_guidance, normalize_feishu_lark_long_connection_control_command, normalize_by_event_type,
  normalize_command_event, normalize_command_message, normalize_command, command_in_place,
  recognized_command,
}
use agents_router.ProviderInbound.Control.InPlace.{IsPlaced}
use agents_router.ProviderInbound.Control.Placed.{command_fits_its_place}

abbrev message : FeishuLarkEventMessage
message = record {
  message_id = some "m2";
  root_id = some "m1";
  chat_id = some "room";
  chat_type = some "p2p";
  message_type = some "text";
  content = some "/unbind";
  mentions = none;
}

abbrev body : FeishuLarkEventBody
body = record {
  sender = some (record { sender_type = some "user" });
  message = some message;
  chat_id = none;
  operator = none;
  action = none;
  context = none;
}

abbrev envelope : FeishuLarkEventEnvelope
envelope = record {
  schema = some "2.0";
  header = some (record {
    event_id = some "e1";
    event_type = some "im.message.receive_v1";
    tenant_key = some "tenant";
  });
  event = some body;
}

abbrev from_str : String → Option FeishuLarkTextContent
from_str content = some (record { text = some content })

abbrev command : NormalizedProviderControlCommand
command = record {
  provider_id = "lark";
  provider_type = "feishu_lark";
  provider_mode = feishu_lark_app_bot;
  provider_account_id = "tenant";
  provider_conversation_id = "room";
  provider_thread_id = "m1";
  provider_event_id = "m2";
  command = invalid thread_guidance;
}

understood :
    normalize_feishu_lark_long_connection_control_command from_str some "lark" "bot" envelope
    ≡ ok (control_command command)
unfolding normalize_feishu_lark_long_connection_control_command normalize_by_event_type
    normalize_command_event normalize_command_message normalize_command ensure_field
    required_trimmed addressed_feishu_lark_text recognized_command command_in_place
    parse_provider_control_command requires_room_root is_blank optional_trimmed
    feishu_lark_message_is_direct_chat trim_leading_lark_mentions cut_mention before_whitespace
understood = refl

command_fits_its_place_example : IsPlaced message command
command_fits_its_place_example =
    command_fits_its_place from_str some "lark" "bot" envelope envelope body message command refl
      refl refl understood
