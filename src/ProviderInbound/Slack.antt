-- ===== src/ProviderInbound/Slack.antt =====
-- src/provider_inbound.rs: the replies of Slack's Socket Mode. `from_slice` stands for serde_json.
use agents_router.Prelude.{
  String, not, ◌||◌, Option, none, some, is_some, and_then, ◌==◌, if◌then◌else◌,
}
use agents_router.Exec.{Result, ok, missing_part, parse_failed, or_fail}
use agents_router.Exec.Results.{◌>>=◌, ◌>>◌, or_return}
use agents_router.ProviderCatalog.{slack_app}
use agents_router.ProviderInbound.Types.{
  ProviderInboundNormalizeResult, surface_reply, skip, ProviderInboundSkipReason,
  unsupported_envelope_type, unsupported_event_type, ignored_message_subtype, non_user_message,
  not_surface_reply, empty_reply_text,
}
use agents_router.ProviderInbound.Fields.{optional_field, required_trimmed, ensure_field, is_text}

pub record SlackMessageEvent : Type 0 where
  pub kind : Option String
  pub subtype : Option String
  pub channel : Option String
  pub user : Option String
  pub bot_id : Option String
  pub text : Option String
  pub ts : Option String
  pub thread_ts : Option String

pub record SlackEventCallbackPayload : Type 0 where
  pub kind : Option String
  pub team_id : Option String
  pub event_id : Option String
  pub event : Option SlackMessageEvent

pub record SlackSocketModeEnvelope : Type 0 where
  pub kind : Option String
  pub envelope_id : Option String
  pub payload : Option SlackEventCallbackPayload

abbrev pub other_text : String → String → Option String
other_text taken s = if s == taken then none else some s

-- A field that is another text than the id of the message itself
abbrev pub other_than : Option String → String → Option String
other_than value taken = and_then (optional_field value) (other_text taken)

abbrev pub skip_reply : ProviderInboundSkipReason → Result ProviderInboundNormalizeResult
skip_reply reason = ok (skip reason)

-- The checks from the event on
unfoldable pub normalize_message :
    String → String → String → SlackMessageEvent → Result ProviderInboundNormalizeResult
normalize_message provider_id team_id event_id event =
    if not (is_text (optional_field event.kind) "message")
    then skip_reply unsupported_event_type
    else if is_some (optional_field event.subtype)
    then skip_reply ignored_message_subtype
    else if is_some (optional_field event.bot_id) || not (is_some (optional_field event.user))
    then skip_reply non_user_message
    else do
      reply_message_id ← required_trimmed "slack event.ts" event.ts
      or_return (other_than event.thread_ts reply_message_id) (skip not_surface_reply) λ thread_id.
          or_return (optional_field event.text) (skip empty_reply_text) λ reply_text. do
            channel_id ← required_trimmed "slack event.channel" event.channel
            ok (
                surface_reply (record {
                  provider_id = provider_id;
                  provider_type = "slack";
                  provider_mode = slack_app;
                  provider_account_id = team_id;
                  provider_conversation_id = channel_id;
                  provider_thread_id = thread_id;
                  provider_event_id = event_id;
                  provider_reply_message_id = some reply_message_id;
                  reply_text = reply_text;
                }))

-- The checks from the payload on
unfoldable pub normalize_payload :
    String → SlackEventCallbackPayload → Result ProviderInboundNormalizeResult
normalize_payload provider_id payload =
    if not (is_text (optional_field payload.kind) "event_callback")
    then skip_reply unsupported_event_type
    else do
      event_id ← required_trimmed "slack payload.event_id" payload.event_id
      team_id ← required_trimmed "slack payload.team_id" payload.team_id
      event ← or_fail payload.event (missing_part "event")
      normalize_message provider_id team_id event_id event

unfoldable pub normalize_envelope :
    String → SlackSocketModeEnvelope → Result ProviderInboundNormalizeResult
normalize_envelope provider_id envelope =
    if not (is_text (optional_field envelope.kind) "events_api")
    then skip_reply unsupported_envelope_type
    else do
      _ ← required_trimmed "slack envelope_id" envelope.envelope_id
      payload ← or_fail envelope.payload (missing_part "payload")
      normalize_payload provider_id payload

module _ {Bytes : Type 0} (from_slice : Bytes → Option SlackSocketModeEnvelope) where
  unfoldable pub normalize_slack_socket_mode_surface_reply :
      String → Bytes → Result ProviderInboundNormalizeResult
  normalize_slack_socket_mode_surface_reply provider_id raw_event = do
    ensure_field "provider_id" provider_id
    envelope ← or_fail (from_slice raw_event) parse_failed
    normalize_envelope provider_id envelope
