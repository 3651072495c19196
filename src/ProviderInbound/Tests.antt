-- ===== src/ProviderInbound/Tests.antt =====
-- A reply of Slack that is normalized, handed on and seen again.
use agents_router.ResponseSurface.Events.AtMostOnce.{run}
use agents_router.ProviderInbound.Fields.{required_trimmed, optional_trimmed, ensure_field}
use agents_router.Prelude.{
  any, Option, ℕ, String, ◌≡◌, refl, inl, true, false, none, some, List, [], ◌∷◌, find, ◌==◌,
}
use agents_router.Prelude.Text.{trim, is_blank, hex}
use agents_router.Exec.{ok}
use agents_router.Ledger.{save, commit, ensure_all_present}
use agents_router.ProviderCatalog.{ProviderMode-discrete, slack_app}
use agents_router.BridgeBinding.Records.{ThreadSessionBindingRecord}
use agents_router.ResponseSurface.Records.{default_file}
use agents_router.ResponseSurface.Surfaces.{validate_query}
use agents_router.ResponseSurface.Events.{claim_inbound_event_at, validate_event, claim_found}
use agents_router.ResponseSurface.Fixtures.{b, in_memory, slack_app_mode}
use agents_router.ProviderInbound.Types.{NormalizedProviderSurfaceReply, surface_reply}
use agents_router.ProviderInbound.Slack.{
  normalize_message, normalize_payload, normalize_envelope,
  normalize_slack_socket_mode_surface_reply, SlackSocketModeEnvelope,
}
use agents_router.ProviderInbound.Lark.{FeishuLarkEventEnvelope, FeishuLarkTextContent}
use agents_router.ProviderInbound.Claim.{
  provider_inbound_stable_hash, provider_mode_accepts_local_surface_replies,
  bridge_thread_surface_id, binding_surface, decide_claim, claim_reply,
  lookup_and_claim_provider_thread_session_reply, reply_event, reply_lookup_query,
}
use agents_router.ProviderInbound.Identified.{IsPresent}
use agents_router.ProviderInbound.Identified.Accepted.{normalized_reply_is_accepted}
use agents_router.ProviderInbound.ReadyOnce.{
  Way, through_binding, through_surface, hand_on, is_ready, ready_once,
}

abbrev sha256 : String → List ℕ
sha256 s = 171 ∷ []

abbrev envelope : SlackSocketModeEnvelope
envelope = record {
  kind = some "events_api";
  envelope_id = some "envelope";
  payload = some (record {
    kind = some "event_callback";
    team_id = some "team";
    event_id = some "event";
    event = some (record {
      kind = some "message";
      subtype = none;
      channel = some "channel";
      user = some "user";
      bot_id = none;
      text = some " go on ";
      ts = some "2";
      thread_ts = some "1";
    });
  });
}

abbrev reply : NormalizedProviderSurfaceReply
reply = record {
  provider_id = "slack";
  provider_type = "slack";
  provider_mode = slack_app;
  provider_account_id = "team";
  provider_conversation_id = "channel";
  provider_thread_id = "1";
  provider_event_id = "event";
  provider_reply_message_id = some "2";
  reply_text = "go on";
}

abbrev binding : ThreadSessionBindingRecord
binding = record {
  provider_id = "slack";
  provider_type = "slack";
  provider_account_id = "team";
  provider_conversation_id = "channel";
  provider_thread_id = "1";
  project_path = "/work";
  source_id = "codex_desktop";
  source_type = "codex_desktop";
  source_session_id = "session";
  route_binding_hash = none;
  created_at = 0;
}

abbrev no_lark_event : String → Option FeishuLarkEventEnvelope
no_lark_event s = none

abbrev no_lark_text : String → Option FeishuLarkTextContent
no_lark_text s = none

normalized :
    normalize_slack_socket_mode_surface_reply some "slack" envelope ≡ ok (surface_reply reply)
unfolding normalize_slack_socket_mode_surface_reply normalize_envelope normalize_payload
    normalize_message is_blank trim ensure_field optional_trimmed required_trimmed
normalized = refl

s1_present : IsPresent "s1"
unfolding is_blank
s1_present = refl

normalized_reply_is_accepted_example :
    (validate_query (reply_lookup_query reply) ≡ ok tt)
    × (validate_event (reply_event reply "s1") ≡ ok tt)
    × ((reply.reply_text == "") ≡ false)
normalized_reply_is_accepted_example =
    normalized_reply_is_accepted some no_lark_event no_lark_text "slack" "bot" "s1" envelope ""
      reply (inl normalized) s1_present

abbrev way : Way
way = through_binding slack_app_mode binding

handed_on : is_ready (hand_on b sha256 way reply 7 (in_memory default_file)).0 ≡ true
unfolding hand_on lookup_and_claim_provider_thread_session_reply claim_reply decide_claim
    binding_surface bridge_thread_surface_id provider_mode_accepts_local_surface_replies
    claim_inbound_event_at validate_event ensure_all_present is_blank claim_found commit save find
    provider_inbound_stable_hash hex ProviderMode-discrete any
handed_on = refl

ready_once_example :
    is_ready
      (hand_on b sha256
        (through_surface slack_app_mode)
        (record reply { reply_text = "again" })
        9
        (hand_on b sha256 way reply 7 (in_memory default_file)).1).0
    ≡ false
unfolding hand_on run
ready_once_example =
    ready_once b sha256 way (through_surface slack_app_mode) reply
      (record reply { reply_text = "again" }) 7 9 [] (in_memory default_file) handed_on
      (record { provider = refl; kind = refl; account = refl; conversation = refl; event = refl })
      tt
