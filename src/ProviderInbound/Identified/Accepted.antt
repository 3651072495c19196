-- ===== src/ProviderInbound/Identified/Accepted.antt =====
-- src/provider_inbound.rs: the ledger accepts the replies that come out of events.
use agents_router.Prelude.{String, ◌≡◌, subst, ◌⊎◌, inl, inr, false, Option, arith, ◌==◌}
use agents_router.Exec.{Result, ok}
use agents_router.Ledger.{ensure_all_present}
use agents_router.ResponseSurface.Surfaces.{validate_query}
use agents_router.ResponseSurface.Events.{validate_event}
use agents_router.ProviderInbound.Types.{
  NormalizedProviderSurfaceReply, ProviderInboundNormalizeResult, surface_reply,
}
use agents_router.ProviderInbound.Slack.{
  SlackSocketModeEnvelope, normalize_slack_socket_mode_surface_reply,
}
use agents_router.ProviderInbound.Lark.{
  FeishuLarkEventEnvelope, FeishuLarkTextContent,
  normalize_feishu_lark_long_connection_surface_reply,
}
use agents_router.ProviderInbound.Claim.{reply_lookup_query, reply_event}
use agents_router.ProviderInbound.Identified.{
  IsPresent, IsIdentified, Yields, replied, left, failed, slack_identified, lark_identified,
}

yielded :
    (m : Result ProviderInboundNormalizeResult) (r : NormalizedProviderSurfaceReply)
    → Yields m
    → m ≡ ok (surface_reply r)
    → IsIdentified r
yielded _ r (replied {r = r'} h) e = let same : r' ≡ r = ground arith in subst IsIdentified same h
yielded _ r (left reason) e = ground arith
yielded _ r (failed x) e = ground arith

identified_query :
    (r : NormalizedProviderSurfaceReply)
    → IsIdentified r
    → validate_query (reply_lookup_query r) ≡ ok tt
unfolding validate_query ensure_all_present
identified_query r h = ground arith

identified_event :
    (r : NormalizedProviderSurfaceReply) (surface_id : String)
    → IsIdentified r
    → IsPresent surface_id
    → validate_event (reply_event r surface_id) ≡ ok tt
unfolding validate_event ensure_all_present
identified_event r surface_id h s = ground arith

-- The ledger accepts every reply that comes out of an event of Slack or of Feishu and Lark: a lookup
-- of its thread is a valid query, and its claim for any surface that has an id is a valid input; the
-- text of the reply is not empty.
pub normalized_reply_is_accepted :
    {Bytes Payload : Type 0} (from_slack : Bytes → Option SlackSocketModeEnvelope)
    (from_lark : Payload → Option FeishuLarkEventEnvelope)
    (from_str : String → Option FeishuLarkTextContent) (provider_id bot_open_id surface_id : String)
    (raw : Bytes) (event : Payload) (r : NormalizedProviderSurfaceReply)
    → (normalize_slack_socket_mode_surface_reply from_slack provider_id raw ≡ ok (surface_reply r))
      ⊎ (normalize_feishu_lark_long_connection_surface_reply from_str from_lark provider_id
            bot_open_id event
          ≡ ok (surface_reply r))
    → IsPresent surface_id
    → (validate_query (reply_lookup_query r) ≡ ok tt)
      × (validate_event (reply_event r surface_id) ≡ ok tt)
      × ((r.reply_text == "") ≡ false)
normalized_reply_is_accepted from_slack from_lark from_str provider_id bot_open_id surface_id raw
      event r (inl e) s =
    let h = yielded _ r (slack_identified from_slack provider_id raw) e in
    (identified_query r h, identified_event r surface_id h s, h.text)
normalized_reply_is_accepted from_slack from_lark from_str provider_id bot_open_id surface_id raw
      event r (inr e) s =
    let h = yielded _ r (lark_identified from_str from_lark provider_id bot_open_id event) e in
    (identified_query r h, identified_event r surface_id h s, h.text)
