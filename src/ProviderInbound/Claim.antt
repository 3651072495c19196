-- ===== src/ProviderInbound/Claim.antt =====
-- src/provider_inbound.rs: a reply is looked up by its thread and claimed in the ledger of the
-- surfaces. `sha256` stands for the sha2 crate.
use agents_router.Prelude.{
  ℕ, String, Bool, not, ◌&&◌, none, List, [], ◌∷◌, any, is_yes, ◌==◌, if◌then◌else◌,
}
use agents_router.Prelude.Text.{concat, hex}
use agents_router.Exec.{
  Exec, ok, provider_mode_mismatch, provider_type_mismatch, thread_binding_mismatch, ensure, ◌>>=◌,
  ◌>>◌,
}
use agents_router.Ledger.{Ledger, Backend}
use agents_router.Config.{provider_type_name}
use agents_router.ProviderCatalog.{
  ProviderMode-discrete, ProviderModeCapability, response_surface_reply_surfaces, contains_surface,
  is_local, is_available,
}
use agents_router.BridgeBinding.Records.{ThreadSessionBindingRecord, ThreadBindingQuery}
use agents_router.ResponseSurface.Records.{
  ResponseSurfaceLookupQuery, ResponseSurfaceLookupRecord, ResponseSurfaceLookupResult, hit, miss,
  closed, InboundEventDedupInput, InboundEventClaimDecision, claimed, already_processing,
  duplicate_processed, ResponseSurfaceLedgerFile, open_status,
}
use agents_router.ResponseSurface.Surfaces.{lookup_surface_at}
use agents_router.ResponseSurface.Events.{claim_inbound_event_at}
use agents_router.ProviderInbound.Types.{
  NormalizedProviderSurfaceReply, ProviderInboundDecision, ready, skipped,
  unsupported_provider_mode, surface_lookup_miss, surface_closed, duplicate_event,
  event_already_processing,
}

abbrev pub reply_lookup_query : NormalizedProviderSurfaceReply → ResponseSurfaceLookupQuery
reply_lookup_query r = record {
  provider_id = r.provider_id;
  provider_account_id = r.provider_account_id;
  provider_conversation_id = r.provider_conversation_id;
  provider_thread_id = r.provider_thread_id;
}

abbrev pub reply_event : NormalizedProviderSurfaceReply → String → InboundEventDedupInput
reply_event r surface_id = record {
  provider_id = r.provider_id;
  provider_type = r.provider_type;
  provider_account_id = r.provider_account_id;
  provider_conversation_id = r.provider_conversation_id;
  provider_event_id = r.provider_event_id;
  surface_id = surface_id;
}

unfoldable pub provider_mode_accepts_local_surface_replies : ProviderModeCapability → Bool
provider_mode_accepts_local_surface_replies provider =
    is_local provider.inbound_reply.mode
    && not provider.inbound_reply.requires_public_endpoint
    && is_available provider.inbound_reply.stable_event_id
    && any (contains_surface response_surface_reply_surfaces) provider.inbound_reply.reply_surfaces

abbrev pub thread_binding_query_for_reply : NormalizedProviderSurfaceReply → ThreadBindingQuery
thread_binding_query_for_reply r = record {
  provider_id = r.provider_id;
  provider_type = r.provider_type;
  provider_account_id = r.provider_account_id;
  provider_conversation_id = r.provider_conversation_id;
  provider_thread_id = r.provider_thread_id;
}

unfoldable binding_matches_reply :
    ThreadSessionBindingRecord → NormalizedProviderSurfaceReply → Bool
binding_matches_reply binding r =
    binding.provider_id == r.provider_id
    && binding.provider_type == r.provider_type
    && binding.provider_account_id == r.provider_account_id
    && binding.provider_conversation_id == r.provider_conversation_id
    && binding.provider_thread_id == r.provider_thread_id

module _ (sha256 : String → List ℕ) where
  unfoldable pub provider_inbound_stable_hash : String → String
  provider_inbound_stable_hash value = hex (sha256 value)

  unfoldable pub bridge_thread_surface_id : ThreadSessionBindingRecord → String
  unfolding provider_inbound_stable_hash
  bridge_thread_surface_id b = concat (
      "bridge-thread-"
      ∷ provider_inbound_stable_hash (
          concat (
            "v=1\nprovider.id=" ∷ b.provider_id ∷ "\nprovider.type=" ∷ b.provider_type
            ∷ "\nprovider.account.id=" ∷ b.provider_account_id ∷ "\nprovider.conversation.id="
            ∷ b.provider_conversation_id ∷ "\nprovider.thread.id=" ∷ b.provider_thread_id
            ∷ "\nsource.id=" ∷ b.source_id ∷ "\nsource.type=" ∷ b.source_type
            ∷ "\nsource.session.id=" ∷ b.source_session_id ∷ "\n" ∷ []))
      ∷ [])

-- The `match` on the claim
unfoldable pub decide_claim :
    NormalizedProviderSurfaceReply
    → ResponseSurfaceLookupRecord
    → InboundEventClaimDecision
    → ProviderInboundDecision
decide_claim reply surface (claimed hash) =
    ready (record { reply = reply; surface = surface; provider_event_id_hash = hash })
decide_claim reply surface (already_processing hash surface_id status) =
    skipped (event_already_processing surface_id)
decide_claim reply surface (duplicate_processed hash surface_id status) =
    skipped (duplicate_event surface_id)

-- The surface that stands for a thread that is bound with no surface
unfoldable pub binding_surface :
    String → ProviderModeCapability → ThreadSessionBindingRecord → ResponseSurfaceLookupRecord
binding_surface surface_id provider b = record {
  surface_id = surface_id;
  signal_id = "bridge-thread-binding";
  delivery_id = "bridge-thread-binding";
  source_id = b.source_id;
  source_type = b.source_type;
  source_session_id = b.source_session_id;
  source_turn_id = none;
  provider_id = b.provider_id;
  provider_type = b.provider_type;
  provider_mode = provider.mode;
  provider_account_id = b.provider_account_id;
  provider_conversation_id = b.provider_conversation_id;
  provider_message_id = b.provider_thread_id;
  provider_thread_id = b.provider_thread_id;
  route_binding_hash = b.route_binding_hash;
  status = open_status;
}

module _ {Raw : Type 0} (b : Backend ResponseSurfaceLedgerFile Raw) (sha256 : String → List ℕ) where
  abbrev pub InboundLedger : Type 0
  InboundLedger = Ledger ResponseSurfaceLedgerFile Raw

  -- The claim of a reply for a surface, and what is made of it
  unfoldable pub claim_reply :
      NormalizedProviderSurfaceReply
      → ResponseSurfaceLookupRecord
      → ℕ
      → Exec InboundLedger ProviderInboundDecision
  claim_reply reply surface now = do
    claim ← claim_inbound_event_at b sha256 (reply_event reply surface.surface_id) now
    λ (l : InboundLedger). (ok (decide_claim reply surface claim), l)

  unfoldable pub claim_looked_up :
      NormalizedProviderSurfaceReply
      → ℕ
      → ResponseSurfaceLookupResult
      → Exec InboundLedger ProviderInboundDecision
  claim_looked_up reply now (hit surface) l = claim_reply reply surface now l
  claim_looked_up reply now miss l = (ok (skipped surface_lookup_miss), l)
  claim_looked_up reply now (closed surface_id) l = (ok (skipped (surface_closed surface_id)), l)

  -- The two checks that both ways of a reply begin with
  ensure_same_provider :
      ProviderModeCapability → NormalizedProviderSurfaceReply → Exec InboundLedger (Unit {0})
  ensure_same_provider provider reply = do
    ensure (is_yes (ProviderMode-discrete provider.mode reply.provider_mode)) provider_mode_mismatch
    ensure (provider_type_name provider.provider_type == reply.provider_type) provider_type_mismatch

  unfoldable pub lookup_and_claim_provider_surface_reply :
      ProviderModeCapability
      → NormalizedProviderSurfaceReply
      → ℕ
      → Exec InboundLedger ProviderInboundDecision
  unfolding ensure_same_provider
  lookup_and_claim_provider_surface_reply provider reply now = do
    ensure_same_provider provider reply
    λ (l : InboundLedger).
        if not (provider_mode_accepts_local_surface_replies provider)
        then (ok (skipped (unsupported_provider_mode provider.mode)), l)
        else (lookup_surface_at b (reply_lookup_query reply) >>= claim_looked_up reply now) l

  unfoldable pub lookup_and_claim_provider_thread_session_reply :
      ProviderModeCapability
      → ThreadSessionBindingRecord
      → NormalizedProviderSurfaceReply
      → ℕ
      → Exec InboundLedger ProviderInboundDecision
  unfolding ensure_same_provider binding_matches_reply
  lookup_and_claim_provider_thread_session_reply provider binding reply now = do
    ensure_same_provider provider reply
    ensure (binding_matches_reply binding reply) thread_binding_mismatch
    λ (l : InboundLedger).
        if not (provider_mode_accepts_local_surface_replies provider)
        then (ok (skipped (unsupported_provider_mode provider.mode)), l)
        else claim_reply reply
            (binding_surface (bridge_thread_surface_id sha256 binding) provider binding) now l
