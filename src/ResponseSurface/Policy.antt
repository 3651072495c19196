-- ===== src/ResponseSurface/Policy.antt =====
-- src/response_surface_policy.rs: whether a delivery may be replied to, when its surface is created
-- and when a reply comes in.
pub mod Allowed
pub mod Agreement
mod Tests
use agents_router.Prelude.{
  String, Bool, true, false, not, ◌&&◌, ◌||◌, Option, none, some, List, [], ◌∷◌, find, any, is_some,
  and_then, ◌==◌, if◌then◌else◌,
}
use agents_router.Prelude.Text.{present}
use agents_router.Config.{SourceType, source_type_name, from_signal_value, RouteConfig}
use agents_router.Signal.{Signal, source_id, source_type}
use agents_router.ProviderCatalog.{
  ProviderMode, is_local, is_available, DeliveryReceiptField, provider_account_id_field,
  provider_conversation_id_field, provider_message_id_field, provider_thread_id_field,
  ProviderModeCapability, response_surface_reply_surfaces, response_surface_delivery_receipt_fields,
  contains_surface, capability_has_field,
}
use agents_router.AgentCatalog
use agents_router.AgentCatalog.Descriptors.{agent_integration_for_source, same_source_type}

pub data ResponseSurfacePolicyCheck : Type 0 where
  surface_creation inbound_continuation : ResponseSurfacePolicyCheck

pub record ResponseSurfacePolicySourceFacts : Type 0 where
  pub source_id : String
  pub source_type : SourceType
  pub source_session_id : Option String

pub data ResponseSurfacePolicySource : Type 0 where
  from_signal : Signal → ResponseSurfacePolicySource
  inbound_surface : ResponseSurfacePolicySourceFacts → ResponseSurfacePolicySource

pub record ResponseSurfaceDeliveryReceipt : Type 0 where
  pub provider_account_id : Option String
  pub provider_conversation_id : Option String
  pub provider_message_id : Option String
  pub provider_thread_id : Option String

pub record ResponseSurfacePolicyInput : Type 0 where
  pub check : ResponseSurfacePolicyCheck
  pub provider : ProviderModeCapability
  pub agent_integration : Option AgentCatalog.AgentIntegrationDescriptor
  pub route : RouteConfig
  pub source : ResponseSurfacePolicySource
  pub delivery_receipt : ResponseSurfaceDeliveryReceipt

pub record ResponseSurfacePolicyAllow : Type 0 where
  pub check : ResponseSurfacePolicyCheck
  pub provider_mode : ProviderMode
  pub agent_integration_id : AgentCatalog.AgentIntegrationId
  pub controller_kind : AgentCatalog.AgentControllerKind
  pub source_session_id : String

pub data ResponseSurfacePolicySkipReason : Type 0 where
  route_replies_disabled provider_inbound_reply_not_local : ResponseSurfacePolicySkipReason
  provider_requires_public_endpoint : ResponseSurfacePolicySkipReason
  provider_stable_event_id_unavailable : ResponseSurfacePolicySkipReason
  provider_reply_surface_unsupported : ResponseSurfacePolicySkipReason
  provider_receipt_field_unsupported : DeliveryReceiptField → ResponseSurfacePolicySkipReason
  agent_integration_not_found agent_integration_source_mismatch : ResponseSurfacePolicySkipReason
  agent_continuation_unsupported agent_continuation_planned : ResponseSurfacePolicySkipReason
  signal_session_id_missing : ResponseSurfacePolicySkipReason
  delivery_receipt_field_missing : DeliveryReceiptField → ResponseSurfacePolicySkipReason

pub data ResponseSurfacePolicyDecision : Type 0 where
  allow : ResponseSurfacePolicyAllow → ResponseSurfacePolicyDecision
  skip : ResponseSurfacePolicySkipReason → ResponseSurfacePolicyDecision

-- `ResponseSurfaceDeliveryReceipt::has_field`
abbrev pub has_field : ResponseSurfaceDeliveryReceipt → DeliveryReceiptField → Bool
has_field r provider_account_id_field = is_some (present r.provider_account_id)
has_field r provider_conversation_id_field = is_some (present r.provider_conversation_id)
has_field r provider_message_id_field = is_some (present r.provider_message_id)
has_field r provider_thread_id_field = is_some (present r.provider_thread_id)

-- The loop over the fields stops at the first one that fails the test.
abbrev pub first_missing : (DeliveryReceiptField → Bool) → Option DeliveryReceiptField
first_missing has = find (λ f. not (has f)) response_surface_delivery_receipt_fields

unfoldable pub agent_integration_matches_source :
    AgentCatalog.AgentIntegrationDescriptor → ResponseSurfacePolicySource → Bool
agent_integration_matches_source d (from_signal s) =
    source_id s == d.source_capability.canonical_source_id
    && source_type s == source_type_name d.source_capability.source_type
agent_integration_matches_source d (inbound_surface f) =
    f.source_id == d.source_capability.canonical_source_id
    && same_source_type f.source_type d.source_capability.source_type

unfoldable pub source_session_id_for_binding :
    ResponseSurfacePolicySource → AgentCatalog.ContinuationSessionBinding → Option String
source_session_id_for_binding (from_signal s) AgentCatalog.signal_conversation_session_id =
    and_then s.conversation (λ c. present c.session_id)
source_session_id_for_binding (inbound_surface f) AgentCatalog.signal_conversation_session_id =
    present f.source_session_id

-- The checks from the session id on
unfoldable pub decide_session :
    ResponseSurfacePolicyInput
    → AgentCatalog.AgentIntegrationId
    → AgentCatalog.ContinuationTarget
    → Option String
    → ResponseSurfacePolicyDecision
decide_session i id target none = skip signal_session_id_missing
decide_session i id target (some session) = elim (first_missing (has_field i.delivery_receipt)) [
  | some f ↦ skip (delivery_receipt_field_missing f)
  | none ↦ allow (record {
    check = i.check;
    provider_mode = i.provider.mode;
    agent_integration_id = id;
    controller_kind = target.controller_kind;
    source_session_id = session;
  })
]

unfoldable pub decide_continuation :
    ResponseSurfacePolicyInput
    → AgentCatalog.AgentIntegrationId
    → AgentCatalog.ContinuationCapability
    → ResponseSurfacePolicyDecision
unfolding decide_session
decide_continuation i id AgentCatalog.unsupported = skip agent_continuation_unsupported
decide_continuation i id (AgentCatalog.planned target) = skip agent_continuation_planned
decide_continuation i id (AgentCatalog.available a) =
    decide_session i id a.target (source_session_id_for_binding i.source a.target.session_binding)

unfoldable pub decide_agent :
    ResponseSurfacePolicyInput
    → Option AgentCatalog.AgentIntegrationDescriptor
    → ResponseSurfacePolicyDecision
decide_agent i none = skip agent_integration_not_found
decide_agent i (some d) =
    if not (agent_integration_matches_source d i.source)
    then skip agent_integration_source_mismatch
    else decide_continuation i d.id d.continuation_capability

unfoldable pub evaluate_response_surface_policy :
    ResponseSurfacePolicyInput → ResponseSurfacePolicyDecision
evaluate_response_surface_policy i =
    let reply = i.provider.inbound_reply in
    if not i.route.response_surface.enabled
    then skip route_replies_disabled
    else if not (is_local reply.mode)
    then skip provider_inbound_reply_not_local
    else if reply.requires_public_endpoint
    then skip provider_requires_public_endpoint
    else if not (is_available reply.stable_event_id)
    then skip provider_stable_event_id_unavailable
    else if not (any (contains_surface response_surface_reply_surfaces) reply.reply_surfaces)
    then skip provider_reply_surface_unsupported
    else elim (first_missing (capability_has_field i.provider.delivery_receipt)) [
      | some f ↦ skip (provider_receipt_field_unsupported f)
      | none ↦ decide_agent i i.agent_integration
    ]

unfoldable pub agent_integration_for_signal :
    Signal → Option AgentCatalog.AgentIntegrationDescriptor
agent_integration_for_signal s =
    and_then (from_signal_value (source_type s)) (agent_integration_for_source (source_id s))

pub agent_integration_for_source_facts :
    ResponseSurfacePolicySourceFacts → Option AgentCatalog.AgentIntegrationDescriptor
agent_integration_for_source_facts f = agent_integration_for_source f.source_id f.source_type

abbrev pub from_catalog :
    ResponseSurfacePolicyCheck
    → ProviderModeCapability
    → RouteConfig
    → Signal
    → ResponseSurfaceDeliveryReceipt
    → ResponseSurfacePolicyInput
from_catalog check provider route signal receipt = record {
  check = check;
  provider = provider;
  agent_integration = agent_integration_for_signal signal;
  route = route;
  source = from_signal signal;
  delivery_receipt = receipt;
}

abbrev pub from_inbound_catalog :
    ProviderModeCapability
    → RouteConfig
    → ResponseSurfacePolicySourceFacts
    → ResponseSurfaceDeliveryReceipt
    → ResponseSurfacePolicyInput
from_inbound_catalog provider route facts receipt = record {
  check = inbound_continuation;
  provider = provider;
  agent_integration = agent_integration_for_source_facts facts;
  route = route;
  source = inbound_surface facts;
  delivery_receipt = receipt;
}
