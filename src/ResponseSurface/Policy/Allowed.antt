-- ===== src/ResponseSurface/Policy/Allowed.antt =====
-- src/response_surface_policy.rs: what holds of an input that is allowed.
use agents_router.Prelude.{
  String, ◌≡◌, refl, ap, ◌∙◌, Bool, true, not, ◌&&◌, Option, none, some, any, is_some, arith,
  Option-cases, inl, inr,
}
use agents_router.Config.{RouteConfig}
use agents_router.ProviderCatalog.{
  ProviderModeCapability, response_surface_reply_surfaces, contains_surface, capability_has_field,
}
use agents_router.AgentCatalog
use agents_router.ResponseSurface.Policy.{
  ResponseSurfacePolicyInput, ResponseSurfacePolicyAllow, allow, has_field, first_missing, is_local,
  is_available, agent_integration_matches_source, source_session_id_for_binding, decide_session,
  decide_continuation, decide_agent, evaluate_response_surface_policy,
}

-- The checks of the route and of the provider
abbrev pub open_for_replies : ProviderModeCapability → RouteConfig → Bool
open_for_replies p r =
    r.response_surface.enabled
    && is_local p.inbound_reply.mode
    && not p.inbound_reply.requires_public_endpoint
    && is_available p.inbound_reply.stable_event_id
    && any (contains_surface response_surface_reply_surfaces) p.inbound_reply.reply_surfaces
    && not (is_some (first_missing (capability_has_field p.delivery_receipt)))

pub evaluate_open :
    (i : ResponseSurfacePolicyInput)
    → open_for_replies i.provider i.route ≡ true
    → evaluate_response_surface_policy i ≡ decide_agent i i.agent_integration
unfolding evaluate_response_surface_policy
evaluate_open i h = ground arith

pub evaluate_allowed :
    (i : ResponseSurfacePolicyInput) (a : ResponseSurfacePolicyAllow)
    → evaluate_response_surface_policy i ≡ allow a
    → (open_for_replies i.provider i.route ≡ true) × (decide_agent i i.agent_integration ≡ allow a)
unfolding evaluate_response_surface_policy
evaluate_allowed i a h = ground arith

-- What is allowed for an agent and a session
abbrev pub allowance :
    ResponseSurfacePolicyInput
    → AgentCatalog.AgentIntegrationId
    → AgentCatalog.ContinuationTarget
    → String
    → ResponseSurfacePolicyAllow
allowance i id target session = record {
  check = i.check;
  provider_mode = i.provider.mode;
  agent_integration_id = id;
  controller_kind = target.controller_kind;
  source_session_id = session;
}

pub record SessionAllowed (i : ResponseSurfacePolicyInput) (id : AgentCatalog.AgentIntegrationId)
    (target : AgentCatalog.ContinuationTarget) (a : ResponseSurfacePolicyAllow) : Type 0 where
  pub session :
      source_session_id_for_binding i.source target.session_binding ≡ some a.source_session_id
  pub receipt : first_missing (has_field i.delivery_receipt) ≡ none
  pub answer : allowance i id target a.source_session_id ≡ a

decide_session_allowed :
    (i : ResponseSurfacePolicyInput) (id : AgentCatalog.AgentIntegrationId)
    (target : AgentCatalog.ContinuationTarget) (a : ResponseSurfacePolicyAllow) (o : Option String)
    → source_session_id_for_binding i.source target.session_binding ≡ o
    → decide_session i id target o ≡ allow a
    → SessionAllowed i id target a
unfolding decide_session
decide_session_allowed i id target a none e h = ground arith
decide_session_allowed i id target a (some s) e h =
    elim (Option-cases (first_missing (has_field i.delivery_receipt))) [
      | inl missing ↦
          let same : allowance i id target s ≡ a = ground arith in
          record {
            session = e ∙ ap (λ x. some x.source_session_id) same;
            receipt = missing;
            answer = ground arith;
          }
      | inr (f, missing) ↦ ground arith
    ]

-- The agent, its target and the session of an input that is allowed
pub record AgentAllowed (i : ResponseSurfacePolicyInput) (a : ResponseSurfacePolicyAllow)
    : Type 0 where
  pub agent : AgentCatalog.AgentIntegrationDescriptor
  pub found : i.agent_integration ≡ some agent
  pub matches : agent_integration_matches_source agent i.source ≡ true
  pub availability : AgentCatalog.ContinuationAvailability
  pub can_continue : agent.continuation_capability ≡ AgentCatalog.available availability
  pub session_allowed : SessionAllowed i agent.id availability.target a

decide_continuation_allowed :
    (i : ResponseSurfacePolicyInput) (id : AgentCatalog.AgentIntegrationId)
    (c : AgentCatalog.ContinuationCapability) (a : ResponseSurfacePolicyAllow)
    → decide_continuation i id c ≡ allow a
    → (v : AgentCatalog.ContinuationAvailability) × (c ≡ AgentCatalog.available v)
      × SessionAllowed i id v.target a
unfolding decide_continuation
decide_continuation_allowed i id AgentCatalog.unsupported a h = ground arith
decide_continuation_allowed i id (AgentCatalog.planned t) a h = ground arith
decide_continuation_allowed i id (AgentCatalog.available v) a h =
    (v, refl, decide_session_allowed i id v.target a _ refl h)

decide_agent_allowed :
    (i : ResponseSurfacePolicyInput) (o : Option AgentCatalog.AgentIntegrationDescriptor)
    (a : ResponseSurfacePolicyAllow)
    → i.agent_integration ≡ o
    → decide_agent i o ≡ allow a
    → AgentAllowed i a
unfolding decide_agent
decide_agent_allowed i none a e h = ground arith
decide_agent_allowed i (some d) a e h =
    let matches : agent_integration_matches_source d i.source ≡ true = ground arith in
    let continued : decide_continuation i d.id d.continuation_capability ≡ allow a = ground arith in
    let (v, c, s) = decide_continuation_allowed i d.id d.continuation_capability a continued in
    record {
      agent = d;
      found = e;
      matches = matches;
      availability = v;
      can_continue = c;
      session_allowed = s;
    }

pub allowed_agent :
    (i : ResponseSurfacePolicyInput) (a : ResponseSurfacePolicyAllow)
    → evaluate_response_surface_policy i ≡ allow a
    → AgentAllowed i a
allowed_agent i a h = decide_agent_allowed i i.agent_integration a refl (evaluate_allowed i a h).1

session_allows :
    (i : ResponseSurfacePolicyInput) (id : AgentCatalog.AgentIntegrationId)
    (target : AgentCatalog.ContinuationTarget) (a : ResponseSurfacePolicyAllow)
    → SessionAllowed i id target a
    → decide_session i id target (some a.source_session_id) ≡ allow a
unfolding decide_session
session_allows i id target a w = ground (arith, w.receipt, w.answer)

matching_agent :
    (i : ResponseSurfacePolicyInput) (d : AgentCatalog.AgentIntegrationDescriptor)
    → agent_integration_matches_source d i.source ≡ true
    → decide_agent i (some d) ≡ decide_continuation i d.id d.continuation_capability
unfolding decide_agent
matching_agent i d h = ground arith

-- The converse: these facts allow the input.
pub agent_allows :
    (i : ResponseSurfacePolicyInput) (a : ResponseSurfacePolicyAllow)
    → open_for_replies i.provider i.route ≡ true
    → AgentAllowed i a
    → evaluate_response_surface_policy i ≡ allow a
unfolding decide_continuation
agent_allows i a o w =
    evaluate_open i o
    ∙ ap (decide_agent i) w.found
    ∙ matching_agent i w.agent w.matches
    ∙ ap (decide_continuation i w.agent.id) w.can_continue
    ∙ ap (decide_session i w.agent.id w.availability.target) w.session_allowed.session
    ∙ session_allows i w.agent.id w.availability.target a w.session_allowed
