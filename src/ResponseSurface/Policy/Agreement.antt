-- ===== src/ResponseSurface/Policy/Agreement.antt =====
-- src/response_surface_policy.rs: the check of a reply agrees with the check at the surface's
-- creation.
use agents_router.Prelude.{
  String, ◌≡◌, ap, ◌∙◌, true, Option, none, some, and_then, find-holds, arith, eq_iff,
}
use agents_router.Prelude.Text.{present}
use agents_router.Config.{source_type_name, from_signal_value, RouteConfig}
use agents_router.Signal.{Signal, source_id, source_type}
use agents_router.ProviderCatalog.{ProviderModeCapability}
use agents_router.AgentCatalog
use agents_router.AgentCatalog.Descriptors.{
  agent_integration_descriptors, agent_integration_for_source, serves_source, same_source_type,
}
use agents_router.ResponseSurface.Policy.{
  ResponseSurfacePolicyAllow, ResponseSurfacePolicySourceFacts, ResponseSurfaceDeliveryReceipt,
  allow, inbound_continuation, surface_creation, from_signal, inbound_surface,
  agent_integration_matches_source, source_session_id_for_binding, agent_integration_for_signal,
  agent_integration_for_source_facts, evaluate_response_surface_policy, from_catalog,
  from_inbound_catalog,
}
use agents_router.ResponseSurface.Policy.Allowed.{allowed_agent, agent_allows, evaluate_allowed}

present_again : (o : Option String) (s : String) → present o ≡ some s → present (some s) ≡ some s
unfolding present
present_again none s h = ground arith
present_again (some t) s h = ground arith

session_again :
    (signal : Signal) (facts : ResponseSurfacePolicySourceFacts)
    (binding : AgentCatalog.ContinuationSessionBinding) (s : String)
    → source_session_id_for_binding (from_signal signal) binding ≡ some s
    → facts.source_session_id ≡ some s
    → source_session_id_for_binding (inbound_surface facts) binding ≡ some s
unfolding source_session_id_for_binding
session_again signal facts AgentCatalog.signal_conversation_session_id s h e =
    ap present e ∙ again signal.conversation (λ c. c.session_id) s h
  where
    again :
        {C : Type 0} (o : Option C) (f : C → Option String) (s : String)
        → and_then o (λ c. present (f c)) ≡ some s
        → present (some s) ≡ some s
    again none f s h = ground arith
    again (some c) f s h = present_again (f c) s h

-- A descriptor that the catalog finds for a source matches the facts of that source.
found_matches :
    (facts : ResponseSurfacePolicySourceFacts) (d : AgentCatalog.AgentIntegrationDescriptor)
    → agent_integration_for_source_facts facts ≡ some d
    → agent_integration_matches_source d (inbound_surface facts) ≡ true
unfolding agent_integration_for_source_facts agent_integration_matches_source
    agent_integration_for_source serves_source same_source_type
found_matches facts d h = ground (
  arith,
  find-holds (serves_source facts.source_id facts.source_type) agent_integration_descriptors d h,
  eq_iff d.source_capability.canonical_source_id facts.source_id,
  eq_iff facts.source_id d.source_capability.canonical_source_id,
  eq_iff (source_type_name d.source_capability.source_type) (source_type_name facts.source_type),
  eq_iff (source_type_name facts.source_type) (source_type_name d.source_capability.source_type),
)

same_agent :
    (signal : Signal) (facts : ResponseSurfacePolicySourceFacts)
    → facts.source_id ≡ source_id signal
    → from_signal_value (source_type signal) ≡ some facts.source_type
    → agent_integration_for_source_facts facts ≡ agent_integration_for_signal signal
unfolding agent_integration_for_source_facts agent_integration_for_signal
same_agent signal facts e t = ground arith

abbrev continued : ResponseSurfacePolicyAllow → ResponseSurfacePolicyAllow
continued a = record a { check = inbound_continuation }

-- A delivery that may get a surface may also be replied to: if the policy allows the creation for a
-- signal, it allows the continuation for the same provider, route and receipt, from the source that
-- the surface keeps, its type read from the signal's, with the same agent and session.
pub creation_allows_continuation :
    (provider : ProviderModeCapability) (route : RouteConfig) (signal : Signal)
    (receipt : ResponseSurfaceDeliveryReceipt) (facts : ResponseSurfacePolicySourceFacts)
    (a : ResponseSurfacePolicyAllow)
    → evaluate_response_surface_policy (from_catalog surface_creation provider route signal receipt)
      ≡ allow a
    → facts.source_id ≡ source_id signal
    → from_signal_value (source_type signal) ≡ some facts.source_type
    → facts.source_session_id ≡ some a.source_session_id
    → evaluate_response_surface_policy (from_inbound_catalog provider route facts receipt)
      ≡ allow (record a { check = inbound_continuation })
creation_allows_continuation provider route signal receipt facts a h e t s =
    let i = from_catalog surface_creation provider route signal receipt in
    let w = allowed_agent i a h in
    let found = same_agent signal facts e t ∙ w.found in
    let session = w.session_allowed in
    agent_allows (from_inbound_catalog provider route facts receipt)
      (record a { check = inbound_continuation }) (evaluate_allowed i a h).0
      (record {
        agent = w.agent;
        found = found;
        matches = found_matches facts w.agent found;
        availability = w.availability;
        can_continue = w.can_continue;
        session_allowed = record {
          session =
              session_again signal facts w.availability.target.session_binding a.source_session_id
                session.session s;
          receipt = session.receipt;
          answer = ap continued session.answer;
        };
      })
