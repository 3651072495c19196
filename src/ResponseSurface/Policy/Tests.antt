-- ===== src/ResponseSurface/Policy/Tests.antt =====
-- Runs of the policy on a signal of the desktop agent.
use agents_router.Prelude.{◌≡◌, refl, some, find, any}
use agents_router.Prelude.Text.{present, is_blank}
use agents_router.Config.{codex_desktop_source, from_signal_value}
use agents_router.ProviderCatalog.{slack_app}
use agents_router.AgentCatalog
use agents_router.AgentCatalog.Descriptors.{
  agent_integration_descriptors, agent_integration_for_source, serves_source, same_source_type,
}
use agents_router.ResponseSurface.Fixtures.{desktop_signal, open_route, slack_app_mode}
use agents_router.ResponseSurface.Policy.{
  ResponseSurfacePolicySourceFacts, ResponseSurfaceDeliveryReceipt, ResponseSurfacePolicyAllow,
  allow, surface_creation, inbound_continuation, agent_integration_matches_source,
  source_session_id_for_binding, decide_session, decide_continuation, decide_agent,
  agent_integration_for_signal, evaluate_response_surface_policy, from_catalog,
  from_inbound_catalog,
}
use agents_router.ResponseSurface.Policy.Agreement.{creation_allows_continuation}

abbrev receipt : ResponseSurfaceDeliveryReceipt
receipt = record {
  provider_account_id = some "account";
  provider_conversation_id = some "conversation";
  provider_message_id = some "message";
  provider_thread_id = some "thread";
}

abbrev facts : ResponseSurfacePolicySourceFacts
facts = record {
  source_id = "codex_desktop";
  source_type = codex_desktop_source;
  source_session_id = some "session";
}

abbrev allowance : ResponseSurfacePolicyAllow
allowance = record {
  check = surface_creation;
  provider_mode = slack_app;
  agent_integration_id = AgentCatalog.codex_desktop;
  controller_kind = AgentCatalog.codex_app_server;
  source_session_id = "session";
}

creation_allowed :
    evaluate_response_surface_policy
      (from_catalog surface_creation slack_app_mode open_route desktop_signal receipt)
    ≡ allow allowance
unfolding evaluate_response_surface_policy any find decide_agent agent_integration_matches_source
    decide_continuation source_session_id_for_binding decide_session present is_blank
    agent_integration_for_signal from_signal_value agent_integration_for_source serves_source
    same_source_type agent_integration_descriptors
creation_allowed = refl

creation_allows_continuation_example :
    evaluate_response_surface_policy (from_inbound_catalog slack_app_mode open_route facts receipt)
    ≡ allow (record allowance { check = inbound_continuation })
unfolding from_signal_value
creation_allows_continuation_example =
    creation_allows_continuation slack_app_mode open_route desktop_signal receipt facts allowance
      creation_allowed refl refl refl
