-- ===== src/ResponseSurface/Runtime/Tests.antt =====
-- Runs of the creation of a surface after a delivery.
use agents_router.Prelude.{
  ℕ, String, ◌≡◌, refl, true, none, some, List, [], ◌∷◌, find, any, is_some,
}
use agents_router.Prelude.Text.{present, is_blank, hex}
use agents_router.Exec.{ok}
use agents_router.Ledger.{commit, save}
use agents_router.Config.{from_signal_value}
use agents_router.ProviderCatalog.{slack_app}
use agents_router.AgentCatalog.Descriptors.{
  agent_integration_descriptors, agent_integration_for_source, serves_source, same_source_type,
}
use agents_router.ResponseSurface.Records.{ResponseSurfaceRecord, default_file, hit, open_status}
use agents_router.ResponseSurface.Fixtures.{
  b, in_memory, desktop_signal, open_route, slack_app_mode,
}
use agents_router.ResponseSurface.Surfaces.{
  create_surface_at, create_or_return, new_surface, validate_new_surface, lookup_surface_at,
  from_surface,
}
use agents_router.Ledger.{ensure_all_present}
use agents_router.ResponseSurface.Policy.{
  agent_integration_matches_source, source_session_id_for_binding, decide_session,
  decide_continuation, decide_agent, agent_integration_for_signal, evaluate_response_surface_policy,
}
use agents_router.ResponseSurface.Runtime.{
  ResponseSurfaceDeliveryFacts, created, new_response_surface, create_requested, create_allowed,
  RouteJson, create_response_surface_after_delivery_inner, response_surface_route_binding_hash,
}
use agents_router.ResponseSurface.Runtime.Created.{
  facts, receipt_thread, creation_never_panics, created_after_delivery_is_found,
}

abbrev json : RouteJson
json = record { to_vec = λ route. some "{}"; serializes = λ route. refl }

abbrev sha256 : String → List ℕ
sha256 s = 171 ∷ []

abbrev surface : ResponseSurfaceRecord
surface = record {
  surface_id = "s1";
  signal_id = "signal";
  delivery_id = "delivery";
  source_id = "codex_desktop";
  source_type = "codex_desktop";
  source_session_id = "session";
  source_turn_id = some "turn";
  provider_id = "slack";
  provider_type = "slack";
  provider_mode = slack_app;
  provider_account_id = "account";
  provider_conversation_id = "conversation";
  provider_message_id = "message";
  provider_thread_id = "thread";
  route_binding_hash = some "ab";
  status = open_status;
  created_at = 7;
}

abbrev delivered : ResponseSurfaceDeliveryFacts
delivered = facts "delivery" "slack" "account" "conversation" "message" "thread"

creation_never_panics_example :
    is_some
      (create_response_surface_after_delivery_inner json sha256 b desktop_signal open_route
        slack_app_mode delivered 7 none "s1"
        (in_memory default_file)).0
    ≡ true
creation_never_panics_example =
    creation_never_panics json sha256 b desktop_signal open_route slack_app_mode delivered 7 none
      "s1" (in_memory default_file)

creation_lem :
    (create_response_surface_after_delivery_inner json sha256 b desktop_signal open_route
      slack_app_mode delivered 7 none "s1"
      (in_memory default_file)).0
    ≡ some (ok (created surface))
unfolding evaluate_response_surface_policy any find decide_agent agent_integration_matches_source
    decide_continuation source_session_id_for_binding decide_session present is_blank
    agent_integration_for_signal from_signal_value agent_integration_for_source serves_source
    same_source_type agent_integration_descriptors create_response_surface_after_delivery_inner
    create_allowed create_requested new_response_surface response_surface_route_binding_hash hex
    create_surface_at create_or_return new_surface validate_new_surface ensure_all_present commit
    save
creation_lem = refl

created_after_delivery_is_found_example :
    (lookup_surface_at b
      (receipt_thread "slack" "account" "conversation" "thread")
      (create_response_surface_after_delivery_inner json sha256 b desktop_signal open_route
        slack_app_mode delivered 7 none "s1"
        (in_memory default_file)).1).0
    ≡ ok (hit (from_surface surface))
created_after_delivery_is_found_example =
    created_after_delivery_is_found json sha256 b desktop_signal open_route slack_app_mode
      "delivery" "slack" "account" "conversation" "message" "thread" 7 none "s1"
      (in_memory default_file) surface tt creation_lem
