-- ===== src/ResponseSurface/Runtime.antt =====
-- src/response_surface_runtime.rs: the surface that is created after a delivery. `json` stands for
-- serde_json, and `sha256` for the sha2 crate, in the hash of the route.
pub mod Created
mod Tests
use agents_router.Prelude.{
  ℕ, String, Bool, true, false, not, ◌||◌, Option, none, some, List, [], ◌∷◌, any, and_then, ◌==◌,
  ◌≡◌, is_some, if◌then◌else◌,
}
use agents_router.Prelude.Paths.{starts_with}
use agents_router.Prelude.Options.{◌>>=◌}
use agents_router.Prelude.Text.{hex}
use agents_router.Exec.{Result, ok, err}
use agents_router.Ledger.{Ledger, Backend}
use agents_router.Signal.{Signal, source_id, source_type}
use agents_router.Config.{RouteConfig, ResponseSurfaceRouteConfig, provider_type_name}
use agents_router.ProviderCatalog.{ProviderModeCapability}
use agents_router.AgentCatalog.{AgentIntegrationDescriptor}
use agents_router.ResponseSurface.Records.{
  ResponseSurfaceLedgerFile, ResponseSurfaceRecord, NewResponseSurface,
}
use agents_router.ResponseSurface.Surfaces.{create_surface_at}
use agents_router.ResponseSurface.Policy.{
  ResponseSurfaceDeliveryReceipt, ResponseSurfacePolicyInput, ResponseSurfacePolicyAllow,
  ResponseSurfacePolicyDecision, allow, skip, ResponseSurfacePolicySkipReason, surface_creation,
  from_signal, agent_integration_for_signal, evaluate_response_surface_policy,
}

pub record ResponseSurfaceDeliveryFacts : Type 0 where
  pub delivery_id : String
  pub provider_id : String
  pub receipt : ResponseSurfaceDeliveryReceipt

pub data ResponseSurfaceCreationDecision : Type 0 where
  created : ResponseSurfaceRecord → ResponseSurfaceCreationDecision
  skipped : ResponseSurfacePolicySkipReason → ResponseSurfaceCreationDecision

-- `Option::or_else`
abbrev pub or_else {ℓ} : {A : Type ℓ} → Option A → Option A → Option A
or_else none o = o
or_else (some a) o = some a

abbrev is_disabled : ResponseSurfaceRouteConfig → Bool
is_disabled response_surface = not response_surface.enabled

-- The test of a project against the project paths of a route, none of which stands for every project
unfoldable pub allows_project : List String → String → Bool
allows_project [] project_path = true
allows_project (p ∷ ps) project_path =
    any (λ allowed_path. starts_with project_path allowed_path) (p ∷ ps)

unfoldable pub route_allows_response_surface_project : RouteConfig → String → String → String → Bool
unfolding allows_project
route_allows_response_surface_project route source_id provider_id project_path =
    if not (any (λ source. source == source_id) route.sources)
      || not (any (λ provider. provider == provider_id) route.providers)
      || is_disabled route.response_surface
    then false
    else allows_project route.only_forward_from_project_paths project_path

-- serde_json on the object that is made of the fields of a route, whose keys are texts: a value of this
-- kind always serializes.
pub record RouteJson : Type 0 where
  pub to_vec : RouteConfig → Option String
  pub serializes : (route : RouteConfig) → is_some (to_vec route) ≡ true

module _ (json : RouteJson) (sha256 : String → List ℕ) where
  -- `none` stands for a panic of the `expect` on the serialized route.
  pub response_surface_route_binding_hash : RouteConfig → Option String
  response_surface_route_binding_hash route = do raw ← json.to_vec route; some (hex (sha256 raw))

  -- The argument of `create_surface_at`; `none` stands for a panic of one of the four `expect`s on the
  -- receipt, or of the one behind the hash of the route.
  pub new_response_surface :
      Signal
      → RouteConfig
      → ProviderModeCapability
      → ResponseSurfaceDeliveryFacts
      → ResponseSurfacePolicyAllow
      → Option NewResponseSurface
  unfolding response_surface_route_binding_hash
  new_response_surface signal route provider delivery a = do
    account ← delivery.receipt.provider_account_id
    conversation ← delivery.receipt.provider_conversation_id
    message ← delivery.receipt.provider_message_id
    thread ← delivery.receipt.provider_thread_id
    hash ← response_surface_route_binding_hash route
    some (record {
      signal_id = signal.id;
      delivery_id = delivery.delivery_id;
      source_id = source_id signal;
      source_type = source_type signal;
      source_session_id = a.source_session_id;
      source_turn_id = and_then signal.conversation (λ c. c.turn_id);
      provider_id = delivery.provider_id;
      provider_type = provider_type_name provider.provider_type;
      provider_mode = a.provider_mode;
      provider_account_id = account;
      provider_conversation_id = conversation;
      provider_message_id = message;
      provider_thread_id = thread;
      route_binding_hash = some hash;
    })

  abbrev pub creation_input :
      Signal
      → RouteConfig
      → ProviderModeCapability
      → ResponseSurfaceDeliveryFacts
      → Option AgentIntegrationDescriptor
      → ResponseSurfacePolicyInput
  creation_input signal route provider delivery override = record {
    check = surface_creation;
    provider = provider;
    agent_integration = or_else override (agent_integration_for_signal signal);
    route = route;
    source = from_signal signal;
    delivery_receipt = delivery.receipt;
  }

  module _ {Raw : Type 0} (b : Backend ResponseSurfaceLedgerFile Raw) where
    abbrev pub Ran : Type 0
    Ran = Option (Result ResponseSurfaceCreationDecision) × Ledger ResponseSurfaceLedgerFile Raw

    abbrev created_result : Result ResponseSurfaceRecord → Result ResponseSurfaceCreationDecision
    created_result (ok r) = ok (created r)
    created_result (err e) = err e

    -- `none` stands for a panic.
    pub create_requested :
        Option NewResponseSurface → ℕ → String → Ledger ResponseSurfaceLedgerFile Raw → Ran
    create_requested none now surface_id l = (none, l)
    create_requested (some i) now surface_id l = (
      some (created_result (create_surface_at b i now surface_id l).0),
      (create_surface_at b i now surface_id l).1,
    )

    pub create_allowed :
        Signal
        → RouteConfig
        → ProviderModeCapability
        → ResponseSurfaceDeliveryFacts
        → ℕ
        → String
        → ResponseSurfacePolicyDecision
        → Ledger ResponseSurfaceLedgerFile Raw
        → Ran
    create_allowed signal route provider delivery now surface_id (skip reason) l =
        (some (ok (skipped reason)), l)
    create_allowed signal route provider delivery now surface_id (allow a) l =
        create_requested (new_response_surface signal route provider delivery a) now surface_id l

    pub create_response_surface_after_delivery_inner :
        Signal
        → RouteConfig
        → ProviderModeCapability
        → ResponseSurfaceDeliveryFacts
        → ℕ
        → Option AgentIntegrationDescriptor
        → String
        → Ledger ResponseSurfaceLedgerFile Raw
        → Ran
    create_response_surface_after_delivery_inner signal route provider delivery now override
          surface_id =
        create_allowed signal route provider delivery now surface_id (
          evaluate_response_surface_policy (creation_input signal route provider delivery override))

    pub create_response_surface_after_delivery :
        Signal
        → RouteConfig
        → ProviderModeCapability
        → ResponseSurfaceDeliveryFacts
        → ℕ
        → String
        → Ledger ResponseSurfaceLedgerFile Raw
        → Ran
    unfolding create_response_surface_after_delivery_inner
    create_response_surface_after_delivery signal route provider delivery now =
        create_response_surface_after_delivery_inner signal route provider delivery now none
