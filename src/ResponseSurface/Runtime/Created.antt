-- ===== src/ResponseSurface/Runtime/Created.antt =====
-- src/response_surface_runtime.rs: creating a surface after a delivery does not panic, and what it
-- creates is found by the thread of the delivery's receipt.
use agents_router.Prelude.{
  ℕ, String, ◌≡◌, refl, ap, ◌∙◌, true, Option, none, some, List, find, arith, is_some, inl, inr,
}
use agents_router.Prelude.Text.{present}
use agents_router.Exec.{ok}
use agents_router.Ledger.{Ledger, Backend}
use agents_router.Ledger.Laws.{Result-cases}
use agents_router.Signal.{Signal}
use agents_router.Config.{RouteConfig}
use agents_router.ProviderCatalog.{ProviderModeCapability}
use agents_router.AgentCatalog.{AgentIntegrationDescriptor}
use agents_router.ResponseSurface.Records.{
  ResponseSurfaceLedgerFile, ResponseSurfaceRecord, NewResponseSurface, ResponseSurfaceLookupQuery,
  hit,
}
use agents_router.ResponseSurface.Surfaces.{create_surface_at, lookup_surface_at, from_surface}
use agents_router.ResponseSurface.Surfaces.Threads.{IsOrdered, thread_of_input}
use agents_router.ResponseSurface.Surfaces.Binding.{create_then_lookup}
use agents_router.ResponseSurface.Policy.{
  ResponseSurfaceDeliveryReceipt, ResponseSurfacePolicyAllow, ResponseSurfacePolicyDecision, allow,
  skip, has_field, first_missing, evaluate_response_surface_policy,
}
use agents_router.ResponseSurface.Policy.Allowed.{allowed_agent}
use agents_router.ResponseSurface.Runtime.{
  RouteJson, response_surface_route_binding_hash, ResponseSurfaceDeliveryFacts, created,
  new_response_surface, creation_input, create_requested, create_allowed,
  create_response_surface_after_delivery_inner,
}

absent_not_present : (o : Option String) → o ≡ none → present o ≡ none
unfolding present
absent_not_present o h = ground arith

-- A complete receipt has a value in each field.
complete_receipt :
    (r : ResponseSurfaceDeliveryReceipt)
    → first_missing (has_field r) ≡ none
    → (is_some r.provider_account_id ≡ true)
      × (is_some r.provider_conversation_id ≡ true)
      × (is_some r.provider_message_id ≡ true)
      × (is_some r.provider_thread_id ≡ true)
unfolding find
complete_receipt r h = ground (
  arith,
  absent_not_present r.provider_account_id,
  absent_not_present r.provider_conversation_id,
  absent_not_present r.provider_message_id,
  absent_not_present r.provider_thread_id,
)

-- What is known of a delivery whose receipt is complete
abbrev pub facts :
    String → String → String → String → String → String → ResponseSurfaceDeliveryFacts
facts delivery_id provider_id account conversation message thread = record {
  delivery_id = delivery_id;
  provider_id = provider_id;
  receipt = record {
    provider_account_id = some account;
    provider_conversation_id = some conversation;
    provider_message_id = some message;
    provider_thread_id = some thread;
  };
}

abbrev pub receipt_thread : String → String → String → String → ResponseSurfaceLookupQuery
receipt_thread provider_id account conversation thread = record {
  provider_id = provider_id;
  provider_account_id = account;
  provider_conversation_id = conversation;
  provider_thread_id = thread;
}

module _ (json : RouteJson) (sha256 : String → List ℕ) where
  complete_request :
      (signal : Signal) (route : RouteConfig) (provider : ProviderModeCapability)
      (delivery : ResponseSurfaceDeliveryFacts) (a : ResponseSurfacePolicyAllow)
      → first_missing (has_field delivery.receipt) ≡ none
      → is_some (new_response_surface json sha256 signal route provider delivery a) ≡ true
  unfolding new_response_surface response_surface_route_binding_hash
  complete_request signal route provider delivery a h =
      ground (arith, complete_receipt delivery.receipt h, json.serializes route)

  module _ {Raw : Type 0} (b : Backend ResponseSurfaceLedgerFile Raw) where
    requested_runs :
        (o : Option NewResponseSurface) (now : ℕ) (id : String)
        (l : Ledger ResponseSurfaceLedgerFile Raw)
        → is_some o ≡ true
        → is_some (create_requested json sha256 b o now id l).0 ≡ true
    unfolding create_requested
    requested_runs none now id l h = ground arith
    requested_runs (some i) now id l h = refl

    allowed_runs :
        (signal : Signal) (route : RouteConfig) (provider : ProviderModeCapability)
        (delivery : ResponseSurfaceDeliveryFacts) (now : ℕ)
        (override : Option AgentIntegrationDescriptor) (id : String)
        (d : ResponseSurfacePolicyDecision) (l : Ledger ResponseSurfaceLedgerFile Raw)
        → evaluate_response_surface_policy
            (creation_input json sha256 signal route provider delivery override)
          ≡ d
        → is_some (create_allowed json sha256 b signal route provider delivery now id d l).0 ≡ true
    unfolding create_allowed
    allowed_runs signal route provider delivery now override id (skip reason) l h = refl
    allowed_runs signal route provider delivery now override id (allow a) l h =
        let i = creation_input json sha256 signal route provider delivery override in
        requested_runs _ now id l (
          complete_request signal route provider delivery a
            (allowed_agent i a h).session_allowed.receipt)

    -- Creating a surface after a delivery never panics: no `expect` meets an absent value, neither the
    -- four on the fields of the receipt nor the one on the serialized route.
    pub creation_never_panics :
        (signal : Signal) (route : RouteConfig) (provider : ProviderModeCapability)
        (delivery : ResponseSurfaceDeliveryFacts) (now : ℕ)
        (override : Option AgentIntegrationDescriptor) (id : String)
        (l : Ledger ResponseSurfaceLedgerFile Raw)
        → is_some
            (create_response_surface_after_delivery_inner json sha256 b signal route provider
              delivery now override id l).0
          ≡ true
    unfolding create_response_surface_after_delivery_inner
    creation_never_panics signal route provider delivery now override id l =
        allowed_runs signal route provider delivery now override id _ l refl

    requested_found :
        (i : NewResponseSurface) (now : ℕ) (id : String) (l : Ledger ResponseSurfaceLedgerFile Raw)
        (r : ResponseSurfaceRecord)
        → IsOrdered l.state.surfaces
        → (create_requested json sha256 b (some i) now id l).0 ≡ some (ok (created r))
        → (lookup_surface_at b
            (thread_of_input i)
            (create_requested json sha256 b (some i) now id l).1).0
          ≡ ok (hit (from_surface r))
    unfolding create_requested
    requested_found i now id l r o h = elim (Result-cases (create_surface_at b i now id l).0) [
      | inl (s, e) ↦
          let same : s ≡ r = ground arith in create_then_lookup b i now id l r o (e ∙ ap ok same)
      | inr (x, e) ↦ ground arith
    ]

    requested_at :
        (q : ResponseSurfaceLookupQuery) (request : Option NewResponseSurface)
        → ((i : NewResponseSurface) → request ≡ some i → thread_of_input i ≡ q)
        → (now : ℕ) (id : String) (l : Ledger ResponseSurfaceLedgerFile Raw)
          (r : ResponseSurfaceRecord)
        → IsOrdered l.state.surfaces
        → (create_requested json sha256 b request now id l).0 ≡ some (ok (created r))
        → (lookup_surface_at b q (create_requested json sha256 b request now id l).1).0
          ≡ ok (hit (from_surface r))
    unfolding create_requested
    requested_at q none at now id l r o h = ground arith
    requested_at q (some i) at now id l r o h = rw (← at i refl) (requested_found i now id l r o h)

    module _ (signal : Signal) (route : RouteConfig) (provider : ProviderModeCapability)
        (delivery_id provider_id account conversation message thread : String) where
      request_thread :
          (a : ResponseSurfacePolicyAllow) (i : NewResponseSurface)
          → new_response_surface json sha256 signal route provider
              (facts delivery_id provider_id account conversation message thread)
              a
            ≡ some i
          → thread_of_input i ≡ receipt_thread provider_id account conversation thread
      unfolding new_response_surface
      request_thread a i e = ground arith

      allowed_found :
          (now : ℕ) (id : String) (d : ResponseSurfacePolicyDecision)
          (l : Ledger ResponseSurfaceLedgerFile Raw) (r : ResponseSurfaceRecord)
          → IsOrdered l.state.surfaces
          → (create_allowed json sha256 b signal route provider
              (facts delivery_id provider_id account conversation message thread)
              now
              id
              d
              l).0
            ≡ some (ok (created r))
          → (lookup_surface_at b
              (receipt_thread provider_id account conversation thread)
              (create_allowed json sha256 b signal route provider
                (facts delivery_id provider_id account conversation message thread)
                now
                id
                d
                l).1).0
            ≡ ok (hit (from_surface r))
      unfolding create_allowed
      allowed_found now id (skip reason) l r o h = ground arith
      allowed_found now id (allow a) l r o h =
          requested_at (receipt_thread provider_id account conversation thread) _ (request_thread a)
            now id l r o h

      -- Where each active surface is the last one of its thread, the surface that is created after a
      -- delivery is the one that a lookup of the thread of the delivery's receipt finds.
      pub created_after_delivery_is_found :
          (now : ℕ) (override : Option AgentIntegrationDescriptor) (id : String)
          (l : Ledger ResponseSurfaceLedgerFile Raw) (r : ResponseSurfaceRecord)
          → IsOrdered l.state.surfaces
          → (create_response_surface_after_delivery_inner json sha256 b signal route provider
              (facts delivery_id provider_id account conversation message thread)
              now
              override
              id
              l).0
            ≡ some (ok (created r))
          → (lookup_surface_at b
              (receipt_thread provider_id account conversation thread)
              (create_response_surface_after_delivery_inner json sha256 b signal route provider
                (facts delivery_id provider_id account conversation message thread)
                now
                override
                id
                l).1).0
            ≡ ok (hit (from_surface r))
      unfolding create_response_surface_after_delivery_inner
      created_after_delivery_is_found now override id l r o h = allowed_found now id _ l r o h
