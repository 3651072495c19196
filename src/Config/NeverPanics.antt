-- ===== src/Config/NeverPanics.antt =====
-- src/config.rs: no lookup of a catalog and no `expect` of the validation fails.
use agents_router.Prelude.{◌≡◌, ◌≢◌, find}
use agents_router.Config.{ntfy}
use agents_router.AgentCatalog.Sources.{every_agent_has_its_source}
use agents_router.Config.Safe.{
  Safe, is_accepted, not_panicked, Safe->>=, Safe->>, refuse_if-Safe, if-Safe, to_validated-Safe,
}
use agents_router.Prelude.{ℕ, suc, String, Option, none, some, List, [], ◌∷◌, find}
use agents_router.Config.{ProviderType, RouteConfig}
use agents_router.AgentCatalog.{AgentIntegrationId}
use agents_router.AgentCatalog.Sources.{agent_integration_descriptor}
use agents_router.NotificationDetailPolicy.{rejects_full_answer, rejects_prompt_detail}
use agents_router.Config.Checked.{
  unknown_route_source, unknown_route_provider, panicked, refused, required,
}
use agents_router.Config.Providers.{RawProviderConfig}
use agents_router.ProviderUrls.{UrlParser}
use agents_router.Config.Validation.{
  NotificationConfig, SourceConfig, RawConfig, CanonicalSourceIdRequirement, check_requirement,
  validate_source, check_sources, check_provider_ids, validate_providers, check_known,
  check_duration, check_paths, validate_filters, check_routes, AnswerDetail, PromptDetail, preview,
  full, off, on, check_answer_detail, check_prompt_detail, check_provider_detail, check_details,
  check_route_details, validate_notification_provider_compatibility, validate,
}

known-Safe : {A : Type 0} (o : Option A) (a : A) → o ≡ some a → Safe (required panicked o)
known-Safe o a e = rw e (is_accepted a)

descriptor-Safe :
    (id : AgentIntegrationId) → Safe (required panicked (agent_integration_descriptor id))
descriptor-Safe id =
    let (d, e, same, source) = every_agent_has_its_source id in
    known-Safe (agent_integration_descriptor id) d e

full_answer-Safe : (t : ProviderType) → Safe (required panicked (rejects_full_answer t))
unfolding rejects_full_answer find
full_answer-Safe ntfy = is_accepted _
full_answer-Safe t = is_accepted _

prompt_detail-Safe : (t : ProviderType) → Safe (required panicked (rejects_prompt_detail t))
unfolding rejects_prompt_detail find
prompt_detail-Safe ntfy = is_accepted _
prompt_detail-Safe t = is_accepted _

check_requirement-Safe :
    (s : SourceConfig) (o : Option CanonicalSourceIdRequirement) → Safe (check_requirement s o)
unfolding check_requirement
check_requirement-Safe s none = is_accepted tt
check_requirement-Safe s (some r) = search (descriptor-Safe, Safe->>=, refuse_if-Safe)

check_sources-Safe : (ids : List String) (ss : List SourceConfig) → Safe (check_sources ids ss)
unfolding check_sources validate_source
check_sources-Safe ids [] = is_accepted tt
check_sources-Safe ids (s ∷ ss) =
    search (Safe->>, refuse_if-Safe, check_requirement-Safe, check_sources-Safe (s.id ∷ ids) ss)

check_provider_ids-Safe :
    (ids : List String) (ps : List RawProviderConfig) → Safe (check_provider_ids ids ps)
unfolding check_provider_ids
check_provider_ids-Safe ids [] = is_accepted tt
check_provider_ids-Safe ids (p ∷ ps) =
    search (Safe->>, refuse_if-Safe, check_provider_ids-Safe (p.id ∷ ids) ps)

validate_providers-Safe :
    (parse : UrlParser) (ps : List RawProviderConfig) → Safe (validate_providers parse ps)
unfolding validate_providers
validate_providers-Safe parse [] = is_accepted []
validate_providers-Safe parse (p ∷ ps) =
    search (Safe->>=, to_validated-Safe, is_accepted, validate_providers-Safe parse ps)

known_source-Safe : (ids more : List String) → Safe (check_known unknown_route_source ids more)
unfolding check_known
known_source-Safe ids [] = is_accepted tt
known_source-Safe ids (id ∷ more) = search (Safe->>, refuse_if-Safe, known_source-Safe ids more)

known_provider-Safe : (ids more : List String) → Safe (check_known unknown_route_provider ids more)
unfolding check_known
known_provider-Safe ids [] = is_accepted tt
known_provider-Safe ids (id ∷ more) = search (Safe->>, refuse_if-Safe, known_provider-Safe ids more)

check_paths-Safe : (n : ℕ) (paths : List String) → Safe (check_paths n paths)
unfolding check_paths
check_paths-Safe n [] = is_accepted tt
check_paths-Safe n (path ∷ paths) = search (Safe->>, refuse_if-Safe, check_paths-Safe n paths)

check_duration-Safe : (n : ℕ) (o : Option ℕ) → Safe (check_duration n o)
unfolding check_duration
check_duration-Safe n none = is_accepted tt
check_duration-Safe n (some m) = search (Safe->>, refuse_if-Safe)

check_routes-Safe :
    (sources providers : List String) (n : ℕ) (routes : List RouteConfig)
    → Safe (check_routes sources providers n routes)
unfolding check_routes validate_filters
check_routes-Safe sources providers n [] = is_accepted tt
check_routes-Safe sources providers n (route ∷ routes) =
    search
      (
        Safe->>,
        known_source-Safe,
        known_provider-Safe,
        check_duration-Safe,
        check_paths-Safe,
        check_routes-Safe sources providers (suc n) routes,
      )
      depth 12

check_answer_detail-Safe :
    (a : AnswerDetail) (p : RawProviderConfig) → Safe (check_answer_detail a p)
unfolding check_answer_detail
check_answer_detail-Safe preview p = is_accepted tt
check_answer_detail-Safe full p = search (full_answer-Safe, Safe->>=, refuse_if-Safe)

check_prompt_detail-Safe :
    (d : PromptDetail) (p : RawProviderConfig) → Safe (check_prompt_detail d p)
unfolding check_prompt_detail
check_prompt_detail-Safe off p = is_accepted tt
check_prompt_detail-Safe on p = search (prompt_detail-Safe, Safe->>=, refuse_if-Safe)

check_provider_detail-Safe :
    (n : NotificationConfig) (o : Option RawProviderConfig) → Safe (check_provider_detail n o)
unfolding check_provider_detail
check_provider_detail-Safe n none = is_accepted tt
check_provider_detail-Safe n (some p) =
    search (Safe->>, check_answer_detail-Safe, check_prompt_detail-Safe)

check_details-Safe :
    (n : NotificationConfig) (ps : List RawProviderConfig) (ids : List String)
    → Safe (check_details n ps ids)
unfolding check_details
check_details-Safe n ps [] = is_accepted tt
check_details-Safe n ps (id ∷ ids) =
    search (Safe->>, check_provider_detail-Safe, check_details-Safe n ps ids)

check_route_details-Safe :
    (n : NotificationConfig) (ps : List RawProviderConfig) (routes : List RouteConfig)
    → Safe (check_route_details n ps routes)
unfolding check_route_details
check_route_details-Safe n ps [] = is_accepted tt
check_route_details-Safe n ps (route ∷ routes) =
    search (Safe->>, check_details-Safe, check_route_details-Safe n ps routes)

validate-Safe : (parse : UrlParser) (raw : RawConfig) → Safe (validate parse raw)
unfolding validate validate_notification_provider_compatibility
validate-Safe parse raw =
    search
      (
        Safe->>=, Safe->>, refuse_if-Safe, if-Safe, check_sources-Safe, check_provider_ids-Safe,
        validate_providers-Safe, check_routes-Safe, check_route_details-Safe, is_accepted,
      )
      depth 16

-- The validation of a configuration never panics: the lookups of the catalogs find their entries, and
-- the variable of a URL is there where it is expected.
pub validation_never_panics :
    (parse : UrlParser) (raw : RawConfig) → validate parse raw ≢ refused panicked
validation_never_panics parse raw = not_panicked (validate parse raw) (validate-Safe parse raw)
