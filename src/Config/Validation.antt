-- ===== src/Config/Validation.antt =====
-- src/config.rs: a configuration as it is written, and its validation. `panicked` also stands for a
-- lookup of a catalog that has not the entry.
use agents_router.Prelude.{
  ℕ, suc, String, Bool, true, false, not, ◌&&◌, Option, none, some, is_some, List, [], ◌∷◌, any,
  find, map, eqb, ◌==◌, if◌then◌else◌,
}
use agents_router.Config.{
  SourceType, source_type_name, agents_router_source, agent_hook_source, codex_desktop_source,
  codex_cli_source, claude_code_source, provider_type_name, RouteConfig, checked_mul,
  is_clean_absolute_project_path,
}
use agents_router.AgentCatalog.{AgentIntegrationId, codex_cli, claude_code}
use agents_router.AgentCatalog.Sources.{agent_integration_descriptor}
use agents_router.NotificationDetailPolicy.{rejects_full_answer, rejects_prompt_detail}
use agents_router.Config.Checked.{
  ConfigError, unsupported_config_schema, duplicate_source_id, duplicate_provider_id,
  unknown_route_source, unknown_route_provider, invalid_source_id_for_type,
  invalid_minimum_task_duration, minimum_task_duration_too_large, invalid_route_project_path,
  prompt_detail_not_supported, answer_detail_not_supported, panicked, Checked, accepted, ◌>>=◌,
  ◌>>◌, required, refuse_if,
}
use agents_router.Config.Providers.{RawProviderConfig, ProviderConfig}
use agents_router.ProviderUrls.{UrlParser}
use agents_router.Config.RawProviders.{to_validated}

pub data CliLanguage : Type 0 where
  english simplified_chinese : CliLanguage

pub record CliConfig : Type 0 where
  pub language : CliLanguage

pub record LogConfig : Type 0 where
  pub level : String

pub data AnswerDetail : Type 0 where
  preview full : AnswerDetail

pub data PromptDetail : Type 0 where
  off on : PromptDetail

pub record NotificationConfig : Type 0 where
  pub answer_detail : AnswerDetail
  pub prompt_detail : PromptDetail

pub record SourceConfig : Type 0 where
  pub id : String
  pub source_type : SourceType

pub record RawConfig : Type 0 where
  pub schema_version : ℕ
  pub cli : CliConfig
  pub log : LogConfig
  pub notification : NotificationConfig
  pub sources : List SourceConfig
  pub providers : List RawProviderConfig
  pub routes : List RouteConfig

pub record ValidatedConfig : Type 0 where
  pub schema_version : ℕ
  pub cli : CliConfig
  pub log : LogConfig
  pub notification : NotificationConfig
  pub sources : List SourceConfig
  pub providers : List ProviderConfig
  pub routes : List RouteConfig

abbrev pub config_schema_version : ℕ
config_schema_version = 1

-- `HashSet::contains`
unfoldable pub contains_id : List String → String → Bool
contains_id ids id = any (λ other. other == id) ids

pub record CanonicalSourceIdRequirement : Type 0 where
  pub agent : AgentIntegrationId
  pub reason : String

abbrev pub canonical_source_id_requirement : SourceType → Option CanonicalSourceIdRequirement
canonical_source_id_requirement agents_router_source = none
canonical_source_id_requirement agent_hook_source = none
canonical_source_id_requirement codex_desktop_source = none
canonical_source_id_requirement codex_cli_source =
    some (record { agent = codex_cli; reason = "Codex CLI has one global Stop hook" })
canonical_source_id_requirement claude_code_source =
    some (record { agent = claude_code; reason = "Claude Code has one global settings file" })

unfoldable pub check_requirement :
    SourceConfig → Option CanonicalSourceIdRequirement → Checked (Unit {0})
check_requirement s none = accepted tt
check_requirement s (some requirement) = do
  d ← required panicked (agent_integration_descriptor requirement.agent)
  refuse_if (not (s.id == d.source_capability.canonical_source_id)) (
      invalid_source_id_for_type s.id (source_type_name s.source_type)
        d.source_capability.canonical_source_id requirement.reason)

-- `SourceConfig::validate`
unfoldable pub validate_source : SourceConfig → Checked (Unit {0})
unfolding check_requirement
validate_source s = check_requirement s (canonical_source_id_requirement s.source_type)

-- The loops over the sources and over the providers, with the ids that were inserted so far
unfoldable pub check_sources : List String → List SourceConfig → Checked (Unit {0})
unfolding validate_source contains_id
check_sources ids [] = accepted tt
check_sources ids (s ∷ ss) = do
  refuse_if (contains_id ids s.id) (duplicate_source_id s.id)
  validate_source s
  check_sources (s.id ∷ ids) ss

unfoldable pub check_provider_ids : List String → List RawProviderConfig → Checked (Unit {0})
unfolding contains_id
check_provider_ids ids [] = accepted tt
check_provider_ids ids (p ∷ ps) = do
  refuse_if (contains_id ids p.id) (duplicate_provider_id p.id)
  check_provider_ids (p.id ∷ ids) ps

-- `map(to_validated)`, collected up to the first error
unfoldable pub validate_providers :
    UrlParser → List RawProviderConfig → Checked (List ProviderConfig)
unfolding to_validated
validate_providers parse [] = accepted []
validate_providers parse (p ∷ ps) = do
  validated ← to_validated parse p
  rest ← validate_providers parse ps
  accepted (validated ∷ rest)

unfoldable pub check_known : (String → ConfigError) → List String → List String → Checked (Unit {0})
unfolding contains_id
check_known problem ids [] = accepted tt
check_known problem ids (id ∷ more) = do
  refuse_if (not (contains_id ids id)) (problem id)
  check_known problem ids more

unfoldable pub check_duration : ℕ → Option ℕ → Checked (Unit {0})
check_duration route_index none = accepted tt
check_duration route_index (some minutes) = do
  refuse_if (eqb minutes 0) (invalid_minimum_task_duration route_index)
  refuse_if (not (is_some (checked_mul minutes 60000)))
      (minimum_task_duration_too_large route_index)

unfoldable pub check_paths : ℕ → List String → Checked (Unit {0})
check_paths route_index [] = accepted tt
check_paths route_index (path ∷ paths) = do
  refuse_if (not (is_clean_absolute_project_path path))
      (invalid_route_project_path route_index path)
  check_paths route_index paths

unfoldable pub validate_filters : ℕ → RouteConfig → Checked (Unit {0})
unfolding check_duration check_paths
validate_filters route_index route = do
  check_duration route_index route.minimum_task_duration_minutes
  check_paths route_index route.only_forward_from_project_paths

unfoldable pub check_routes : List String → List String → ℕ → List RouteConfig → Checked (Unit {0})
unfolding check_known validate_filters
check_routes source_ids provider_ids route_index [] = accepted tt
check_routes source_ids provider_ids route_index (route ∷ routes) = do
  check_known unknown_route_source source_ids route.sources
  check_known unknown_route_provider provider_ids route.providers
  validate_filters route_index route
  check_routes source_ids provider_ids (suc route_index) routes

abbrev pub is_full : AnswerDetail → Bool
is_full full = true
is_full preview = false

abbrev pub is_on : PromptDetail → Bool
is_on on = true
is_on off = false

unfoldable pub check_answer_detail : AnswerDetail → RawProviderConfig → Checked (Unit {0})
check_answer_detail preview provider = accepted tt
check_answer_detail full provider = do
  rejected ← required panicked (rejects_full_answer provider.provider_type)
  refuse_if rejected
      (answer_detail_not_supported provider.id (provider_type_name provider.provider_type))

unfoldable pub check_prompt_detail : PromptDetail → RawProviderConfig → Checked (Unit {0})
check_prompt_detail off provider = accepted tt
check_prompt_detail on provider = do
  rejected ← required panicked (rejects_prompt_detail provider.provider_type)
  refuse_if rejected
      (prompt_detail_not_supported provider.id (provider_type_name provider.provider_type))

unfoldable pub check_provider_detail :
    NotificationConfig → Option RawProviderConfig → Checked (Unit {0})
unfolding check_answer_detail check_prompt_detail
check_provider_detail n none = accepted tt
check_provider_detail n (some provider) = do
  check_answer_detail n.answer_detail provider
  check_prompt_detail n.prompt_detail provider

abbrev pub has_id : String → RawProviderConfig → Bool
has_id id p = p.id == id

unfoldable pub check_details :
    NotificationConfig → List RawProviderConfig → List String → Checked (Unit {0})
unfolding check_provider_detail
check_details n providers [] = accepted tt
check_details n providers (id ∷ ids) = do
  check_provider_detail n (find (has_id id) providers)
  check_details n providers ids

unfoldable pub check_route_details :
    NotificationConfig → List RawProviderConfig → List RouteConfig → Checked (Unit {0})
unfolding check_details
check_route_details n providers [] = accepted tt
check_route_details n providers (route ∷ routes) = do
  check_details n providers route.providers
  check_route_details n providers routes

unfoldable pub validate_notification_provider_compatibility : RawConfig → Checked (Unit {0})
unfolding check_route_details
validate_notification_provider_compatibility raw =
    if not (is_full raw.notification.answer_detail) && not (is_on raw.notification.prompt_detail)
    then accepted tt
    else check_route_details raw.notification raw.providers raw.routes

abbrev pub source_ids : List SourceConfig → List String
source_ids ss = map (λ s. s.id) ss

abbrev pub raw_provider_ids : List RawProviderConfig → List String
raw_provider_ids ps = map (λ p. p.id) ps

unfoldable pub validate : UrlParser → RawConfig → Checked ValidatedConfig
unfolding check_sources check_provider_ids validate_providers check_routes
    validate_notification_provider_compatibility
validate parse raw = do
  refuse_if (not (eqb raw.schema_version config_schema_version))
      (unsupported_config_schema raw.schema_version config_schema_version)
  check_sources [] raw.sources
  check_provider_ids [] raw.providers
  providers ← validate_providers parse raw.providers
  check_routes (source_ids raw.sources) (raw_provider_ids raw.providers) 0 raw.routes
  validate_notification_provider_compatibility raw
  accepted (record {
    schema_version = raw.schema_version;
    cli = raw.cli;
    log = raw.log;
    notification = raw.notification;
    sources = raw.sources;
    providers = providers;
    routes = raw.routes;
  })

abbrev pub provider_ids : List ProviderConfig → List String
provider_ids ps = map (λ p. p.id) ps

-- `ValidatedConfig::source` and `ValidatedConfig::provider`
unfoldable pub source : ValidatedConfig → String → Option SourceConfig
source v id = find (λ s. s.id == id) v.sources

unfoldable pub provider : ValidatedConfig → String → Option ProviderConfig
provider v id = find (λ p. p.id == id) v.providers
