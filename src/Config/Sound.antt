-- ===== src/Config/Sound.antt =====
-- src/config.rs: what holds of every configuration that is validated.
use agents_router.Prelude.{◌≡◌, ◌∙◌, refl, sym, ap, All, All-map, arith}
use agents_router.Config.{minimum_task_duration_ms}
use agents_router.Prelude.{
  ℕ, suc, String, true, not, Option, is_some, List, [], ◌∷◌, any, find, eqb, ◌==◌,
}
use agents_router.Config.{RouteConfig, is_clean_absolute_project_path}
use agents_router.Config.Checked.{
  unsupported_config_schema, unknown_route_source, unknown_route_provider, accepted, refuse_if,
}
use agents_router.Config.Providers.{ProviderConfig}
use agents_router.ProviderUrls.{UrlParser}
use agents_router.Config.Validation.{
  SourceConfig, RawConfig, ValidatedConfig, config_schema_version, contains_id, check_sources,
  check_provider_ids, validate_providers, check_known, check_duration, validate_filters,
  check_routes, validate_notification_provider_compatibility, source_ids, raw_provider_ids,
  provider_ids, source, provider, validate,
}
use agents_router.Config.Loops.{
  distinct, Fits, both_accepted, value_accepted, sources_fresh, providers_fresh, same_ids, known,
  clean, fits,
}

abbrev pub Known : {A : Type 0} → (String → Option A) → List String → Type 0
Known look_up ids = All (λ id. is_some (look_up id) ≡ true) ids

pub record IsSound (v : ValidatedConfig) : Type 0 where
  pub sources_distinct : distinct (source_ids v.sources) ≡ true
  pub providers_distinct : distinct (provider_ids v.providers) ≡ true
  pub sources_known : All (λ route. Known (source v) route.sources) v.routes
  pub providers_known : All (λ route. Known (provider v) route.providers) v.routes
  pub paths_clean :
      All
        (λ route.
          All
            (λ path. is_clean_absolute_project_path path ≡ true)
            route.only_forward_from_project_paths)
        v.routes

-- What the loop over the routes checks, with the ids of the configuration
record IsRouted (ids : List String × List String) (route : RouteConfig) : Type 0 where
  sources_in : All (λ id. contains_id ids.0 id ≡ true) route.sources
  providers_in : All (λ id. contains_id ids.1 id ≡ true) route.providers
  paths : All (λ p. is_clean_absolute_project_path p ≡ true) route.only_forward_from_project_paths
  fitting : Fits route.minimum_task_duration_minutes (minimum_task_duration_ms route)

routed :
    (sources providers : List String) (n : ℕ) (routes : List RouteConfig)
    → check_routes sources providers n routes ≡ accepted tt
    → All (IsRouted (sources, providers)) routes
unfolding check_routes validate_filters minimum_task_duration_ms
routed sources providers n [] e = tt
routed sources providers n (route ∷ routes) e =
    let (s, more) = both_accepted (check_known unknown_route_source sources route.sources) _ tt e in
    let (p, rest) =
      both_accepted (check_known unknown_route_provider providers route.providers) _ tt more in
    let (filters, last) = both_accepted (validate_filters n route) _ tt rest in
    let (duration, path) =
      both_accepted (check_duration n route.minimum_task_duration_minutes) _ tt filters in
    (
      record {
        sources_in = known unknown_route_source sources route.sources s;
        providers_in = known unknown_route_provider providers route.providers p;
        paths = clean n route.only_forward_from_project_paths path;
        fitting = fits n route.minimum_task_duration_minutes duration;
      },
      routed sources providers (suc n) routes last,
    )

source_found :
    (ss : List SourceConfig) (id : String)
    → contains_id (source_ids ss) id ≡ is_some (find (λ s. s.id == id) ss)
unfolding contains_id any find
source_found [] id = refl
source_found (s ∷ ss) id = ground (arith, source_found ss id)

provider_found :
    (ps : List ProviderConfig) (id : String)
    → contains_id (provider_ids ps) id ≡ is_some (find (λ p. p.id == id) ps)
unfolding contains_id any find
provider_found [] id = refl
provider_found (p ∷ ps) id = ground (arith, provider_found ps id)

-- The steps of a validation that succeeds
pub record IsChecked (parse : UrlParser) (raw : RawConfig) (v : ValidatedConfig) : Type 0 where
  sources : check_sources [] raw.sources ≡ accepted tt
  providers : check_provider_ids [] raw.providers ≡ accepted tt
  pub validated : validate_providers parse raw.providers ≡ accepted v.providers
  routes :
      check_routes (source_ids raw.sources) (raw_provider_ids raw.providers) 0 raw.routes
      ≡ accepted tt
  same_sources : v.sources ≡ raw.sources
  same_routes : v.routes ≡ raw.routes

pub checked :
    (parse : UrlParser) (raw : RawConfig) (v : ValidatedConfig)
    → validate parse raw ≡ accepted v
    → IsChecked parse raw v
unfolding validate
checked parse raw v e =
    let (version, e1) =
      both_accepted
        (refuse_if (not (eqb raw.schema_version config_schema_version))
          (unsupported_config_schema raw.schema_version config_schema_version))
        _ v e in
    let (sources, e2) = both_accepted (check_sources [] raw.sources) _ v e1 in
    let (providers, e3) = both_accepted (check_provider_ids [] raw.providers) _ v e2 in
    let (vs, validated, e4) = value_accepted (validate_providers parse raw.providers) _ v e3 in
    let (routes, e5) =
      both_accepted
        (check_routes (source_ids raw.sources) (raw_provider_ids raw.providers) 0 raw.routes) _ v
        e4 in
    let (details, e6) = both_accepted (validate_notification_provider_compatibility raw) _ v e5 in
    let same : v.providers ≡ vs = ground arith in
    record {
      sources = sources;
      providers = providers;
      validated = validated ∙ ap accepted (sym same);
      routes = routes;
      same_sources = ground arith;
      same_routes = ground arith;
    }

every_route_checked :
    (parse : UrlParser) (raw : RawConfig) (v : ValidatedConfig)
    → IsChecked parse raw v
    → All (IsRouted (source_ids v.sources, provider_ids v.providers)) v.routes
every_route_checked parse raw v c =
    rw (c.same_routes, c.same_sources, same_ids parse raw.providers v.providers c.validated)
      (routed (source_ids raw.sources) (raw_provider_ids raw.providers) 0 raw.routes c.routes)

-- In a configuration that is validated, the ids of the sources are distinct, and so are those of the
-- providers, every source and provider that a route names is found, and the project paths of the
-- routes are clean and absolute.
pub validated_config-IsSound :
    (parse : UrlParser) (raw : RawConfig) (v : ValidatedConfig)
    → validate parse raw ≡ accepted v
    → IsSound v
unfolding source provider
validated_config-IsSound parse raw v e =
    let c = checked parse raw v e in
    let rs = every_route_checked parse raw v c in
    record {
      sources_distinct = rw c.same_sources (sources_fresh [] raw.sources c.sources).0;
      providers_distinct =
          rw (same_ids parse raw.providers v.providers c.validated)
            (providers_fresh [] raw.providers c.providers).0;
      sources_known =
          All-map
            (λ route r.
              All-map (λ id h. sym (source_found v.sources id) ∙ h) route.sources r.sources_in)
            v.routes rs;
      providers_known =
          All-map
            (λ route r.
              All-map (λ id h. sym (provider_found v.providers id) ∙ h) route.providers
                r.providers_in)
            v.routes rs;
      paths_clean = All-map (λ route r. r.paths) v.routes rs;
    }

-- In a configuration that is validated, the minimum duration of each route is positive, and its
-- milliseconds are computed, with no overflow of 64 bits.
pub validated_duration-Fits :
    (parse : UrlParser) (raw : RawConfig) (v : ValidatedConfig)
    → validate parse raw ≡ accepted v
    → All
        (λ route. Fits route.minimum_task_duration_minutes (minimum_task_duration_ms route))
        v.routes
validated_duration-Fits parse raw v e =
    All-map (λ route r. r.fitting) v.routes
      (every_route_checked parse raw v (checked parse raw v e))
