-- ===== src/Router/Allowed.antt =====
-- src/router.rs and src/response_surface_runtime.rs: the test of a route on a signal, and the test of
-- the same route on a reply.
use agents_router.Prelude.{
  ℕ, ◌*◌, ◌<◌, ◌≤◌, String, ◌≡◌, refl, true, false, Option, none, some, and_then, any, arith, inl,
  inr, ◌⊎◌, ◌↔◌, Option-cases, Bool-cases, if◌then◌else◌, ◌==◌, List, [], ◌∷◌,
}
use Prim.Native.Nat.{◌^◌}
use agents_router.Config.{RouteConfig, is_clean_absolute_project_path}
use agents_router.Signal.{Signal, source_id}
use agents_router.ResponseSurface.Runtime.{route_allows_response_surface_project, allows_project}
use agents_router.Config.{minimum_task_duration_ms}
use agents_router.Router.{
  RouteFilterMissReason, matches_source, route_filter_miss, project_miss, clean_project_path,
  is_under, is_empty, lasts_less_than, clean_path,
}

miss_allows :
    (allowed : List String) (signal : Signal) (path : String)
    → and_then signal.workspace (λ workspace. workspace.project_path) ≡ some path
    → (if is_empty allowed then none else project_miss allowed (clean_project_path signal)) ≡ none
    → allows_project allowed path ≡ true
unfolding allows_project project_miss clean_project_path is_under
miss_allows [] signal path e h = refl
miss_allows (p ∷ ps) signal path e h = ground arith

-- A delivered signal may be replied to from its project: if a route forwards a signal, names the
-- provider and has its replies enabled, it allows a reply from the signal's source and provider
-- for the project path that the signal has.
pub forwarded_project_is_allowed :
    (route : RouteConfig) (signal : Signal) (provider_id path : String)
    → matches_source route (source_id signal) ≡ true
    → route_filter_miss signal route ≡ none
    → any (λ provider. provider == provider_id) route.providers ≡ true
    → route.response_surface.enabled ≡ true
    → and_then signal.workspace (λ workspace. workspace.project_path) ≡ some path
    → route_allows_response_surface_project route (source_id signal) provider_id path ≡ true
unfolding matches_source route_filter_miss lasts_less_than minimum_task_duration_ms
    route_allows_response_surface_project
forwarded_project_is_allowed route signal provider_id path m f p r e =
    ground (arith, miss_allows route.only_forward_from_project_paths signal path e)

-- The task lasted as long as the route asks for, where both are known and the minutes fit a u64 of
-- milliseconds.
pub LongEnough : Signal → RouteConfig → Type 0
LongEnough signal route =
    (minutes duration_ms : ℕ)
    → route.minimum_task_duration_minutes ≡ some minutes
    → and_then signal.lifecycle (λ lifecycle. lifecycle.duration_ms) ≡ some duration_ms
    → minutes * 60000 < 2 ^ 64
    → minutes * 60000 ≤ duration_ms

long_enough :
    (signal : Signal) (route : RouteConfig)
    → lasts_less_than signal (minimum_task_duration_ms route) ≡ false
    → LongEnough signal route
unfolding LongEnough lasts_less_than minimum_task_duration_ms
long_enough signal route h minutes duration_ms m d fits = ground arith

not_shorter :
    (signal : Signal) (route : RouteConfig)
    → LongEnough signal route
    → lasts_less_than signal (minimum_task_duration_ms route) ≡ false
unfolding LongEnough lasts_less_than minimum_task_duration_ms
not_shorter signal route long = elim (Option-cases route.minimum_task_duration_minutes) [
  | inl none_set ↦ ground arith
  | inr (minutes, m) ↦
      elim (Option-cases (and_then signal.lifecycle (λ lifecycle. lifecycle.duration_ms))) [
        | inl unknown ↦ ground arith
        | inr (duration_ms, d) ↦ ground (arith, long minutes duration_ms m d)
      ]
]

-- The signal comes from a clean absolute path under one of the route's, where the route has any.
pub FromAllowedProject : Signal → RouteConfig → Type 0
FromAllowedProject signal route =
    (route.only_forward_from_project_paths ≡ [])
    ⊎ ((path : String) × (and_then signal.workspace (λ workspace. workspace.project_path)
          ≡ some path)
        × (is_clean_absolute_project_path path ≡ true)
        × (any (is_under path) route.only_forward_from_project_paths ≡ true))

abbrev passes_project : List String → Signal → Option RouteFilterMissReason
passes_project allowed signal =
    if is_empty allowed then none else project_miss allowed (clean_project_path signal)

found_path :
    (allowed : List String) (project_path : Option String)
    → (if is_empty allowed then none else project_miss allowed (and_then project_path clean_path))
      ≡ none
    → (allowed ≡ [])
      ⊎ ((path : String) × (project_path ≡ some path)
          × (is_clean_absolute_project_path path ≡ true)
          × (any (is_under path) allowed ≡ true))
unfolding project_miss
found_path [] project_path h = inl refl
found_path (p ∷ ps) none h = ground arith
found_path (p ∷ ps) (some path) h = inr (path, refl, ground arith, ground arith)

project_found :
    (signal : Signal) (route : RouteConfig)
    → passes_project route.only_forward_from_project_paths signal ≡ none
    → FromAllowedProject signal route
unfolding FromAllowedProject clean_project_path
project_found signal route =
    found_path route.only_forward_from_project_paths
      (and_then signal.workspace (λ workspace. workspace.project_path))

project_passes :
    (signal : Signal) (route : RouteConfig)
    → FromAllowedProject signal route
    → passes_project route.only_forward_from_project_paths signal ≡ none
unfolding FromAllowedProject project_miss clean_project_path
project_passes signal route (inl e) = rw e refl
project_passes signal route (inr (path, e, c, u)) = ground arith

-- A route forwards a signal exactly when the task lasted as long as the route asks for, an unknown
-- or overflowing duration counting as long enough, and the route has no project paths or the
-- signal comes from a clean absolute path under one of them.
pub forwards_exactly :
    (signal : Signal) (route : RouteConfig)
    → (route_filter_miss signal route ≡ none)
      ↔ (LongEnough signal route × FromAllowedProject signal route)
unfolding route_filter_miss
forwards_exactly signal route = (there, back)
  where
    there :
        route_filter_miss signal route ≡ none
        → LongEnough signal route × FromAllowedProject signal route
    there h = elim (Bool-cases (lasts_less_than signal (minimum_task_duration_ms route))) [
      | inl short ↦ ground arith
      | inr e ↦ (long_enough signal route e, project_found signal route (ground arith))
    ]

    back :
        LongEnough signal route × FromAllowedProject signal route
        → route_filter_miss signal route ≡ none
    back (long, from) = rw (not_shorter signal route long, project_passes signal route from) refl
