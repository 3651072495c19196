-- ===== src/Router/Tests.antt =====
-- Runs of the filters of a route on a signal of one minute from a project below the allowed path.
use agents_router.Prelude.{◌≡◌, ◌↔◌, refl, true, none, some, [], ◌∷◌, any, filter}
use agents_router.Prelude.Paths.{starts_with, components, is_prefix, split, is_absolute}
use agents_router.Prelude.Text.{is_blank, trim}
use agents_router.Config.{
  RouteConfig, is_clean_absolute_project_path, has_dot_project_path_component,
}
use agents_router.Signal.{Signal}
use agents_router.ResponseSurface.Fixtures.{desktop_signal, open_route}
use agents_router.ResponseSurface.Runtime.{route_allows_response_surface_project}
use agents_router.Config.{minimum_task_duration_ms}
use agents_router.Router.{
  matches_source, route_filter_miss, lasts_less_than, project_miss, is_under, clean_project_path,
  duration_too_short,
}
use agents_router.Router.Allowed.{
  forwarded_project_is_allowed, forwards_exactly, LongEnough, FromAllowedProject,
}

abbrev project_signal : Signal
project_signal = record desktop_signal {
  workspace = some (record {
    cwd = none;
    project_name = none;
    project_path = some "/work/app";
    branch = none;
    worktree = none;
  });
  lifecycle =
      some (record {
        status = none;
        started_at = none;
        completed_at = none;
        duration_ms = some 60000;
      });
}

abbrev project_route : RouteConfig
project_route = record open_route {
  minimum_task_duration_minutes = some 1;
  only_forward_from_project_paths = "/work" ∷ [];
}

abbrev slow_route : RouteConfig
slow_route = record project_route { minimum_task_duration_minutes = some 2 }

short_task : route_filter_miss project_signal slow_route ≡ some duration_too_short
unfolding route_filter_miss lasts_less_than minimum_task_duration_ms
short_task = refl

forwarded : route_filter_miss project_signal project_route ≡ none
unfolding route_filter_miss lasts_less_than minimum_task_duration_ms project_miss clean_project_path
    is_under starts_with components is_prefix split any is_clean_absolute_project_path is_blank trim
    is_absolute has_dot_project_path_component filter
forwarded = refl

forwarded_project_is_allowed_example :
    route_allows_response_surface_project project_route "codex_desktop" "slack" "/work/app" ≡ true
unfolding matches_source any
forwarded_project_is_allowed_example =
    forwarded_project_is_allowed project_route project_signal "slack" "/work/app" refl forwarded
      refl refl refl

forwards_exactly_example :
    (route_filter_miss project_signal project_route ≡ none)
    ↔ (LongEnough project_signal project_route × FromAllowedProject project_signal project_route)
forwards_exactly_example = forwards_exactly project_signal project_route
