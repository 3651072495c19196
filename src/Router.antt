-- ===== src/Router.antt =====
-- src/router.rs: which routes forward a signal, by its source, its duration and its project.
pub mod Allowed
mod Tests
use agents_router.Prelude.{
  ℕ, ◌*◌, String, Bool, true, false, not, Option, none, some, and_then, List, any, ltb, ◌==◌,
  if◌then◌else◌,
}
use Prim.Native.Nat.{◌^◌}
use agents_router.Prelude.Paths.{starts_with}
use agents_router.Config.{RouteConfig, minimum_task_duration_ms, is_clean_absolute_project_path}
use agents_router.Signal.{Signal}

unfoldable pub matches_source : RouteConfig → String → Bool
matches_source route source_id = any (λ source. source == source_id) route.sources

pub data RouteFilterMissReason : Type 0 where
  duration_too_short missing_project_path project_path_not_allowed : RouteFilterMissReason

unfoldable lasts_less_than : Signal → Option ℕ → Bool
lasts_less_than signal none = false
lasts_less_than signal (some minimum_duration_ms) =
    elim (and_then signal.lifecycle (λ lifecycle. lifecycle.duration_ms)) [
      | none ↦ false
      | some duration_ms ↦ ltb duration_ms minimum_duration_ms
    ]

abbrev clean_path : String → Option String
clean_path path = if is_clean_absolute_project_path path then some path else none

unfoldable clean_project_path : Signal → Option String
clean_project_path signal =
    and_then (and_then signal.workspace (λ workspace. workspace.project_path)) clean_path

pub is_under : String → String → Bool
is_under project_path allowed_path = starts_with project_path allowed_path

unfoldable project_miss : List String → Option String → Option RouteFilterMissReason
project_miss allowed none = some missing_project_path
project_miss allowed (some project_path) =
    if any (is_under project_path) allowed then none else some project_path_not_allowed

abbrev pub is_empty : List String → Bool
is_empty List.[] = true
is_empty (List.◌∷◌ p ps) = false

unfoldable pub route_filter_miss : Signal → RouteConfig → Option RouteFilterMissReason
unfolding lasts_less_than minimum_task_duration_ms project_miss clean_project_path
route_filter_miss signal route =
    if lasts_less_than signal (minimum_task_duration_ms route)
    then some duration_too_short
    else if is_empty route.only_forward_from_project_paths
    then none
    else project_miss route.only_forward_from_project_paths (clean_project_path signal)
