-- ===== src/Config.antt =====
-- src/config.rs: the configuration of routes, and the names of source and provider types.
pub mod Checked
pub mod Providers
pub mod RawFields
pub mod RawProviders
pub mod Validation
pub mod Typed
pub mod Loops
pub mod Sound
pub mod Safe
pub mod NeverPanics
pub mod Confined
mod Tests
use Prim.Native.Char.{Char, code}
use Prim.Native.Nat.{◌^◌}
use agents_router.Prelude.{
  ◌*◌, and_then, ltb, ℕ, String, Bool, false, not, ◌&&◌, ◌||◌, Option, none, some, List, any, eqb,
  ◌==◌, if◌then◌else◌,
}
use agents_router.Prelude.Text.{is_blank, trim}
use agents_router.Prelude.Paths.{split, components, is_absolute}

pub data SourceType : Type 0 where
  agents_router_source agent_hook_source codex_desktop_source : SourceType
  codex_cli_source claude_code_source : SourceType

-- `SourceType::as_str`
abbrev pub source_type_name : SourceType → String
source_type_name agents_router_source = "agents_router"
source_type_name agent_hook_source = "agent_hook"
source_type_name codex_desktop_source = "codex_desktop"
source_type_name codex_cli_source = "codex_cli"
source_type_name claude_code_source = "claude_code"

unfoldable pub from_signal_value : String → Option SourceType
from_signal_value value =
    if value == "agents_router" || value == "agents_notifier"
    then some agents_router_source
    else if value == "agent_hook"
    then some agent_hook_source
    else if value == "codex_desktop"
    then some codex_desktop_source
    else if value == "codex_cli"
    then some codex_cli_source
    else if value == "claude_code"
    then some claude_code_source
    else none

pub data ProviderType : Type 0 where
  ntfy webhook_provider feishu_lark pushover slack discord : ProviderType
  telegram whatsapp wechat microsoft_teams email : ProviderType

-- `ProviderType::as_str`
abbrev pub provider_type_name : ProviderType → String
provider_type_name ntfy = "ntfy"
provider_type_name webhook_provider = "webhook"
provider_type_name feishu_lark = "feishu_lark"
provider_type_name pushover = "pushover"
provider_type_name slack = "slack"
provider_type_name discord = "discord"
provider_type_name telegram = "telegram"
provider_type_name whatsapp = "whatsapp"
provider_type_name wechat = "wechat"
provider_type_name microsoft_teams = "microsoft_teams"
provider_type_name email = "email_smtp"

pub record ResponseSurfaceRouteConfig : Type 0 where
  pub enabled : Bool

pub record RouteConfig : Type 0 where
  pub sources : List String
  pub providers : List String
  pub minimum_task_duration_minutes : Option ℕ
  pub only_forward_from_project_paths : List String
  pub response_surface : ResponseSurfaceRouteConfig

-- `checked_mul` on u64
abbrev pub checked_mul : ℕ → ℕ → Option ℕ
checked_mul a b = if ltb (a * b) (2 ^ 64) then some (a * b) else none

unfoldable pub minimum_task_duration_ms : RouteConfig → Option ℕ
minimum_task_duration_ms route =
    and_then route.minimum_task_duration_minutes (λ minutes. checked_mul minutes 60000)

abbrev is_dots : String → Bool
is_dots p = p == "." || p == ".."

abbrev is_separator : Char → Bool
is_separator c = eqb (code c) 0x2f || eqb (code c) 0x5c

unfoldable pub has_dot_project_path_component : String → Bool
has_dot_project_path_component value = any is_dots (split is_separator value)

unfoldable pub is_clean_absolute_project_path : String → Bool
unfolding has_dot_project_path_component
is_clean_absolute_project_path value =
    if is_blank value || not (trim value == value)
    then false
    else is_absolute value
      && not (has_dot_project_path_component value)
      && not (any is_dots (components value))
