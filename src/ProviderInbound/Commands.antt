-- ===== src/ProviderInbound/Commands.antt =====
-- src/provider_inbound.rs: the commands that a message may hold.
pub mod Guidance
pub mod Understood
mod Tests
use agents_router.Prelude.{
  String, Bool, true, false, not, Option, none, some, and_then, ◌==◌, if◌then◌else◌,
}
use agents_router.Prelude.Text.{trim, trim_start, is_blank}
use agents_router.Prelude.Words.{
  starts_with_char, split_once_whitespace, before_whitespace, from_whitespace,
}
use agents_router.ProviderInbound.Types.{
  ProviderControlCommand, bind_project, new_session, help, status, unbind_project, invalid,
}

unfoldable pub split_command : String → Option (String × String)
split_command text =
    let trimmed = trim_start text in
    if not (starts_with_char 0x2f trimmed)
    then none
    else some (before_whitespace trimmed, from_whitespace trimmed)

abbrev pub new_session_guidance : String
new_session_guidance =
    "Tell Codex what to do.\n\nDirect chat:\n`/new /path/to/project what you want Codex to do`\n\nGroup room:\n`@your-bot /new what you want Codex to do`\n\nUse Lark's @ menu to select me in group rooms."

abbrev pub full_path_guidance : String
full_path_guidance =
    "Use the full path to a folder on your Mac.\n\nDirect chat:\n`/new /path/to/project what you want Codex to do`\n\nGroup room:\n`@your-bot /new /path/to/project what you want Codex to do`\n\nUse Lark's @ menu to select me in group rooms."

abbrev pub bind_guidance : String
bind_guidance =
    "Use `/bind` in a group room to connect that room to a project folder.\n\nGroup room:\n`@your-bot /bind /path/to/project`\n\nDirect chat:\n`/new /path/to/project what you want Codex to do`\n\nUse Lark's @ menu to select me in group rooms."

-- The prompt after a first word that is a path
unfoldable new_session_in : String → String → ProviderControlCommand
new_session_in first prompt =
    if prompt == "" then invalid full_path_guidance else new_session (some first) prompt

-- `parse_new_session_command` behind the trimming of its text
unfoldable pub new_session_of : String → ProviderControlCommand
unfolding new_session_in
new_session_of rest =
    if rest == "" then invalid new_session_guidance else elim (split_once_whitespace rest) [
      | none ↦ new_session none rest
      | some (first, remaining) ↦
          if starts_with_char 0x2f first
          then new_session_in first (trim remaining)
          else new_session none rest
    ]

unfoldable pub parse_new_session_command : String → ProviderControlCommand
unfolding new_session_of
parse_new_session_command text = new_session_of (trim text)

unfoldable pub parse_command : String → String → Option ProviderControlCommand
parse_command command rest =
    let argument = trim rest in
    if command == "/bind"
    then some (if argument == "" then invalid bind_guidance else bind_project argument)
    else if command == "/help"
    then some (if argument == "" then help else invalid "Use `/help`.")
    else if command == "/new"
    then some (parse_new_session_command rest)
    else if command == "/status"
    then some (if argument == "" then status else invalid "Use `/status`.")
    else if command == "/unbind"
    then some (unbind_project (if argument == "" then none else some argument))
    else none

unfoldable pub parse_provider_control_command : String → Option ProviderControlCommand
unfolding split_command parse_command
parse_provider_control_command text =
    and_then (split_command text) (λ split. parse_command split.0 split.1)
