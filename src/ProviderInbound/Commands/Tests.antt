-- ===== src/ProviderInbound/Commands/Tests.antt =====
-- Commands that are read.
use agents_router.Prelude.{◌≡◌, ◌≢◌, refl, none, some}
use agents_router.Prelude.Text.{trim_start, trim}
use agents_router.Prelude.Words.{from_whitespace, before_whitespace, all_ink, split_once_whitespace}
use agents_router.ProviderInbound.Types.{new_session, invalid}
use agents_router.ProviderInbound.Commands.{
  full_path_guidance, parse_provider_control_command, split_command, parse_command,
  parse_new_session_command, new_session_of,
}
use agents_router.ProviderInbound.Commands.Guidance.{full_path_guidance_is_unreachable}
use agents_router.ProviderInbound.Commands.Understood.{written, written_command_is_understood}

path_alone : parse_provider_control_command "/new /work " ≡ some (new_session none "/work")
unfolding parse_provider_control_command split_command parse_command parse_new_session_command
    new_session_of split_once_whitespace trim_start before_whitespace trim from_whitespace
path_alone = refl

full_path_guidance_is_unreachable_example :
    parse_provider_control_command "/new /work " ≢ some (invalid full_path_guidance)
full_path_guidance_is_unreachable_example = full_path_guidance_is_unreachable "/new /work "

written_command_is_understood_example :
    parse_provider_control_command (written (new_session (some "/work") "fix it"))
    ≡ some (new_session (some "/work") "fix it")
unfolding trim all_ink
written_command_is_understood_example =
    written_command_is_understood (new_session (some "/work") "fix it") ((refl, refl), refl, refl)
