-- ===== src/ProviderInbound/Commands/Guidance.antt =====
-- src/provider_inbound.rs: the guidance to give the full path of a folder, of `/new` with a path and
-- no prompt.
use agents_router.Prelude.{
  String, ◌≡◌, ◌≢◌, refl, sym, ap, ◌∙◌, inl, inr, Bool, false, false≢true, Option, none, some,
  arith, ◌==◌, Bool-cases, Option-cases, if◌then◌else◌,
}
use agents_router.Prelude.Text.{trim, trim_end, trim_start}
use agents_router.Prelude.Trimming.{trim_end_idempotent}
use agents_router.Prelude.Words.{split_once_whitespace, starts_with_char}
use agents_router.Prelude.Words.Cuts.{trim-remaining}
use agents_router.ProviderInbound.Types.{ProviderControlCommand, new_session, invalid}
use agents_router.ProviderInbound.Commands.{
  full_path_guidance, new_session_in, parse_new_session_command, new_session_of, parse_command,
  split_command, parse_provider_control_command,
}

-- The answer asks for the full path of a folder.
abbrev asks_for_path : ProviderControlCommand → Bool
asks_for_path (invalid message) = message == full_path_guidance
asks_for_path command = false

abbrev may_ask_for_path : Option ProviderControlCommand → Bool
may_ask_for_path none = false
may_ask_for_path (some command) = asks_for_path command

trimmed_end : (s : String) → trim_end (trim s) ≡ trim s
unfolding trim
trimmed_end s = trim_end_idempotent (trim_start s)

split_rest :
    (rest : String) (o : Option (String × String))
    → trim_end rest ≡ rest
    → split_once_whitespace rest ≡ o
    → asks_for_path (elim o [
      | none ↦ new_session none rest
      | some (first, remaining) ↦
          if starts_with_char 0x2f first
          then new_session_in first (trim remaining)
          else new_session none rest
    ])
      ≡ false
unfolding new_session_in
split_rest rest none t e = refl
split_rest rest (some (first, remaining)) t e =
    ground (arith, trim-remaining rest first remaining t e)

new_session_asks_never : (text : String) → asks_for_path (parse_new_session_command text) ≡ false
unfolding parse_new_session_command new_session_of
new_session_asks_never text = elim (Bool-cases (trim text == "")) [
  | inl blank ↦ rw blank refl
  | inr more ↦
      rw more (split_rest (trim text) (split_once_whitespace (trim text)) (trimmed_end text) refl)
]

parse_asks_never : (command rest : String) → may_ask_for_path (parse_command command rest) ≡ false
unfolding parse_command
parse_asks_never command rest = ground (arith, new_session_asks_never rest)

-- The guidance for `/new` with a path and no prompt is never given: no text parses to it.
pub full_path_guidance_is_unreachable :
    (text : String) → parse_provider_control_command text ≢ some (invalid full_path_guidance)
unfolding parse_provider_control_command
full_path_guidance_is_unreachable text e = elim (Option-cases (split_command text)) [
  | inl none' ↦ ground arith
  | inr (split, s) ↦
      false≢true (sym (parse_asks_never split.0 split.1) ∙ ap may_ask_for_path (rw s at e))
]
