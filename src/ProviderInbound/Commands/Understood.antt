-- ===== src/ProviderInbound/Commands/Understood.antt =====
-- src/provider_inbound.rs: the forms in which the guidance says that commands are written.
use Prim.Native.String.{◌++◌ as append_text}
use text.Mathlib.TextLemmas.{cons-append, nil-append}
use agents_router.Prelude.{
  ℕ, String, ◌≡◌, refl, sym, ap, subst, ◌∙◌, ◌⊎◌, inl, inr, true, false, Option, none, some, arith,
  ◌==◌, Bool-cases, Option-cases,
}
use agents_router.Prelude.Text.{trim, trim_end, trim_start, is_whitespace}
use agents_router.Prelude.Trimming.{
  begins_with_ink, trim_start-of_ink, trim_end_idempotent, cons-not_empty, trim_end-space,
  trim_end-cons_ink, space_is_white,
}
use agents_router.Prelude.Words.{
  split_once_whitespace, starts_with_char, before_whitespace, from_whitespace, all_ink,
}
use agents_router.Prelude.Words.Cuts.{
  before_whitespace-append, from_whitespace-append, split_once-append, split_once-space,
}
use agents_router.ProviderInbound.Types.{
  ProviderControlCommand, bind_project, direct_project_room_prompt, direct_chat_guidance,
  direct_help, direct_status, direct_unbind_project_guidance, direct_new_session, new_session, help,
  room_guidance, status, unbind_project, invalid,
}
use agents_router.ProviderInbound.Commands.{
  new_session_in, new_session_of, parse_new_session_command, parse_command, split_command,
  parse_provider_control_command,
}

-- A word, a space and the rest
abbrev spaced : String → String → String
spaced word rest = append_text word (String.◌∷◌ " " rest)

-- How a command is written, by the guidance
abbrev pub written : ProviderControlCommand → String
written (bind_project project_path) = spaced "/bind" project_path
written help = "/help"
written (new_session none prompt) = spaced "/new" prompt
written (new_session (some project_path) prompt) = spaced "/new" (spaced project_path prompt)
written status = "/status"
written (unbind_project none) = "/unbind"
written (unbind_project (some project_path)) = spaced "/unbind" project_path
written command = ""

-- A text with something in it and no white space around it
abbrev pub IsTrimmed : String → Type 0
IsTrimmed s = (trim s ≡ s) × ((s == "") ≡ false)

-- The commands that can be written: a path in front of a prompt is one word that begins with a
-- slash, and a prompt alone does not begin with such a word, unless it is the only one.
abbrev pub CanBeWritten : ProviderControlCommand → Type 0
CanBeWritten (bind_project project_path) = IsTrimmed project_path
CanBeWritten help = Unit {0}
CanBeWritten (new_session none prompt) =
    IsTrimmed prompt
    × ((starts_with_char 0x2f prompt ≡ false) ⊎ (split_once_whitespace prompt ≡ none))
CanBeWritten (new_session (some project_path) prompt) =
    IsTrimmed prompt × (all_ink project_path ≡ true) × (starts_with_char 0x2f project_path ≡ true)
CanBeWritten status = Unit {0}
CanBeWritten (unbind_project none) = Unit {0}
CanBeWritten (unbind_project (some project_path)) = IsTrimmed project_path
CanBeWritten command = ⊥

trim-space : (s : String) → trim (String.◌∷◌ " " s) ≡ trim s
unfolding trim trim_start
trim-space s = refl

-- The first word of a command, behind its slash
split_spaced :
    (name rest : String)
    → all_ink name ≡ true
    → split_command (spaced (String.◌∷◌ "/" name) rest)
      ≡ some (String.◌∷◌ "/" name, String.◌∷◌ " " rest)
unfolding split_command is_whitespace all_ink
split_spaced name rest ink =
    let text = spaced (String.◌∷◌ "/" name) rest in
    let behind = cons-append "/" name (String.◌∷◌ " " rest) in
    rw
      (
        trim_start-of_ink text (ap begins_with_ink behind),
        ap (starts_with_char 0x2f) behind,
        before_whitespace-append " " rest refl (String.◌∷◌ "/" name) ink,
        from_whitespace-append " " rest refl (String.◌∷◌ "/" name) ink,
      )
      refl

abbrev first_text : Option (String × String) → String
first_text none = ""
first_text (some (first, rest)) = first

starts_with_char-cut :
    (n : ℕ) (s first rest : String)
    → split_once_whitespace s ≡ some (first, rest)
    → starts_with_char n s ≡ false
    → starts_with_char n first ≡ false
unfolding split_once_whitespace
starts_with_char-cut n String.[] first rest e h = ground arith
starts_with_char-cut n (String.◌∷◌ c s) first rest e h = elim (Bool-cases (is_whitespace c)) [
  | inl w ↦
      subst (λ f. starts_with_char n f ≡ false) (ap first_text (sym (split_once-space c s w) ∙ e))
        refl
  | inr ink ↦ elim (Option-cases (split_once_whitespace s)) [
    | inl none' ↦ ground arith
    | inr (cut, k) ↦ ground arith
  ]
]

-- What follows a word and a space stays, where it is trimmed at its end.
trim_end-spaced :
    (word s : String)
    → trim_end s ≡ s
    → (s == "") ≡ false
    → all_ink word ≡ true
    → trim_end (spaced word s) ≡ spaced word s
unfolding all_ink
trim_end-spaced String.[] s t more ink =
    rw (nil-append (String.◌∷◌ " " s)) (trim_end-space " " s space_is_white ∙ rw (t, more) refl)
trim_end-spaced (String.◌∷◌ c word) s t more ink = rw (cons-append c word (String.◌∷◌ " " s)) (
    trim_end-cons_ink c (spaced word s) (ground arith)
    ∙ ap (String.◌∷◌ c) (trim_end-spaced word s t more (ground arith)))

starts_non_empty : (n : ℕ) (s : String) → starts_with_char n s ≡ true → (s == "") ≡ false
starts_non_empty n String.[] h = ground arith
starts_non_empty n (String.◌∷◌ c s) h = cons-not_empty c s

starts_with_ink : (n : ℕ) (s : String) → all_ink s ≡ true → begins_with_ink s ≡ true
unfolding all_ink
starts_with_ink n String.[] h = refl
starts_with_ink n (String.◌∷◌ c s) h = ground arith

-- A command of one argument: the name is known, and the argument is trimmed.
argument :
    (name rest : String) {c : Option ProviderControlCommand}
    → all_ink name ≡ true
    → parse_command (String.◌∷◌ "/" name) (String.◌∷◌ " " rest) ≡ c
    → parse_provider_control_command (spaced (String.◌∷◌ "/" name) rest) ≡ c
unfolding parse_provider_control_command
argument name rest ink e = rw (split_spaced name rest ink) e

trimmed_prompt :
    (prompt : String)
    → CanBeWritten (new_session none prompt)
    → new_session_of prompt ≡ new_session none prompt
unfolding new_session_of
trimmed_prompt prompt ((t, more), begins) = elim (Option-cases (split_once_whitespace prompt)) [
  | inl whole ↦ rw (more, whole) refl
  | inr (cut, e) ↦ elim begins [
    | inl word ↦ rw (more, e, starts_with_char-cut 0x2f prompt cut.0 cut.1 e word) refl
    | inr whole ↦ ground arith
  ]
]

trim_end-trimmed : (s : String) → trim s ≡ s → trim_end s ≡ s
unfolding trim
trim_end-trimmed s t = ap trim_end (sym t) ∙ trim_end_idempotent (trim_start s) ∙ t

trim-spaced :
    (word s : String)
    → IsTrimmed s
    → all_ink word ≡ true
    → starts_with_char 0x2f word ≡ true
    → trim (spaced word s) ≡ spaced word s
unfolding trim
trim-spaced word s (t, more) ink slash =
    ap trim_end (trim_start-of_ink (spaced word s) (begins word ink slash))
    ∙ trim_end-spaced word s (trim_end-trimmed s t) more ink
  where
    begins :
        (word : String)
        → all_ink word ≡ true
        → starts_with_char 0x2f word ≡ true
        → begins_with_ink (spaced word s) ≡ true
    begins String.[] i b = ground arith
    begins (String.◌∷◌ c w) i b =
        ap begins_with_ink (cons-append c w (String.◌∷◌ " " s))
        ∙ starts_with_ink 0 (String.◌∷◌ c w) i

starts-spaced :
    (n : ℕ) (word s : String)
    → starts_with_char n word ≡ true
    → starts_with_char n (spaced word s) ≡ true
starts-spaced n String.[] s h = ground arith
starts-spaced n (String.◌∷◌ c w) s h =
    ap (starts_with_char n) (cons-append c w (String.◌∷◌ " " s)) ∙ h

path_and_prompt :
    (project_path prompt : String)
    → CanBeWritten (new_session (some project_path) prompt)
    → new_session_of (spaced project_path prompt) ≡ new_session (some project_path) prompt
unfolding new_session_of new_session_in
path_and_prompt project_path prompt ((t, more), ink, slash) =
    rw
      (
        starts_non_empty 0x2f (spaced project_path prompt)
            (starts-spaced 0x2f project_path prompt slash),
        split_once-append " " prompt space_is_white project_path ink,
        slash,
        t,
        more,
      )
      refl

ink_names : (all_ink "bind" ≡ true) × (all_ink "new" ≡ true) × (all_ink "unbind" ≡ true)
unfolding all_ink is_whitespace
ink_names = (refl, refl, refl)

bare :
    (parse_provider_control_command "/help" ≡ some help)
    × (parse_provider_control_command "/status" ≡ some status)
    × (parse_provider_control_command "/unbind" ≡ some (unbind_project none))
unfolding parse_provider_control_command split_command parse_command before_whitespace
    from_whitespace trim trim_start trim_end is_whitespace
bare = (refl, refl, refl)

-- A command that is written as the guidance says is understood as that command.
pub written_command_is_understood :
    (c : ProviderControlCommand)
    → CanBeWritten c
    → parse_provider_control_command (written c) ≡ some c
unfolding parse_command parse_new_session_command
written_command_is_understood (bind_project project_path) (t, more) =
    argument "bind" project_path ink_names.0 (rw (trim-space project_path, t, more) refl)
written_command_is_understood help w = bare.0
written_command_is_understood (new_session none prompt) w = argument "new" prompt ink_names.1 (
    ap (λ rest. some (new_session_of rest)) (trim-space prompt ∙ w.0.0)
    ∙ ap some (trimmed_prompt prompt w))
written_command_is_understood (new_session (some project_path) prompt) w =
    argument "new" (spaced project_path prompt) ink_names.1 (
      ap (λ rest. some (new_session_of rest))
        (trim-space (spaced project_path prompt) ∙ trim-spaced project_path prompt w.0 w.1 w.2)
      ∙ ap some (path_and_prompt project_path prompt w))
written_command_is_understood status w = bare.1
written_command_is_understood (unbind_project none) w = bare.2
written_command_is_understood (unbind_project (some project_path)) (t, more) =
    argument "unbind" project_path ink_names.2 (rw (trim-space project_path, t, more) refl)
written_command_is_understood (direct_project_room_prompt project_path) w = elim w [ ]
written_command_is_understood direct_chat_guidance w = elim w [ ]
written_command_is_understood direct_help w = elim w [ ]
written_command_is_understood direct_status w = elim w [ ]
written_command_is_understood direct_unbind_project_guidance w = elim w [ ]
written_command_is_understood (direct_new_session project_path prompt) w = elim w [ ]
written_command_is_understood room_guidance w = elim w [ ]
written_command_is_understood (invalid message) w = elim w [ ]
