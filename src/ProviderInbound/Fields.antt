-- ===== src/ProviderInbound/Fields.antt =====
-- src/provider_inbound.rs: the fields of an event, trimmed, where a blank one counts as absent.
use agents_router.Prelude.{
  String, Bool, false, not, Option, none, some, and_then, ◌==◌, if◌then◌else◌,
}
use agents_router.Prelude.Text.{trim, is_blank}
use agents_router.Exec.{Result, ok, err, provider_inbound_missing, or_fail}

unfoldable pub optional_trimmed : String → Option String
optional_trimmed value = let trimmed = trim value in if trimmed == "" then none else some trimmed

-- `optional_field` and `normalized_reply_text`
abbrev pub optional_field : Option String → Option String
optional_field value = and_then value optional_trimmed

-- `required_trimmed` and `required_owned`
unfoldable pub required_trimmed : String → Option String → Result String
required_trimmed field value = or_fail (optional_field value) (provider_inbound_missing field)

unfoldable pub ensure_field : String → String → Result (Unit {0})
ensure_field field value =
    if not (is_blank value) then ok tt else err (provider_inbound_missing field)

-- `optional_field(value) == Some(text)`
abbrev pub is_text : Option String → String → Bool
is_text none text = false
is_text (some s) text = s == text
