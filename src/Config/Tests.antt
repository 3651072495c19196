-- ===== src/Config/Tests.antt =====
-- A configuration with two providers and a route of at least five minutes.
use agents_router.Prelude.Paths.{components, split, is_absolute}
use agents_router.Prelude.Text.{is_blank, present}
use agents_router.Prelude.{
  ◌==◌, if◌then◌else◌, filter, any, true, ◌≡◌, ◌≢◌, refl, All, none, some, [], ◌∷◌,
}
use agents_router.Config.{
  is_clean_absolute_project_path, RouteConfig, codex_desktop_source, ntfy, slack,
  minimum_task_duration_ms,
}
use agents_router.Config.Checked.{accepted, refused, panicked}
use agents_router.Config.Providers.{
  RawProviderConfig, ProviderConfig, ntfy_detail, slack_detail, inline_url,
}
use agents_router.ProviderUrls.{validate_slack_webhook_url, Url, UrlParser}
use agents_router.Config.Confined.{IsConfined, configured_url-IsConfined}
use agents_router.Config.Validation.{RawConfig, ValidatedConfig, english, preview, off, validate}
use agents_router.Config.Loops.{Fits}
use agents_router.Config.Sound.{IsSound, validated_config-IsSound, validated_duration-Fits}
use agents_router.Config.NeverPanics.{validation_never_panics}

abbrev hook : Url
hook = record {
  serialized = "https://hooks.slack.com/services/T0/B0/x";
  scheme = "https";
  host = some "hooks.slack.com";
  username = "";
  password = none;
  path = some ("services" ∷ "T0" ∷ "B0" ∷ "x" ∷ []);
  query = none;
  fragment = none;
}

abbrev parse : UrlParser
parse text = if text == hook.serialized then some hook else none

abbrev phone : RawProviderConfig
phone = record {
  id = "phone";
  provider_type = ntfy;
  mode = none;
  base_url = none;
  domain = none;
  server = some "https://ntfy.sh";
  topic = some "agents";
  url = none;
  url_env = none;
  secret = none;
  secret_env = none;
  app_id = none;
  app_secret = none;
  app_secret_env = none;
  app_registration_source = none;
  operator_open_id = none;
  tenant_key = none;
  app_token = none;
  app_token_env = none;
  user_key = none;
  user_key_env = none;
  device = none;
  sound = none;
  bot_token = none;
  bot_token_env = none;
  chat_id = none;
  access_token = none;
  access_token_env = none;
  phone_number_id = none;
  recipient_phone_number = none;
  host = none;
  port = none;
  security = none;
  username = none;
  username_env = none;
  password = none;
  password_env = none;
  from = none;
  to = none;
  reply_to = none;
  token = none;
  token_env = none;
  recipient_user_id = none;
  context_token = none;
  context_token_env = none;
  route_tag = none;
}

abbrev validated_phone : ProviderConfig
validated_phone = record {
  id = "phone";
  detail = ntfy_detail (record { server = "https://ntfy.sh"; topic = "agents" });
}

abbrev chat : RawProviderConfig
chat = record phone {
  id = "chat";
  provider_type = slack;
  server = none;
  topic = none;
  url = some " https://hooks.slack.com/services/T0/B0/x";
}

abbrev validated_chat : ProviderConfig
validated_chat = record {
  id = "chat";
  detail = slack_detail (record { url = inline_url "https://hooks.slack.com/services/T0/B0/x" });
}

abbrev route : RouteConfig
route = record {
  sources = "codex_desktop" ∷ [];
  providers = "phone" ∷ "chat" ∷ [];
  minimum_task_duration_minutes = some 5;
  only_forward_from_project_paths = "/work/app" ∷ [];
  response_surface = record { enabled = true };
}

abbrev raw : RawConfig
raw = record {
  schema_version = 1;
  cli = record { language = english };
  log = record { level = "info" };
  notification = record { answer_detail = preview; prompt_detail = off };
  sources = record { id = "codex_desktop"; source_type = codex_desktop_source } ∷ [];
  providers = phone ∷ chat ∷ [];
  routes = route ∷ [];
}

abbrev valid : ValidatedConfig
valid = record {
  schema_version = 1;
  cli = record { language = english };
  log = record { level = "info" };
  notification = record { answer_detail = preview; prompt_detail = off };
  sources = record { id = "codex_desktop"; source_type = codex_desktop_source } ∷ [];
  providers = validated_phone ∷ validated_chat ∷ [];
  routes = route ∷ [];
}

is_valid : validate parse raw ≡ accepted valid
unfolding validate any present is_blank is_clean_absolute_project_path is_absolute split components
    filter validate_slack_webhook_url
is_valid = refl

validated_config-IsSound_example : IsSound valid
validated_config-IsSound_example = validated_config-IsSound parse raw valid is_valid

validated_duration-Fits_example :
    All (λ r. Fits r.minimum_task_duration_minutes (minimum_task_duration_ms r)) valid.routes
validated_duration-Fits_example = validated_duration-Fits parse raw valid is_valid

validation_never_panics_example : validate parse raw ≢ refused panicked
validation_never_panics_example = validation_never_panics parse raw

configured_url-IsConfined_example : All (λ p. IsConfined parse p.detail) valid.providers
configured_url-IsConfined_example = configured_url-IsConfined parse raw valid is_valid
