-- ===== src/Config/Checked.antt =====
-- src/config.rs: the errors of a configuration. The first three are those of reading its file; `panicked`
-- stands for the `expect` on a URL's variable.
use agents_router.Prelude.{ℕ, String, Bool, Option, none, some, if◌then◌else◌}

pub data ConfigError : Type 0 where
  config_not_found config_not_read config_not_parsed : String → ConfigError
  unsupported_config_schema : ℕ → ℕ → ConfigError
  duplicate_source_id duplicate_provider_id : String → ConfigError
  unknown_route_source unknown_route_provider : String → ConfigError
  invalid_source_id_for_type : String → String → String → String → ConfigError
  invalid_minimum_task_duration minimum_task_duration_too_large : ℕ → ConfigError
  invalid_route_project_path : ℕ → String → ConfigError
  missing_provider_field : String → String → ConfigError
  invalid_provider_url : String → String → String → ConfigError
  invalid_webhook_url_source invalid_feishu_lark_url_source : String → ConfigError
  invalid_feishu_lark_secret_source missing_feishu_lark_app_bot_mode : String → ConfigError
  invalid_feishu_lark_mode invalid_feishu_lark_app_bot_domain : String → String → ConfigError
  invalid_feishu_lark_app_bot_webhook_fields : String → ConfigError
  invalid_feishu_lark_custom_bot_app_fields : String → ConfigError
  invalid_feishu_lark_app_secret_source invalid_pushover_app_token_source : String → ConfigError
  invalid_pushover_user_key_source invalid_slack_url_source : String → ConfigError
  invalid_discord_url_source invalid_telegram_bot_token_source : String → ConfigError
  invalid_whatsapp_access_token_source invalid_wechat_token_source : String → ConfigError
  invalid_wechat_context_token_source invalid_microsoft_teams_url_source : String → ConfigError
  invalid_email_smtp_username_source invalid_email_smtp_password_source : String → ConfigError
  invalid_email_smtp_credentials : String → ConfigError
  prompt_detail_not_supported answer_detail_not_supported : String → String → ConfigError
  panicked : ConfigError

pub data Checked {ℓ} (A : Type ℓ) : Type ℓ where
  refused : ConfigError → Checked A
  accepted : A → Checked A

infixl 10 ◌>>=◌ ◌>>◌
abbrev pub ◌>>=◌ : {A B : Type 0} → Checked A → (A → Checked B) → Checked B
refused problem >>= rest = refused problem
accepted value >>= rest = rest value

abbrev pub ◌>>◌ : {B : Type 0} → Checked (Unit {0}) → Checked B → Checked B
refused problem >> rest = refused problem
accepted done >> rest = rest

-- `ok_or_else`
abbrev pub required : {A : Type 0} → ConfigError → Option A → Checked A
required problem none = refused problem
required problem (some value) = accepted value

-- `if test { return Err(problem) }`
abbrev pub refuse_if : Bool → ConfigError → Checked (Unit {0})
refuse_if test problem = if test then refused problem else accepted tt
