-- ===== src/ProviderCatalog/Descriptors.antt =====
-- src/provider_catalog.rs: the table of the providers, and its lookups. `none` stands for the panic of
-- an `expect`.
use agents_router.Prelude.{
  ℕ, String, Bool, Option, none, some, and_then, List, [], ◌∷◌, ◌++◌, find, is_yes, ◌==◌,
}
use agents_router.Config.{
  ProviderType, provider_type_name, ntfy, webhook_provider, feishu_lark, pushover, slack, discord,
  telegram, whatsapp, wechat, microsoft_teams, email,
}
use agents_router.ProviderCatalog.{ProviderMode, ProviderMode-discrete, ProviderModeCapability}
use agents_router.ProviderCatalog.Modes.{
  discord_provider_modes, email_smtp_provider_modes, feishu_lark_provider_modes,
  microsoft_teams_provider_modes, ntfy_provider_modes, pushover_provider_modes,
  slack_provider_modes, telegram_provider_modes, webhook_provider_modes, wechat_provider_modes,
  whatsapp_provider_modes,
}
use agents_router.ProviderCatalog.Constraints.{
  ProviderMessageConstraint, MessageSurface, title, message_body, text_body, webhook_content,
  payload, policy_only, local_preflight, discord_message_constraints,
  microsoft_teams_message_constraints, no_message_constraints, ntfy_message_constraints,
  pushover_message_constraints, slack_message_constraints, telegram_message_constraints,
  wechat_message_constraints, whatsapp_message_constraints,
}

pub record ProviderCapabilities : Type 0 where
  pub message_constraints : List ProviderMessageConstraint
  pub modes : List ProviderModeCapability

pub record ProviderDescriptor : Type 0 where
  pub provider_type : ProviderType
  pub display_name : String
  pub setup_order : ℕ
  pub capabilities : ProviderCapabilities

unfoldable pub provider_descriptors : List ProviderDescriptor
provider_descriptors =
    (record {
      provider_type = slack;
      display_name = "Slack";
      setup_order = 20;
      capabilities = record {
        message_constraints = slack_message_constraints;
        modes = slack_provider_modes;
      };
    })
    ∷ (record {
      provider_type = discord;
      display_name = "Discord";
      setup_order = 30;
      capabilities = record {
        message_constraints = discord_message_constraints;
        modes = discord_provider_modes;
      };
    })
    ∷ (record {
      provider_type = telegram;
      display_name = "Telegram";
      setup_order = 40;
      capabilities = record {
        message_constraints = telegram_message_constraints;
        modes = telegram_provider_modes;
      };
    })
    ∷ (record {
      provider_type = microsoft_teams;
      display_name = "Microsoft Teams";
      setup_order = 50;
      capabilities = record {
        message_constraints = microsoft_teams_message_constraints;
        modes = microsoft_teams_provider_modes;
      };
    })
    ∷ (record {
      provider_type = email;
      display_name = "Email SMTP";
      setup_order = 60;
      capabilities = record {
        message_constraints = no_message_constraints;
        modes = email_smtp_provider_modes;
      };
    })
    ∷ (record {
      provider_type = ntfy;
      display_name = "ntfy";
      setup_order = 70;
      capabilities = record {
        message_constraints = ntfy_message_constraints;
        modes = ntfy_provider_modes;
      };
    })
    ∷ (record {
      provider_type = pushover;
      display_name = "Pushover";
      setup_order = 80;
      capabilities = record {
        message_constraints = pushover_message_constraints;
        modes = pushover_provider_modes;
      };
    })
    ∷ (record {
      provider_type = feishu_lark;
      display_name = "Feishu/Lark";
      setup_order = 10;
      capabilities = record {
        message_constraints = no_message_constraints;
        modes = feishu_lark_provider_modes;
      };
    })
    ∷ (record {
      provider_type = webhook_provider;
      display_name = "Webhook";
      setup_order = 90;
      capabilities = record {
        message_constraints = no_message_constraints;
        modes = webhook_provider_modes;
      };
    })
    ∷ (record {
      provider_type = whatsapp;
      display_name = "WhatsApp";
      setup_order = 100;
      capabilities = record {
        message_constraints = whatsapp_message_constraints;
        modes = whatsapp_provider_modes;
      };
    })
    ∷ (record {
      provider_type = wechat;
      display_name = "WeChat";
      setup_order = 110;
      capabilities = record {
        message_constraints = wechat_message_constraints;
        modes = wechat_provider_modes;
      };
    })
    ∷ []

-- Types are compared by their names, which are distinct.
abbrev is_of_type : ProviderType → ProviderDescriptor → Bool
is_of_type provider_type d = provider_type_name d.provider_type == provider_type_name provider_type

unfoldable pub provider_descriptor : ProviderType → Option ProviderDescriptor
unfolding provider_descriptors
provider_descriptor provider_type = find (is_of_type provider_type) provider_descriptors

abbrev constraints_of : Option ProviderDescriptor → Option (List ProviderMessageConstraint)
constraints_of none = none
constraints_of (some d) = some d.capabilities.message_constraints

unfoldable pub provider_message_constraints : ProviderType → Option (List ProviderMessageConstraint)
unfolding provider_descriptor
provider_message_constraints provider_type = constraints_of (provider_descriptor provider_type)

abbrev modes_of : List ProviderDescriptor → List ProviderModeCapability
modes_of [] = []
modes_of (d ∷ ds) = d.capabilities.modes ++ modes_of ds

unfoldable pub provider_mode_capability : ProviderMode → Option ProviderModeCapability
unfolding provider_descriptors
provider_mode_capability mode =
    find (λ c. is_yes (ProviderMode-discrete c.mode mode)) (modes_of provider_descriptors)

abbrev message_surface_name : MessageSurface → String
message_surface_name title = "title"
message_surface_name message_body = "message_body"
message_surface_name text_body = "text_body"
message_surface_name webhook_content = "webhook_content"
message_surface_name payload = "payload"

abbrev is_for_surface : MessageSurface → ProviderMessageConstraint → Bool
is_for_surface surface c = message_surface_name c.surface == message_surface_name surface

unfoldable pub provider_message_constraint :
    ProviderType → MessageSurface → Option ProviderMessageConstraint
unfolding provider_message_constraints
provider_message_constraint provider_type surface =
    and_then (provider_message_constraints provider_type) (find (is_for_surface surface))

abbrev preflight_only : ProviderMessageConstraint → Option ProviderMessageConstraint
preflight_only c = elim c.enforcement [ policy_only ↦ none | local_preflight ↦ some c ]

unfoldable pub provider_local_preflight_message_constraint :
    ProviderType → MessageSurface → Option ProviderMessageConstraint
unfolding provider_message_constraint
provider_local_preflight_message_constraint provider_type surface =
    and_then (provider_message_constraint provider_type surface) preflight_only

unfoldable pub provider_local_preflight_message_limit : ProviderType → MessageSurface → Option ℕ
unfolding provider_local_preflight_message_constraint
provider_local_preflight_message_limit provider_type surface =
    and_then (provider_local_preflight_message_constraint provider_type surface) (λ c. c.limit)
