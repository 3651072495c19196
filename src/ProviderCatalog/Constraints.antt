-- ===== src/ProviderCatalog/Constraints.antt =====
-- src/provider_catalog.rs: the limits of the messages of each provider.
use agents_router.Prelude.{ℕ, ◌*◌, Option, some, List, [], ◌∷◌}

pub data MessageSurface : Type 0 where
  title message_body text_body webhook_content payload : MessageSurface

pub data MessageLimitUnit : Type 0 where
  characters bytes : MessageLimitUnit

pub data MessageConstraintSource : Type 0 where
  provider_documented provider_documented_default local_delivery_guard : MessageConstraintSource

pub data MessageConstraintEnforcement : Type 0 where
  policy_only local_preflight : MessageConstraintEnforcement

pub record ProviderMessageConstraint : Type 0 where
  pub surface : MessageSurface
  pub unit : MessageLimitUnit
  pub limit : Option ℕ
  pub source : MessageConstraintSource
  pub enforcement : MessageConstraintEnforcement

abbrev pub no_message_constraints : List ProviderMessageConstraint
no_message_constraints = []

abbrev pub ntfy_message_constraints : List ProviderMessageConstraint
ntfy_message_constraints =
    (record {
      surface = message_body;
      unit = characters;
      limit = some 4096;
      source = provider_documented_default;
      enforcement = policy_only;
    })
    ∷ []

abbrev pub pushover_message_constraints : List ProviderMessageConstraint
pushover_message_constraints =
    (record {
      surface = title;
      unit = characters;
      limit = some 250;
      source = provider_documented;
      enforcement = local_preflight;
    })
    ∷ (record {
      surface = message_body;
      unit = characters;
      limit = some 1024;
      source = provider_documented;
      enforcement = local_preflight;
    })
    ∷ []

abbrev pub slack_message_constraints : List ProviderMessageConstraint
slack_message_constraints =
    (record {
      surface = text_body;
      unit = characters;
      limit = some 4000;
      source = local_delivery_guard;
      enforcement = local_preflight;
    })
    ∷ []

abbrev pub discord_message_constraints : List ProviderMessageConstraint
discord_message_constraints =
    (record {
      surface = webhook_content;
      unit = characters;
      limit = some 2000;
      source = provider_documented;
      enforcement = local_preflight;
    })
    ∷ []

abbrev pub telegram_message_constraints : List ProviderMessageConstraint
telegram_message_constraints =
    (record {
      surface = text_body;
      unit = characters;
      limit = some 4096;
      source = provider_documented;
      enforcement = local_preflight;
    })
    ∷ []

abbrev pub whatsapp_message_constraints : List ProviderMessageConstraint
whatsapp_message_constraints =
    (record {
      surface = text_body;
      unit = characters;
      limit = some 4096;
      source = local_delivery_guard;
      enforcement = local_preflight;
    })
    ∷ []

abbrev pub wechat_message_constraints : List ProviderMessageConstraint
wechat_message_constraints =
    (record {
      surface = text_body;
      unit = characters;
      limit = some 3800;
      source = local_delivery_guard;
      enforcement = local_preflight;
    })
    ∷ []

abbrev pub microsoft_teams_message_constraints : List ProviderMessageConstraint
microsoft_teams_message_constraints =
    (record {
      surface = payload;
      unit = bytes;
      limit = some (28 * 1024);
      source = provider_documented;
      enforcement = local_preflight;
    })
    ∷ []
