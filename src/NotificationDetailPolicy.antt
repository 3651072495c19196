-- ===== src/NotificationDetailPolicy.antt =====
-- src/notification_detail_policy.rs: which providers fix the detail of a notification. `none` stands
-- for the panic on a provider that the catalog has not.
use agents_router.Prelude.{Bool, true, false, Option, none, some, List, [], ◌∷◌}
use agents_router.Config.{ProviderType}
use agents_router.ProviderCatalog.Constraints.{ProviderMessageConstraint}
use agents_router.ProviderCatalog.Descriptors.{provider_message_constraints}

pub data NotificationDetailSupport : Type 0 where
  configurable : NotificationDetailSupport
  fixed_preview fixed_off : List ProviderMessageConstraint → NotificationDetailSupport

abbrev answer_support : List ProviderMessageConstraint → NotificationDetailSupport
answer_support [] = configurable
answer_support (c ∷ cs) = fixed_preview (c ∷ cs)

abbrev prompt_support : List ProviderMessageConstraint → NotificationDetailSupport
prompt_support [] = configurable
prompt_support (c ∷ cs) = fixed_off (c ∷ cs)

abbrev map_option : {A B : Type 0} → (A → B) → Option A → Option B
map_option f none = none
map_option f (some a) = some (f a)

unfoldable answer_detail_support : ProviderType → Option NotificationDetailSupport
unfolding provider_message_constraints
answer_detail_support provider_type =
    map_option answer_support (provider_message_constraints provider_type)

unfoldable prompt_detail_support : ProviderType → Option NotificationDetailSupport
unfolding provider_message_constraints
prompt_detail_support provider_type =
    map_option prompt_support (provider_message_constraints provider_type)

abbrev is_fixed_preview : NotificationDetailSupport → Bool
is_fixed_preview (fixed_preview cs) = true
is_fixed_preview support = false

abbrev is_fixed_off : NotificationDetailSupport → Bool
is_fixed_off (fixed_off cs) = true
is_fixed_off support = false

unfoldable pub rejects_full_answer : ProviderType → Option Bool
unfolding answer_detail_support
rejects_full_answer provider_type =
    map_option is_fixed_preview (answer_detail_support provider_type)

unfoldable pub rejects_prompt_detail : ProviderType → Option Bool
unfolding prompt_detail_support
rejects_prompt_detail provider_type = map_option is_fixed_off (prompt_detail_support provider_type)
