-- ===== src/AgentCatalog/Sources.antt =====
-- src/agent_integration_catalog.rs: the lookups by id and by source agree on the catalog.
use agents_router.Prelude.{String, ◌≡◌, refl, Option, some, find, ◌==◌, Bool}
use agents_router.AgentCatalog.{
  AgentIntegrationId, AgentIntegrationDescriptor, codex_desktop, codex_cli, claude_code, cursor_cli,
  open_code_cli, open_claw, hermes_agent_cli, github_copilot_cli, gemini_cli, aider,
}
use agents_router.AgentCatalog.Descriptors.{
  agent_integration_descriptors, agent_integration_for_source, serves_source, same_source_type,
}

-- The name of an id, distinct for each
abbrev id_name : AgentIntegrationId → String
id_name codex_desktop = "CodexDesktop"
id_name codex_cli = "CodexCli"
id_name claude_code = "ClaudeCode"
id_name cursor_cli = "CursorCli"
id_name open_code_cli = "OpenCodeCli"
id_name open_claw = "OpenClaw"
id_name hermes_agent_cli = "HermesAgentCli"
id_name github_copilot_cli = "GithubCopilotCli"
id_name gemini_cli = "GeminiCli"
id_name aider = "Aider"

abbrev has_id : AgentIntegrationId → AgentIntegrationDescriptor → Bool
has_id id d = id_name d.id == id_name id

-- `agent_integration_descriptor`; `none` stands for the panic of `expect`.
pub agent_integration_descriptor : AgentIntegrationId → Option AgentIntegrationDescriptor
unfolding agent_integration_descriptors
agent_integration_descriptor id = find (has_id id) agent_integration_descriptors

-- Every id has its descriptor in the catalog, so that the lookup by id does not panic, and the
-- lookup by the source id and the source type of that descriptor finds the same one.
pub every_agent_has_its_source :
    (id : AgentIntegrationId)
    → (d : AgentIntegrationDescriptor) × (agent_integration_descriptor id ≡ some d)
      × (d.id ≡ id)
      × (agent_integration_for_source d.source_capability.canonical_source_id
            d.source_capability.source_type
          ≡ some d)
unfolding agent_integration_descriptor agent_integration_for_source find serves_source
    same_source_type agent_integration_descriptors
every_agent_has_its_source codex_desktop = (_, refl, refl, refl)
every_agent_has_its_source codex_cli = (_, refl, refl, refl)
every_agent_has_its_source claude_code = (_, refl, refl, refl)
every_agent_has_its_source cursor_cli = (_, refl, refl, refl)
every_agent_has_its_source open_code_cli = (_, refl, refl, refl)
every_agent_has_its_source open_claw = (_, refl, refl, refl)
every_agent_has_its_source hermes_agent_cli = (_, refl, refl, refl)
every_agent_has_its_source github_copilot_cli = (_, refl, refl, refl)
every_agent_has_its_source gemini_cli = (_, refl, refl, refl)
every_agent_has_its_source aider = (_, refl, refl, refl)
