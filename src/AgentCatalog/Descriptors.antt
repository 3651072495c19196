-- ===== src/AgentCatalog/Descriptors.antt =====
-- src/agent_integration_catalog.rs: the table of the agents, and its search by source.
use agents_router.Prelude.{String, Bool, ◌&&◌, Option, none, some, List, [], ◌∷◌, find, ◌==◌}
use agents_router.Config.{
  SourceType, source_type_name, agent_hook_source, codex_desktop_source, codex_cli_source,
  claude_code_source,
}
use agents_router.AgentCatalog.{
  ContinuationCapability, AgentIntegrationDescriptor, codex_desktop, codex_cli, claude_code,
  cursor_cli, open_code_cli, open_claw, hermes_agent_cli, github_copilot_cli, gemini_cli, aider,
  all_platforms, macos_and_windows, duration_supported, duration_unsupported, no_local_integration,
  codex_cli_stop_hook, claude_code_hooks, codex_desktop_watch, setup_codex_cli_stop_hook,
  setup_claude_code_hooks, manual_hook_command, claude_code_hook, codex_cli_stop, gemini_cli_hook,
  github_copilot_cli_notification, opencode_cli_session, emit, ingest, codex_app_server,
  signal_conversation_session_id, respect_agent_session_turn_lifecycle, local_controller_only,
  experimental, unsupported, available,
}

abbrev codex_desktop_continuation : ContinuationCapability
codex_desktop_continuation = available (record {
  target = record {
    controller_kind = codex_app_server;
    session_binding = signal_conversation_session_id;
    active_turn_control = respect_agent_session_turn_lifecycle;
    locality_requirement = local_controller_only;
  };
  release_stage = experimental;
})

abbrev codex_desktop_descriptor : AgentIntegrationDescriptor
codex_desktop_descriptor = record {
  id = codex_desktop;
  source_capability = record {
    display_name = "Codex Desktop";
    canonical_source_id = "codex_desktop";
    source_type = codex_desktop_source;
    setup_order = 10;
    platform_support = macos_and_windows;
    duration_support = duration_supported;
    ingest_format = none;
    hook_command = none;
    local_integration = no_local_integration;
    setup_integration = codex_desktop_watch;
  };
  continuation_capability = codex_desktop_continuation;
}

abbrev codex_cli_descriptor : AgentIntegrationDescriptor
codex_cli_descriptor = record {
  id = codex_cli;
  source_capability = record {
    display_name = "Codex CLI";
    canonical_source_id = "codex_cli";
    source_type = codex_cli_source;
    setup_order = 20;
    platform_support = all_platforms;
    duration_support = duration_unsupported;
    ingest_format = some codex_cli_stop;
    hook_command = some (ingest "codex_cli" codex_cli_stop);
    local_integration = codex_cli_stop_hook;
    setup_integration = setup_codex_cli_stop_hook;
  };
  continuation_capability = unsupported;
}

abbrev claude_code_descriptor : AgentIntegrationDescriptor
claude_code_descriptor = record {
  id = claude_code;
  source_capability = record {
    display_name = "Claude Code";
    canonical_source_id = "claude_code";
    source_type = claude_code_source;
    setup_order = 30;
    platform_support = all_platforms;
    duration_support = duration_supported;
    ingest_format = some claude_code_hook;
    hook_command = some (ingest "claude_code" claude_code_hook);
    local_integration = claude_code_hooks;
    setup_integration = setup_claude_code_hooks;
  };
  continuation_capability = unsupported;
}

abbrev cursor_cli_descriptor : AgentIntegrationDescriptor
cursor_cli_descriptor = record {
  id = cursor_cli;
  source_capability = record {
    display_name = "Cursor CLI";
    canonical_source_id = "cursor_cli";
    source_type = agent_hook_source;
    setup_order = 40;
    platform_support = all_platforms;
    duration_support = duration_unsupported;
    ingest_format = none;
    hook_command = some (emit "cursor_cli");
    local_integration = no_local_integration;
    setup_integration = manual_hook_command (record {
      english = "wrapper after the CLI exits successfully";
      simplified_chinese = "wrapper 在 CLI 成功退出后";
    });
  };
  continuation_capability = unsupported;
}

abbrev open_code_cli_descriptor : AgentIntegrationDescriptor
open_code_cli_descriptor = record {
  id = open_code_cli;
  source_capability = record {
    display_name = "OpenCode CLI";
    canonical_source_id = "opencode_cli";
    source_type = agent_hook_source;
    setup_order = 50;
    platform_support = all_platforms;
    duration_support = duration_unsupported;
    ingest_format = some opencode_cli_session;
    hook_command = some (ingest "opencode_cli" opencode_cli_session);
    local_integration = no_local_integration;
    setup_integration = manual_hook_command (record {
      english = "plugin when the session becomes idle";
      simplified_chinese = "plugin 在 session idle 时";
    });
  };
  continuation_capability = unsupported;
}

abbrev open_claw_descriptor : AgentIntegrationDescriptor
open_claw_descriptor = record {
  id = open_claw;
  source_capability = record {
    display_name = "OpenClaw";
    canonical_source_id = "openclaw";
    source_type = agent_hook_source;
    setup_order = 60;
    platform_support = all_platforms;
    duration_support = duration_unsupported;
    ingest_format = none;
    hook_command = some (emit "openclaw");
    local_integration = no_local_integration;
    setup_integration = manual_hook_command (record {
      english = "plugin hook from agent_end";
      simplified_chinese = "plugin hook 在 agent_end";
    });
  };
  continuation_capability = unsupported;
}

abbrev hermes_agent_cli_descriptor : AgentIntegrationDescriptor
hermes_agent_cli_descriptor = record {
  id = hermes_agent_cli;
  source_capability = record {
    display_name = "Hermes Agent CLI";
    canonical_source_id = "hermes_agent_cli";
    source_type = agent_hook_source;
    setup_order = 70;
    platform_support = all_platforms;
    duration_support = duration_unsupported;
    ingest_format = none;
    hook_command = some (emit "hermes_agent_cli");
    local_integration = no_local_integration;
    setup_integration = manual_hook_command (record {
      english = "plugin hook from post_llm_call";
      simplified_chinese = "plugin hook 在 post_llm_call";
    });
  };
  continuation_capability = unsupported;
}

abbrev github_copilot_cli_descriptor : AgentIntegrationDescriptor
github_copilot_cli_descriptor = record {
  id = github_copilot_cli;
  source_capability = record {
    display_name = "GitHub Copilot CLI";
    canonical_source_id = "github_copilot_cli";
    source_type = agent_hook_source;
    setup_order = 80;
    platform_support = all_platforms;
    duration_support = duration_unsupported;
    ingest_format = some github_copilot_cli_notification;
    hook_command = some (ingest "github_copilot_cli" github_copilot_cli_notification);
    local_integration = no_local_integration;
    setup_integration =
        manual_hook_command
          (record { english = "notification hook"; simplified_chinese = "notification hook" });
  };
  continuation_capability = unsupported;
}

abbrev gemini_cli_descriptor : AgentIntegrationDescriptor
gemini_cli_descriptor = record {
  id = gemini_cli;
  source_capability = record {
    display_name = "Gemini CLI";
    canonical_source_id = "gemini_cli";
    source_type = agent_hook_source;
    setup_order = 90;
    platform_support = all_platforms;
    duration_support = duration_unsupported;
    ingest_format = some gemini_cli_hook;
    hook_command = some (ingest "gemini_cli" gemini_cli_hook);
    local_integration = no_local_integration;
    setup_integration = manual_hook_command (record {
      english = "AfterAgent or Notification hook";
      simplified_chinese = "AfterAgent 或 Notification hook";
    });
  };
  continuation_capability = unsupported;
}

abbrev aider_descriptor : AgentIntegrationDescriptor
aider_descriptor = record {
  id = aider;
  source_capability = record {
    display_name = "Aider";
    canonical_source_id = "aider";
    source_type = agent_hook_source;
    setup_order = 100;
    platform_support = all_platforms;
    duration_support = duration_unsupported;
    ingest_format = none;
    hook_command = some (emit "aider");
    local_integration = no_local_integration;
    setup_integration = manual_hook_command (record {
      english = "notifications-command";
      simplified_chinese = "notifications-command";
    });
  };
  continuation_capability = unsupported;
}

unfoldable pub agent_integration_descriptors : List AgentIntegrationDescriptor
agent_integration_descriptors =
    codex_desktop_descriptor ∷ codex_cli_descriptor ∷ claude_code_descriptor ∷ cursor_cli_descriptor
    ∷ open_code_cli_descriptor ∷ open_claw_descriptor ∷ hermes_agent_cli_descriptor
    ∷ github_copilot_cli_descriptor ∷ gemini_cli_descriptor ∷ aider_descriptor ∷ []

-- Equality of source types is that of their names, which differ.
unfoldable pub same_source_type : SourceType → SourceType → Bool
same_source_type s t = source_type_name s == source_type_name t

unfoldable pub serves_source : String → SourceType → AgentIntegrationDescriptor → Bool
serves_source source_id source_type d =
    d.source_capability.canonical_source_id == source_id
    && same_source_type d.source_capability.source_type source_type

unfoldable pub agent_integration_for_source :
    String → SourceType → Option AgentIntegrationDescriptor
unfolding serves_source agent_integration_descriptors
agent_integration_for_source source_id source_type =
    find (serves_source source_id source_type) agent_integration_descriptors
