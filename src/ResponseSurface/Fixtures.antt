-- ===== src/ResponseSurface/Fixtures.antt =====
-- Ledgers for the tests.
use agents_router.Prelude.{false, [], ◌∷◌}
use agents_router.Signal.{Signal, turn_completed}
use agents_router.Config.{RouteConfig, slack}
use agents_router.ProviderCatalog.{
  ProviderModeCapability, slack_app, local_connection, socket_mode, available, thread_root_reply,
  response_surface_delivery_receipt_fields,
}
use agents_router.Prelude.{◌≡◌, sym, subst, true, none, some}
use agents_router.Persist.{Json, Disk, absent}
use agents_router.Ledger.{Ledger, Backend}
use agents_router.ResponseSurface.Records.{ResponseSurfaceLedgerFile}
use agents_router.ResponseSurface.Store.{ledger_backend, load_ledger_file}
use agents_router.ResponseSurface.WellFormed.{WellFormed, default_file-WellFormed}
use agents_router.Ledger.Laws.{ok-injective}
use agents_router.Exec.{ok}

abbrev pub File : Type 0
File = ResponseSurfaceLedgerFile

-- A file that holds the value itself, and a ledger that is only in memory.
abbrev pub mirror : Json File File
mirror = record { to_vec_pretty = some; from_str = some; round_trip = λ f raw e. sym e }

abbrev pub b : Backend File File
b = ledger_backend mirror

abbrev pub in_memory : File → Ledger File File
in_memory f = record {
  state_path = none;
  state = f;
  disk = record { file = absent; can_create_dir = true; can_write = true; can_rename = true };
}

abbrev pub no_file : Disk File
no_file = record { file = absent; can_create_dir = true; can_write = true; can_rename = true }

pub starts_well_formed :
    (g : ResponseSurfaceLedgerFile) → load_ledger_file mirror no_file.file ≡ ok g → WellFormed g
starts_well_formed g e = subst WellFormed (ok-injective e) default_file-WellFormed

abbrev pub desktop_signal : Signal
desktop_signal = record {
  schema_version = 2;
  id = "signal";
  source = record { id = "codex_desktop"; source_type = "codex_desktop" };
  event = record { kind = turn_completed; raw_name = none };
  display = record { title = "title"; summary = "summary" };
  workspace = none;
  conversation = some (record {
    session_id = some "session";
    session_title = none;
    turn_id = some "turn";
    prompt = none;
    answer = none;
    model = none;
  });
  lifecycle = none;
  links = [];
  timestamp = 7;
  metadata = [];
}

abbrev pub open_route : RouteConfig
open_route = record {
  sources = "codex_desktop" ∷ [];
  providers = "slack" ∷ [];
  minimum_task_duration_minutes = none;
  only_forward_from_project_paths = [];
  response_surface = record { enabled = true };
}

abbrev pub slack_app_mode : ProviderModeCapability
slack_app_mode = record {
  provider_type = slack;
  mode = slack_app;
  display_name = "Slack app";
  inbound_reply = record {
    mode = local_connection;
    local_connection_kind = some socket_mode;
    requires_public_endpoint = false;
    stable_event_id = available;
    reply_surfaces = thread_root_reply ∷ [];
  };
  delivery_receipt = record { fields = response_surface_delivery_receipt_fields };
}
