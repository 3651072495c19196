-- ===== src/ResponseSurface/Surfaces/Tests.antt =====
-- Runs of the surfaces' operations.
use agents_router.Persist.{replace_file}
use agents_router.Ledger.{load, update}
use agents_router.ResponseSurface.Fixtures.{no_file, mirror, starts_well_formed}
use agents_router.ResponseSurface.Surfaces.Restart.{created_survives_restart}
use agents_router.Prelude.{◌≡◌, refl, false, none, some, [], ◌∷◌, find, ◌==◌}
use agents_router.Exec.{ok}
use agents_router.Prelude.Text.{is_blank, present}
use agents_router.Ledger.{ensure_present, Ledger, save, commit, ensure_all_present}
use agents_router.ProviderCatalog.{slack_app}
use agents_router.ResponseSurface.Records.{
  ResponseSurfaceRecord, NewResponseSurface, default_file, open_status, expired_status, closed, hit,
}
use agents_router.ResponseSurface.Surfaces.{
  is_closed, create_surface_at, lookup_surface_at, close_surface, new_surface, from_surface,
  validate_query, validate_new_surface, create_or_return, surface_matches_query,
}
use agents_router.ResponseSurface.Surfaces.Threads.{thread_of, thread_of_input}
use agents_router.ResponseSurface.Surfaces.Lookup.{lookup_finds_binding}
use agents_router.ResponseSurface.Surfaces.Binding.{create_then_lookup}
use agents_router.ResponseSurface.Surfaces.Closing.{close_then_lookup, expired_stays_open}
use agents_router.ResponseSurface.Fixtures.{File, b, in_memory}

abbrev request : NewResponseSurface
request = record {
  signal_id = "signal";
  delivery_id = "delivery";
  source_id = "source";
  source_type = "codex";
  source_session_id = "session";
  source_turn_id = none;
  provider_id = "slack";
  provider_type = "slack";
  provider_mode = slack_app;
  provider_account_id = "account";
  provider_conversation_id = "conversation";
  provider_message_id = "message";
  provider_thread_id = "thread";
  route_binding_hash = none;
}

abbrev surface : ResponseSurfaceRecord
surface = record {
  surface_id = "s1";
  signal_id = "signal";
  delivery_id = "delivery";
  source_id = "source";
  source_type = "codex";
  source_session_id = "session";
  source_turn_id = none;
  provider_id = "slack";
  provider_type = "slack";
  provider_mode = slack_app;
  provider_account_id = "account";
  provider_conversation_id = "conversation";
  provider_message_id = "message";
  provider_thread_id = "thread";
  route_binding_hash = none;
  status = open_status;
  created_at = 7;
}

abbrev bound : Ledger File File
bound = in_memory (record default_file { surfaces = surface ∷ [] })

abbrev expired : ResponseSurfaceRecord
expired = record surface { status = expired_status }

abbrev legacy : Ledger File File
legacy = in_memory (record default_file { surfaces = expired ∷ [] })

thread_valid : validate_query (thread_of surface) ≡ ok tt
unfolding validate_query ensure_all_present is_blank
thread_valid = refl

id_valid : ensure_present "surface_id" "s1" ≡ ok tt
unfolding is_blank
id_valid = refl

bound_found : find (λ r. r.surface_id == "s1") bound.state.surfaces ≡ some surface
unfolding find
bound_found = refl

legacy_found : find (λ r. r.surface_id == "s1") legacy.state.surfaces ≡ some expired
unfolding find
legacy_found = refl

created : (create_surface_at b request 7 "s1" (in_memory default_file)).0 ≡ ok surface
unfolding create_surface_at validate_new_surface ensure_all_present is_blank create_or_return
    new_surface commit save find present
created = refl

lookup_finds_binding_example :
    lookup_surface_at b (thread_of surface) bound ≡ (ok (hit (from_surface surface)), bound)
unfolding find surface_matches_query is_closed
lookup_finds_binding_example =
    lookup_finds_binding b (thread_of surface) bound ((λ _. tt), tt) thread_valid

create_then_lookup_example :
    (lookup_surface_at b
      (thread_of_input request)
      (create_surface_at b request 7 "s1" (in_memory default_file)).1).0
    ≡ ok (hit (from_surface surface))
create_then_lookup_example =
    create_then_lookup b request 7 "s1" (in_memory default_file) surface tt created

close_then_lookup_example :
    (lookup_surface_at b (thread_of surface) (close_surface b "s1" bound).1).0 ≡ ok (closed "s1")
close_then_lookup_example =
    close_then_lookup b "s1" bound surface ((λ _. tt), tt) id_valid bound_found thread_valid refl

expired_stays_open_example : close_surface b "s1" legacy ≡ (ok false, legacy)
expired_stays_open_example =
    (expired_stays_open b "s1" legacy expired ((λ _. tt), tt) id_valid legacy_found thread_valid
      refl).0

stored : (update b "ledger.json" (create_surface_at b request 7 "s1") no_file).0 ≡ ok surface
unfolding update load create_surface_at validate_new_surface ensure_all_present is_blank
    create_or_return new_surface commit save find present replace_file
stored = refl

created_survives_restart_example :
    (update b "ledger.json"
      (lookup_surface_at b (thread_of_input request))
      (update b "ledger.json" (create_surface_at b request 7 "s1") no_file).1).0
    ≡ ok (hit (from_surface surface))
created_survives_restart_example =
    created_survives_restart mirror "ledger.json" request 7 "s1" no_file surface starts_well_formed
      stored
