-- ===== src/ResponseSurface/Turns/Tests.antt =====
-- Runs of the turns' operations.
use agents_router.Prelude.{String, ℕ, false, List, [], ◌∷◌}
use agents_router.ResponseSurface.Turns.{new_turn}
use agents_router.Persist.{replace_file}
use agents_router.Ledger.{load, update}
use agents_router.ResponseSurface.Records.{default_file}
use agents_router.ResponseSurface.WellFormed.{WellFormed}
use agents_router.ResponseSurface.Fixtures.{no_file, mirror, starts_well_formed}
use agents_router.ResponseSurface.Store.{load_ledger_file}
use agents_router.ResponseSurface.Store.History.{
  records_turn, Attempt, serve_all, file_stays_well_formed,
}
use agents_router.Prelude.{◌≡◌, refl, true, find}
use agents_router.Exec.{ok}
use agents_router.Prelude.Text.{is_blank}
use agents_router.Ledger.{Ledger, save, commit, ensure_all_present}
use agents_router.ResponseSurface.Records.{ResponseSurfaceContinuationTurnInput, default_file}
use agents_router.ResponseSurface.Turns.{
  contains, response_surface_continuation_turn_index, record_response_surface_continuation_turn_at,
  record_turn, validate_turn,
}
use agents_router.ResponseSurface.Turns.Recorded.{recorded_turn_is_indexed}
use agents_router.ResponseSurface.Fixtures.{File, b, in_memory}

abbrev turn : ResponseSurfaceContinuationTurnInput
turn = record { surface_id = "s1"; source_session_id = "session"; source_turn_id = "turn" }

turn_recorded :
    (record_response_surface_continuation_turn_at b turn 7 (in_memory default_file)).0 ≡ ok true
unfolding record_response_surface_continuation_turn_at validate_turn ensure_all_present is_blank
    record_turn commit save find
turn_recorded = refl

abbrev turn_ledger : Ledger File File
turn_ledger = (record_response_surface_continuation_turn_at b turn 7 (in_memory default_file)).1

recorded_turn_is_indexed_example :
    contains (response_surface_continuation_turn_index turn_ledger.state) "session" "turn" ≡ true
recorded_turn_is_indexed_example =
    (recorded_turn_is_indexed b turn 7 (in_memory default_file) true turn_recorded).0

abbrev sha256 : String → List ℕ
sha256 s = 171 ∷ []

-- The first write fails, the second one succeeds.
abbrev attempts : List Attempt
attempts =
    record {
      call = records_turn turn 7;
      can_create_dir = true;
      can_write = false;
      can_rename = true;
    }
    ∷ record {
      call = records_turn turn 8;
      can_create_dir = true;
      can_write = true;
      can_rename = true;
    }
    ∷ []

abbrev written : File
written = record default_file {
  continuation_turns =
      record {
        surface_id = "s1";
        source_session_id = "session";
        source_turn_id = "turn";
        recorded_at = 8;
      }
      ∷ [];
}

attempts_lem :
    load_ledger_file mirror (serve_all mirror sha256 "ledger.json" attempts no_file).file
    ≡ ok written
unfolding serve_all update load record_response_surface_continuation_turn_at validate_turn
    ensure_all_present is_blank record_turn commit save find replace_file new_turn
attempts_lem = refl

file_stays_well_formed_example : WellFormed written
file_stays_well_formed_example =
    file_stays_well_formed mirror sha256 "ledger.json" attempts no_file written starts_well_formed
      attempts_lem
