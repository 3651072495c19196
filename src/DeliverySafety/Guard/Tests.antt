-- ===== src/DeliverySafety/Guard/Tests.antt =====
-- Runs of the guard at concrete calls.
use agents_router.Prelude.{ℕ, ◌≡◌, refl, sym, true, false, none, some, List, [], ◌∷◌, arith}
use agents_router.Prelude.Maps.{lookup, insert, retain}
use agents_router.Exec.{ok, err, write_failed}
use agents_router.Persist.{Json, Disk, absent, replace_file}
use agents_router.DeliverySafety.State.{
  seconds, DeliverySafetyStateFile, DeliverySafetyGuard, DeliverySuppression, duplicate_storm,
  suppress, empty_inner,
}
use agents_router.DeliverySafety.Guard.{
  save_locked, suppress_storm, check_keys, reset, load, in_memory, pop_expired,
  prune_delivery_windows, record_suppressed_message, paused_suppression,
}
use agents_router.DeliverySafety.Guard.History.{Call}
use agents_router.DeliverySafety.Guard.Decisions.{
  after, decision, run, is_allowed, recent_calls, check_counts_recent_calls,
}
use agents_router.DeliverySafety.Guard.Pause.{restarted}
use agents_router.DeliverySafety.Guard.Lasting.{
  Later, at_once, called, reloaded, disk_changed, pause_lasts_until_reset,
}
use agents_router.DeliverySafety.Guard.Restart.{failed_call_pauses}

abbrev File : Type 0
File = DeliverySafetyStateFile

-- A file that holds the value itself.
abbrev json : Json File File
json = record { to_vec_pretty = some; from_str = some; round_trip = λ f raw e. sym e }

abbrev empty_disk : Disk File
empty_disk = record { file = absent; can_create_dir = true; can_write = true; can_rename = true }

abbrev fresh : DeliverySafetyGuard File
fresh = record {
  inner = empty_inner;
  poisoned = false;
  state_path = some "state.json";
  disk = empty_disk;
}

in_memory_lem : in_memory empty_disk ≡ record fresh { state_path = none }
unfolding in_memory
in_memory_lem = refl

abbrev at : ℕ → Call
at n = record { fingerprint = "f"; key = "k"; now = seconds n }

abbrev four_calls : List Call
four_calls = at 1 ∷ at 2 ∷ at 3 ∷ at 4 ∷ []

-- The fifth call in four seconds is held back.
fifth_call : is_allowed (decision json (at 5) (run json four_calls fresh)) ≡ false
unfolding run check_keys prune_delivery_windows lookup insert suppress_storm
    record_suppressed_message retain
fifth_call = refl

fifth_call_up : (run json four_calls fresh).inner.global_pause ≡ none
unfolding run check_keys prune_delivery_windows lookup insert suppress_storm
    record_suppressed_message retain
fifth_call_up = refl

-- At twelve seconds only two of the four calls are recent.
check_counts_recent_calls_example :
    is_allowed (decision json (at 12) (run json four_calls fresh)) ≡ true
unfolding recent_calls
check_counts_recent_calls_example =
    check_counts_recent_calls json fresh four_calls (at 12) refl refl (omega arith) (omega arith)
      fifth_call_up

-- Four recent attempts for the key, and two other messages that are suppressed.
abbrev crowded : DeliverySafetyGuard File
crowded = record fresh {
  inner = record {
    delivery_windows = ("k", seconds 1 ∷ seconds 2 ∷ seconds 3 ∷ seconds 4 ∷ []) ∷ [];
    suppressed_messages = ("a", seconds 1) ∷ ("b", seconds 2) ∷ [];
    global_pause = none;
  };
}

abbrev third_storm : DeliverySuppression
third_storm = record {
  reason = duplicate_storm;
  message_fingerprint_hash = "f";
  delivery_key_hash = "k";
  window_seconds = 10;
  count = 5;
  global_paused = true;
  pause_started = some (record { message_fingerprint_count = 3; window_seconds = 120 });
}

third_storm_starts : decision json (at 5) crowded ≡ ok (suppress third_storm)
unfolding check_keys prune_delivery_windows lookup insert suppress_storm record_suppressed_message
    retain save_locked replace_file pop_expired
third_storm_starts = refl

-- The disk becomes read-only, the router restarts, and another call is made.
abbrev read_only_disk : Disk File
read_only_disk = record empty_disk {
  file = (after json (at 5) crowded).disk.file;
  can_write = false;
}

abbrev again : DeliverySafetyGuard File
again = restarted json "state.json" (after json (at 5) crowded) read_only_disk

loads_again : load json "state.json" read_only_disk ≡ ok again
unfolding load check_keys prune_delivery_windows lookup insert suppress_storm
    record_suppressed_message retain save_locked replace_file pop_expired
loads_again = refl

reaches_again : Later json "state.json" (after json (at 5) crowded) (after json (at 6) again)
reaches_again =
    let g = after json (at 5) crowded in
    let h = record g { disk = read_only_disk } in
    called (at 6) again (reloaded h again loads_again (disk_changed g read_only_disk refl at_once))

pause_lasts_until_reset_example :
    decision json (at 9) (after json (at 6) again) ≡ ok (suppress (paused_suppression "f" "k"))
pause_lasts_until_reset_example =
    (pause_lasts_until_reset json "state.json" (at 5) crowded third_storm refl third_storm_starts
      refl (after json (at 6) again) reaches_again (at 9)).0

abbrev read_only : DeliverySafetyGuard File
read_only = record crowded { disk = record empty_disk { can_write = false } }

write_fails : decision json (at 5) read_only ≡ err write_failed
unfolding check_keys prune_delivery_windows lookup insert suppress_storm record_suppressed_message
    retain save_locked replace_file pop_expired
write_fails = refl

failed_call_pauses_example : (after json (at 5) read_only).disk ≡ read_only.disk
failed_call_pauses_example =
    (failed_call_pauses json (at 5) read_only write_failed refl write_fails).1

abbrev paused : DeliverySafetyGuard File
paused = record fresh {
  inner = record empty_inner {
    global_pause = some (record {
      paused_at = seconds 5;
      reason = "multiple_duplicate_storms";
      message_fingerprint_count = 3;
      window_seconds = 120;
    });
  };
}

reset_works : (reset json paused).0 ≡ ok tt
unfolding reset save_locked replace_file
reset_works = refl
