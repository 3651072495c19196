-- ===== src/DeliverySafety/Guard.antt =====
-- src/delivery_safety.rs: the operations of the guard that holds back storms of duplicate
-- deliveries. `json` stands for serde_json, `sha256` for the sha2 crate.
pub mod Windows
pub mod History
pub mod Decisions
pub mod Pause
pub mod Restart
pub mod Lasting
mod Tests
use agents_router.Prelude.{
  ℕ, ◌-◌, String, Bool, true, false, not, ◌&&◌, Option, none, some, List, [], ◌∷◌, ◌++◌, length,
  is_some, leb, ltb, ◌==◌, if◌then◌else◌,
}
use agents_router.Prelude.Text.{is_blank, trim}
use agents_router.Prelude.Maps.{lookup, insert, retain}
use agents_router.Exec.{Exec, Result, ok, err, lock_poisoned, provider_target_not_trimmed, ◌>>◌}
use agents_router.Persist.{Json, Disk, FileContent, read_file, replace_file}
use agents_router.DeliverySafety.State.{
  num_seconds, state_schema_version, duplicate_window, duplicate_threshold, global_pause_window,
  global_pause_threshold, GlobalDeliveryPause, DeliverySafetyInner, DeliverySafetyStateFile,
  DeliverySafetyStatus, DeliverySafetyGuard, DeliveryAttempt, duplicate_storm, global_paused,
  DeliveryPauseStarted, DeliverySuppression, DeliverySafetyDecision, allow, suppress, empty_inner,
  empty_state_file,
}
use agents_router.DeliverySafety.Hashes.{message_fingerprint_hash, delivery_key_hash}

-- `while window.front() < cutoff { pop_front }`
pub pop_expired : ℕ → List ℕ → List ℕ
pop_expired cutoff [] = []
pop_expired cutoff (t ∷ ts) =
    let rest = pop_expired cutoff ts in if ltb t cutoff then rest else t ∷ ts

-- `retain` with a test that first shortens the window
pub prune_delivery_windows : ℕ → List (String × List ℕ) → List (String × List ℕ)
unfolding pop_expired
prune_delivery_windows cutoff [] = []
prune_delivery_windows cutoff ((k, w) ∷ m) =
    let rest = prune_delivery_windows cutoff m in
    elim (pop_expired cutoff w) [ [] ↦ rest | t ∷ ts ↦ (k, t ∷ ts) ∷ rest ]

abbrev pub or_default : Option (List ℕ) → List ℕ
or_default none = []
or_default (some w) = w

-- The window of a key after an attempt at `now`
abbrev pub record_attempt : String → ℕ → List (String × List ℕ) → List ℕ
record_attempt key now windows =
    pop_expired (now - duplicate_window) (or_default (lookup key windows)) ++ now ∷ []

pub record_suppressed_message :
    DeliverySafetyInner → String → ℕ → Option DeliveryPauseStarted × DeliverySafetyInner
record_suppressed_message inner fingerprint now =
    let cutoff = now - global_pause_window in
    let messages = insert fingerprint now (retain (leb cutoff) inner.suppressed_messages) in
    let count = length messages in
    let window = num_seconds global_pause_window in
    if not (is_some inner.global_pause) && leb global_pause_threshold count
    then (
      some (record { message_fingerprint_count = count; window_seconds = window }),
      record inner {
        suppressed_messages = messages;
        global_pause = some (record {
          paused_at = now;
          reason = "multiple_duplicate_storms";
          message_fingerprint_count = count;
          window_seconds = window;
        });
      },
    )
    else (none, record inner { suppressed_messages = messages })

abbrev pub paused_suppression : String → String → DeliverySuppression
paused_suppression fingerprint key = record {
  reason = global_paused;
  message_fingerprint_hash = fingerprint;
  delivery_key_hash = key;
  window_seconds = 0;
  count = 0;
  global_paused = true;
  pause_started = none;
}

abbrev storm_suppression :
    String → String → ℕ → Option DeliveryPauseStarted → DeliverySafetyInner → DeliverySuppression
storm_suppression fingerprint key count started inner = record {
  reason = duplicate_storm;
  message_fingerprint_hash = fingerprint;
  delivery_key_hash = key;
  window_seconds = num_seconds duplicate_window;
  count = count;
  global_paused = is_some inner.global_pause;
  pause_started = started;
}

status_from_pause : Option GlobalDeliveryPause → DeliverySafetyStatus
status_from_pause pause = record { paused = is_some pause; pause = pause }

module _ {Raw : Type 0} where
  pub in_memory : Disk Raw → DeliverySafetyGuard Raw
  in_memory disk = record { inner = empty_inner; poisoned = false; state_path = none; disk = disk }

  pub status : DeliverySafetyGuard Raw → Result DeliverySafetyStatus
  unfolding status_from_pause
  status g = if g.poisoned then err lock_poisoned else ok (status_from_pause g.inner.global_pause)

module _ {Raw : Type 0} (json : Json DeliverySafetyStateFile Raw) where
  load_state_file : FileContent Raw → Result DeliverySafetyStateFile
  load_state_file = read_file json empty_state_file (λ f. f.schema_version) state_schema_version

  abbrev loaded :
      String → Disk Raw → Result DeliverySafetyStateFile → Result (DeliverySafetyGuard Raw)
  loaded path disk (err e) = err e
  loaded path disk (ok f) = ok (record {
    inner = record empty_inner { global_pause = f.global_pause };
    poisoned = false;
    state_path = some path;
    disk = disk;
  })

  pub load : String → Disk Raw → Result (DeliverySafetyGuard Raw)
  unfolding load_state_file
  load path disk = loaded path disk (load_state_file disk.file)

  pub save_locked : Exec (DeliverySafetyGuard Raw) (Unit {0})
  save_locked g = elim g.state_path [
    | none ↦ (ok tt, g)
    | some path ↦
        let f : DeliverySafetyStateFile = record {
          schema_version = state_schema_version;
          global_pause = g.inner.global_pause;
        } in
        ((replace_file json f g.disk).0, record g { disk = (replace_file json f g.disk).1 })
  ]

  pub reset : Exec (DeliverySafetyGuard Raw) (Unit {0})
  unfolding save_locked
  reset g =
      if g.poisoned then (err lock_poisoned, g) else save_locked (record g { inner = empty_inner })

  -- The rest of `check_at_inner` once the window has too many attempts.
  pub suppress_storm :
      String → String → ℕ → ℕ → Exec (DeliverySafetyGuard Raw) DeliverySafetyDecision
  suppress_storm fingerprint key count now g =
      let started = (record_suppressed_message g.inner fingerprint now).0 in
      let inner = (record_suppressed_message g.inner fingerprint now).1 in
      let decision = suppress (storm_suppression fingerprint key count started inner) in
      let g' = record g { inner = inner } in
      if is_some started
      then (do save_locked; λ (h : DeliverySafetyGuard Raw). (ok decision, h)) g'
      else (ok decision, g')

  -- `check_at_inner` behind the two hashes
  pub check_keys : String → String → ℕ → Exec (DeliverySafetyGuard Raw) DeliverySafetyDecision
  check_keys fingerprint key now g =
      if g.poisoned
      then (err lock_poisoned, g)
      else if is_some g.inner.global_pause
      then (ok (suppress (paused_suppression fingerprint key)), g)
      else let pruned = prune_delivery_windows (now - duplicate_window) g.inner.delivery_windows in
        let window = record_attempt key now pruned in
        let g' = record g {
          inner = record g.inner { delivery_windows = insert key window pruned };
        } in
        if ltb (length window) duplicate_threshold
        then (ok (allow fingerprint key), g')
        else suppress_storm fingerprint key (length window) now g'

  module _ (sha256 : String → List ℕ) where
    pub check_at_inner :
        DeliveryAttempt → ℕ → Option String → Exec (DeliverySafetyGuard Raw) DeliverySafetyDecision
    unfolding check_keys
    check_at_inner attempt now target =
        let fingerprint = message_fingerprint_hash sha256 attempt.signal in
        check_keys fingerprint (delivery_key_hash sha256 attempt.provider_id target fingerprint) now

    pub check_at : DeliveryAttempt → ℕ → Exec (DeliverySafetyGuard Raw) DeliverySafetyDecision
    unfolding check_at_inner
    check_at attempt now = check_at_inner attempt now none

    pub check_at_for_provider_target :
        DeliveryAttempt → String → ℕ → Exec (DeliverySafetyGuard Raw) DeliverySafetyDecision
    unfolding check_at_inner
    check_at_for_provider_target attempt target now g =
        if not (is_blank target) && trim target == target
        then check_at_inner attempt now (some target) g
        else (err provider_target_not_trimmed, g)
