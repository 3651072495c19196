-- ===== src/DeliverySafety/State.antt =====
-- src/delivery_safety.rs: the constants and the data of the guard. Times are nanoseconds from the
-- earliest `DateTime<Utc>`. The lock serialises the calls: `poisoned` is set once a thread has
-- panicked while it held the lock.
use agents_router.Prelude.{ℕ, ◌*◌, ◌/◌, String, Bool, Option, none, List, []}
use agents_router.Persist.{Disk}
use agents_router.Signal.{Signal}

abbrev pub seconds : ℕ → ℕ
seconds n = n * 1_000_000_000

abbrev pub num_seconds : ℕ → ℕ
num_seconds t = t / 1_000_000_000

abbrev pub state_schema_version : ℕ
state_schema_version = 1

abbrev pub duplicate_window : ℕ
duplicate_window = seconds 10

abbrev pub duplicate_threshold : ℕ
duplicate_threshold = 5

abbrev pub global_pause_window : ℕ
global_pause_window = seconds 120

abbrev pub global_pause_threshold : ℕ
global_pause_threshold = 3

pub record GlobalDeliveryPause : Type 0 where
  pub paused_at : ℕ
  pub reason : String
  pub message_fingerprint_count : ℕ
  pub window_seconds : ℕ

-- The windows hold the times of the last attempts for a key, oldest first.
pub record DeliverySafetyInner : Type 0 where
  pub delivery_windows : List (String × List ℕ)
  pub suppressed_messages : List (String × ℕ)
  pub global_pause : Option GlobalDeliveryPause

pub record DeliverySafetyStateFile : Type 0 where
  pub schema_version : ℕ
  pub global_pause : Option GlobalDeliveryPause

pub record DeliverySafetyStatus : Type 0 where
  pub paused : Bool
  pub pause : Option GlobalDeliveryPause

pub record DeliverySafetyGuard (Raw : Type 0) : Type 0 where
  pub inner : DeliverySafetyInner
  pub poisoned : Bool
  pub state_path : Option String
  pub disk : Disk Raw

pub record DeliveryAttempt : Type 0 where
  pub signal : Signal
  pub provider_id : String

pub data DeliverySuppressionReason : Type 0 where
  duplicate_storm global_paused : DeliverySuppressionReason

pub record DeliveryPauseStarted : Type 0 where
  pub message_fingerprint_count : ℕ
  pub window_seconds : ℕ

pub record DeliverySuppression : Type 0 where
  pub reason : DeliverySuppressionReason
  pub message_fingerprint_hash : String
  pub delivery_key_hash : String
  pub window_seconds : ℕ
  pub count : ℕ
  pub global_paused : Bool
  pub pause_started : Option DeliveryPauseStarted

pub data DeliverySafetyDecision : Type 0 where
  allow : String → String → DeliverySafetyDecision
  suppress : DeliverySuppression → DeliverySafetyDecision

abbrev pub empty_inner : DeliverySafetyInner
empty_inner = record { delivery_windows = []; suppressed_messages = []; global_pause = none }

abbrev pub empty_state_file : DeliverySafetyStateFile
empty_state_file = record { schema_version = state_schema_version; global_pause = none }
