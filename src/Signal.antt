-- ===== src/Signal.antt =====
-- src/signal.rs: the notification that a source emits. Times are nanoseconds from the earliest
-- `DateTime<Utc>`, so that every value is a natural number.
use agents_router.Prelude.{ℕ, String, Option, List}

pub data SignalEventKind : Type 0 where
  turn_completed custom : SignalEventKind

pub data SignalAnswerKind : Type 0 where
  preview full : SignalAnswerKind

pub data SignalLifecycleStatus : Type 0 where
  completed : SignalLifecycleStatus

pub record SignalSource : Type 0 where
  pub id : String
  pub source_type : String

pub record SignalEvent : Type 0 where
  pub kind : SignalEventKind
  pub raw_name : Option String

pub record SignalDisplay : Type 0 where
  pub title : String
  pub summary : String

pub record SignalWorkspace : Type 0 where
  pub cwd : Option String
  pub project_name : Option String
  pub project_path : Option String
  pub branch : Option String
  pub worktree : Option String

pub record SignalAnswer : Type 0 where
  pub kind : SignalAnswerKind
  pub content : String

pub record SignalConversation : Type 0 where
  pub session_id : Option String
  pub session_title : Option String
  pub turn_id : Option String
  pub prompt : Option String
  pub answer : Option SignalAnswer
  pub model : Option String

pub record SignalLifecycle : Type 0 where
  pub status : Option SignalLifecycleStatus
  pub started_at : Option ℕ
  pub completed_at : Option ℕ
  pub duration_ms : Option ℕ

pub record SignalLink : Type 0 where
  pub label : String
  pub url : String

pub record Signal : Type 0 where
  pub schema_version : ℕ
  pub id : String
  pub source : SignalSource
  pub event : SignalEvent
  pub display : SignalDisplay
  pub workspace : Option SignalWorkspace
  pub conversation : Option SignalConversation
  pub lifecycle : Option SignalLifecycle
  pub links : List SignalLink
  pub timestamp : ℕ
  pub metadata : List (String × String)

abbrev pub source_id : Signal → String
source_id s = s.source.id

abbrev pub source_type : Signal → String
source_type s = s.source.source_type
