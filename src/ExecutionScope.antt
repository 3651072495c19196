-- ===== src/ExecutionScope.antt =====
-- src/execution_scope_guard.rs: one lease at a time for the session of a source. The set of keys is a
-- list that holds each key once; `poisoned` is set once a thread has panicked while it held the lock.
pub mod Keys
pub mod Exclusion
mod Tests
use agents_router.Prelude.{
  String, Bool, false, not, ◌&&◌, Option, none, some, List, [], ◌∷◌, any, filter, ◌==◌,
  if◌then◌else◌,
}
use agents_router.Exec.{Result, Exec, ok, err, lock_poisoned}
use agents_router.ResponseSurface.Records.{ResponseSurfaceLookupRecord}

pub record ExecutionScopeKey : Type 0 where
  pub source_type : String
  pub source_id : String
  pub source_session_id : String

-- `ready` is read only for its surface.
abbrev pub from_ready : ResponseSurfaceLookupRecord → ExecutionScopeKey
from_ready surface = record {
  source_type = surface.source_type;
  source_id = surface.source_id;
  source_session_id = surface.source_session_id;
}

pub record ExecutionScopeGuard : Type 0 where
  pub active : List ExecutionScopeKey
  pub poisoned : Bool

abbrev pub default_guard : ExecutionScopeGuard
default_guard = record { active = []; poisoned = false }

pub record ExecutionScopeLease : Type 0 where
  pub key : ExecutionScopeKey

unfoldable pub same_key : ExecutionScopeKey → ExecutionScopeKey → Bool
same_key k j =
    k.source_type == j.source_type
    && k.source_id == j.source_id
    && k.source_session_id == j.source_session_id

-- `HashSet::contains`
abbrev pub contains_key : ExecutionScopeKey → List ExecutionScopeKey → Bool
contains_key k = any (same_key k)

-- `HashSet::remove`
abbrev pub remove_key : ExecutionScopeKey → List ExecutionScopeKey → List ExecutionScopeKey
remove_key k = filter (λ j. not (same_key k j))

unfoldable pub try_acquire :
    ExecutionScopeKey → Exec ExecutionScopeGuard (Option ExecutionScopeLease)
try_acquire k g =
    if g.poisoned
    then (err lock_poisoned, g)
    else if contains_key k g.active
    then (ok none, g)
    else (ok (some (record { key = k })), record g { active = k ∷ g.active })

-- `Drop for ExecutionScopeLease`
unfoldable pub drop_lease : ExecutionScopeLease → ExecutionScopeGuard → ExecutionScopeGuard
drop_lease lease g = if g.poisoned then g else record g { active = remove_key lease.key g.active }
