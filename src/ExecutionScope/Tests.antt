-- ===== src/ExecutionScope/Tests.antt =====
-- Two tasks that ask for one session.
use agents_router.Prelude.{◌≡◌, refl, true, false, remove_first, some, any}
use agents_router.Exec.{ok}
use agents_router.ExecutionScope.{
  ExecutionScopeKey, same_key, try_acquire, drop_lease, contains_key,
}
use agents_router.ExecutionScope.Keys.{Once}
use agents_router.ExecutionScope.Exclusion.{
  World, acquires, drops, Reaches, stays, and_then_step, start, acquired, dropped,
  one_lease_per_session, acquires_exactly_when_free,
}

abbrev session : ExecutionScopeKey
session = record {
  source_type = "codex_desktop";
  source_id = "codex_desktop";
  source_session_id = "session-1";
}

-- The first task acquires the session, the second one is refused.
abbrev contended : World
contended = acquired session (acquired session start)

contended_reached : Reaches start contended
contended_reached =
    and_then_step (and_then_step (stays start) (acquires session start))
      (acquires session (acquired session start))

held : contains_key session contended.leases ≡ true
unfolding any try_acquire same_key
held = refl

abbrev released : World
released = dropped session contended

released_reached : Reaches start released
released_reached = and_then_step contended_reached (drops session contended held)

one_lease_per_session_example : Once contended.leases
one_lease_per_session_example = one_lease_per_session contended contended_reached

sound : released.guard.poisoned ≡ false
unfolding any try_acquire same_key drop_lease
sound = refl

acquires_exactly_when_free_example :
    (try_acquire session released.guard).0 ≡ ok (some (record { key = session }))
unfolding any try_acquire same_key remove_first
acquires_exactly_when_free_example =
    acquires_exactly_when_free released session released_reached sound
