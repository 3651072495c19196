-- ===== src/BridgeBinding/Threads.antt =====
-- src/bridge_binding_ledger.rs: the threads, each bound to the session of an agent in a project.
pub mod Lookup
pub mod Immutable
pub mod Found
mod Tests
use agents_router.Prelude.{
  ℕ, String, Bool, true, false, not, ◌&&◌, ◌||◌, Option, none, some, List, [], ◌∷◌, ◌++◌, find,
  update_first, is_some, ◌==◌, if◌then◌else◌,
}
use agents_router.Prelude.Paths.{starts_with}
use agents_router.Exec.{Exec, Result, ok, err, thread_bound_to_other_session, lift, ◌>>=◌, ◌>>◌}
use agents_router.Ledger.{Ledger, Backend, commit}
use agents_router.BridgeBinding.Records.{
  ThreadSessionBindingRecord, ThreadSessionBindingInput, ThreadBindingQuery,
  BridgeBindingLedgerFile, validate_present, validate_project_path, and_next,
}

abbrev validate_hash : Option String → Result (Unit {0})
validate_hash none = ok tt
validate_hash (some h) = validate_present "route_binding_hash" h

unfoldable pub validate_thread_session_binding_input : ThreadSessionBindingInput → Result (Unit {0})
validate_thread_session_binding_input i = and_next (validate_present "provider_id" i.provider_id) (
    and_next (validate_present "provider_type" i.provider_type) (
      and_next (validate_present "provider_account_id" i.provider_account_id) (
        and_next (validate_present "provider_conversation_id" i.provider_conversation_id) (
          and_next (validate_present "provider_thread_id" i.provider_thread_id) (
            and_next (validate_project_path i.project_path) (
              and_next (validate_present "source_id" i.source_id) (
                and_next (validate_present "source_type" i.source_type) (
                  and_next (validate_present "source_session_id" i.source_session_id)
                    (validate_hash i.route_binding_hash)))))))))

abbrev pub thread_query : ThreadSessionBindingInput → ThreadBindingQuery
thread_query i = record {
  provider_id = i.provider_id;
  provider_type = i.provider_type;
  provider_account_id = i.provider_account_id;
  provider_conversation_id = i.provider_conversation_id;
  provider_thread_id = i.provider_thread_id;
}

unfoldable pub thread_binding_matches : ThreadBindingQuery → ThreadSessionBindingRecord → Bool
thread_binding_matches q r =
    r.provider_id == q.provider_id
    && r.provider_type == q.provider_type
    && r.provider_account_id == q.provider_account_id
    && r.provider_conversation_id == q.provider_conversation_id
    && r.provider_thread_id == q.provider_thread_id

pub project_paths_share_tree : String → String → Bool
project_paths_share_tree left right = starts_with left right || starts_with right left

pub same_hash : Option String → Option String → Bool
same_hash none none = true
same_hash none (some b) = false
same_hash (some a) none = false
same_hash (some a) (some b) = a == b

-- What `thread_session_binding_matches` and `…_can_adopt_route_hash` begin with
pub same_session : ThreadSessionBindingRecord → ThreadSessionBindingInput → Bool
same_session r i =
    project_paths_share_tree r.project_path i.project_path
    && r.source_id == i.source_id
    && r.source_type == i.source_type
    && r.source_session_id == i.source_session_id

pub thread_session_binding_matches : ThreadSessionBindingRecord → ThreadSessionBindingInput → Bool
unfolding same_session
thread_session_binding_matches r i =
    same_session r i && same_hash r.route_binding_hash i.route_binding_hash

unfoldable pub thread_session_binding_can_adopt_route_hash :
    ThreadSessionBindingRecord → ThreadSessionBindingInput → Bool
unfolding same_session
thread_session_binding_can_adopt_route_hash r i =
    same_session r i && not (is_some r.route_binding_hash) && is_some i.route_binding_hash

unfoldable pub new_thread_binding : ThreadSessionBindingInput → ℕ → ThreadSessionBindingRecord
new_thread_binding i now = record {
  provider_id = i.provider_id;
  provider_type = i.provider_type;
  provider_account_id = i.provider_account_id;
  provider_conversation_id = i.provider_conversation_id;
  provider_thread_id = i.provider_thread_id;
  project_path = i.project_path;
  source_id = i.source_id;
  source_type = i.source_type;
  source_session_id = i.source_session_id;
  route_binding_hash = i.route_binding_hash;
  created_at = now;
}

abbrev pub adopt_hash : Option String → ThreadSessionBindingRecord → ThreadSessionBindingRecord
adopt_hash hash r = record r { route_binding_hash = hash }

module _ {Raw : Type 0} (b : Backend BridgeBindingLedgerFile Raw) where
  abbrev pub BridgeLedger : Type 0
  BridgeLedger = Ledger BridgeBindingLedgerFile Raw

  abbrev pub put_threads :
      List ThreadSessionBindingRecord
      → ThreadSessionBindingRecord
      → Exec BridgeLedger ThreadSessionBindingRecord
  put_threads rs r l = commit b (record l.state { thread_session_bindings = rs }) r l

  -- The branches of `bind_thread_session_at` behind the search
  unfoldable pub bind_found :
      Option ThreadSessionBindingRecord
      → ThreadSessionBindingInput
      → ℕ
      → Exec BridgeLedger ThreadSessionBindingRecord
  bind_found (some r) i now l =
      if thread_session_binding_matches r i
      then (ok r, l)
      else if thread_session_binding_can_adopt_route_hash r i
      then put_threads
          (update_first (thread_binding_matches (thread_query i)) (adopt_hash i.route_binding_hash)
            l.state.thread_session_bindings)
          (adopt_hash i.route_binding_hash r) l
      else (err thread_bound_to_other_session, l)
  bind_found none i now l =
      put_threads (l.state.thread_session_bindings ++ new_thread_binding i now ∷ [])
        (new_thread_binding i now) l

  unfoldable pub bind_thread_session_at :
      ThreadSessionBindingInput → ℕ → Exec BridgeLedger ThreadSessionBindingRecord
  bind_thread_session_at i now = do
    lift (validate_thread_session_binding_input i)
    λ (l : BridgeLedger).
        bind_found (find (thread_binding_matches (thread_query i)) l.state.thread_session_bindings)
          i now l

pub lookup_thread_session :
    ThreadBindingQuery → BridgeBindingLedgerFile → Option ThreadSessionBindingRecord
lookup_thread_session q f = find (thread_binding_matches q) f.thread_session_bindings
