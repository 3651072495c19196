-- ===== src/ResponseSurface/Surfaces.antt =====
-- src/response_surface_ledger.rs: the surfaces, each bound to one provider thread. `surface_id` of
-- a new surface is the value of `Uuid::new_v4`.
pub mod Threads
pub mod Lookup
pub mod Binding
pub mod Closing
pub mod Changes
pub mod Restart
mod Tests
use agents_router.Prelude.{
  ℕ, String, Bool, true, false, not, ◌&&◌, Option, none, some, List, [], ◌∷◌, ◌++◌, find, find_last,
  update_first, is_some, is_yes, ◌==◌, if◌then◌else◌,
}
use agents_router.Prelude.Text.{present}
use agents_router.Exec.{
  Exec, Result, ok, err, thread_bound_to_surface, raise, lift, pure, ◌>>=◌, ◌>>◌,
}
use agents_router.Ledger.{Ledger, Backend, ensure_present, ensure_all_present, commit}
use agents_router.ProviderCatalog.{ProviderMode, ProviderMode-discrete}
use agents_router.ResponseSurface.Records.{
  ResponseSurfaceStatus, open_status, closed_status, expired_status, ResponseSurfaceRecord,
  NewResponseSurface, ResponseSurfaceLookupQuery, ResponseSurfaceLookupRecord,
  ResponseSurfaceLookupResult, hit, miss, closed, ResponseSurfaceLedgerFile,
}

pub is_open : ResponseSurfaceStatus → Bool
is_open open_status = true
is_open closed_status = false
is_open expired_status = false

pub is_closed : ResponseSurfaceStatus → Bool
is_closed open_status = false
is_closed closed_status = true
is_closed expired_status = false

unfoldable pub validate_new_surface : NewResponseSurface → Result (Unit {0})
validate_new_surface i = ensure_all_present (
    ("signal_id", i.signal_id)
    ∷ ("delivery_id", i.delivery_id)
    ∷ ("source_id", i.source_id)
    ∷ ("source_type", i.source_type)
    ∷ ("source_session_id", i.source_session_id)
    ∷ ("provider_id", i.provider_id)
    ∷ ("provider_type", i.provider_type)
    ∷ ("provider_account_id", i.provider_account_id)
    ∷ ("provider_conversation_id", i.provider_conversation_id)
    ∷ ("provider_message_id", i.provider_message_id)
    ∷ ("provider_thread_id", i.provider_thread_id)
    ∷ [])

unfoldable pub validate_query : ResponseSurfaceLookupQuery → Result (Unit {0})
validate_query q = ensure_all_present (
    ("provider_id", q.provider_id)
    ∷ ("provider_account_id", q.provider_account_id)
    ∷ ("provider_conversation_id", q.provider_conversation_id)
    ∷ ("provider_thread_id", q.provider_thread_id)
    ∷ [])

pub surface_matches_query : ResponseSurfaceLookupQuery → ResponseSurfaceRecord → Bool
surface_matches_query q r =
    r.provider_id == q.provider_id
    && r.provider_account_id == q.provider_account_id
    && r.provider_conversation_id == q.provider_conversation_id
    && r.provider_thread_id == q.provider_thread_id

pub active_surface_has_same_provider_thread : NewResponseSurface → ResponseSurfaceRecord → Bool
unfolding is_closed
active_surface_has_same_provider_thread i r =
    not (is_closed r.status)
    && r.provider_id == i.provider_id
    && r.provider_account_id == i.provider_account_id
    && r.provider_conversation_id == i.provider_conversation_id
    && r.provider_thread_id == i.provider_thread_id

pub same_optional : Option String → Option String → Bool
same_optional none none = true
same_optional none (some t) = false
same_optional (some s) none = false
same_optional (some s) (some t) = s == t

-- `normalized_optional_value` is `present`.
pub surface_create_is_idempotent : NewResponseSurface → ResponseSurfaceRecord → Bool
unfolding same_optional
surface_create_is_idempotent i r =
    r.source_id == i.source_id
    && r.source_type == i.source_type
    && r.source_session_id == i.source_session_id
    && r.provider_type == i.provider_type
    && is_yes (ProviderMode-discrete r.provider_mode i.provider_mode)
    && same_optional r.route_binding_hash (present i.route_binding_hash)

unfoldable pub new_surface : String → NewResponseSurface → ℕ → ResponseSurfaceRecord
new_surface surface_id i now = record {
  surface_id = surface_id;
  signal_id = i.signal_id;
  delivery_id = i.delivery_id;
  source_id = i.source_id;
  source_type = i.source_type;
  source_session_id = i.source_session_id;
  source_turn_id = present i.source_turn_id;
  provider_id = i.provider_id;
  provider_type = i.provider_type;
  provider_mode = i.provider_mode;
  provider_account_id = i.provider_account_id;
  provider_conversation_id = i.provider_conversation_id;
  provider_message_id = i.provider_message_id;
  provider_thread_id = i.provider_thread_id;
  route_binding_hash = present i.route_binding_hash;
  status = open_status;
  created_at = now;
}

pub from_surface : ResponseSurfaceRecord → ResponseSurfaceLookupRecord
from_surface r = record {
  surface_id = r.surface_id;
  signal_id = r.signal_id;
  delivery_id = r.delivery_id;
  source_id = r.source_id;
  source_type = r.source_type;
  source_session_id = r.source_session_id;
  source_turn_id = r.source_turn_id;
  provider_id = r.provider_id;
  provider_type = r.provider_type;
  provider_mode = r.provider_mode;
  provider_account_id = r.provider_account_id;
  provider_conversation_id = r.provider_conversation_id;
  provider_message_id = r.provider_message_id;
  provider_thread_id = r.provider_thread_id;
  route_binding_hash = r.route_binding_hash;
  status = r.status;
}

pub found_surface : Option ResponseSurfaceRecord → ResponseSurfaceLookupResult
unfolding is_closed
found_surface none = miss
found_surface (some r) = if is_closed r.status then closed r.surface_id else hit (from_surface r)

pub close_record : ResponseSurfaceRecord → ResponseSurfaceRecord
close_record r = record r { status = closed_status }

-- The test of `close_surface`: the first surface of the id is there, and is open.
pub is_open_surface : Option ResponseSurfaceRecord → Bool
unfolding is_open
is_open_surface none = false
is_open_surface (some r) = is_open r.status

abbrev pub has_surface_id : String → ResponseSurfaceRecord → Bool
has_surface_id surface_id r = r.surface_id == surface_id

module _ {Raw : Type 0} (b : Backend ResponseSurfaceLedgerFile Raw) where
  abbrev pub Op : Type 0 → Type 0
  Op A = Exec (Ledger ResponseSurfaceLedgerFile Raw) A

  -- The two branches of `create_surface_at` behind the search.
  unfoldable pub create_or_return :
      Option ResponseSurfaceRecord → NewResponseSurface → ℕ → String → Op ResponseSurfaceRecord
  create_or_return (some existing) i now surface_id l =
      if surface_create_is_idempotent i existing
      then (ok existing, l)
      else (err (thread_bound_to_surface existing.surface_id), l)
  create_or_return none i now surface_id l =
      let r = new_surface surface_id i now in
      commit b (record l.state { surfaces = l.state.surfaces ++ r ∷ [] }) r l

  unfoldable pub create_surface_at : NewResponseSurface → ℕ → String → Op ResponseSurfaceRecord
  create_surface_at i now surface_id = do
    lift (validate_new_surface i)
    λ (l : Ledger ResponseSurfaceLedgerFile Raw).
        create_or_return (find (active_surface_has_same_provider_thread i) l.state.surfaces) i now
          surface_id l

  unfoldable pub lookup_surface_at : ResponseSurfaceLookupQuery → Op ResponseSurfaceLookupResult
  lookup_surface_at q = do
    lift (validate_query q)
    λ (l : Ledger ResponseSurfaceLedgerFile Raw).
        (ok (found_surface (find_last (surface_matches_query q) l.state.surfaces)), l)

  pub close_surface : String → Op Bool
  unfolding is_open_surface
  close_surface surface_id = do
    lift (ensure_present "surface_id" surface_id)
    λ (l : Ledger ResponseSurfaceLedgerFile Raw).
        if is_open_surface (find (has_surface_id surface_id) l.state.surfaces)
        then commit b
            (record l.state {
              surfaces = update_first (has_surface_id surface_id) close_record l.state.surfaces;
            })
            true l
        else (ok false, l)
