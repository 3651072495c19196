-- ===== src/BridgeBinding/Rooms.antt =====
-- src/bridge_binding_ledger.rs: the chat rooms, each connected to projects.
pub mod Once
pub mod Connected
mod Tests
use agents_router.Prelude.{
  ℕ, String, Bool, true, false, not, ◌&&◌, Option, none, some, List, [], ◌∷◌, ◌++◌, map, find,
  filter, update_first, ◌==◌, if◌then◌else◌,
}
use agents_router.Exec.{Exec, Result, ok, lift, ◌>>=◌, ◌>>◌}
use agents_router.Ledger.{Ledger, Backend, commit}
use agents_router.BridgeBinding.Records.{
  RoomProjectBindingRecord, RoomProjectBindingInput, RoomBindingQuery, RoomProjectBindingStatus,
  connected, disconnected, ProjectRoomProposalRecord, ProjectRoomProposalStatus, pending,
  prompt_failed, ignored, room_created, bound_to_existing, BridgeBindingLedgerFile,
  validate_present, validate_project_path, and_next,
}

pub validate_room_project_binding_input : RoomProjectBindingInput → Result (Unit {0})
validate_room_project_binding_input i = and_next (validate_present "provider_id" i.provider_id) (
    and_next (validate_present "provider_type" i.provider_type) (
      and_next (validate_present "provider_account_id" i.provider_account_id) (
        and_next (validate_present "provider_conversation_id" i.provider_conversation_id)
          (validate_project_path i.project_path))))

pub room_project_binding_matches : RoomProjectBindingInput → RoomProjectBindingRecord → Bool
room_project_binding_matches i r =
    r.provider_id == i.provider_id
    && r.provider_type == i.provider_type
    && r.provider_account_id == i.provider_account_id
    && r.provider_conversation_id == i.provider_conversation_id
    && r.project_path == i.project_path

pub room_binding_matches : RoomBindingQuery → RoomProjectBindingRecord → Bool
room_binding_matches q r =
    r.provider_id == q.provider_id
    && r.provider_type == q.provider_type
    && r.provider_account_id == q.provider_account_id
    && r.provider_conversation_id == q.provider_conversation_id

abbrev pub is_connected : RoomProjectBindingStatus → Bool
is_connected connected = true
is_connected disconnected = false

abbrev is_room_created : ProjectRoomProposalStatus → Bool
is_room_created room_created = true
is_room_created pending = false
is_room_created prompt_failed = false
is_room_created ignored = false
is_room_created bound_to_existing = false

abbrev pub mark_proposal :
    RoomProjectBindingInput → ℕ → ProjectRoomProposalRecord → ProjectRoomProposalRecord
mark_proposal i now p =
    if p.provider_id == i.provider_id
      && p.provider_type == i.provider_type
      && p.project_path == i.project_path
      && not (is_room_created p.status)
    then record p {
      status = bound_to_existing;
      provider_account_id = some i.provider_account_id;
      created_room_id = some i.provider_conversation_id;
      updated_at = now;
    }
    else p

-- Its arguments are the fields of a binding, which are those of the input.
unfoldable pub mark_project_room_proposal_bound_to_existing :
    RoomProjectBindingInput → ℕ → List ProjectRoomProposalRecord → List ProjectRoomProposalRecord
mark_project_room_proposal_bound_to_existing i now proposals = map (mark_proposal i now) proposals

pub new_room_binding : RoomProjectBindingInput → ℕ → RoomProjectBindingRecord
new_room_binding i now = record {
  provider_id = i.provider_id;
  provider_type = i.provider_type;
  provider_account_id = i.provider_account_id;
  provider_conversation_id = i.provider_conversation_id;
  project_path = i.project_path;
  status = connected;
  created_at = now;
  updated_at = now;
}

abbrev pub set_room_status :
    RoomProjectBindingStatus → ℕ → RoomProjectBindingRecord → RoomProjectBindingRecord
set_room_status status now r = record r { status = status; updated_at = now }

module _ {Raw : Type 0} (b : Backend BridgeBindingLedgerFile Raw) where
  abbrev pub RoomLedger : Type 0
  RoomLedger = Ledger BridgeBindingLedgerFile Raw

  -- Save the rooms with the proposals of the project marked.
  unfoldable pub put_connected :
      List RoomProjectBindingRecord
      → RoomProjectBindingInput
      → ℕ
      → RoomProjectBindingRecord
      → Exec RoomLedger RoomProjectBindingRecord
  put_connected rooms i now r l =
      commit b
        (record l.state {
          room_project_bindings = rooms;
          project_room_proposals =
              mark_project_room_proposal_bound_to_existing i now l.state.project_room_proposals;
        })
        r l

  -- The branches behind the search
  unfoldable pub connect_found :
      Option RoomProjectBindingRecord
      → RoomProjectBindingInput
      → ℕ
      → Exec RoomLedger RoomProjectBindingRecord
  connect_found (some r) i now l =
      put_connected
        (update_first (room_project_binding_matches i) (set_room_status connected now)
          l.state.room_project_bindings)
        i now (set_room_status connected now r) l
  connect_found none i now l =
      put_connected (l.state.room_project_bindings ++ new_room_binding i now ∷ []) i now
        (new_room_binding i now) l

  unfoldable pub connect_room_project_at :
      RoomProjectBindingInput → ℕ → Exec RoomLedger RoomProjectBindingRecord
  connect_room_project_at i now = do
    lift (validate_room_project_binding_input i)
    λ (l : RoomLedger).
        connect_found (find (room_project_binding_matches i) l.state.room_project_bindings) i now l

  pub disconnect_found :
      Option RoomProjectBindingRecord
      → RoomProjectBindingInput
      → ℕ
      → Exec RoomLedger (Option RoomProjectBindingRecord)
  disconnect_found none i now l = (ok none, l)
  disconnect_found (some r) i now l =
      commit b
        (record l.state {
          room_project_bindings =
              update_first (room_project_binding_matches i) (set_room_status disconnected now)
                l.state.room_project_bindings;
        })
        (some (set_room_status disconnected now r)) l

  pub disconnect_room_project_at :
      RoomProjectBindingInput → ℕ → Exec RoomLedger (Option RoomProjectBindingRecord)
  disconnect_room_project_at i now = do
    lift (validate_room_project_binding_input i)
    λ (l : RoomLedger).
        disconnect_found (find (room_project_binding_matches i) l.state.room_project_bindings) i now
          l

abbrev pub connected_in : RoomBindingQuery → RoomProjectBindingRecord → Bool
connected_in q r = room_binding_matches q r && is_connected r.status

pub connected_projects_for_room :
    RoomBindingQuery → BridgeBindingLedgerFile → List RoomProjectBindingRecord
connected_projects_for_room q f = filter (connected_in q) f.room_project_bindings
