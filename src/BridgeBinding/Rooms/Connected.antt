-- ===== src/BridgeBinding/Rooms/Connected.antt =====
-- src/bridge_binding_ledger.rs: the projects of a room after it is connected or disconnected.
use agents_router.Prelude.{
  ℕ, ◌≡◌, refl, subst, Bool, true, false, Option, none, some, List, [], ◌∷◌, ◌++◌, All, any, find,
  find-holds, find-none-All, find-append-none, filter, update_first, arith, eq_refl, Bool-cases,
  inl, inr,
}
use agents_router.Prelude.Found.{find-update_first_self}
use agents_router.Exec.{ok}
use agents_router.Ledger.{Backend}
use agents_router.Ledger.Laws.{state-commit}
use agents_router.BridgeBinding.Records.{
  RoomProjectBindingRecord, RoomProjectBindingInput, RoomBindingQuery, BridgeBindingLedgerFile,
  connected, disconnected,
}
use agents_router.BridgeBinding.Rooms.{
  room_project_binding_matches, room_binding_matches, connected_in, new_room_binding,
  set_room_status, connect_found, connect_room_project_at, disconnect_found,
  disconnect_room_project_at, validate_room_project_binding_input, connected_projects_for_room,
  RoomLedger,
}
use agents_router.BridgeBinding.Rooms.Once.{OneBinding, matches-status, binding_of_match, rooms_put}

abbrev pub room_of : RoomProjectBindingInput → RoomBindingQuery
room_of i = record {
  provider_id = i.provider_id;
  provider_type = i.provider_type;
  provider_account_id = i.provider_account_id;
  provider_conversation_id = i.provider_conversation_id;
}

-- Whether the room of a binding lists its project
abbrev pub lists_project : RoomProjectBindingInput → BridgeBindingLedgerFile → Bool
lists_project i f = any (room_project_binding_matches i) (connected_projects_for_room (room_of i) f)

any-filter_found {ℓ} :
    {A : Type ℓ} (p c : A → Bool) (xs : List A) (x : A)
    → find p xs ≡ some x
    → c x ≡ true
    → any p (filter c xs) ≡ true
unfolding any filter find
any-filter_found p c [] x h k = ground arith
any-filter_found p c (y ∷ xs) x h k = elim (Bool-cases (p y)) [
  | inl here ↦ ground arith
  | inr later ↦ elim (Bool-cases (c y)) [
    | inl kept ↦ rw kept (ground (arith, any-filter_found p c xs x))
    | inr left_out ↦ rw left_out (ground (arith, any-filter_found p c xs x))
  ]
]

any-filter_none {ℓ} :
    {A : Type ℓ} (p c : A → Bool) (xs : List A)
    → All (λ x. p x ≡ false) xs
    → any p (filter c xs) ≡ false
unfolding any filter
any-filter_none p c [] h = refl
any-filter_none p c (y ∷ xs) h = elim (Bool-cases (c y)) [
  | inl kept ↦ rw kept (ground (arith, any-filter_none p c xs h.1))
  | inr left_out ↦ rw left_out (any-filter_none p c xs h.1)
]

in_room :
    (i : RoomProjectBindingInput) (now : ℕ) (r : RoomProjectBindingRecord)
    → room_project_binding_matches i r ≡ true
    → connected_in (room_of i) (set_room_status connected now r) ≡ true
unfolding room_project_binding_matches room_binding_matches
in_room i now r h = ground arith

new_in_room :
    (i : RoomProjectBindingInput) (now : ℕ)
    → (room_project_binding_matches i (new_room_binding i now) ≡ true)
      × (connected_in (room_of i) (new_room_binding i now) ≡ true)
unfolding room_project_binding_matches room_binding_matches new_room_binding
new_in_room i now = (
  ground (
    arith,
    eq_refl i.provider_id,
    eq_refl i.provider_type,
    eq_refl i.provider_account_id,
    eq_refl i.provider_conversation_id,
    eq_refl i.project_path,
  ),
  ground (
    arith,
    eq_refl i.provider_id,
    eq_refl i.provider_type,
    eq_refl i.provider_account_id,
    eq_refl i.provider_conversation_id,
  ),
)

not_connected :
    (q : RoomBindingQuery) (now : ℕ) (r : RoomProjectBindingRecord)
    → connected_in q (set_room_status disconnected now r) ≡ false
not_connected q now r = ground arith

disconnected_gone :
    (i : RoomProjectBindingInput) (now : ℕ) (rs : List RoomProjectBindingRecord)
    → OneBinding rs
    → any (room_project_binding_matches i) (
        filter
          (connected_in (room_of i))
          (update_first (room_project_binding_matches i) (set_room_status disconnected now) rs))
      ≡ false
unfolding any filter update_first
disconnected_gone i now [] o = refl
disconnected_gone i now (x ∷ rs) o = elim (Bool-cases (room_project_binding_matches i x)) [
  | inl chosen ↦
      let rest : All (λ s. room_project_binding_matches i s ≡ false) rs =
        subst (λ j. All (λ s. room_project_binding_matches j s ≡ false) rs)
          (binding_of_match i x chosen) o.0 in
      rw (chosen, not_connected (room_of i) now x)
        (any-filter_none (room_project_binding_matches i) (connected_in (room_of i)) rs rest)
  | inr kept ↦ elim (Bool-cases (connected_in (room_of i) x)) [
    | inl shown ↦ rw (kept, shown) (ground (arith, disconnected_gone i now rs o.1))
    | inr hidden ↦ rw (kept, hidden) (disconnected_gone i now rs o.1)
  ]
]

module _ {Raw : Type 0} (b : Backend BridgeBindingLedgerFile Raw) where
  connect_found-lists :
      (o : Option RoomProjectBindingRecord) (i : RoomProjectBindingInput) (now : ℕ)
      (l : RoomLedger b)
      → find (room_project_binding_matches i) l.state.room_project_bindings ≡ o
      → lists_project i (connect_found b o i now l).1.state ≡ true
  unfolding connect_found connected_projects_for_room
  connect_found-lists (some r) i now l e =
      let m = room_project_binding_matches i in
      let rs = l.state.room_project_bindings in
      let f = set_room_status connected now in
      rw (rooms_put b (update_first m f rs) i now (f r) l) (
        any-filter_found m (connected_in (room_of i)) (update_first m f rs) (f r)
          (find-update_first_self m f rs r (matches-status i connected now) e)
          (in_room i now r (find-holds m rs r e)))
  connect_found-lists none i now l e =
      let m = room_project_binding_matches i in
      let rs = l.state.room_project_bindings in
      let new = new_room_binding i now in
      rw (rooms_put b (rs ++ new ∷ []) i now new l) (
        any-filter_found m (connected_in (room_of i)) (rs ++ new ∷ []) new
          (find-append-none m rs new e (new_in_room i now).0) (new_in_room i now).1)

  -- After a room is connected to a project, by a valid request whose save may fail, the ledger in
  -- memory lists the project among those of the room.
  pub connect_lists_project :
      (i : RoomProjectBindingInput) (now : ℕ) (l : RoomLedger b)
      → validate_room_project_binding_input i ≡ ok tt
      → lists_project i (connect_room_project_at b i now l).1.state ≡ true
  unfolding connect_room_project_at
  connect_lists_project i now l v = rw v (connect_found-lists _ i now l refl)

  disconnect_found-gone :
      (o : Option RoomProjectBindingRecord) (i : RoomProjectBindingInput) (now : ℕ)
      (l : RoomLedger b)
      → find (room_project_binding_matches i) l.state.room_project_bindings ≡ o
      → OneBinding l.state.room_project_bindings
      → lists_project i (disconnect_found b o i now l).1.state ≡ false
  unfolding disconnect_found connected_projects_for_room
  disconnect_found-gone none i now l e o =
      any-filter_none (room_project_binding_matches i) (connected_in (room_of i))
        l.state.room_project_bindings
        (find-none-All (room_project_binding_matches i) l.state.room_project_bindings e)
  disconnect_found-gone (some r) i now l e o =
      let rs =
        update_first (room_project_binding_matches i) (set_room_status disconnected now)
          l.state.room_project_bindings in
      rw
        (state-commit b (record l.state { room_project_bindings = rs })
          (some (set_room_status disconnected now r)) l)
        (disconnected_gone i now l.state.room_project_bindings o)

  -- Where the ledger holds one record of each room and project, after a room is disconnected from a
  -- project, by a valid request whose save may fail, the ledger in memory does not list the project.
  pub disconnect_removes_project :
      (i : RoomProjectBindingInput) (now : ℕ) (l : RoomLedger b)
      → OneBinding l.state.room_project_bindings
      → validate_room_project_binding_input i ≡ ok tt
      → lists_project i (disconnect_room_project_at b i now l).1.state ≡ false
  unfolding disconnect_room_project_at
  disconnect_removes_project i now l o v = rw v (disconnect_found-gone _ i now l refl o)
