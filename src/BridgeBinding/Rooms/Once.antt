-- ===== src/BridgeBinding/Rooms/Once.antt =====
-- src/bridge_binding_ledger.rs: the ledger holds one record of a room and a project.
use agents_router.Prelude.{
  ℕ, ◌≡◌, refl, sym, ◌∙◌, subst, Bool, true, false, Option, none, some, List, [], ◌∷◌, ◌++◌, All,
  All-append, find, find-none-All, update_first, arith, eq_iff, Bool-cases, inl, inr,
}
use agents_router.Ledger.{Backend}
use agents_router.Ledger.Laws.{state-commit, Result-cases}
use agents_router.BridgeBinding.Records.{
  RoomProjectBindingRecord, RoomProjectBindingInput, RoomProjectBindingStatus,
  BridgeBindingLedgerFile, connected,
}
use agents_router.BridgeBinding.Rooms.{
  room_project_binding_matches, new_room_binding, set_room_status, put_connected, connect_found,
  connect_room_project_at, validate_room_project_binding_input, RoomLedger,
  mark_project_room_proposal_bound_to_existing,
}

abbrev pub binding_of : RoomProjectBindingRecord → RoomProjectBindingInput
binding_of r = record {
  provider_id = r.provider_id;
  provider_type = r.provider_type;
  provider_account_id = r.provider_account_id;
  provider_conversation_id = r.provider_conversation_id;
  project_path = r.project_path;
}

-- No two records of one room and project
abbrev pub OneBinding : List RoomProjectBindingRecord → Type 0
OneBinding [] = Unit {0}
OneBinding (r ∷ rs) =
    All (λ s. room_project_binding_matches (binding_of r) s ≡ false) rs × OneBinding rs

pub matches-status :
    (i : RoomProjectBindingInput) (status : RoomProjectBindingStatus) (now : ℕ)
    (r : RoomProjectBindingRecord)
    → room_project_binding_matches i (set_room_status status now r)
      ≡ room_project_binding_matches i r
unfolding room_project_binding_matches
matches-status i status now r = refl

pub binding_of_match :
    (i : RoomProjectBindingInput) (r : RoomProjectBindingRecord)
    → room_project_binding_matches i r ≡ true
    → binding_of r ≡ i
unfolding room_project_binding_matches
binding_of_match i r h = ground (
  arith,
  eq_iff r.provider_id i.provider_id,
  eq_iff r.provider_type i.provider_type,
  eq_iff r.provider_account_id i.provider_account_id,
  eq_iff r.provider_conversation_id i.provider_conversation_id,
  eq_iff r.project_path i.project_path,
)

new_differs :
    (i : RoomProjectBindingInput) (now : ℕ) (r : RoomProjectBindingRecord)
    → room_project_binding_matches i r ≡ false
    → room_project_binding_matches (binding_of r) (new_room_binding i now) ≡ false
unfolding room_project_binding_matches new_room_binding
new_differs i now r h = ground (
  arith,
  eq_iff r.provider_id i.provider_id,
  eq_iff r.provider_type i.provider_type,
  eq_iff r.provider_account_id i.provider_account_id,
  eq_iff r.provider_conversation_id i.provider_conversation_id,
  eq_iff r.project_path i.project_path,
  eq_iff i.provider_id r.provider_id,
  eq_iff i.provider_type r.provider_type,
  eq_iff i.provider_account_id r.provider_account_id,
  eq_iff i.provider_conversation_id r.provider_conversation_id,
  eq_iff i.project_path r.project_path,
)

OneBinding-snoc :
    (i : RoomProjectBindingInput) (now : ℕ) (rs : List RoomProjectBindingRecord)
    → OneBinding rs
    → All (λ s. room_project_binding_matches i s ≡ false) rs
    → OneBinding (rs ++ new_room_binding i now ∷ [])
OneBinding-snoc i now [] o h = (tt, tt)
OneBinding-snoc i now (x ∷ rs) o h = (
  All-append _ rs (new_room_binding i now ∷ []) o.0 (new_differs i now x h.0, tt),
  OneBinding-snoc i now rs o.1 h.1,
)

All-status :
    (m : RoomProjectBindingRecord → Bool) (status : RoomProjectBindingStatus) (now : ℕ)
    (i : RoomProjectBindingInput) (rs : List RoomProjectBindingRecord)
    → All (λ s. room_project_binding_matches i s ≡ false) rs
    → All
        (λ s. room_project_binding_matches i s ≡ false)
        (update_first m (set_room_status status now) rs)
unfolding update_first
All-status m status now i [] h = tt
All-status m status now i (x ∷ rs) h = elim (Bool-cases (m x)) [
  | inl chosen ↦ rw chosen (matches-status i status now x ∙ h.0, h.1)
  | inr kept ↦ rw kept (h.0, All-status m status now i rs h.1)
]

pub OneBinding-status :
    (m : RoomProjectBindingRecord → Bool) (status : RoomProjectBindingStatus) (now : ℕ)
    (rs : List RoomProjectBindingRecord)
    → OneBinding rs
    → OneBinding (update_first m (set_room_status status now) rs)
unfolding update_first
OneBinding-status m status now [] o = tt
OneBinding-status m status now (x ∷ rs) o = elim (Bool-cases (m x)) [
  | inl chosen ↦ rw chosen o
  | inr kept ↦
      rw kept (All-status m status now (binding_of x) rs o.0, OneBinding-status m status now rs o.1)
]

module _ {Raw : Type 0} (b : Backend BridgeBindingLedgerFile Raw) where
  pub rooms_put :
      (rooms : List RoomProjectBindingRecord) (i : RoomProjectBindingInput) (now : ℕ)
      (r : RoomProjectBindingRecord) (l : RoomLedger b)
      → (put_connected b rooms i now r l).1.state.room_project_bindings ≡ rooms
  unfolding put_connected
  rooms_put rooms i now r l = ground (
    arith,
    state-commit b
        (record l.state {
          room_project_bindings = rooms;
          project_room_proposals =
              mark_project_room_proposal_bound_to_existing i now l.state.project_room_proposals;
        })
        r l,
  )

  connect_found-OneBinding :
      (o : Option RoomProjectBindingRecord) (i : RoomProjectBindingInput) (now : ℕ)
      (l : RoomLedger b)
      → find (room_project_binding_matches i) l.state.room_project_bindings ≡ o
      → OneBinding l.state.room_project_bindings
      → OneBinding (connect_found b o i now l).1.state.room_project_bindings
  unfolding connect_found
  connect_found-OneBinding (some r) i now l e o = subst OneBinding (sym (rooms_put _ i now _ l)) (
      OneBinding-status (room_project_binding_matches i) connected now l.state.room_project_bindings
        o)
  connect_found-OneBinding none i now l e o = subst OneBinding (sym (rooms_put _ i now _ l)) (
      OneBinding-snoc i now l.state.room_project_bindings o
        (find-none-All (room_project_binding_matches i) l.state.room_project_bindings e))

  -- Connecting a room to a project, whether it succeeds or fails, keeps one record of each room and
  -- project.
  pub connect_room_project_at-OneBinding :
      (i : RoomProjectBindingInput) (now : ℕ) (l : RoomLedger b)
      → OneBinding l.state.room_project_bindings
      → OneBinding (connect_room_project_at b i now l).1.state.room_project_bindings
  unfolding connect_room_project_at
  connect_room_project_at-OneBinding i now l o =
      elim (Result-cases (validate_room_project_binding_input i)) [
        | inl (t, e) ↦ rw e (connect_found-OneBinding _ i now l refl o)
        | inr (x, e) ↦ rw e o
      ]
