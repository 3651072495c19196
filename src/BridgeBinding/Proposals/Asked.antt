-- ===== src/BridgeBinding/Proposals/Asked.antt =====
-- src/bridge_binding_ledger.rs: the proposals whose prompt has not failed, in a list that changes.
use agents_router.Prelude.{
  ℕ, String, ◌≡◌, refl, sym, subst, inl, inr, Bool, true, false, not, Option, none, some, List, [],
  ◌∷◌, ◌++◌, map, find, update_first, arith, Bool-cases, ◌==◌, eq_iff, if◌then◌else◌,
}
use agents_router.BridgeBinding.Records.{
  RoomProjectBindingInput, ProjectRoomProposalRecord, ProjectRoomProposalStatus, prompt_failed,
}
use agents_router.BridgeBinding.Rooms.{mark_proposal, mark_project_room_proposal_bound_to_existing}
use agents_router.BridgeBinding.Proposals.{
  has_proposal_id, begun, reopened, prompt_sent, turned_down, given_room,
}

abbrev pub has_failed : ProjectRoomProposalStatus → Bool
has_failed prompt_failed = true
has_failed status = false

-- The proposal is there, and its prompt has not failed.
unfoldable pub is_asked : String → List ProjectRoomProposalRecord → Bool
unfolding has_proposal_id
is_asked id [] = false
is_asked id (p ∷ ps) =
    let rest = is_asked id ps in if has_proposal_id id p then not (has_failed p.status) else rest

pub is_asked-append :
    (id : String) (ps qs : List ProjectRoomProposalRecord)
    → is_asked id ps ≡ true
    → is_asked id (ps ++ qs) ≡ true
unfolding is_asked
is_asked-append id [] qs h = ground arith
is_asked-append id (p ∷ ps) qs h = ground (arith, is_asked-append id ps qs)

pub is_asked-new :
    (id : String) (ps : List ProjectRoomProposalRecord) (p : ProjectRoomProposalRecord)
    → find (has_proposal_id id) ps ≡ none
    → has_proposal_id id p ≡ true
    → has_failed p.status ≡ false
    → is_asked id (ps ++ p ∷ []) ≡ true
unfolding is_asked find
is_asked-new id [] p h e k = ground arith
is_asked-new id (q ∷ ps) p h e k = ground (arith, is_asked-new id ps p)

-- A change that keeps the ids, and after which no prompt has failed
pub record Heals (change : ProjectRoomProposalRecord → ProjectRoomProposalRecord) : Type 0 where
  keeps_id : (p : ProjectRoomProposalRecord) → (change p).proposal_id ≡ p.proposal_id
  heals : (p : ProjectRoomProposalRecord) → has_failed (change p).status ≡ false

pub is_asked-update_first :
    (id other : String) (change : ProjectRoomProposalRecord → ProjectRoomProposalRecord)
    (ps : List ProjectRoomProposalRecord)
    → Heals change
    → is_asked id ps ≡ true
    → is_asked id (update_first (has_proposal_id other) change ps) ≡ true
unfolding is_asked update_first has_proposal_id
is_asked-update_first id other change [] k h = h
is_asked-update_first id other change (p ∷ ps) k h =
    ground (arith, k.keeps_id p, k.heals p, is_asked-update_first id other change ps k)

pub is_asked-update_first_found :
    (id : String) (change : ProjectRoomProposalRecord → ProjectRoomProposalRecord)
    (ps : List ProjectRoomProposalRecord) (p : ProjectRoomProposalRecord)
    → Heals change
    → find (has_proposal_id id) ps ≡ some p
    → is_asked id (update_first (has_proposal_id id) change ps) ≡ true
unfolding is_asked update_first has_proposal_id find
is_asked-update_first_found id change [] p k h = ground arith
is_asked-update_first_found id change (q ∷ ps) p k h =
    ground (arith, k.keeps_id q, k.heals q, is_asked-update_first_found id change ps p k)

other_id :
    (id other : String) (p : ProjectRoomProposalRecord)
    → (other == id) ≡ false
    → (p.proposal_id == other) ≡ true
    → (p.proposal_id == id) ≡ false
other_id id other p d h =
    let same : p.proposal_id ≡ other = ground (arith, eq_iff p.proposal_id other) in
    subst (λ s. (s == id) ≡ false) (sym same) d

pub is_asked-update_first_other :
    (id other : String) (change : ProjectRoomProposalRecord → ProjectRoomProposalRecord)
    (ps : List ProjectRoomProposalRecord)
    → ((p : ProjectRoomProposalRecord) → (change p).proposal_id ≡ p.proposal_id)
    → (other == id) ≡ false
    → is_asked id (update_first (has_proposal_id other) change ps) ≡ is_asked id ps
unfolding is_asked update_first has_proposal_id
is_asked-update_first_other id other change [] k d = refl
is_asked-update_first_other id other change (p ∷ ps) k d =
    elim (Bool-cases (p.proposal_id == other)) [
      | inl chosen ↦ ground (arith, k p, other_id id other p d chosen)
      | inr kept ↦ ground (arith, is_asked-update_first_other id other change ps k d)
    ]

pub is_asked-found :
    (id : String) (ps : List ProjectRoomProposalRecord)
    → is_asked id ps ≡ true
    → (p : ProjectRoomProposalRecord) × (find (has_proposal_id id) ps ≡ some p)
      × (has_failed p.status ≡ false)
unfolding is_asked find
is_asked-found id [] h = ground arith
is_asked-found id (p ∷ ps) h = elim (Bool-cases (has_proposal_id id p)) [
  | inl here ↦ (p, ground arith, ground arith)
  | inr later ↦ let (q, f, k) = is_asked-found id ps (ground arith) in (q, ground arith, k)
]

is_asked-map :
    (id : String) (change : ProjectRoomProposalRecord → ProjectRoomProposalRecord)
    (ps : List ProjectRoomProposalRecord)
    → ((p : ProjectRoomProposalRecord) → (change p).proposal_id ≡ p.proposal_id)
    → ((p : ProjectRoomProposalRecord)
        → has_failed p.status ≡ false
        → has_failed (change p).status ≡ false)
    → is_asked id ps ≡ true
    → is_asked id (map change ps) ≡ true
unfolding is_asked has_proposal_id
is_asked-map id change [] k h a = a
is_asked-map id change (p ∷ ps) k h a = ground (arith, k p, h p, is_asked-map id change ps k h)

-- A proposal after a test, as `mark_proposal` leaves it
module _ (p q : ProjectRoomProposalRecord) where
  either_id :
      (test : Bool)
      → q.proposal_id ≡ p.proposal_id
      → (if test then q else p).proposal_id ≡ p.proposal_id
  either_id true h = h
  either_id false h = refl

  either_healed :
      (test : Bool)
      → has_failed q.status ≡ false
      → has_failed p.status ≡ false
      → has_failed (if test then q else p).status ≡ false
  either_healed true h k = h
  either_healed false h k = k

pub marked_asked :
    (id : String) (i : RoomProjectBindingInput) (now : ℕ) (ps : List ProjectRoomProposalRecord)
    → is_asked id ps ≡ true
    → is_asked id (mark_project_room_proposal_bound_to_existing i now ps) ≡ true
unfolding mark_project_room_proposal_bound_to_existing
marked_asked id i now ps a =
    is_asked-map id (mark_proposal i now) ps (λ p. search either_id)
      (λ p k. search (either_healed, k)) a

pub begun-Heals : (name : String) (now : ℕ) → Heals (begun name now)
begun-Heals name now = record { keeps_id = λ p. ground arith; heals = λ p. ground arith }

pub reopened-Heals : (name : String) (now : ℕ) → Heals (reopened name now)
reopened-Heals name now = record { keeps_id = λ p. refl; heals = λ p. refl }

pub prompt_sent-Heals :
    (account conversation message : Option String) (now : ℕ)
    → Heals (prompt_sent account conversation message now)
prompt_sent-Heals account conversation message now = record {
  keeps_id = λ p. refl;
  heals = λ p. refl;
}

pub turned_down-Heals : (now : ℕ) → Heals (turned_down now)
turned_down-Heals now = record { keeps_id = λ p. refl; heals = λ p. refl }

pub given_room-Heals :
    (account conversation : String) (now : ℕ) → Heals (given_room account conversation now)
given_room-Heals account conversation now = record { keeps_id = λ p. refl; heals = λ p. refl }
