-- ===== src/BridgeBinding/Proposals/Once.antt =====
-- src/bridge_binding_ledger.rs: the user is asked once for a room of a project.
use agents_router.Prelude.{
  ℕ, String, ◌≡◌, refl, ◌∙◌, subst, inl, inr, Bool, true, false, Option, none, some, List, [], ◌∷◌,
  All, find, update_first, arith, ◌==◌, eq_refl,
}
use agents_router.Exec.{Exec, Result, ok, err, lift, ◌>>◌}
use agents_router.Ledger.{Backend, commit}
use agents_router.Ledger.Laws.{state-commit, Result-cases}
use agents_router.BridgeBinding.Records.{
  RoomProjectBindingInput, ProjectRoomProposalRecord, ProjectRoomProposalInput,
  ProjectRoomProposalPromptDecision, prompt, skip, BridgeBindingLedgerFile,
  RoomProjectBindingRecord,
}
use agents_router.BridgeBinding.Rooms.{put_connected, connect_found, connect_room_project_at}
use agents_router.BridgeBinding.Proposals.{
  validate_project_room_proposal_input, has_proposal_id, prompt_lost, ProposalLedger, change_found,
  change_proposal, begin_found, reopen_found, id_of, record_project_room_proposal_prompt_sent_at,
  mark_project_room_proposal_prompt_failed_at, ignore_project_room_proposal_at,
  complete_project_room_proposal_with_created_room_at, begin_project_room_proposal_prompt_at,
  begin_manual_project_room_proposal_prompt_at,
}
use agents_router.BridgeBinding.Proposals.Asked.{
  has_failed, is_asked, is_asked-append, is_asked-new, is_asked-update_first,
  is_asked-update_first_found, is_asked-update_first_other, is_asked-found, Heals, marked_asked,
  begun-Heals, reopened-Heals, prompt_sent-Heals, turned_down-Heals, given_room-Heals,
}

-- The operations that may change a proposal
pub data ProposalCall : Type 0 where
  begins begins_manually : ProjectRoomProposalInput → ℕ → ProposalCall
  sends : String → Option String → Option String → Option String → ℕ → ProposalCall
  fails ignores : String → ℕ → ProposalCall
  completes : String → String → String → ℕ → ProposalCall
  connects : RoomProjectBindingInput → ℕ → ProposalCall

abbrev fails_for : String → ProposalCall → Bool
fails_for id (fails other now) = other == id
fails_for id call = false

abbrev pub NoFailure : String → List ProposalCall → Type 0
NoFailure id cs = All (λ c. fails_for id c ≡ false) cs

abbrev pub is_prompt : Result ProjectRoomProposalPromptDecision → Bool
is_prompt (ok (prompt r)) = true
is_prompt (ok (skip reason)) = false
is_prompt (err e) = false

module _ {Raw : Type 0} (b : Backend BridgeBindingLedgerFile Raw) (sha256 : String → List ℕ) where
  unfoldable after : ProposalCall → ProposalLedger b → ProposalLedger b
  after (begins i now) l = (begin_project_room_proposal_prompt_at b sha256 i now l).1
  after (begins_manually i now) l =
      (begin_manual_project_room_proposal_prompt_at b sha256 i now l).1
  after (sends id account conversation message now) l =
      (record_project_room_proposal_prompt_sent_at b id account conversation message now l).1
  after (fails id now) l = (mark_project_room_proposal_prompt_failed_at b id now l).1
  after (ignores id now) l = (ignore_project_room_proposal_at b id now l).1
  after (completes id account conversation now) l =
      (complete_project_room_proposal_with_created_room_at b id account conversation now l).1
  after (connects i now) l = (connect_room_project_at b i now l).1

  unfoldable pub run : List ProposalCall → ProposalLedger b → ProposalLedger b
  unfolding after
  run [] l = l
  run (c ∷ cs) l = run cs (after c l)

  -- The proposal is asked in the ledger in memory.
  data Asked (id : String) (l : ProposalLedger b) : Type 0 where
    asked : is_asked id l.state.project_room_proposals ≡ true → Asked id l

  module _ (id : String) (l : ProposalLedger b) where
    Asked-lift :
        {A B : Type 0} (r : Result A) (m : Exec (ProposalLedger b) B)
        → Asked id l
        → Asked id (m l).1
        → Asked id ((lift r >> m) l).1
    Asked-lift (ok a) m h k = k
    Asked-lift (err e) m h k = h

    Asked-commit :
        {A : Type 0} (f : BridgeBindingLedgerFile) (a : A)
        → is_asked id f.project_room_proposals ≡ true
        → Asked id (commit b f a l).1
    Asked-commit f a h = asked (rw (state-commit b f a l) h)

    change_found-Asked :
        (o : Option ProjectRoomProposalRecord) (other : String)
        (change : ProjectRoomProposalRecord → ProjectRoomProposalRecord)
        → (is_asked id l.state.project_room_proposals ≡ true
            → is_asked id
                (update_first (has_proposal_id other) change l.state.project_room_proposals)
              ≡ true)
        → Asked id l
        → Asked id (change_found b o other change l).1
    unfolding change_found
    change_found-Asked none other change k h = h
    change_found-Asked (some r) other change k (asked h) = Asked-commit _ _ (k h)

    change_proposal-Asked :
        (other : String) (change : ProjectRoomProposalRecord → ProjectRoomProposalRecord)
        → Heals change
        → Asked id l
        → Asked id (change_proposal b other change l).1
    unfolding change_proposal
    change_proposal-Asked other change k h =
        change_found-Asked _ other change (is_asked-update_first id other change _ k) h

    begin_found-Asked :
        (o : Option ProjectRoomProposalRecord) (other : String) (i : ProjectRoomProposalInput)
        (now : ℕ)
        → Asked id l
        → Asked id (begin_found b o other i now l).1
    unfolding begin_found
    begin_found-Asked none other i now (asked h) = Asked-commit _ _ (is_asked-append id _ _ h)
    begin_found-Asked (some r) other i now (asked h) =
        Asked-commit _ _ (is_asked-update_first id other _ _ (begun-Heals _ now) h)

    reopen_found-Asked :
        (o : Option ProjectRoomProposalRecord) (other : String) (i : ProjectRoomProposalInput)
        (now : ℕ)
        → Asked id l
        → Asked id (reopen_found b o other i now l).1
    unfolding reopen_found
    reopen_found-Asked none other i now (asked h) = Asked-commit _ _ (is_asked-append id _ _ h)
    reopen_found-Asked (some r) other i now (asked h) =
        Asked-commit _ _ (is_asked-update_first id other _ _ (reopened-Heals _ now) h)

    connect_found-Asked :
        (o : Option RoomProjectBindingRecord) (i : RoomProjectBindingInput) (now : ℕ)
        → Asked id l
        → Asked id (connect_found b o i now l).1
    unfolding connect_found put_connected
    connect_found-Asked none i now (asked h) = Asked-commit _ _ (marked_asked id i now _ h)
    connect_found-Asked (some r) i now (asked h) = Asked-commit _ _ (marked_asked id i now _ h)

    fails-Asked :
        (other : String) (now : ℕ)
        → (other == id) ≡ false
        → Asked id l
        → Asked id (mark_project_room_proposal_prompt_failed_at b other now l).1
    unfolding mark_project_room_proposal_prompt_failed_at change_proposal
    fails-Asked other now d h = search (
      Asked-lift,
      change_found-Asked _ other (prompt_lost now)
          (λ a. is_asked-update_first_other id other (prompt_lost now) _ (λ p. refl) d ∙ a) h,
      h,
    )

    after-Asked : (c : ProposalCall) → fails_for id c ≡ false → Asked id l → Asked id (after c l)
    unfolding after begin_project_room_proposal_prompt_at
        begin_manual_project_room_proposal_prompt_at record_project_room_proposal_prompt_sent_at
        ignore_project_room_proposal_at complete_project_room_proposal_with_created_room_at
        connect_room_project_at
    after-Asked (fails other now) n h = fails-Asked other now n h
    after-Asked c n h = search (
      Asked-lift, change_proposal-Asked, begin_found-Asked, reopen_found-Asked, connect_found-Asked,
      prompt_sent-Heals, turned_down-Heals, given_room-Heals, h,
    )

  run-Asked :
      (id : String) (cs : List ProposalCall) (l : ProposalLedger b)
      → NoFailure id cs
      → Asked id l
      → Asked id (run cs l)
  unfolding run
  run-Asked id [] l n h = h
  run-Asked id (c ∷ cs) l n h = run-Asked id cs (after c l) n.1 (after-Asked id l c n.0 h)

  -- A prompt leaves its proposal asked, and none is given for a proposal that is.
  begin_found-prompted :
      (o : Option ProjectRoomProposalRecord) (id : String) (i : ProjectRoomProposalInput) (now : ℕ)
      (l : ProposalLedger b)
      → find (has_proposal_id id) l.state.project_room_proposals ≡ o
      → Asked id (begin_found b o id i now l).1
  unfolding begin_found has_proposal_id
  begin_found-prompted none id i now l e =
      Asked-commit id l _ _ (is_asked-new id _ _ e (eq_refl id) refl)
  begin_found-prompted (some r) id i now l e =
      Asked-commit id l _ _ (is_asked-update_first_found id _ _ r (begun-Heals _ now) e)

  begin_found-skips :
      (r : ProjectRoomProposalRecord) (id : String) (i : ProjectRoomProposalInput) (now : ℕ)
      (l : ProposalLedger b)
      → has_failed r.status ≡ false
      → is_prompt (begin_found b (some r) id i now l).0 ≡ false
  unfolding begin_found commit
  begin_found-skips r id i now l h = ground arith

  no_second_prompt :
      (i : ProjectRoomProposalInput) (now : ℕ) (l : ProposalLedger b)
      → Asked (id_of b sha256 i) l
      → is_prompt (begin_project_room_proposal_prompt_at b sha256 i now l).0 ≡ false
  unfolding begin_project_room_proposal_prompt_at
  no_second_prompt i now l (asked h) =
      let (r, e, k) = is_asked-found (id_of b sha256 i) l.state.project_room_proposals h in
      elim (Result-cases (validate_project_room_proposal_input i)) [
        | inl (t, v) ↦ rw (v, e) (begin_found-skips r (id_of b sha256 i) i now l k)
        | inr (x, v) ↦ rw v refl
      ]

  prompt_is_recorded :
      (i : ProjectRoomProposalInput) (now : ℕ) (l : ProposalLedger b)
      → is_prompt (begin_project_room_proposal_prompt_at b sha256 i now l).0 ≡ true
      → Asked (id_of b sha256 i) (begin_project_room_proposal_prompt_at b sha256 i now l).1
  unfolding begin_project_room_proposal_prompt_at
  prompt_is_recorded i now l h = elim (Result-cases (validate_project_room_proposal_input i)) [
    | inl (t, v) ↦ rw v (begin_found-prompted _ (id_of b sha256 i) i now l refl)
    | inr (x, v) ↦ ground arith
  ]

  same_id :
      (i again : ProjectRoomProposalInput)
      → again.provider_id ≡ i.provider_id
      → again.project_path ≡ i.project_path
      → id_of b sha256 i ≡ id_of b sha256 again
  unfolding id_of
  same_id i again provider path = rw (provider, path) refl

  -- After an automatic prompt for a room of a project, none is given again for the same project and
  -- provider, whatever is made of this proposal and of others, and whether or not the saves succeed,
  -- until the prompt is marked as failed.
  pub prompted_once :
      (i again : ProjectRoomProposalInput) (now later : ℕ) (cs : List ProposalCall)
      (l : ProposalLedger b)
      → is_prompt (begin_project_room_proposal_prompt_at b sha256 i now l).0 ≡ true
      → again.provider_id ≡ i.provider_id
      → again.project_path ≡ i.project_path
      → NoFailure (id_of b sha256 i) cs
      → is_prompt
          (begin_project_room_proposal_prompt_at b sha256 again later
            (run cs (begin_project_room_proposal_prompt_at b sha256 i now l).1)).0
        ≡ false
  prompted_once i again now later cs l h provider path n =
      let l' = (begin_project_room_proposal_prompt_at b sha256 i now l).1 in
      no_second_prompt again later (run cs l') (
        subst (λ id. Asked id (run cs l')) (same_id i again provider path)
          (run-Asked (id_of b sha256 i) cs l' n (prompt_is_recorded i now l h)))
