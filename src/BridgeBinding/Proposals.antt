-- ===== src/BridgeBinding/Proposals.antt =====
-- src/bridge_binding_ledger.rs: the proposals to give a project a room. `sha256` stands for the sha2
-- crate, whose answer has 32 bytes.
pub mod Asked
pub mod Once
mod Tests
use agents_router.Prelude.{
  ℕ, zero, suc, String, Bool, true, false, not, ◌||◌, Option, none, some, and_then, List, [], ◌∷◌,
  ◌++◌, find, find_last, update_first, ◌==◌, if◌then◌else◌,
}
use agents_router.Prelude.Text.{trim, is_blank, concat, hex}
use agents_router.Prelude.Paths.{components}
use agents_router.Exec.{Exec, Result, ok, lift, ◌>>=◌, ◌>>◌}
use agents_router.Ledger.{Ledger, Backend, commit}
use agents_router.BridgeBinding.Records.{
  ProjectRoomProposalRecord, ProjectRoomProposalStatus, pending, prompt_failed,
  ProjectRoomProposalInput, ProjectRoomProposalSkipReason, already_pending,
  ProjectRoomProposalPromptDecision, prompt, skip, BridgeBindingLedgerFile, validate_present,
  validate_project_path, and_next,
}

pub validate_project_room_proposal_input : ProjectRoomProposalInput → Result (Unit {0})
validate_project_room_proposal_input i = and_next (validate_present "provider_id" i.provider_id) (
    and_next (validate_present "provider_type" i.provider_type)
      (validate_project_path i.project_path))

abbrev present_owned : String → Option String
present_owned value = let trimmed = trim value in if trimmed == "" then none else some trimmed

-- The first characters of a text, which are its first bytes where it is ASCII
unfoldable take_text : ℕ → String → String
take_text zero s = ""
take_text (suc n) String.[] = ""
take_text (suc n) (String.◌∷◌ c s) = String.◌∷◌ c (take_text n s)

-- `Path::file_name`, where the components are those of `Path::components`
abbrev file_name : String → Option String
file_name path =
    and_then (find_last (λ c. true) (components path))
      (λ name. if name == "/" || name == "." || name == ".." then none else some name)

abbrev name_or : String → Option String → String
name_or path none = path
name_or path (some name) = if is_blank name then path else name

pub project_name_from_path : String → String
project_name_from_path path = name_or path (file_name path)

unfoldable pub has_proposal_id : String → ProjectRoomProposalRecord → Bool
has_proposal_id id r = r.proposal_id == id

abbrev new_proposal : String → ProjectRoomProposalInput → ℕ → ProjectRoomProposalRecord
new_proposal id i now = record {
  proposal_id = id;
  provider_id = i.provider_id;
  provider_type = i.provider_type;
  project_path = i.project_path;
  project_name = project_name_from_path i.project_path;
  status = pending;
  provider_account_id = none;
  prompt_conversation_id = none;
  prompt_message_id = none;
  created_room_id = none;
  created_at = now;
  first_seen_at = now;
  last_seen_at = now;
  updated_at = now;
}

abbrev seen : ℕ → ProjectRoomProposalRecord → ProjectRoomProposalRecord
seen now r = record r { last_seen_at = now; updated_at = now }

-- What an automatic prompt changes in a proposal of a status
abbrev begun_from :
    ProjectRoomProposalStatus → String → ℕ → ProjectRoomProposalRecord → ProjectRoomProposalRecord
begun_from pending name now r = seen now r
begun_from ProjectRoomProposalStatus.ignored name now r = seen now r
begun_from ProjectRoomProposalStatus.room_created name now r = seen now r
begun_from ProjectRoomProposalStatus.bound_to_existing name now r = seen now r
begun_from prompt_failed name now r = record r {
  status = pending;
  project_name = name;
  provider_account_id = none;
  prompt_conversation_id = none;
  prompt_message_id = none;
  last_seen_at = now;
  updated_at = now;
}

abbrev begun : String → ℕ → ProjectRoomProposalRecord → ProjectRoomProposalRecord
begun name now r = begun_from r.status name now r

-- The `match` on the status that the proposal had
abbrev prompt_decision :
    ProjectRoomProposalStatus → ProjectRoomProposalRecord → ProjectRoomProposalPromptDecision
prompt_decision pending r = skip already_pending
prompt_decision ProjectRoomProposalStatus.ignored r = skip ProjectRoomProposalSkipReason.ignored
prompt_decision ProjectRoomProposalStatus.room_created r =
    skip ProjectRoomProposalSkipReason.room_created
prompt_decision ProjectRoomProposalStatus.bound_to_existing r =
    skip ProjectRoomProposalSkipReason.bound_to_existing
prompt_decision prompt_failed r = prompt r

abbrev reopened : String → ℕ → ProjectRoomProposalRecord → ProjectRoomProposalRecord
reopened name now r = record r {
  project_name = name;
  status = pending;
  provider_account_id = none;
  prompt_conversation_id = none;
  prompt_message_id = none;
  created_room_id = none;
  last_seen_at = now;
  updated_at = now;
}

abbrev prompt_sent :
    Option String
    → Option String
    → Option String
    → ℕ
    → ProjectRoomProposalRecord
    → ProjectRoomProposalRecord
prompt_sent account conversation message now r = record r {
  provider_account_id = and_then account present_owned;
  prompt_conversation_id = and_then conversation present_owned;
  prompt_message_id = and_then message present_owned;
  status = pending;
  updated_at = now;
}

abbrev prompt_lost : ℕ → ProjectRoomProposalRecord → ProjectRoomProposalRecord
prompt_lost now r = record r { status = prompt_failed; updated_at = now }

abbrev turned_down : ℕ → ProjectRoomProposalRecord → ProjectRoomProposalRecord
turned_down now r = record r { status = ProjectRoomProposalStatus.ignored; updated_at = now }

abbrev given_room : String → String → ℕ → ProjectRoomProposalRecord → ProjectRoomProposalRecord
given_room account conversation now r = record r {
  provider_account_id = some account;
  created_room_id = some conversation;
  status = ProjectRoomProposalStatus.room_created;
  updated_at = now;
}

module _ {Raw : Type 0} (b : Backend BridgeBindingLedgerFile Raw) where
  abbrev pub ProposalLedger : Type 0
  ProposalLedger = Ledger BridgeBindingLedgerFile Raw

  abbrev pub put_proposals :
      {A : Type 0} → List ProjectRoomProposalRecord → A → Exec ProposalLedger A
  put_proposals ps a l = commit b (record l.state { project_room_proposals = ps }) a l

  -- The change of the proposal that is found, and its save
  unfoldable change_found :
      Option ProjectRoomProposalRecord
      → String
      → (ProjectRoomProposalRecord → ProjectRoomProposalRecord)
      → Exec ProposalLedger (Option ProjectRoomProposalRecord)
  change_found none id change l = (ok none, l)
  change_found (some r) id change l =
      put_proposals (update_first (has_proposal_id id) change l.state.project_room_proposals)
        (some (change r)) l

  unfoldable change_proposal :
      String
      → (ProjectRoomProposalRecord → ProjectRoomProposalRecord)
      → Exec ProposalLedger (Option ProjectRoomProposalRecord)
  unfolding change_found
  change_proposal id change l =
      change_found (find (has_proposal_id id) l.state.project_room_proposals) id change l

  pub record_project_room_proposal_prompt_sent_at :
      String
      → Option String
      → Option String
      → Option String
      → ℕ
      → Exec ProposalLedger (Option ProjectRoomProposalRecord)
  unfolding change_proposal
  record_project_room_proposal_prompt_sent_at id account conversation message now = do
    lift (validate_present "proposal_id" id)
    change_proposal id (prompt_sent account conversation message now)

  pub mark_project_room_proposal_prompt_failed_at :
      String → ℕ → Exec ProposalLedger (Option ProjectRoomProposalRecord)
  unfolding change_proposal
  mark_project_room_proposal_prompt_failed_at id now = do
    lift (validate_present "proposal_id" id)
    change_proposal id (prompt_lost now)

  pub ignore_project_room_proposal_at :
      String → ℕ → Exec ProposalLedger (Option ProjectRoomProposalRecord)
  unfolding change_proposal
  ignore_project_room_proposal_at id now = do
    lift (validate_present "proposal_id" id)
    change_proposal id (turned_down now)

  pub complete_project_room_proposal_with_created_room_at :
      String → String → String → ℕ → Exec ProposalLedger (Option ProjectRoomProposalRecord)
  unfolding change_proposal
  complete_project_room_proposal_with_created_room_at id account conversation now = do
    lift (validate_present "proposal_id" id)
    lift (validate_present "provider_account_id" account)
    lift (validate_present "provider_conversation_id" conversation)
    change_proposal id (given_room account conversation now)

  unfoldable pub lookup_project_room_proposal :
      String → Exec ProposalLedger (Option ProjectRoomProposalRecord)
  lookup_project_room_proposal id = do
    lift (validate_present "proposal_id" id)
    λ (l : ProposalLedger). (ok (find (has_proposal_id id) l.state.project_room_proposals), l)

  -- The branches behind the search, of the automatic prompt and of the one that the user asks for
  unfoldable begin_found :
      Option ProjectRoomProposalRecord
      → String
      → ProjectRoomProposalInput
      → ℕ
      → Exec ProposalLedger ProjectRoomProposalPromptDecision
  begin_found (some r) id i now l =
      let change = begun (project_name_from_path i.project_path) now in
      put_proposals (update_first (has_proposal_id id) change l.state.project_room_proposals)
        (prompt_decision r.status (change r)) l
  begin_found none id i now l =
      put_proposals (l.state.project_room_proposals ++ new_proposal id i now ∷ [])
        (prompt (new_proposal id i now)) l

  unfoldable reopen_found :
      Option ProjectRoomProposalRecord
      → String
      → ProjectRoomProposalInput
      → ℕ
      → Exec ProposalLedger ProjectRoomProposalRecord
  reopen_found (some r) id i now l =
      let change = reopened (project_name_from_path i.project_path) now in
      put_proposals (update_first (has_proposal_id id) change l.state.project_room_proposals)
        (change r) l
  reopen_found none id i now l =
      put_proposals (l.state.project_room_proposals ++ new_proposal id i now ∷ [])
        (new_proposal id i now) l

  module _ (sha256 : String → List ℕ) where
    pub project_room_proposal_id : String → String → String
    unfolding take_text
    project_room_proposal_id provider_id project_path = concat (
        "prp_" ∷ take_text 24 (hex (sha256 (concat (provider_id ∷ "\0" ∷ project_path ∷ [])))) ∷ [])

    unfoldable pub id_of : ProjectRoomProposalInput → String
    unfolding project_room_proposal_id
    id_of i = project_room_proposal_id i.provider_id i.project_path

    pub begin_project_room_proposal_prompt_at :
        ProjectRoomProposalInput → ℕ → Exec ProposalLedger ProjectRoomProposalPromptDecision
    unfolding begin_found
    begin_project_room_proposal_prompt_at i now = do
      lift (validate_project_room_proposal_input i)
      λ (l : ProposalLedger).
          begin_found (find (has_proposal_id (id_of i)) l.state.project_room_proposals) (id_of i) i
            now l

    pub begin_manual_project_room_proposal_prompt_at :
        ProjectRoomProposalInput → ℕ → Exec ProposalLedger ProjectRoomProposalRecord
    unfolding reopen_found
    begin_manual_project_room_proposal_prompt_at i now = do
      lift (validate_project_room_proposal_input i)
      λ (l : ProposalLedger).
          reopen_found (find (has_proposal_id (id_of i)) l.state.project_room_proposals) (id_of i) i
            now l
