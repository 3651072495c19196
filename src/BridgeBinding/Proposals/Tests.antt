-- ===== src/BridgeBinding/Proposals/Tests.antt =====
-- A proposal that is turned down while another room is connected.
use agents_router.Config.{is_clean_absolute_project_path}
use agents_router.Prelude.Text.{is_blank}
use agents_router.Prelude.Paths.{split, is_absolute, components}
use agents_router.Prelude.{
  find, any, filter, find_last, ℕ, String, ◌≡◌, refl, true, false, none, List, [], ◌∷◌,
}
use agents_router.Persist.{absent}
use agents_router.Ledger.{commit, Ledger}
use agents_router.BridgeBinding.Fixtures.{b}
use agents_router.BridgeBinding.Records.{
  validate_project_path, validate_present, BridgeBindingLedgerFile, ProjectRoomProposalInput,
  empty_bridge_file,
}
use agents_router.BridgeBinding.Proposals.{
  validate_project_room_proposal_input, begin_project_room_proposal_prompt_at,
  project_name_from_path,
}
use agents_router.BridgeBinding.Proposals.Once.{
  ProposalCall, begins, ignores, is_prompt, run, prompted_once,
}

abbrev ledger : Ledger BridgeBindingLedgerFile BridgeBindingLedgerFile
ledger = record {
  state_path = none;
  state = empty_bridge_file;
  disk = record { file = absent; can_create_dir = true; can_write = true; can_rename = true };
}

abbrev sha256 : String → List ℕ
sha256 s = 171 ∷ []

abbrev project : ProjectRoomProposalInput
project = record { provider_id = "lark"; provider_type = "feishu_lark"; project_path = "/work/app" }

-- Every proposal has the same id under this hash.
abbrev calls : List ProposalCall
calls = begins project 8 ∷ ignores "prp_ab" 9 ∷ []

name : project_name_from_path "/work/app" ≡ "app"
unfolding project_name_from_path find_last components filter is_blank
name = refl

prompted : is_prompt (begin_project_room_proposal_prompt_at b sha256 project 7 ledger).0 ≡ true
unfolding begin_project_room_proposal_prompt_at validate_project_room_proposal_input
    validate_present is_blank validate_project_path is_clean_absolute_project_path is_absolute any
    split components filter find commit
prompted = refl

prompted_once_example :
    is_prompt
      (begin_project_room_proposal_prompt_at b sha256 project 10
        (run b sha256 calls (begin_project_room_proposal_prompt_at b sha256 project 7 ledger).1)).0
    ≡ false
prompted_once_example =
    prompted_once b sha256 project project 7 10 calls ledger prompted refl refl (refl, (refl, tt))
