-- ===== src/ResponseSurface/Events/Tests.antt =====
-- Runs of the calls on events.
use agents_router.Exec.{ok}
use agents_router.Prelude.{All}
use agents_router.ResponseSurface.Records.{recorded}
use agents_router.ResponseSurface.Events.{
  record_inbound_event_status_by_hash_at, record_found_by_hash, record_known,
}
use agents_router.ResponseSurface.Events.Recovery.{unfinished_inbound_events}
use agents_router.ResponseSurface.Events.Recovery.Finished.{listed, finished_event_is_not_listed}
use agents_router.Prelude.{ℕ, String, ◌≡◌, refl, true, false, some, List, [], ◌∷◌, find}
use agents_router.Prelude.Text.{is_blank, hex}
use agents_router.Ledger.{Ledger, save, commit, ensure_all_present}
use agents_router.ResponseSurface.Records.{
  InboundEventDedupInput, InboundEventDedupRecord, default_file, submitted_possible, processed,
  is_terminal,
}
use agents_router.ResponseSurface.Events.{
  same_status, claim_inbound_event_at, event_matches, provider_event_id_hash, claim_found,
  validate_event,
}
use agents_router.ResponseSurface.Events.Steps.{entry}
use agents_router.ResponseSurface.Events.AtMostOnce.{
  EventCall, claims, records_processed, records_submitted_possible, releases, is_claimed, run,
  key_of, at_most_once, terminal_is_final,
}
use agents_router.ResponseSurface.Events.Claims.{claimed_until_released}
use agents_router.ResponseSurface.Fixtures.{File, b, in_memory}

abbrev sha256 : String → List ℕ
sha256 s = 171 ∷ []

abbrev event : InboundEventDedupInput
event = record {
  provider_id = "slack";
  provider_type = "slack";
  provider_account_id = "account";
  provider_conversation_id = "conversation";
  provider_event_id = "event";
  surface_id = "s1";
}

abbrev submitted : InboundEventDedupRecord
submitted = record {
  provider_id = "slack";
  provider_type = "slack";
  provider_event_id_hash = "ab";
  surface_id = "s1";
  status = submitted_possible;
  received_at = 7;
}

abbrev finished : InboundEventDedupRecord
finished = record submitted { status = processed }

abbrev with_event : InboundEventDedupRecord → Ledger File File
with_event e = in_memory (record default_file { inbound_events = e ∷ [] })

abbrev later_calls : List EventCall
later_calls = releases event ∷ claims event 8 ∷ records_processed event 9 ∷ []

submitted_found : entry (key_of b sha256 event) (with_event submitted) ≡ some submitted
unfolding find event_matches provider_event_id_hash hex
submitted_found = refl

finished_found : entry (key_of b sha256 event) (with_event finished) ≡ some finished
unfolding find event_matches provider_event_id_hash hex
finished_found = refl

granted : is_claimed (claim_inbound_event_at b sha256 event 7 (in_memory default_file)).0 ≡ true
unfolding claim_inbound_event_at validate_event ensure_all_present is_blank claim_found commit save
    find
granted = refl

at_most_once_example :
    is_claimed
      (claim_inbound_event_at b sha256 event 10 (run b sha256 later_calls (with_event submitted))).0
    ≡ false
unfolding same_status
at_most_once_example =
    at_most_once b sha256 event later_calls 10 submitted (with_event submitted) submitted_found refl

terminal_is_final_example :
    entry (key_of b sha256 event) (run b sha256 later_calls (with_event finished)) ≡ some finished
unfolding is_terminal
terminal_is_final_example =
    terminal_is_final b sha256 (key_of b sha256 event) later_calls finished (with_event finished)
      finished_found refl

claimed_until_released_example :
    is_claimed
      (claim_inbound_event_at b sha256 event 10 (
        run b sha256
          (records_submitted_possible event 8 ∷ [])
          (claim_inbound_event_at b sha256 event 7 (in_memory default_file)).1)).0
    ≡ false
claimed_until_released_example =
    claimed_until_released b sha256 event 7 10 (records_submitted_possible event 8 ∷ [])
      (in_memory default_file) granted (refl, tt)

end_recorded :
    (record_inbound_event_status_by_hash_at b "slack" "slack" "ab" "s1" processed
      (with_event submitted)).0
    ≡ ok (recorded "ab" processed)
unfolding record_inbound_event_status_by_hash_at ensure_all_present is_blank is_terminal find
    event_matches record_found_by_hash record_known same_status commit save
end_recorded = refl

finished_event_is_not_listed_example :
    All
      (λ e. listed "slack" "slack" "ab" e ≡ false)
      (unfinished_inbound_events
        (record_inbound_event_status_by_hash_at b "slack" "slack" "ab" "s1" processed
          (with_event submitted)).1.state)
finished_event_is_not_listed_example =
    finished_event_is_not_listed b "slack" "slack" "ab" "s1" processed (with_event submitted)
      (recorded "ab" processed) (tt, tt) end_recorded
