-- ===== src/ResponseSurface/Events.antt =====
-- src/response_surface_ledger.rs: the inbound events of the providers, each claimed before it is
-- handed to an agent. `sha256` stands for the sha2 crate: the digest of the UTF-8 bytes of a text;
-- the byte 0 that ends each part is the encoding of U+0000.
pub mod Entries
pub mod Steps
pub mod AtMostOnce
pub mod Claims
pub mod Unique
pub mod Changes
pub mod Recovery
mod Tests
use Prim.Native.Char.{Char}
use agents_router.Prelude.{
  ℕ, String, Bool, true, false, not, ◌&&◌, ◌||◌, Option, none, some, List, [], ◌∷◌, ◌++◌, find,
  filter, remove_first, update_first, map, is_some, ◌==◌, if◌then◌else◌, and_then,
}
use agents_router.Prelude.Text.{concat, hex}
use agents_router.Exec.{
  Exec, Result, ok, err, unreachable, event_of_other_surface, event_not_found, not_claimed,
  not_terminal, lift, ensure, ◌>>=◌, ◌>>◌,
}
use agents_router.Ledger.{Ledger, Backend, ensure_all_present, commit}
use agents_router.ResponseSurface.Records.{
  ResponseSurfaceRecord, InboundEventDedupStatus, claimed_before_submit, submitted_possible,
  processed, failed_notified, submitted_unknown_notified, InboundEventDedupInput,
  InboundEventDedupRecord, InboundEventClaimDecision, claimed, already_processing,
  duplicate_processed, InboundEventRecordDecision, recorded, duplicate,
  InboundEventDiagnosticRecord, UnfinishedInboundEventRecoveryRecord, ResponseSurfaceLedgerFile,
  is_processing, is_terminal,
}

pub status_name : InboundEventDedupStatus → String
status_name claimed_before_submit = "claimed_before_submit"
status_name submitted_possible = "submitted_possible"
status_name processed = "processed"
status_name failed_notified = "failed_notified"
status_name submitted_unknown_notified = "submitted_unknown_notified"

pub same_status : InboundEventDedupStatus → InboundEventDedupStatus → Bool
unfolding status_name
same_status s t = status_name s == status_name t

unfoldable pub validate_event : InboundEventDedupInput → Result (Unit {0})
validate_event i = ensure_all_present (
    ("provider_id", i.provider_id)
    ∷ ("provider_type", i.provider_type)
    ∷ ("provider_account_id", i.provider_account_id)
    ∷ ("provider_conversation_id", i.provider_conversation_id)
    ∷ ("provider_event_id", i.provider_event_id)
    ∷ ("surface_id", i.surface_id)
    ∷ [])

-- Each part and a zero byte
abbrev pub zero_ended : List String → String
zero_ended [] = ""
zero_ended (s ∷ ss) = concat (s ∷ "\0" ∷ zero_ended ss ∷ [])

-- The record of an event: the test that every search of `inbound_events` begins with
pub event_matches : String → String → String → InboundEventDedupRecord → Bool
event_matches provider_id provider_type hash r =
    r.provider_id == provider_id
    && r.provider_type == provider_type
    && r.provider_event_id_hash == hash

module _ (sha256 : String → List ℕ) where
  unfoldable pub provider_event_id_hash : InboundEventDedupInput → String
  provider_event_id_hash i = hex (
      sha256 (
        zero_ended (
          i.provider_type ∷ i.provider_id ∷ i.provider_account_id ∷ i.provider_conversation_id
          ∷ i.provider_event_id ∷ [])))

  abbrev pub matches_input : InboundEventDedupInput → InboundEventDedupRecord → Bool
  matches_input i = event_matches i.provider_id i.provider_type (provider_event_id_hash i)

  pub new_event : InboundEventDedupInput → InboundEventDedupStatus → ℕ → InboundEventDedupRecord
  new_event i status now = record {
    provider_id = i.provider_id;
    provider_type = i.provider_type;
    provider_event_id_hash = provider_event_id_hash i;
    surface_id = i.surface_id;
    status = status;
    received_at = now;
  }

abbrev pub set_status : InboundEventDedupStatus → InboundEventDedupRecord → InboundEventDedupRecord
set_status status r = record r { status = status }

abbrev pub can_release : String → InboundEventDedupRecord → Bool
can_release surface_id r = r.surface_id == surface_id && same_status r.status claimed_before_submit

module _ {Raw : Type 0} (b : Backend ResponseSurfaceLedgerFile Raw) where
  abbrev pub EventOp : Type 0 → Type 0
  EventOp A = Exec (Ledger ResponseSurfaceLedgerFile Raw) A

  abbrev pub put_events : {A : Type 0} → List InboundEventDedupRecord → A → EventOp A
  put_events events a l = commit b (record l.state { inbound_events = events }) a l

  -- The two branches of `claim_inbound_event_at` behind the search
  unfoldable pub claim_found :
      Option InboundEventDedupRecord → InboundEventDedupRecord → EventOp InboundEventClaimDecision
  claim_found (some e) new l =
      if is_processing e.status
      then (ok (already_processing new.provider_event_id_hash e.surface_id e.status), l)
      else if is_terminal e.status
      then (ok (duplicate_processed new.provider_event_id_hash e.surface_id e.status), l)
      else (err unreachable, l)
  claim_found none new l =
      put_events (l.state.inbound_events ++ new ∷ []) (claimed new.provider_event_id_hash) l

  -- What is recorded of a known event `e`. The two texts are the hash that a duplicate is answered
  -- with, and the hash of the event.
  pub record_known :
      (InboundEventDedupRecord → Bool)
      → InboundEventDedupRecord
      → String
      → String
      → String
      → InboundEventDedupStatus
      → EventOp InboundEventRecordDecision
  record_known matches e known_hash hash surface_id status l =
      if not (e.surface_id == surface_id)
      then (err event_of_other_surface, l)
      else if same_status e.status status || is_terminal e.status
      then (ok (duplicate known_hash e.surface_id e.status), l)
      else put_events (update_first matches (set_status status) l.state.inbound_events)
          (recorded hash status) l

  -- The branches of `record_inbound_event_status_at` behind the search
  pub record_found :
      (InboundEventDedupRecord → Bool)
      → Option InboundEventDedupRecord
      → InboundEventDedupRecord
      → EventOp InboundEventRecordDecision
  record_found matches (some e) new l =
      record_known matches e new.provider_event_id_hash new.provider_event_id_hash new.surface_id
        new.status l
  record_found matches none new l =
      if same_status new.status processed
      then put_events (l.state.inbound_events ++ new ∷ [])
          (recorded new.provider_event_id_hash new.status) l
      else (err (not_claimed (status_name new.status)), l)

  -- The branches of `record_inbound_event_status_by_hash_at` behind the search
  pub record_found_by_hash :
      (InboundEventDedupRecord → Bool)
      → Option InboundEventDedupRecord
      → String
      → String
      → InboundEventDedupStatus
      → EventOp InboundEventRecordDecision
  record_found_by_hash matches none hash surface_id status l = (err (event_not_found hash), l)
  record_found_by_hash matches (some e) hash surface_id status l =
      record_known matches e e.provider_event_id_hash hash surface_id status l

  pub record_inbound_event_status_by_hash_at :
      String
      → String
      → String
      → String
      → InboundEventDedupStatus
      → EventOp InboundEventRecordDecision
  record_inbound_event_status_by_hash_at provider_id provider_type hash surface_id status = do
    lift (
        ensure_all_present (
          ("provider_id", provider_id)
          ∷ ("provider_type", provider_type)
          ∷ ("provider_event_id_hash", hash)
          ∷ ("surface_id", surface_id)
          ∷ []))
    ensure (is_terminal status) not_terminal
    λ (l : Ledger ResponseSurfaceLedgerFile Raw).
        let matches = event_matches provider_id provider_type hash in
        record_found_by_hash matches (find matches l.state.inbound_events) hash surface_id status l

  module _ (sha256 : String → List ℕ) where
    unfoldable pub claim_inbound_event_at :
        InboundEventDedupInput → ℕ → EventOp InboundEventClaimDecision
    claim_inbound_event_at i now = do
      lift (validate_event i)
      λ (l : Ledger ResponseSurfaceLedgerFile Raw).
          claim_found (find (matches_input sha256 i) l.state.inbound_events)
            (new_event sha256 i claimed_before_submit now) l

    -- Behind `record_processed_…`, `record_submitted_possible_…`, `record_failed_notified_…` and
    -- `record_submitted_unknown_notified_inbound_event_at`
    pub record_inbound_event_status_at :
        InboundEventDedupInput → InboundEventDedupStatus → ℕ → EventOp InboundEventRecordDecision
    record_inbound_event_status_at i status now = do
      lift (validate_event i)
      λ (l : Ledger ResponseSurfaceLedgerFile Raw).
          record_found (matches_input sha256 i)
            (find (matches_input sha256 i) l.state.inbound_events) (new_event sha256 i status now) l

    pub release_inbound_event_claim_at : InboundEventDedupInput → EventOp Bool
    release_inbound_event_claim_at i = do
      lift (validate_event i)
      λ (l : Ledger ResponseSurfaceLedgerFile Raw).
          let claim = λ (r : InboundEventDedupRecord).
            matches_input sha256 i r && can_release i.surface_id r in
          if is_some (find claim l.state.inbound_events)
          then put_events (remove_first claim l.state.inbound_events) true l
          else (ok false, l)

module _ {Raw : Type 0} (b : Backend ResponseSurfaceLedgerFile Raw) (sha256 : String → List ℕ) where
  abbrev pub record_processed_inbound_event_at :
      InboundEventDedupInput
      → ℕ
      → Exec (Ledger ResponseSurfaceLedgerFile Raw) InboundEventRecordDecision
  record_processed_inbound_event_at i now = record_inbound_event_status_at b sha256 i processed now

  abbrev pub record_submitted_possible_inbound_event_at :
      InboundEventDedupInput
      → ℕ
      → Exec (Ledger ResponseSurfaceLedgerFile Raw) InboundEventRecordDecision
  record_submitted_possible_inbound_event_at i now =
      record_inbound_event_status_at b sha256 i submitted_possible now

  abbrev pub record_failed_notified_inbound_event_at :
      InboundEventDedupInput
      → ℕ
      → Exec (Ledger ResponseSurfaceLedgerFile Raw) InboundEventRecordDecision
  record_failed_notified_inbound_event_at i now =
      record_inbound_event_status_at b sha256 i failed_notified now

  abbrev pub record_submitted_unknown_notified_inbound_event_at :
      InboundEventDedupInput
      → ℕ
      → Exec (Ledger ResponseSurfaceLedgerFile Raw) InboundEventRecordDecision
  record_submitted_unknown_notified_inbound_event_at i now =
      record_inbound_event_status_at b sha256 i submitted_unknown_notified now
