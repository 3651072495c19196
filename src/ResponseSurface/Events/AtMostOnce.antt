-- ===== src/ResponseSurface/Events/AtMostOnce.antt =====
-- src/response_surface_ledger.rs: an inbound event is handed to an agent at most once, whatever
-- calls the router makes on the ledger.
use agents_router.Prelude.{
  ℕ, String, ◌≡◌, refl, inl, inr, Bool, true, false, not, some, List, [], ◌∷◌, arith,
}
use agents_router.Exec.{Result, ok, err}
use agents_router.Ledger.{Backend}
use agents_router.ResponseSurface.Records.{
  InboundEventDedupRecord, InboundEventDedupStatus, InboundEventDedupInput,
  InboundEventClaimDecision, ResponseSurfaceLedgerFile, claimed, already_processing,
  duplicate_processed, claimed_before_submit, submitted_possible, processed, failed_notified,
  submitted_unknown_notified, is_terminal,
}
use agents_router.ResponseSurface.Events.{
  set_status, same_status, provider_event_id_hash, claim_found, record_inbound_event_status_at,
  record_inbound_event_status_by_hash_at, claim_inbound_event_at, record_processed_inbound_event_at,
  record_submitted_possible_inbound_event_at, record_failed_notified_inbound_event_at,
  record_submitted_unknown_notified_inbound_event_at, release_inbound_event_claim_at,
}
use agents_router.ResponseSurface.Events.Entries.{EventKey}
use agents_router.ResponseSurface.Events.Steps.{
  EventLedger, entry, Recorded, claim-entry, record-entry, record_by_hash-entry, release-entry,
}

-- The calls that change the inbound events
pub data EventCall : Type 0 where
  claims records_processed records_submitted_possible records_failed_notified :
      InboundEventDedupInput → ℕ → EventCall
  records_submitted_unknown_notified : InboundEventDedupInput → ℕ → EventCall
  records_by_hash : String → String → String → String → InboundEventDedupStatus → EventCall
  releases : InboundEventDedupInput → EventCall

abbrev pub is_release : EventCall → Bool
is_release (releases i) = true
is_release (claims i now) = false
is_release (records_processed i now) = false
is_release (records_submitted_possible i now) = false
is_release (records_failed_notified i now) = false
is_release (records_submitted_unknown_notified i now) = false
is_release (records_by_hash p t h s st) = false

abbrev pub is_claimed : Result InboundEventClaimDecision → Bool
is_claimed (ok (claimed hash)) = true
is_claimed (ok (already_processing hash surface status)) = false
is_claimed (ok (duplicate_processed hash surface status)) = false
is_claimed (err e) = false

-- Past the claim: the event may have reached the agent.
abbrev pub is_settled : InboundEventDedupRecord → Bool
is_settled e = not (same_status e.status claimed_before_submit)

module _ {Raw : Type 0} (b : Backend ResponseSurfaceLedgerFile Raw) (sha256 : String → List ℕ) where
  unfoldable pub step : EventCall → EventLedger Raw → EventLedger Raw
  step (claims i now) l = (claim_inbound_event_at b sha256 i now l).1
  step (records_processed i now) l = (record_processed_inbound_event_at b sha256 i now l).1
  step (records_submitted_possible i now) l =
      (record_submitted_possible_inbound_event_at b sha256 i now l).1
  step (records_failed_notified i now) l =
      (record_failed_notified_inbound_event_at b sha256 i now l).1
  step (records_submitted_unknown_notified i now) l =
      (record_submitted_unknown_notified_inbound_event_at b sha256 i now l).1
  step (records_by_hash p t h s st) l = (record_inbound_event_status_by_hash_at b p t h s st l).1
  step (releases i) l = (release_inbound_event_claim_at b sha256 i l).1

  unfoldable pub run : List EventCall → EventLedger Raw → EventLedger Raw
  unfolding step
  run [] l = l
  run (c ∷ cs) l = run cs (step c l)

  -- An entry that is kept with a property of its record
  abbrev pub Kept : EventKey → (InboundEventDedupRecord → Bool) → EventLedger Raw → Type 0
  Kept k p l = (e : InboundEventDedupRecord) × (entry k l ≡ some e) × (p e ≡ true)

  Recorded-Kept :
      (k : EventKey) (p : InboundEventDedupRecord → Bool) (e : InboundEventDedupRecord)
      (s : InboundEventDedupStatus) (l : EventLedger Raw)
      → Recorded k e s l
      → p e ≡ true
      → p (set_status s e) ≡ true
      → Kept k p l
  Recorded-Kept k p e s l (inl same) h h' = (e, same, h)
  Recorded-Kept k p e s l (inr (changed, t)) h h' = (set_status s e, changed, h')

  pub status_step :
      (k : EventKey) (p : InboundEventDedupRecord → Bool) (i : InboundEventDedupInput)
      (s : InboundEventDedupStatus) (now : ℕ) (e : InboundEventDedupRecord) (l : EventLedger Raw)
      → entry k l ≡ some e
      → p e ≡ true
      → p (set_status s e) ≡ true
      → Kept k p (record_inbound_event_status_at b sha256 i s now l).1
  status_step k p i s now e l h =
      Recorded-Kept k p e s (record_inbound_event_status_at b sha256 i s now l).1
        (record-entry b k sha256 i s now e l h)

  settled_by_terminal :
      (s : InboundEventDedupStatus)
      → is_terminal s ≡ true
      → not (same_status s claimed_before_submit) ≡ true
  unfolding is_terminal same_status
  settled_by_terminal claimed_before_submit h = cc
  settled_by_terminal submitted_possible h = refl
  settled_by_terminal processed h = refl
  settled_by_terminal failed_notified h = refl
  settled_by_terminal submitted_unknown_notified h = refl

  settled_step :
      (k : EventKey) (c : EventCall) (e : InboundEventDedupRecord) (l : EventLedger Raw)
      → entry k l ≡ some e
      → is_settled e ≡ true
      → Kept k is_settled (step c l)
  unfolding step same_status
  settled_step k (claims i now) e l h s = (e, claim-entry b k sha256 i now e l h, s)
  settled_step k (records_processed i now) e l h s =
      status_step k is_settled i processed now e l h s refl
  settled_step k (records_submitted_possible i now) e l h s =
      status_step k is_settled i submitted_possible now e l h s refl
  settled_step k (records_failed_notified i now) e l h s =
      status_step k is_settled i failed_notified now e l h s refl
  settled_step k (records_submitted_unknown_notified i now) e l h s =
      status_step k is_settled i submitted_unknown_notified now e l h s refl
  settled_step k (records_by_hash p t h' s' st) e l h s =
      elim (record_by_hash-entry b k p t h' s' st e l h) [
        | inl same ↦ (e, same, s)
        | inr (changed, t, done) ↦ (set_status st e, changed, settled_by_terminal st done)
      ]
  settled_step k (releases i) e l h s = (e, release-entry b k sha256 i e l h (ground arith), s)

  run_settled :
      (k : EventKey) (cs : List EventCall) (e : InboundEventDedupRecord) (l : EventLedger Raw)
      → entry k l ≡ some e
      → is_settled e ≡ true
      → Kept k is_settled (run cs l)
  unfolding run
  run_settled k [] e l h s = (e, h, s)
  run_settled k (c ∷ cs) e l h s =
      let (e', h', s') = settled_step k c e l h s in run_settled k cs e' (step c l) h' s'

  abbrev pub key_of : InboundEventDedupInput → EventKey
  key_of i = (i.provider_id, i.provider_type, provider_event_id_hash sha256 i)

  pub known_not_claimed :
      (i : InboundEventDedupInput) (now : ℕ) (e : InboundEventDedupRecord) (l : EventLedger Raw)
      → entry (key_of i) l ≡ some e
      → is_claimed (claim_inbound_event_at b sha256 i now l).0 ≡ false
  unfolding claim_inbound_event_at claim_found
  known_not_claimed i now e l h = ground arith

  -- Once an event is past its claim, so that an agent may have it, no claim of it is granted again,
  -- whatever calls are made in between.
  pub at_most_once :
      (i : InboundEventDedupInput) (cs : List EventCall) (now : ℕ) (e : InboundEventDedupRecord)
      (l : EventLedger Raw)
      → entry (key_of i) l ≡ some e
      → is_settled e ≡ true
      → is_claimed (claim_inbound_event_at b sha256 i now (run cs l)).0 ≡ false
  at_most_once i cs now e l h s =
      let (e', h', s') = run_settled (key_of i) cs e l h s in
      known_not_claimed i now e' (run cs l) h'

  -- A terminal entry
  terminal_step :
      (k : EventKey) (c : EventCall) (e : InboundEventDedupRecord) (l : EventLedger Raw)
      → entry k l ≡ some e
      → is_terminal e.status ≡ true
      → entry k (step c l) ≡ some e
  unfolding step
  terminal_step k (claims i now) e l h t = claim-entry b k sha256 i now e l h
  terminal_step k (records_processed i now) e l h t =
      ground (arith, record-entry b k sha256 i processed now e l h)
  terminal_step k (records_submitted_possible i now) e l h t =
      ground (arith, record-entry b k sha256 i submitted_possible now e l h)
  terminal_step k (records_failed_notified i now) e l h t =
      ground (arith, record-entry b k sha256 i failed_notified now e l h)
  terminal_step k (records_submitted_unknown_notified i now) e l h t =
      ground (arith, record-entry b k sha256 i submitted_unknown_notified now e l h)
  terminal_step k (records_by_hash p t' h' s' st) e l h t =
      ground (arith, record_by_hash-entry b k p t' h' s' st e l h)
  terminal_step k (releases i) e l h t =
      release-entry b k sha256 i e l h (ground (arith, settled_by_terminal e.status t))

  -- A terminal status is final: the entry stays as it is under all later calls.
  pub terminal_is_final :
      (k : EventKey) (cs : List EventCall) (e : InboundEventDedupRecord) (l : EventLedger Raw)
      → entry k l ≡ some e
      → is_terminal e.status ≡ true
      → entry k (run cs l) ≡ some e
  unfolding run
  terminal_is_final k [] e l h t = h
  terminal_is_final k (c ∷ cs) e l h t =
      terminal_is_final k cs e (step c l) (terminal_step k c e l h t) t
