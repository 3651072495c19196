-- ===== src/ResponseSurface/Events/Changes.antt =====
-- src/response_surface_ledger.rs: what the calls on the inbound events leave in memory and save.
use agents_router.Prelude.{
  ℕ, String, ◌≡◌, refl, true, Bool, none, some, Option, List, find, inl, inr, arith, ◌==◌, ◌&&◌,
  ◌||◌, remove_first, Bool-cases,
}
use agents_router.Ledger.{Ledger, Backend}
use agents_router.Ledger.Laws.{Change, commit-Change}
use agents_router.ResponseSurface.Records.{
  ResponseSurfaceLedgerFile, InboundEventDedupInput, InboundEventDedupRecord,
  InboundEventDedupStatus, is_terminal, claimed_before_submit, processed,
}
use agents_router.ResponseSurface.WellFormed.{WellFormed, with_events}
use agents_router.ResponseSurface.Events.{
  same_status, can_release, matches_input, new_event, put_events, claim_found, record_known,
  record_found, record_found_by_hash, record_inbound_event_status_by_hash_at,
  claim_inbound_event_at, record_inbound_event_status_at, release_inbound_event_claim_at,
  event_matches,
}
use agents_router.ResponseSurface.Events.Entries.{key_matches}
use agents_router.ResponseSurface.Events.Unique.{
  event_key, OneRecord, OneRecord-add, OneRecord-update, OneRecord-remove,
}
use agents_router.ResponseSurface.Events.AtMostOnce.{
  EventCall, claims, records_processed, records_submitted_possible, records_failed_notified,
  records_submitted_unknown_notified, records_by_hash, releases, step,
}

module _ {Raw : Type 0} (b : Backend ResponseSurfaceLedgerFile Raw) where
  abbrev EventLedger : Type 0
  EventLedger = Ledger ResponseSurfaceLedgerFile Raw

  put_events-Change :
      {A : Type 0} (es : List InboundEventDedupRecord) (a : A) (l : EventLedger)
      → WellFormed l.state
      → OneRecord es
      → Change b WellFormed l (put_events b es a l).1
  put_events-Change es a l w o =
      commit-Change b WellFormed (record l.state { inbound_events = es }) a l
        (with_events l.state w es o)

  claim_found-Change :
      (o : Option InboundEventDedupRecord) (new : InboundEventDedupRecord) (l : EventLedger)
      → find (key_matches (event_key new)) l.state.inbound_events ≡ o
      → WellFormed l.state
      → Change b WellFormed l (claim_found b o new l).1
  unfolding claim_found
  claim_found-Change (some e) new l h w = inl (ground arith)
  claim_found-Change none new l h w =
      put_events-Change _ _ l w (OneRecord-add l.state.inbound_events new w.events h)

  record_known-Change :
      (m : InboundEventDedupRecord → Bool) (e : InboundEventDedupRecord)
      (known hash surface : String) (s : InboundEventDedupStatus) (l : EventLedger)
      → WellFormed l.state
      → Change b WellFormed l (record_known b m e known hash surface s l).1
  unfolding record_known
  record_known-Change m e known hash surface s l w = elim (Bool-cases (e.surface_id == surface)) [
    | inl same ↦ elim (Bool-cases (same_status e.status s || is_terminal e.status)) [
      | inl done ↦ rw (same, done) (inl refl)
      | inr more ↦
          rw (same, more)
            (put_events-Change _ _ l w (OneRecord-update m s l.state.inbound_events w.events))
    ]
    | inr other ↦ rw other (inl refl)
  ]

  record_found-Change :
      (o : Option InboundEventDedupRecord) (new : InboundEventDedupRecord) (l : EventLedger)
      → find (key_matches (event_key new)) l.state.inbound_events ≡ o
      → WellFormed l.state
      → Change b WellFormed l (record_found b (key_matches (event_key new)) o new l).1
  unfolding record_found
  record_found-Change (some e) new l h w = record_known-Change _ e _ _ _ _ l w
  record_found-Change none new l h w = elim (Bool-cases (same_status new.status processed)) [
    | inl done ↦
        rw done (put_events-Change _ _ l w (OneRecord-add l.state.inbound_events new w.events h))
    | inr unclaimed ↦ rw unclaimed (inl refl)
  ]

  record_found_by_hash-Change :
      (m : InboundEventDedupRecord → Bool) (o : Option InboundEventDedupRecord)
      (hash surface : String) (s : InboundEventDedupStatus) (l : EventLedger)
      → WellFormed l.state
      → Change b WellFormed l (record_found_by_hash b m o hash surface s l).1
  unfolding record_found_by_hash
  record_found_by_hash-Change m (some e) hash surface s l w = record_known-Change m e _ _ _ _ l w
  record_found_by_hash-Change m none hash surface s l w = inl refl

  record_inbound_event_status_by_hash_at-Change :
      (p t h s : String) (status : InboundEventDedupStatus) (l : EventLedger)
      → WellFormed l.state
      → Change b WellFormed l (record_inbound_event_status_by_hash_at b p t h s status l).1
  unfolding record_inbound_event_status_by_hash_at
  record_inbound_event_status_by_hash_at-Change p t h s status l w = ground (
    arith,
    record_found_by_hash-Change (event_matches p t h)
        (find (event_matches p t h) l.state.inbound_events) h s status l w,
  )

  module _ (sha256 : String → List ℕ) where
    claim_inbound_event_at-Change :
        (i : InboundEventDedupInput) (now : ℕ) (l : EventLedger)
        → WellFormed l.state
        → Change b WellFormed l (claim_inbound_event_at b sha256 i now l).1
    unfolding claim_inbound_event_at new_event
    claim_inbound_event_at-Change i now l w = ground (
      arith,
      claim_found-Change (find (matches_input sha256 i) l.state.inbound_events)
          (new_event sha256 i claimed_before_submit now) l refl w,
    )

    record_inbound_event_status_at-Change :
        (i : InboundEventDedupInput) (s : InboundEventDedupStatus) (now : ℕ) (l : EventLedger)
        → WellFormed l.state
        → Change b WellFormed l (record_inbound_event_status_at b sha256 i s now l).1
    unfolding record_inbound_event_status_at new_event
    record_inbound_event_status_at-Change i s now l w = ground (
      arith,
      record_found-Change (find (matches_input sha256 i) l.state.inbound_events)
          (new_event sha256 i s now) l refl w,
    )

    release_inbound_event_claim_at-Change :
        (i : InboundEventDedupInput) (l : EventLedger)
        → WellFormed l.state
        → Change b WellFormed l (release_inbound_event_claim_at b sha256 i l).1
    unfolding release_inbound_event_claim_at
    release_inbound_event_claim_at-Change i l w =
        let claim =
          λ (r : InboundEventDedupRecord). matches_input sha256 i r && can_release i.surface_id r in
        ground (
          arith,
          put_events-Change (remove_first claim l.state.inbound_events) true l w
              (OneRecord-remove claim l.state.inbound_events w.events),
        )

    pub step-Change :
        (c : EventCall) (l : EventLedger)
        → WellFormed l.state
        → Change b WellFormed l (step b sha256 c l)
    unfolding step
    step-Change (claims i now) l w = claim_inbound_event_at-Change i now l w
    step-Change (records_processed i now) l w = record_inbound_event_status_at-Change i _ now l w
    step-Change (records_submitted_possible i now) l w =
        record_inbound_event_status_at-Change i _ now l w
    step-Change (records_failed_notified i now) l w =
        record_inbound_event_status_at-Change i _ now l w
    step-Change (records_submitted_unknown_notified i now) l w =
        record_inbound_event_status_at-Change i _ now l w
    step-Change (records_by_hash p t h s status) l w =
        record_inbound_event_status_by_hash_at-Change p t h s status l w
    step-Change (releases i) l w = release_inbound_event_claim_at-Change i l w
