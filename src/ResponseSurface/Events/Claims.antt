-- ===== src/ResponseSurface/Events/Claims.antt =====
-- src/response_surface_ledger.rs: the claim of an inbound event, and its release.
use agents_router.Prelude.{
  ℕ, String, ◌≡◌, refl, ap, sym, subst, ◌∙◌, inl, inr, Bool, true, false, ◌&&◌, none, some, List,
  [], ◌∷◌, ◌++◌, find, find-append-none, find-weaker, remove_first-append, remove_first, arith,
  eq_refl, is_some,
}
use agents_router.Exec.{ok}
use agents_router.Ledger.{Backend}
use agents_router.Ledger.Laws.{state-commit}
use agents_router.ResponseSurface.Records.{
  InboundEventDedupRecord, InboundEventDedupStatus, InboundEventDedupInput,
  ResponseSurfaceLedgerFile, claimed, claimed_before_submit, submitted_possible, processed,
  failed_notified, submitted_unknown_notified,
}
use agents_router.ResponseSurface.Events.{
  event_matches, set_status, same_status, can_release, provider_event_id_hash, matches_input,
  new_event, claim_found, validate_event, claim_inbound_event_at, release_inbound_event_claim_at,
}
use agents_router.ResponseSurface.Events.Entries.{EventKey}
use agents_router.ResponseSurface.Events.Steps.{
  EventLedger, entry, claim-entry, record_by_hash-entry,
}
use agents_router.ResponseSurface.Events.AtMostOnce.{
  EventCall, claims, records_processed, records_submitted_possible, records_failed_notified,
  records_submitted_unknown_notified, records_by_hash, releases, is_release, is_claimed, step, run,
  Kept, status_step, key_of, known_not_claimed,
}

abbrev pub NoRelease : List EventCall → Type 0
NoRelease [] = Unit {0}
NoRelease (c ∷ cs) = (is_release c ≡ false) × NoRelease cs

abbrev with_events :
    ResponseSurfaceLedgerFile → List InboundEventDedupRecord → ResponseSurfaceLedgerFile
with_events f es = record f { inbound_events = es }

abbrev pub anything : InboundEventDedupRecord → Bool
anything e = true

module _ {Raw : Type 0} (b : Backend ResponseSurfaceLedgerFile Raw) (sha256 : String → List ℕ) where
  held_step :
      (k : EventKey) (c : EventCall) (e : InboundEventDedupRecord) (l : EventLedger Raw)
      → is_release c ≡ false
      → entry k l ≡ some e
      → Kept b sha256 k anything (step b sha256 c l)
  unfolding step
  held_step k (claims i now) e l n h = (e, claim-entry b k sha256 i now e l h, refl)
  held_step k (records_processed i now) e l n h =
      status_step b sha256 k anything i processed now e l h refl refl
  held_step k (records_submitted_possible i now) e l n h =
      status_step b sha256 k anything i submitted_possible now e l h refl refl
  held_step k (records_failed_notified i now) e l n h =
      status_step b sha256 k anything i failed_notified now e l h refl refl
  held_step k (records_submitted_unknown_notified i now) e l n h =
      status_step b sha256 k anything i submitted_unknown_notified now e l h refl refl
  held_step k (records_by_hash p t h' s' st) e l n h =
      elim (record_by_hash-entry b k p t h' s' st e l h) [
        | inl same ↦ (e, same, refl)
        | inr (changed, t', done) ↦ (set_status st e, changed, refl)
      ]
  held_step k (releases i) e l n h = cc

  run_held :
      (k : EventKey) (cs : List EventCall) (e : InboundEventDedupRecord) (l : EventLedger Raw)
      → NoRelease cs
      → entry k l ≡ some e
      → Kept b sha256 k anything (run b sha256 cs l)
  unfolding run
  run_held k [] e l n h = (e, h, refl)
  run_held k (c ∷ cs) e l n h =
      let (e', h', _') = held_step k c e l n.0 h in run_held k cs e' (step b sha256 c l) n.1 h'

  new_event_matches :
      (i : InboundEventDedupInput) (s : InboundEventDedupStatus) (now : ℕ)
      → matches_input sha256 i (new_event sha256 i s now) ≡ true
  unfolding event_matches new_event
  new_event_matches i s now = ground (
    arith,
    eq_refl i.provider_id,
    eq_refl i.provider_type,
    eq_refl (provider_event_id_hash sha256 i),
  )

  -- A granted claim found no entry and added one.
  claim_granted :
      (i : InboundEventDedupInput) (now : ℕ) (l : EventLedger Raw)
      → is_claimed (claim_inbound_event_at b sha256 i now l).0 ≡ true
      → (validate_event i ≡ ok tt)
        × (find (matches_input sha256 i) l.state.inbound_events ≡ none)
        × ((claim_inbound_event_at b sha256 i now l).1.state ≡ record l.state {
          inbound_events =
              l.state.inbound_events ++ new_event sha256 i claimed_before_submit now ∷ [];
        })
  unfolding claim_inbound_event_at claim_found
  claim_granted i now l h = ground (
    arith,
    state-commit b
        (record l.state {
          inbound_events =
              l.state.inbound_events ++ new_event sha256 i claimed_before_submit now ∷ [];
        })
        (claimed (new_event sha256 i claimed_before_submit now).provider_event_id_hash) l,
  )

  -- What the ledger holds of a claimed event stays there until a claim is released.
  pub claimed-Kept :
      (i : InboundEventDedupInput) (now : ℕ) (cs : List EventCall) (l : EventLedger Raw)
      → is_claimed (claim_inbound_event_at b sha256 i now l).0 ≡ true
      → NoRelease cs
      → Kept b sha256
          (key_of b sha256 i)
          anything
          (run b sha256 cs (claim_inbound_event_at b sha256 i now l).1)
  claimed-Kept i now cs l h n =
      let l' : EventLedger Raw = (claim_inbound_event_at b sha256 i now l).1 in
      let (v, missing, state) = claim_granted i now l h in
      let new = new_event sha256 i claimed_before_submit now in
      let added : entry (key_of b sha256 i) l' ≡ some new =
        subst (λ f. find (matches_input sha256 i) f.inbound_events ≡ some new) (sym state)
          (find-append-none (matches_input sha256 i) l.state.inbound_events new missing
            (new_event_matches i claimed_before_submit now)) in
      run_held (key_of b sha256 i) cs new l' n added

  -- After a claim is granted, no claim of the same event is granted again until one is released.
  pub claimed_until_released :
      (i : InboundEventDedupInput) (now later : ℕ) (cs : List EventCall) (l : EventLedger Raw)
      → is_claimed (claim_inbound_event_at b sha256 i now l).0 ≡ true
      → NoRelease cs
      → is_claimed
          (claim_inbound_event_at b sha256 i later
            (run b sha256 cs (claim_inbound_event_at b sha256 i now l).1)).0
        ≡ false
  claimed_until_released i now later cs l h n =
      let (e, held, _) = claimed-Kept i now cs l h n in
      known_not_claimed b sha256 i later e
        (run b sha256 cs (claim_inbound_event_at b sha256 i now l).1) held

  abbrev releasable : InboundEventDedupInput → InboundEventDedupRecord → Bool
  releasable i r = matches_input sha256 i r && can_release i.surface_id r

  new_event-releasable :
      (i : InboundEventDedupInput) (now : ℕ)
      → releasable i (new_event sha256 i claimed_before_submit now) ≡ true
  unfolding new_event same_status
  new_event-releasable i now =
      ground (arith, new_event_matches i claimed_before_submit now, eq_refl i.surface_id)

  released_state :
      (i : InboundEventDedupInput) (l : EventLedger Raw)
      → validate_event i ≡ ok tt
      → is_some (find (releasable i) l.state.inbound_events) ≡ true
      → (release_inbound_event_claim_at b sha256 i l).1.state
        ≡ record l.state { inbound_events = remove_first (releasable i) l.state.inbound_events }
  unfolding release_inbound_event_claim_at
  released_state i l v f = ground (
    arith,
    state-commit b
        (record l.state { inbound_events = remove_first (releasable i) l.state.inbound_events })
        true l,
  )

  -- Releasing a claim that was just granted brings back the ledger's value from before the claim.
  pub release-claim :
      (i : InboundEventDedupInput) (now : ℕ) (l : EventLedger Raw)
      → is_claimed (claim_inbound_event_at b sha256 i now l).0 ≡ true
      → (release_inbound_event_claim_at b sha256 i
          (claim_inbound_event_at b sha256 i now l).1).1.state
        ≡ l.state
  release-claim i now l h =
      let l' : EventLedger Raw = (claim_inbound_event_at b sha256 i now l).1 in
      let (v, missing, state) = claim_granted i now l h in
      let events = l.state.inbound_events in
      let new = new_event sha256 i claimed_before_submit now in
      let unclaimed =
        find-weaker (matches_input sha256 i) (releasable i) events missing
          (λ r m. ground (arith, m)) in
      let found : is_some (find (releasable i) l'.state.inbound_events) ≡ true =
        subst (λ f. is_some (find (releasable i) f.inbound_events) ≡ true) (sym state)
          (ap is_some
            (find-append-none (releasable i) events new unclaimed (new_event-releasable i now))) in
      released_state i l' v found
      ∙ ap (λ f. with_events f (remove_first (releasable i) f.inbound_events)) state
      ∙ ap (with_events l.state)
          (remove_first-append (releasable i) events new unclaimed (new_event-releasable i now))
