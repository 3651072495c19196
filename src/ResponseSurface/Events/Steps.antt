-- ===== src/ResponseSurface/Events/Steps.antt =====
-- src/response_surface_ledger.rs: what each call on the inbound events does to the entry of one
-- event.
use agents_router.Prelude.{
  ℕ, String, ◌≡◌, refl, ap, sym, subst, ◌∙◌, ◌⊎◌, inl, inr, true, false, ◌&&◌, ◌||◌, Option, none,
  some, List, [], ◌∷◌, find, find-holds, remove_first, update_first, arith, ◌==◌, Bool-cases,
}
use agents_router.Ledger.{Ledger, Backend}
use agents_router.Ledger.Laws.{state-commit}
use agents_router.ResponseSurface.Records.{
  InboundEventDedupRecord, InboundEventDedupStatus, InboundEventDedupInput,
  ResponseSurfaceLedgerFile, claimed_before_submit, processed, is_terminal,
}
use agents_router.ResponseSurface.Events.{
  set_status, same_status, can_release, provider_event_id_hash, matches_input, new_event,
  put_events, claim_found, record_known, record_found, record_found_by_hash,
  record_inbound_event_status_by_hash_at, claim_inbound_event_at, record_inbound_event_status_at,
  release_inbound_event_claim_at,
}
use agents_router.Prelude.Found.{find-append-some, find-remove_first, find-update_first}
use agents_router.ResponseSurface.Events.Entries.{
  EventKey, key_matches, matches-set_status, same_key,
}

abbrev pub EventLedger : Type 0 → Type 0
EventLedger Raw = Ledger ResponseSurfaceLedgerFile Raw

-- What the ledger holds of an event
abbrev pub entry : {Raw : Type 0} → EventKey → EventLedger Raw → Option InboundEventDedupRecord
entry k l = find (key_matches k) l.state.inbound_events

-- A status was recorded of `e`, or nothing changed.
abbrev pub Recorded :
    {Raw : Type 0}
    → EventKey
    → InboundEventDedupRecord
    → InboundEventDedupStatus
    → EventLedger Raw
    → Type 0
Recorded k e s l =
    (entry k l ≡ some e) ⊎ (entry k l ≡ some (set_status s e)) × (is_terminal e.status ≡ false)

module _ {Raw : Type 0} (b : Backend ResponseSurfaceLedgerFile Raw) (k : EventKey) where
  entry_put :
      {A : Type 0} (events : List InboundEventDedupRecord) (a : A) (l : EventLedger Raw)
      → entry k (put_events b events a l).1 ≡ find (key_matches k) events
  entry_put events a l =
      ap (λ f. find (key_matches k) f.inbound_events)
        (state-commit b (record l.state { inbound_events = events }) a l)

  claim_found-entry :
      (o : Option InboundEventDedupRecord) (new e : InboundEventDedupRecord) (l : EventLedger Raw)
      → entry k l ≡ some e
      → entry k (claim_found b o new l).1 ≡ some e
  unfolding claim_found
  claim_found-entry (some x) new e l h = ground arith
  claim_found-entry none new e l h =
      entry_put _ _ l ∙ find-append-some (key_matches k) l.state.inbound_events (new ∷ []) e h

  same_entry :
      (j : EventKey) (x e : InboundEventDedupRecord) (l : EventLedger Raw)
      → entry j l ≡ some x
      → entry k l ≡ some e
      → key_matches j e ≡ true
      → x ≡ e
  same_entry j x e l hx h m =
      let same = same_key k j e (find-holds (key_matches k) l.state.inbound_events e h) m in
      let hx' : entry k l ≡ some x = subst (λ i. entry i l ≡ some x) (sym same) hx in cc (hx', h)

  update-entry :
      {A : Type 0} (j : EventKey) (x e : InboundEventDedupRecord) (s : InboundEventDedupStatus)
      (a : A) (l : EventLedger Raw)
      → entry j l ≡ some x
      → entry k l ≡ some e
      → is_terminal x.status ≡ false
      → Recorded k e s
          (put_events b (update_first (key_matches j) (set_status s) l.state.inbound_events) a l).1
  update-entry j x e s a l hx h t =
      elim (find-update_first (key_matches k) (key_matches j) (set_status s) l.state.inbound_events
        e (matches-set_status k s) h) [
          | inl kept ↦ inl (entry_put _ a l ∙ kept)
          | inr (changed, m) ↦ inr (
            entry_put _ a l ∙ changed,
            subst (λ r. is_terminal r.status ≡ false) (same_entry j x e l hx h m) t,
          )
        ]

  record_known-entry :
      (j : EventKey) (x e : InboundEventDedupRecord) (known hash surface : String)
      (s : InboundEventDedupStatus) (l : EventLedger Raw)
      → entry j l ≡ some x
      → entry k l ≡ some e
      → Recorded k e s (record_known b (key_matches j) x known hash surface s l).1
  unfolding record_known
  record_known-entry j x e known hash surface s l hx h =
      elim (Bool-cases (x.surface_id == surface)) [
        | inl same ↦ elim (Bool-cases (same_status x.status s || is_terminal x.status)) [
          | inl done ↦ rw (same, done) (inl h)
          | inr more ↦ rw (same, more) (update-entry j x e s _ l hx h (ground arith))
        ]
        | inr other ↦ rw other (inl h)
      ]

  record_found-entry :
      (j : EventKey) (o : Option InboundEventDedupRecord) (new e : InboundEventDedupRecord)
      (l : EventLedger Raw)
      → entry j l ≡ o
      → entry k l ≡ some e
      → Recorded k e new.status (record_found b (key_matches j) o new l).1
  unfolding record_found
  record_found-entry j (some x) new e l hx h = record_known-entry j x e _ _ _ _ l hx h
  record_found-entry j none new e l hx h = elim (Bool-cases (same_status new.status processed)) [
    | inl done ↦ rw done (
        inl (
          entry_put _ _ l ∙ find-append-some (key_matches k) l.state.inbound_events (new ∷ []) e h))
    | inr unclaimed ↦ rw unclaimed (inl h)
  ]

  record_found_by_hash-entry :
      (j : EventKey) (o : Option InboundEventDedupRecord) (hash surface : String)
      (s : InboundEventDedupStatus) (e : InboundEventDedupRecord) (l : EventLedger Raw)
      → entry j l ≡ o
      → entry k l ≡ some e
      → Recorded k e s (record_found_by_hash b (key_matches j) o hash surface s l).1
  unfolding record_found_by_hash
  record_found_by_hash-entry j (some x) hash surface s e l hx h =
      record_known-entry j x e _ _ _ _ l hx h
  record_found_by_hash-entry j none hash surface s e l hx h = inl h

  pub record_by_hash-entry :
      (provider_id provider_type hash surface : String) (s : InboundEventDedupStatus)
      (e : InboundEventDedupRecord) (l : EventLedger Raw)
      → entry k l ≡ some e
      → let l' =
          (record_inbound_event_status_by_hash_at b provider_id provider_type hash surface s l).1 in
        (entry k l' ≡ some e)
        ⊎ (entry k l' ≡ some (set_status s e))
          × (is_terminal e.status ≡ false)
          × (is_terminal s ≡ true)
  unfolding record_inbound_event_status_by_hash_at
  record_by_hash-entry provider_id provider_type hash surface s e l h =
      let j : EventKey = (provider_id, provider_type, hash) in
      ground (arith, record_found_by_hash-entry j (entry j l) hash surface s e l refl h)

  module _ (sha256 : String → List ℕ) where
    pub claim-entry :
        (i : InboundEventDedupInput) (now : ℕ) (e : InboundEventDedupRecord) (l : EventLedger Raw)
        → entry k l ≡ some e
        → entry k (claim_inbound_event_at b sha256 i now l).1 ≡ some e
    unfolding claim_inbound_event_at
    claim-entry i now e l h = ground (
      arith,
      claim_found-entry (find (matches_input sha256 i) l.state.inbound_events)
          (new_event sha256 i claimed_before_submit now) e l h,
    )

    pub record-entry :
        (i : InboundEventDedupInput) (s : InboundEventDedupStatus) (now : ℕ)
        (e : InboundEventDedupRecord) (l : EventLedger Raw)
        → entry k l ≡ some e
        → Recorded k e s (record_inbound_event_status_at b sha256 i s now l).1
    unfolding record_inbound_event_status_at new_event
    record-entry i s now e l h =
        let j : EventKey = (i.provider_id, i.provider_type, provider_event_id_hash sha256 i) in
        ground (arith, record_found-entry j (entry j l) (new_event sha256 i s now) e l refl h)

    pub release-entry :
        (i : InboundEventDedupInput) (e : InboundEventDedupRecord) (l : EventLedger Raw)
        → entry k l ≡ some e
        → same_status e.status claimed_before_submit ≡ false
        → entry k (release_inbound_event_claim_at b sha256 i l).1 ≡ some e
    unfolding release_inbound_event_claim_at
    release-entry i e l h c =
        let claim =
          λ (r : InboundEventDedupRecord). matches_input sha256 i r && can_release i.surface_id r in
        ground (
          arith,
          find-remove_first (key_matches k) claim l.state.inbound_events e h,
          entry_put (remove_first claim l.state.inbound_events) true l,
        )
