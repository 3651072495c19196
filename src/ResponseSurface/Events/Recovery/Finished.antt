-- ===== src/ResponseSurface/Events/Recovery/Finished.antt =====
-- src/response_surface_ledger.rs: an event whose end is recorded is no longer listed as unfinished.
use agents_router.Prelude.{
  String, ◌≡◌, refl, ap, sym, ◌∙◌, subst, Bool, true, false, ◌&&◌, ◌||◌, Option, none, some, List,
  [], ◌∷◌, All, find, filter, map, update_first, arith, ◌==◌, eq_iff, Bool-cases, inl, inr,
}
use agents_router.Exec.{ok}
use agents_router.Ledger.{Backend}
use agents_router.Ledger.Laws.{state-commit}
use agents_router.ResponseSurface.Records.{
  ResponseSurfaceLedgerFile, InboundEventDedupRecord, InboundEventDedupStatus,
  InboundEventDiagnosticRecord, InboundEventRecordDecision, claimed_before_submit,
  submitted_possible, processed, failed_notified, submitted_unknown_notified, is_processing,
  is_terminal,
}
use agents_router.ResponseSurface.Events.{
  event_matches, set_status, same_status, status_name, put_events, record_known,
  record_found_by_hash, record_inbound_event_status_by_hash_at,
}
use agents_router.ResponseSurface.Events.Entries.{EventKey, key_matches, matches-set_status}
use agents_router.ResponseSurface.Events.Steps.{EventLedger, entry}
use agents_router.ResponseSurface.Events.Unique.{event_key, OneRecord, OneRecord-update}
use agents_router.ResponseSurface.Events.Recovery.{
  processing, diagnostic, unfinished_inbound_events,
}

abbrev terminal_name : String → Bool
terminal_name n = n == "processed" || n == "failed_notified" || n == "submitted_unknown_notified"

named : (s : InboundEventDedupStatus) → is_terminal s ≡ terminal_name (status_name s)
unfolding is_terminal status_name
named claimed_before_submit = refl
named submitted_possible = refl
named processed = refl
named failed_notified = refl
named submitted_unknown_notified = refl

same_status-terminal :
    (s t : InboundEventDedupStatus)
    → same_status s t ≡ true
    → is_terminal t ≡ true
    → is_terminal s ≡ true
unfolding same_status
same_status-terminal s t h e =
    named s ∙ ap terminal_name ((eq_iff (status_name s) (status_name t)).0 h) ∙ sym (named t) ∙ e

terminal_not_processing :
    (s : InboundEventDedupStatus) → is_terminal s ≡ true → is_processing s ≡ false
unfolding is_terminal is_processing
terminal_not_processing claimed_before_submit h = cc
terminal_not_processing submitted_possible h = cc
terminal_not_processing processed h = refl
terminal_not_processing failed_notified h = refl
terminal_not_processing submitted_unknown_notified h = refl

find-updated :
    (k : EventKey) (s : InboundEventDedupStatus) (es : List InboundEventDedupRecord)
    (x : InboundEventDedupRecord)
    → find (key_matches k) es ≡ some x
    → find (key_matches k) (update_first (key_matches k) (set_status s) es) ≡ some (set_status s x)
unfolding find update_first
find-updated k s [] x h = cc
find-updated k s (y ∷ es) x h = ground (arith, matches-set_status k s y, find-updated k s es x)

-- What holds of an event's key after its end was recorded
record IsFinished (k : EventKey) (f : ResponseSurfaceLedgerFile) : Type 0 where
  record_of : InboundEventDedupRecord
  found : find (key_matches k) f.inbound_events ≡ some record_of
  ended : is_terminal record_of.status ≡ true
  alone : OneRecord f.inbound_events

module _ {Raw : Type 0} (b : Backend ResponseSurfaceLedgerFile Raw) (k : EventKey) where
  update_finishes :
      {A : Type 0} (x : InboundEventDedupRecord) (s : InboundEventDedupStatus) (a : A)
      (l : EventLedger Raw)
      → entry k l ≡ some x
      → is_terminal s ≡ true
      → OneRecord l.state.inbound_events
      → IsFinished k
          (put_events b
            (update_first (key_matches k) (set_status s) l.state.inbound_events)
            a
            l).1.state
  update_finishes x s a l h t o =
      let es = update_first (key_matches k) (set_status s) l.state.inbound_events in
      subst (IsFinished k) (sym (state-commit b (record l.state { inbound_events = es }) a l))
        (record {
          record_of = set_status s x;
          found = find-updated k s l.state.inbound_events x h;
          ended = t;
          alone = OneRecord-update (key_matches k) s l.state.inbound_events o;
        })

  known_finishes :
      (x : InboundEventDedupRecord) (known hash surface : String) (s : InboundEventDedupStatus)
      (l : EventLedger Raw) (d : InboundEventRecordDecision)
      → entry k l ≡ some x
      → is_terminal s ≡ true
      → OneRecord l.state.inbound_events
      → (record_known b (key_matches k) x known hash surface s l).0 ≡ ok d
      → IsFinished k (record_known b (key_matches k) x known hash surface s l).1.state
  unfolding record_known
  known_finishes x known hash surface s l d h t o r = elim (Bool-cases (x.surface_id == surface)) [
    | inl same ↦ elim (Bool-cases (same_status x.status s || is_terminal x.status)) [
      | inl done ↦
          rw (same, done)
            (record {
              record_of = x;
              found = h;
              ended = ground (arith, same_status-terminal x.status s);
              alone = o;
            })
      | inr more ↦ rw (same, more) (update_finishes x s _ l h t o)
    ]
    | inr other ↦ ground arith
  ]

  found_finishes :
      (e : Option InboundEventDedupRecord) (hash surface : String) (s : InboundEventDedupStatus)
      (l : EventLedger Raw) (d : InboundEventRecordDecision)
      → entry k l ≡ e
      → is_terminal s ≡ true
      → OneRecord l.state.inbound_events
      → (record_found_by_hash b (key_matches k) e hash surface s l).0 ≡ ok d
      → IsFinished k (record_found_by_hash b (key_matches k) e hash surface s l).1.state
  unfolding record_found_by_hash
  found_finishes none hash surface s l d h t o r = ground arith
  found_finishes (some x) hash surface s l d h t o r =
      known_finishes x x.provider_event_id_hash hash surface s l d h t o r

abbrev pub listed : String → String → String → InboundEventDiagnosticRecord → Bool
listed provider_id provider_type hash d =
    d.provider_id == provider_id
    && d.provider_type == provider_type
    && d.provider_event_id_hash == hash

abbrev listed_key : EventKey → InboundEventDiagnosticRecord → Bool
listed_key (p, t, h) = listed p t h

listed-diagnostic :
    (k : EventKey) (r : InboundEventDedupRecord) → listed_key k (diagnostic r) ≡ key_matches k r
unfolding diagnostic event_matches
listed-diagnostic (p, t, h) r = refl

unmatched_unlisted :
    (k : EventKey) (es : List InboundEventDedupRecord)
    → All (λ r. key_matches k r ≡ false) es
    → All (λ d. listed_key k d ≡ false) (map diagnostic (filter processing es))
unfolding filter
unmatched_unlisted k [] h = tt
unmatched_unlisted k (x ∷ es) h = elim (Bool-cases (processing x)) [
  | inl kept ↦ rw kept (listed-diagnostic k x ∙ h.0, unmatched_unlisted k es h.1)
  | inr left_out ↦ rw left_out (unmatched_unlisted k es h.1)
]

key_of_match :
    (k : EventKey) (r : InboundEventDedupRecord) → key_matches k r ≡ true → event_key r ≡ k
unfolding event_matches
key_of_match (p, t, h) r e =
    ground
      (arith, eq_iff r.provider_id p, eq_iff r.provider_type t, eq_iff r.provider_event_id_hash h)

ended_unlisted :
    (k : EventKey) (es : List InboundEventDedupRecord) (e : InboundEventDedupRecord)
    → find (key_matches k) es ≡ some e
    → processing e ≡ false
    → OneRecord es
    → All (λ d. listed_key k d ≡ false) (map diagnostic (filter processing es))
unfolding find filter
ended_unlisted k [] e h n o = cc
ended_unlisted k (x ∷ es) e h n o = elim (Bool-cases (key_matches k x)) [
  | inl here ↦
      let same : x ≡ e = ground arith in
      let rest : All (λ r. key_matches k r ≡ false) es =
        subst (λ j. All (λ r. key_matches j r ≡ false) es) (key_of_match k x here) o.0 in
      rw (ap processing same ∙ n) (unmatched_unlisted k es rest)
  | inr elsewhere ↦
      let later : find (key_matches k) es ≡ some e = ground arith in
      elim (Bool-cases (processing x)) [
        | inl kept ↦ rw kept (listed-diagnostic k x ∙ elsewhere, ended_unlisted k es e later n o.1)
        | inr left_out ↦ rw left_out (ended_unlisted k es e later n o.1)
      ]
]

module _ {Raw : Type 0} (b : Backend ResponseSurfaceLedgerFile Raw) where
  by_hash_finishes :
      (provider_id provider_type hash surface : String) (s : InboundEventDedupStatus)
      (l : EventLedger Raw) (d : InboundEventRecordDecision)
      → OneRecord l.state.inbound_events
      → (record_inbound_event_status_by_hash_at b provider_id provider_type hash surface s l).0
        ≡ ok d
      → IsFinished
          (provider_id, provider_type, hash)
          (record_inbound_event_status_by_hash_at b provider_id provider_type hash surface s
            l).1.state
  unfolding record_inbound_event_status_by_hash_at
  by_hash_finishes provider_id provider_type hash surface s l d o r =
      let k : EventKey = (provider_id, provider_type, hash) in
      ground (arith, found_finishes b k (entry k l) hash surface s l d refl, o)

  -- Where the ledger holds one record of each event, once the end of an event is recorded by its hash,
  -- or found recorded, the event is not among the unfinished ones.
  pub finished_event_is_not_listed :
      (provider_id provider_type hash surface : String) (s : InboundEventDedupStatus)
      (l : EventLedger Raw) (d : InboundEventRecordDecision)
      → OneRecord l.state.inbound_events
      → (record_inbound_event_status_by_hash_at b provider_id provider_type hash surface s l).0
        ≡ ok d
      → All
          (λ e. listed provider_id provider_type hash e ≡ false)
          (unfinished_inbound_events
            (record_inbound_event_status_by_hash_at b provider_id provider_type hash surface s
              l).1.state)
  unfolding unfinished_inbound_events
  finished_event_is_not_listed provider_id provider_type hash surface s l d o r =
      let k : EventKey = (provider_id, provider_type, hash) in
      let f = by_hash_finishes provider_id provider_type hash surface s l d o r in
      ended_unlisted k _ f.record_of f.found (terminal_not_processing f.record_of.status f.ended)
        f.alone
