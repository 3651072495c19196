-- ===== src/ResponseSurface/Events/Entries.antt =====
-- src/response_surface_ledger.rs: the entry that a search of the inbound events finds, before and
-- after each change of the list.
use agents_router.Prelude.{String, ◌≡◌, refl, Bool, true, arith, eq_iff}
use agents_router.ResponseSurface.Records.{InboundEventDedupRecord, InboundEventDedupStatus}
use agents_router.ResponseSurface.Events.{event_matches, set_status}

abbrev pub EventKey : Type 0
EventKey = String × String × String

abbrev pub key_matches : EventKey → InboundEventDedupRecord → Bool
key_matches (p, t, h) = event_matches p t h

pub matches-set_status :
    (k : EventKey) (s : InboundEventDedupStatus) (r : InboundEventDedupRecord)
    → key_matches k (set_status s r) ≡ key_matches k r
unfolding event_matches
matches-set_status (p, t, h) s r = refl

-- Two keys that one record has are the same key.
pub same_key :
    (k j : EventKey) (r : InboundEventDedupRecord)
    → key_matches k r ≡ true
    → key_matches j r ≡ true
    → k ≡ j
unfolding event_matches
same_key (p, t, h) (p', t', h') r a c = ground (
  arith,
  eq_iff r.provider_id p,
  eq_iff r.provider_type t,
  eq_iff r.provider_event_id_hash h,
  eq_iff r.provider_id p',
  eq_iff r.provider_type t',
  eq_iff r.provider_event_id_hash h',
)
