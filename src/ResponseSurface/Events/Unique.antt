-- ===== src/ResponseSurface/Events/Unique.antt =====
-- src/response_surface_ledger.rs: the ledger holds one record of an inbound event.
use agents_router.Prelude.{
  ◌≡◌, ◌∙◌, Bool, false, none, List, [], ◌∷◌, ◌++◌, All, All-append, find, find-none-All,
  remove_first, update_first, arith, eq_iff, Bool-cases, inl, inr,
}
use agents_router.ResponseSurface.Records.{InboundEventDedupRecord, InboundEventDedupStatus}
use agents_router.ResponseSurface.Events.{event_matches, set_status}
use agents_router.ResponseSurface.Events.Entries.{EventKey, key_matches, matches-set_status}

abbrev pub event_key : InboundEventDedupRecord → EventKey
event_key r = (r.provider_id, r.provider_type, r.provider_event_id_hash)

-- No two records of one event
abbrev pub OneRecord : List InboundEventDedupRecord → Type 0
OneRecord [] = Unit {0}
OneRecord (r ∷ rs) = All (λ s. key_matches (event_key r) s ≡ false) rs × OneRecord rs

key_matches_sym :
    (r s : InboundEventDedupRecord) → key_matches (event_key r) s ≡ key_matches (event_key s) r
unfolding event_matches
key_matches_sym r s = ground (
  arith,
  eq_iff s.provider_id r.provider_id,
  eq_iff s.provider_type r.provider_type,
  eq_iff s.provider_event_id_hash r.provider_event_id_hash,
  eq_iff r.provider_id s.provider_id,
  eq_iff r.provider_type s.provider_type,
  eq_iff r.provider_event_id_hash s.provider_event_id_hash,
)

pub OneRecord-snoc :
    (rs : List InboundEventDedupRecord) (r : InboundEventDedupRecord)
    → OneRecord rs
    → All (λ s. key_matches (event_key r) s ≡ false) rs
    → OneRecord (rs ++ r ∷ [])
OneRecord-snoc [] r o h = (tt, tt)
OneRecord-snoc (x ∷ rs) r o h =
    (All-append _ rs (r ∷ []) o.0 (key_matches_sym x r ∙ h.0, tt), OneRecord-snoc rs r o.1 h.1)

pub OneRecord-add :
    (rs : List InboundEventDedupRecord) (r : InboundEventDedupRecord)
    → OneRecord rs
    → find (key_matches (event_key r)) rs ≡ none
    → OneRecord (rs ++ r ∷ [])
OneRecord-add rs r o h = OneRecord-snoc rs r o (find-none-All (key_matches (event_key r)) rs h)

All-update :
    (m : InboundEventDedupRecord → Bool) (s : InboundEventDedupStatus) (k : EventKey)
    (rs : List InboundEventDedupRecord)
    → All (λ x. key_matches k x ≡ false) rs
    → All (λ x. key_matches k x ≡ false) (update_first m (set_status s) rs)
unfolding update_first
All-update m s k [] h = tt
All-update m s k (x ∷ rs) h = elim (Bool-cases (m x)) [
  | inl chosen ↦ rw chosen (matches-set_status k s x ∙ h.0, h.1)
  | inr kept ↦ rw kept (h.0, All-update m s k rs h.1)
]

pub OneRecord-update :
    (m : InboundEventDedupRecord → Bool) (s : InboundEventDedupStatus)
    (rs : List InboundEventDedupRecord)
    → OneRecord rs
    → OneRecord (update_first m (set_status s) rs)
unfolding update_first
OneRecord-update m s [] o = tt
OneRecord-update m s (x ∷ rs) o = elim (Bool-cases (m x)) [
  | inl chosen ↦ rw chosen o
  | inr kept ↦ rw kept (All-update m s (event_key x) rs o.0, OneRecord-update m s rs o.1)
]

All-remove {ℓ} :
    {A : Type ℓ} (P : A → Type 0) (m : A → Bool) (xs : List A)
    → All P xs
    → All P (remove_first m xs)
unfolding remove_first
All-remove P m [] h = tt
All-remove P m (x ∷ xs) h = elim (Bool-cases (m x)) [
  | inl chosen ↦ rw chosen h.1
  | inr kept ↦ rw kept (h.0, All-remove P m xs h.1)
]

pub OneRecord-remove :
    (m : InboundEventDedupRecord → Bool) (rs : List InboundEventDedupRecord)
    → OneRecord rs
    → OneRecord (remove_first m rs)
unfolding remove_first
OneRecord-remove m [] o = tt
OneRecord-remove m (x ∷ rs) o = elim (Bool-cases (m x)) [
  | inl chosen ↦ rw chosen o.1
  | inr kept ↦ rw kept (All-remove _ m rs o.0, OneRecord-remove m rs o.1)
]
