-- ===== src/ResponseSurface/Surfaces/Threads.antt =====
-- src/response_surface_ledger.rs: which surface a provider thread is bound to. In every list of
-- surfaces that the ledger builds, an active surface is the last one of its thread.
use agents_router.Prelude.{
  ◌≡◌, refl, sym, ◌∙◌, Bool, true, false, not, ◌&&◌, none, some, List, [], ◌∷◌, ◌++◌, All,
  All-append, All-map, find, find-none-All, find_last, update_first, arith, eq_iff, Bool-cases,
  &&-iff, inl, inr,
}
use agents_router.ResponseSurface.Records.{
  ResponseSurfaceRecord, NewResponseSurface, ResponseSurfaceLookupQuery,
}
use agents_router.ResponseSurface.Surfaces.{
  is_closed, surface_matches_query, active_surface_has_same_provider_thread, close_record,
}

abbrev pub thread_of : ResponseSurfaceRecord → ResponseSurfaceLookupQuery
thread_of r = record {
  provider_id = r.provider_id;
  provider_account_id = r.provider_account_id;
  provider_conversation_id = r.provider_conversation_id;
  provider_thread_id = r.provider_thread_id;
}

abbrev pub thread_of_input : NewResponseSurface → ResponseSurfaceLookupQuery
thread_of_input i = record {
  provider_id = i.provider_id;
  provider_account_id = i.provider_account_id;
  provider_conversation_id = i.provider_conversation_id;
  provider_thread_id = i.provider_thread_id;
}

abbrev pub is_active : ResponseSurfaceRecord → Bool
is_active r = not (is_closed r.status)

-- An active surface is the last surface of its thread.
abbrev pub IsOrdered : List ResponseSurfaceRecord → Type 0
IsOrdered [] = Unit {0}
IsOrdered (r ∷ rs) =
    (is_active r ≡ true → All (λ s. surface_matches_query (thread_of r) s ≡ false) rs)
    × IsOrdered rs

pub same_thread :
    (q : ResponseSurfaceLookupQuery) (r s : ResponseSurfaceRecord)
    → surface_matches_query q r ≡ true
    → surface_matches_query (thread_of r) s ≡ surface_matches_query q s
unfolding surface_matches_query
same_thread q r s h = ground (
  arith,
  eq_iff r.provider_id q.provider_id,
  eq_iff r.provider_account_id q.provider_account_id,
  eq_iff r.provider_conversation_id q.provider_conversation_id,
  eq_iff r.provider_thread_id q.provider_thread_id,
)

pub active_matches :
    (i : NewResponseSurface) (r : ResponseSurfaceRecord)
    → active_surface_has_same_provider_thread i r
      ≡ (is_active r && surface_matches_query (thread_of_input i) r)
unfolding active_surface_has_same_provider_thread surface_matches_query is_closed
active_matches i r = ground arith

abbrev pub active_on : ResponseSurfaceLookupQuery → ResponseSurfaceRecord → Bool
active_on q r = is_active r && surface_matches_query q r

pub find_last-none {ℓ} :
    {A : Type ℓ} (p : A → Bool) (xs : List A) → All (λ x. p x ≡ false) xs → find_last p xs ≡ none
unfolding find_last
find_last-none p [] h = refl
find_last-none p (x ∷ xs) h = ground (arith, find_last-none p xs h.1)

others_differ :
    (q : ResponseSurfaceLookupQuery) (r : ResponseSurfaceRecord) (rs : List ResponseSurfaceRecord)
    → surface_matches_query q r ≡ true
    → All (λ s. surface_matches_query (thread_of r) s ≡ false) rs
    → All (λ s. surface_matches_query q s ≡ false) rs
others_differ q r rs m = All-map (λ s e. sym (same_thread q r s m) ∙ e) rs

-- In order, the last surface of a thread is the active one, if there is an active one.
pub find_last-active :
    (q : ResponseSurfaceLookupQuery) (rs : List ResponseSurfaceRecord) (r : ResponseSurfaceRecord)
    → IsOrdered rs
    → find (active_on q) rs ≡ some r
    → find_last (surface_matches_query q) rs ≡ some r
unfolding find find_last
find_last-active q [] r o h = cc
find_last-active q (x ∷ rs) r o h = elim (Bool-cases (active_on q x)) [
  | inl active ↦
      let parts = (&&-iff (is_active x) (surface_matches_query q x)).0 active in
      ground (
        arith,
        find_last-none (surface_matches_query q) rs (others_differ q x rs parts.1 (o.0 parts.0)),
      )
  | inr passive ↦ ground (arith, find_last-active q rs r o.1)
]

-- If a thread has no active surface, the last one that it has is closed.
pub find_last-closed :
    (q : ResponseSurfaceLookupQuery) (rs : List ResponseSurfaceRecord) (r : ResponseSurfaceRecord)
    → find (active_on q) rs ≡ none
    → find_last (surface_matches_query q) rs ≡ some r
    → is_closed r.status ≡ true
unfolding find find_last
find_last-closed q [] r n h = cc
find_last-closed q (x ∷ rs) r n h = ground (arith, find_last-closed q rs r)

-- No active surface holds the thread of an input: the two tests agree.
pub none_active :
    (i : NewResponseSurface) (rs : List ResponseSurfaceRecord)
    → find (active_surface_has_same_provider_thread i) rs ≡ none
    → All (λ s. active_on (thread_of_input i) s ≡ false) rs
none_active i rs h =
    All-map (λ s e. sym (active_matches i s) ∙ e) rs
      (find-none-All (active_surface_has_same_provider_thread i) rs h)

same_thread_sym :
    (r s : ResponseSurfaceRecord)
    → surface_matches_query (thread_of r) s ≡ surface_matches_query (thread_of s) r
unfolding surface_matches_query
same_thread_sym r s = ground (
  arith,
  eq_iff r.provider_id s.provider_id,
  eq_iff r.provider_account_id s.provider_account_id,
  eq_iff r.provider_conversation_id s.provider_conversation_id,
  eq_iff r.provider_thread_id s.provider_thread_id,
  eq_iff s.provider_id r.provider_id,
  eq_iff s.provider_account_id r.provider_account_id,
  eq_iff s.provider_conversation_id r.provider_conversation_id,
  eq_iff s.provider_thread_id r.provider_thread_id,
)

other : {a b : Bool} → (a && b) ≡ false → a ≡ true → b ≡ false
other {a} {b} h e = ground arith

-- A surface for a thread with no active surface may be added at the end.
pub IsOrdered-snoc :
    (rs : List ResponseSurfaceRecord) (r : ResponseSurfaceRecord)
    → IsOrdered rs
    → All (λ s. active_on (thread_of r) s ≡ false) rs
    → IsOrdered (rs ++ r ∷ [])
IsOrdered-snoc [] r o h = ((λ _. tt), tt)
IsOrdered-snoc (x ∷ rs) r o h = (
  λ active.
      All-append _ rs (r ∷ []) (o.0 active) (sym (same_thread_sym r x) ∙ other h.0 active, tt),
  IsOrdered-snoc rs r o.1 h.1,
)

close_passive : (r : ResponseSurfaceRecord) → ¬ (is_active (close_record r) ≡ true)
unfolding is_closed close_record
close_passive r h = cc

pub matches-close :
    (q : ResponseSurfaceLookupQuery) (r : ResponseSurfaceRecord)
    → surface_matches_query q (close_record r) ≡ surface_matches_query q r
unfolding surface_matches_query close_record
matches-close q r = refl

All-close :
    (p : ResponseSurfaceRecord → Bool) (q : ResponseSurfaceLookupQuery)
    (rs : List ResponseSurfaceRecord)
    → All (λ s. surface_matches_query q s ≡ false) rs
    → All (λ s. surface_matches_query q s ≡ false) (update_first p close_record rs)
unfolding update_first
All-close p q [] h = tt
All-close p q (x ∷ rs) h = ground (arith, matches-close q x, All-close p q rs h.1)

-- Closing a surface keeps the order.
pub IsOrdered-close :
    (p : ResponseSurfaceRecord → Bool) (rs : List ResponseSurfaceRecord)
    → IsOrdered rs
    → IsOrdered (update_first p close_record rs)
unfolding update_first
IsOrdered-close p [] o = tt
IsOrdered-close p (x ∷ rs) o = elim (Bool-cases (p x)) [
  | inl chosen ↦ rw chosen (λ active. absurd (close_passive x active), o.1)
  | inr kept ↦
      rw kept (λ active. All-close p (thread_of x) rs (o.0 active), IsOrdered-close p rs o.1)
]
