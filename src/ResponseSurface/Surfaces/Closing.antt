-- ===== src/ResponseSurface/Surfaces/Closing.antt =====
-- src/response_surface_ledger.rs: which surfaces `close_surface` closes, and what a lookup of their
-- threads then reports.
use agents_router.Prelude.{
  String, ◌≡◌, refl, ap, sym, subst, ◌∙◌, Bool, true, false, some, List, [], ◌∷◌, find, find-holds,
  find_last, update_first, arith, eq_iff, eq_refl, Bool-cases, inl, inr,
}
use agents_router.Exec.{ok}
use agents_router.Ledger.{Backend, ensure_present}
use agents_router.Ledger.Laws.{state-commit}
use agents_router.ResponseSurface.Records.{
  ResponseSurfaceRecord, ResponseSurfaceLedgerFile, hit, closed, open_status, expired_status,
}
use agents_router.ResponseSurface.Surfaces.{
  is_closed, is_open, is_open_surface, validate_query, surface_matches_query, close_record,
  from_surface, found_surface, has_surface_id, lookup_surface_at, close_surface,
}
use agents_router.ResponseSurface.Surfaces.Threads.{
  thread_of, is_active, IsOrdered, find_last-none, matches-close,
}
use agents_router.ResponseSurface.Surfaces.Lookup.{SurfaceLedger}

matches_self : (r : ResponseSurfaceRecord) → surface_matches_query (thread_of r) r ≡ true
unfolding surface_matches_query
matches_self r = ground (
  arith,
  eq_refl r.provider_id,
  eq_refl r.provider_account_id,
  eq_refl r.provider_conversation_id,
  eq_refl r.provider_thread_id,
)

-- An active surface is the last of its thread.
last_of_active :
    (p : ResponseSurfaceRecord → Bool) (rs : List ResponseSurfaceRecord) (r : ResponseSurfaceRecord)
    → IsOrdered rs
    → find p rs ≡ some r
    → is_active r ≡ true
    → find_last (surface_matches_query (thread_of r)) rs ≡ some r
unfolding find find_last
last_of_active p [] r o h a = cc
last_of_active p (x ∷ rs) r o h a = elim (Bool-cases (p x)) [
  | inl chosen ↦
      let e : x ≡ r = ground arith in
      subst (λ y. find_last (surface_matches_query (thread_of y)) (x ∷ rs) ≡ some y) e
        (ground (
          arith,
          find_last-none (surface_matches_query (thread_of x)) rs
              (o.0 (subst (λ y. is_active y ≡ true) (sym e) a)),
          matches_self x,
        ))
  | inr skipped ↦ ground (arith, last_of_active p rs r o.1)
]

-- Once it is closed, it is still the last of its thread.
last_of_closed :
    (p : ResponseSurfaceRecord → Bool) (rs : List ResponseSurfaceRecord) (r : ResponseSurfaceRecord)
    → IsOrdered rs
    → find p rs ≡ some r
    → is_active r ≡ true
    → find_last (surface_matches_query (thread_of r)) (update_first p close_record rs)
      ≡ some (close_record r)
unfolding find find_last update_first
last_of_closed p [] r o h a = cc
last_of_closed p (x ∷ rs) r o h a = elim (Bool-cases (p x)) [
  | inl chosen ↦
      let e : x ≡ r = ground arith in
      rw chosen (
        subst
          (λ y.
            find_last (surface_matches_query (thread_of y)) (close_record x ∷ rs)
            ≡ some (close_record y))
          e
          (ground (
            arith,
            find_last-none (surface_matches_query (thread_of x)) rs
                (o.0 (subst (λ y. is_active y ≡ true) (sym e) a)),
            matches-close (thread_of x) x,
            matches_self x,
          )))
  | inr skipped ↦ ground (arith, last_of_closed p rs r o.1)
]

active_open : (r : ResponseSurfaceRecord) → r.status ≡ open_status → is_active r ≡ true
unfolding is_closed
active_open r s = ground arith

active_expired : (r : ResponseSurfaceRecord) → r.status ≡ expired_status → is_active r ≡ true
unfolding is_closed
active_expired r s = ground arith

found_closed :
    (r : ResponseSurfaceRecord) → found_surface (some (close_record r)) ≡ closed r.surface_id
unfolding found_surface close_record
found_closed r = refl

found_active :
    (r : ResponseSurfaceRecord) → is_active r ≡ true → found_surface (some r) ≡ hit (from_surface r)
unfolding found_surface
found_active r a = ground arith

module _ {Raw : Type 0} (b : Backend ResponseSurfaceLedgerFile Raw) where
  module _ (id : String) (l : SurfaceLedger Raw) (r : ResponseSurfaceRecord)
      (o : IsOrdered l.state.surfaces) (given : ensure_present "surface_id" id ≡ ok tt)
      (f : find (has_surface_id id) l.state.surfaces ≡ some r)
      (v : validate_query (thread_of r) ≡ ok tt) where
    abbrev after_close : SurfaceLedger Raw
    after_close = (close_surface b id l).1

    closes :
        r.status ≡ open_status
        → after_close.state.surfaces
          ≡ update_first (has_surface_id id) close_record l.state.surfaces
    unfolding close_surface is_open_surface is_open
    closes s = ground (
      arith,
      state-commit b
          (record l.state {
            surfaces = update_first (has_surface_id id) close_record l.state.surfaces;
          })
          true l,
    )

    refuses : r.status ≡ expired_status → close_surface b id l ≡ (ok false, l)
    unfolding close_surface is_open_surface is_open
    refuses s = ground arith

    looked_up :
        (l' : SurfaceLedger Raw)
        → (lookup_surface_at b (thread_of r) l').0
          ≡ ok (found_surface (find_last (surface_matches_query (thread_of r)) l'.state.surfaces))
    unfolding lookup_surface_at
    looked_up l' = ground arith

    -- Where each active surface is the last one of its thread, closing an open surface by its id
    -- makes a lookup of its thread report that it is closed.
    pub close_then_lookup :
        r.status ≡ open_status → (lookup_surface_at b (thread_of r) after_close).0 ≡ ok (closed id)
    close_then_lookup s =
        looked_up after_close
        ∙ ap (λ rs. ok (found_surface (find_last (surface_matches_query (thread_of r)) rs)))
            (closes s)
        ∙ ap (λ x. ok (found_surface x))
            (last_of_closed (has_surface_id id) l.state.surfaces r o f (active_open r s))
        ∙ ap ok (found_closed r)
        ∙ ap (λ x. ok (closed x))
            ((eq_iff r.surface_id id).0 (find-holds (has_surface_id id) l.state.surfaces r f))

    -- There, a surface whose status is the legacy `Expired` is not closed: the call answers `false`
    -- and changes nothing, and a lookup of the thread goes on finding the surface.
    pub expired_stays_open :
        r.status ≡ expired_status
        → (close_surface b id l ≡ (ok false, l))
          × ((lookup_surface_at b (thread_of r) l).0 ≡ ok (hit (from_surface r)))
    expired_stays_open s = (
      refuses s,
      looked_up l
          ∙ ap (λ x. ok (found_surface x))
              (last_of_active (has_surface_id id) l.state.surfaces r o f (active_expired r s))
          ∙ ap ok (found_active r (active_expired r s)),
    )
