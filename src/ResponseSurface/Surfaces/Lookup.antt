-- ===== src/ResponseSurface/Surfaces/Lookup.antt =====
-- src/response_surface_ledger.rs: what a lookup of a provider thread finds after the operations on
-- surfaces.
use mathlib.Core.Path.{fun_ext}
use agents_router.Prelude.{
  ℕ, String, ◌≡◌, refl, ap, sym, ◌∙◌, true, Option, none, some, List, find, find-holds,
  find-append-none, find_last, subst, update_first, arith, eq_refl, Option-cases, inl, inr,
}
use agents_router.Exec.{ok}
use agents_router.Ledger.{Ledger, Backend, ensure_all_present}
use agents_router.Ledger.Laws.{state-commit, result-commit}
use agents_router.ResponseSurface.Records.{
  ResponseSurfaceRecord, NewResponseSurface, ResponseSurfaceLookupQuery,
  ResponseSurfaceLookupResult, ResponseSurfaceLedgerFile, hit, miss, closed,
}
use agents_router.ResponseSurface.Surfaces.{
  is_closed, validate_new_surface, validate_query, surface_matches_query,
  active_surface_has_same_provider_thread, new_surface, close_record, from_surface, found_surface,
  has_surface_id, create_or_return, create_surface_at, lookup_surface_at, close_surface,
}
use agents_router.ResponseSurface.Surfaces.Threads.{
  thread_of_input, IsOrdered, active_matches, active_on, none_active, find_last-active,
  find_last-closed, IsOrdered-snoc, IsOrdered-close,
}

abbrev pub SurfaceLedger : Type 0 → Type 0
SurfaceLedger Raw = Ledger ResponseSurfaceLedgerFile Raw

module _ {Raw : Type 0} (b : Backend ResponseSurfaceLedgerFile Raw) where
  pub create_or_return-IsOrdered :
      (o : Option ResponseSurfaceRecord) (i : NewResponseSurface) (now : ℕ) (id : String)
      (l : SurfaceLedger Raw)
      → find (active_surface_has_same_provider_thread i) l.state.surfaces ≡ o
      → IsOrdered l.state.surfaces
      → IsOrdered (create_or_return b o i now id l).1.state.surfaces
  unfolding create_or_return new_surface
  create_or_return-IsOrdered (some r) i now id l e o = ground arith
  create_or_return-IsOrdered none i now id l e o =
      let r = new_surface id i now in
      subst (λ f. IsOrdered f.surfaces) (sym (state-commit b _ r l))
        (IsOrdered-snoc l.state.surfaces r o (none_active i l.state.surfaces e))

  -- Creating a surface, whether it succeeds or fails, keeps each active surface the last one of its
  -- provider thread, so that no two active surfaces share a thread.
  pub create_surface_at-IsOrdered :
      (i : NewResponseSurface) (now : ℕ) (id : String) (l : SurfaceLedger Raw)
      → IsOrdered l.state.surfaces
      → IsOrdered (create_surface_at b i now id l).1.state.surfaces
  unfolding create_surface_at
  create_surface_at-IsOrdered i now id l o = ground (
    arith,
    create_or_return-IsOrdered (find (active_surface_has_same_provider_thread i) l.state.surfaces) i
        now id l refl o,
  )

  -- Closing a surface, whether it succeeds or fails, keeps each active surface the last one of its
  -- provider thread.
  pub close_surface-IsOrdered :
      (id : String) (l : SurfaceLedger Raw)
      → IsOrdered l.state.surfaces
      → IsOrdered (close_surface b id l).1.state.surfaces
  unfolding close_surface
  close_surface-IsOrdered id l o = ground (
    arith,
    IsOrdered-close (has_surface_id id) l.state.surfaces o,
    state-commit b
        (record l.state {
          surfaces = update_first (has_surface_id id) close_record l.state.surfaces;
        })
        true l,
  )

  -- What a thread is bound to: its active surface, else the last one that was closed.
  abbrev pub binding :
      Option ResponseSurfaceRecord → Option ResponseSurfaceRecord → ResponseSurfaceLookupResult
  binding (some r) last = hit (from_surface r)
  binding none (some r) = closed r.surface_id
  binding none none = miss

  found_binding :
      (q : ResponseSurfaceLookupQuery) (rs : List ResponseSurfaceRecord)
      → IsOrdered rs
      → found_surface (find_last (surface_matches_query q) rs)
        ≡ binding (find (active_on q) rs) (find_last (surface_matches_query q) rs)
  unfolding found_surface
  found_binding q rs o = elim (Option-cases (find (active_on q) rs)) [
    | inl none' ↦ elim (Option-cases (find_last (surface_matches_query q) rs)) [
      | inl e ↦ rw (none', e, found_surface) refl
      | inr (r, e) ↦ rw (none', e, found_surface) (ground (arith, find_last-closed q rs r none' e))
    ]
    | inr (r, e) ↦
        rw (e, find_last-active q rs r o e, found_surface)
          (ground (arith, find-holds (active_on q) rs r e))
  ]

  -- Where each active surface is the last one of its thread, a valid lookup finds the active
  -- surface of the thread if there is one, else reports the last closed one, else misses.
  pub lookup_finds_binding :
      (q : ResponseSurfaceLookupQuery) (l : SurfaceLedger Raw)
      → IsOrdered l.state.surfaces
      → validate_query q ≡ ok tt
      → lookup_surface_at b q l ≡ (
        ok (
            binding
              (find (active_on q) l.state.surfaces)
              (find_last (surface_matches_query q) l.state.surfaces)),
        l,
      )
  unfolding lookup_surface_at
  lookup_finds_binding q l o v = rw (← found_binding q l.state.surfaces o) (ground arith)

  new_surface_active :
      (id : String) (i : NewResponseSurface) (now : ℕ)
      → active_on (thread_of_input i) (new_surface id i now) ≡ true
  unfolding new_surface surface_matches_query is_closed
  new_surface_active id i now = ground (
    arith,
    eq_refl i.provider_id,
    eq_refl i.provider_account_id,
    eq_refl i.provider_conversation_id,
    eq_refl i.provider_thread_id,
  )

  pub same_search :
      (i : NewResponseSurface) (rs : List ResponseSurfaceRecord)
      → find (active_surface_has_same_provider_thread i) rs
        ≡ find (active_on (thread_of_input i)) rs
  same_search i rs = ap (λ p. find p rs) (fun_ext (active_matches i))

  -- What a successful creation returns is the active surface of its thread.
  pub created_found :
      (o : Option ResponseSurfaceRecord) (i : NewResponseSurface) (now : ℕ) (id : String)
      (l : SurfaceLedger Raw) (r : ResponseSurfaceRecord)
      → find (active_on (thread_of_input i)) l.state.surfaces ≡ o
      → (create_or_return b o i now id l).0 ≡ ok r
      → find (active_on (thread_of_input i)) (create_or_return b o i now id l).1.state.surfaces
        ≡ some r
  unfolding create_or_return
  created_found (some e) i now id l r h k = ground arith
  created_found none i now id l r h k =
      let n = new_surface id i now in
      subst (λ f. find (active_on (thread_of_input i)) f.surfaces ≡ some r)
        (sym (state-commit b _ n l))
        (find-append-none (active_on (thread_of_input i)) l.state.surfaces n h
            (new_surface_active id i now)
          ∙ ap some (result-commit b _ n r l k))

  pub valid_thread :
      (i : NewResponseSurface)
      → validate_new_surface i ≡ ok tt
      → validate_query (thread_of_input i) ≡ ok tt
  unfolding validate_new_surface validate_query ensure_all_present
  valid_thread i h = ground arith

  -- A successful creation is past the validation, and is the rest of the operation.
  pub create_steps :
      (i : NewResponseSurface) (now : ℕ) (id : String) (l : SurfaceLedger Raw)
      (r : ResponseSurfaceRecord)
      → (create_surface_at b i now id l).0 ≡ ok r
      → (validate_new_surface i ≡ ok tt)
        × (create_surface_at b i now id l
            ≡ create_or_return b
                (find (active_surface_has_same_provider_thread i) l.state.surfaces)
                i
                now
                id
                l)
  unfolding create_surface_at
  create_steps i now id l r h = ground arith
