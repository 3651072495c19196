-- ===== src/ResponseSurface/Surfaces/Changes.antt =====
-- src/response_surface_ledger.rs: what the operations on surfaces leave in memory and save.
use agents_router.Prelude.{
  ℕ, String, ◌≡◌, refl, true, none, some, Option, find, inl, arith, update_first,
}
use agents_router.Ledger.{Ledger, Backend}
use agents_router.Ledger.Laws.{Change, commit-Change}
use agents_router.ResponseSurface.Records.{
  ResponseSurfaceLedgerFile, ResponseSurfaceRecord, NewResponseSurface,
}
use agents_router.ResponseSurface.WellFormed.{WellFormed, with_surfaces}
use agents_router.ResponseSurface.Surfaces.{
  active_surface_has_same_provider_thread, new_surface, close_record, has_surface_id,
  create_or_return, create_surface_at, close_surface,
}
use agents_router.ResponseSurface.Surfaces.Threads.{IsOrdered-snoc, IsOrdered-close, none_active}

module _ {Raw : Type 0} (b : Backend ResponseSurfaceLedgerFile Raw) where
  abbrev SurfaceLedger : Type 0
  SurfaceLedger = Ledger ResponseSurfaceLedgerFile Raw

  create_or_return-Change :
      (o : Option ResponseSurfaceRecord) (i : NewResponseSurface) (now : ℕ) (id : String)
      (l : SurfaceLedger)
      → find (active_surface_has_same_provider_thread i) l.state.surfaces ≡ o
      → WellFormed l.state
      → Change b WellFormed l (create_or_return b o i now id l).1
  unfolding create_or_return new_surface
  create_or_return-Change (some r) i now id l e w = inl (ground arith)
  create_or_return-Change none i now id l e w = commit-Change b WellFormed _ _ l (
      with_surfaces l.state w _ (
        IsOrdered-snoc l.state.surfaces (new_surface id i now) w.surfaces
          (none_active i l.state.surfaces e)))

  pub create_surface_at-Change :
      (i : NewResponseSurface) (now : ℕ) (id : String) (l : SurfaceLedger)
      → WellFormed l.state
      → Change b WellFormed l (create_surface_at b i now id l).1
  unfolding create_surface_at
  create_surface_at-Change i now id l w = ground (
    arith,
    create_or_return-Change (find (active_surface_has_same_provider_thread i) l.state.surfaces) i
        now id l refl w,
  )

  pub close_surface-Change :
      (id : String) (l : SurfaceLedger)
      → WellFormed l.state
      → Change b WellFormed l (close_surface b id l).1
  unfolding close_surface
  close_surface-Change id l w = ground (
    arith,
    commit-Change b WellFormed
        (record l.state {
          surfaces = update_first (has_surface_id id) close_record l.state.surfaces;
        })
        true l
        (with_surfaces l.state w _
          (IsOrdered-close (has_surface_id id) l.state.surfaces w.surfaces)),
  )
