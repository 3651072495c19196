-- ===== src/ResponseSurface/Surfaces/Binding.antt =====
-- src/response_surface_ledger.rs: the life of a surface: created, found by its thread, created
-- again, closed.
use agents_router.Prelude.{
  ℕ, String, ◌≡◌, refl, ap, sym, subst, ◌∙◌, true, is_yes-holds, Option, none, some, find,
  find_last, arith, eq_refl,
}
use agents_router.Prelude.Text.{present}
use agents_router.Exec.{ok}
use agents_router.Ledger.{Backend}
use agents_router.Ledger.Laws.{result-commit}
use agents_router.ProviderCatalog.{ProviderMode-discrete}
use agents_router.ResponseSurface.Records.{
  ResponseSurfaceRecord, NewResponseSurface, ResponseSurfaceLedgerFile, hit,
}
use agents_router.ResponseSurface.Surfaces.{
  same_optional, surface_create_is_idempotent, validate_new_surface,
  active_surface_has_same_provider_thread, surface_matches_query, new_surface, from_surface,
  create_or_return, create_surface_at, lookup_surface_at,
}
use agents_router.ResponseSurface.Surfaces.Threads.{thread_of_input, IsOrdered, active_on}
use agents_router.ResponseSurface.Surfaces.Lookup.{
  SurfaceLedger, create_surface_at-IsOrdered, lookup_finds_binding, binding, create_steps,
  created_found, same_search, valid_thread,
}

same_optional_refl : (o : Option String) → same_optional o o ≡ true
unfolding same_optional
same_optional_refl none = refl
same_optional_refl (some s) = eq_refl s

module _ {Raw : Type 0} (b : Backend ResponseSurfaceLedgerFile Raw) where
  created_active :
      (i : NewResponseSurface) (now : ℕ) (id : String) (l : SurfaceLedger Raw)
      (r : ResponseSurfaceRecord)
      → (create_surface_at b i now id l).0 ≡ ok r
      → find (active_on (thread_of_input i)) (create_surface_at b i now id l).1.state.surfaces
        ≡ some r
  created_active i now id l r h =
      let same = (create_steps b i now id l r h).1 in
      subst (λ x. find (active_on (thread_of_input i)) x.1.state.surfaces ≡ some r) (sym same)
        (created_found b _ i now id l r (sym (same_search b i l.state.surfaces))
          (ap (λ x. x.0) (sym same) ∙ h))

  -- Where each active surface is the last one of its thread, a lookup of the thread of a surface
  -- that was created, or returned for a repeated request, finds that surface.
  pub create_then_lookup :
      (i : NewResponseSurface) (now : ℕ) (id : String) (l : SurfaceLedger Raw)
      (r : ResponseSurfaceRecord)
      → IsOrdered l.state.surfaces
      → (create_surface_at b i now id l).0 ≡ ok r
      → (lookup_surface_at b (thread_of_input i) (create_surface_at b i now id l).1).0
        ≡ ok (hit (from_surface r))
  create_then_lookup i now id l r o h =
      let v = (create_steps b i now id l r h).0 in
      let l' : SurfaceLedger Raw = (create_surface_at b i now id l).1 in
      let q = thread_of_input i in
      ap (λ x. x.0)
        (lookup_finds_binding b q l' (create_surface_at-IsOrdered b i now id l o)
          (valid_thread b i v))
      ∙ ap (λ x. ok (binding b x (find_last (surface_matches_query q) l'.state.surfaces)))
          (created_active i now id l r h)

  idempotent_new :
      (i : NewResponseSurface) (now : ℕ) (id : String)
      → surface_create_is_idempotent i (new_surface id i now) ≡ true
  unfolding surface_create_is_idempotent new_surface
  idempotent_new i now id = ground (
    arith,
    eq_refl i.source_id,
    eq_refl i.source_type,
    eq_refl i.source_session_id,
    eq_refl i.provider_type,
    is_yes-holds (ProviderMode-discrete i.provider_mode i.provider_mode) refl,
    same_optional_refl (present i.route_binding_hash),
  )

  created_idempotent :
      (o : Option ResponseSurfaceRecord) (i : NewResponseSurface) (now : ℕ) (id : String)
      (l : SurfaceLedger Raw) (r : ResponseSurfaceRecord)
      → (create_or_return b o i now id l).0 ≡ ok r
      → surface_create_is_idempotent i r ≡ true
  unfolding create_or_return
  created_idempotent (some e) i now id l r h = ground arith
  created_idempotent none i now id l r h =
      subst (λ x. surface_create_is_idempotent i x ≡ true)
        (result-commit b _ (new_surface id i now) r l h) (idempotent_new i now id)

  returned :
      (i : NewResponseSurface) (later : ℕ) (id : String) (l : SurfaceLedger Raw)
      (r : ResponseSurfaceRecord)
      → validate_new_surface i ≡ ok tt
      → find (active_surface_has_same_provider_thread i) l.state.surfaces ≡ some r
      → surface_create_is_idempotent i r ≡ true
      → create_surface_at b i later id l ≡ (ok r, l)
  unfolding create_surface_at create_or_return
  returned i later id l r v f k = ground arith

  -- Creating a surface twice for one request returns the surface that the first call returned, and
  -- changes nothing.
  pub create_twice :
      (i : NewResponseSurface) (now later : ℕ) (id id' : String) (l : SurfaceLedger Raw)
      (r : ResponseSurfaceRecord)
      → (create_surface_at b i now id l).0 ≡ ok r
      → create_surface_at b i later id' (create_surface_at b i now id l).1
        ≡ (ok r, (create_surface_at b i now id l).1)
  create_twice i now later id id' l r h =
      let (v, same) = create_steps b i now id l r h in
      let l' : SurfaceLedger Raw = (create_surface_at b i now id l).1 in
      returned i later id' l' r v
        (same_search b i l'.state.surfaces ∙ created_active i now id l r h)
        (created_idempotent _ i now id l r (ap (λ x. x.0) (sym same) ∙ h))
