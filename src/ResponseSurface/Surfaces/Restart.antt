-- ===== src/ResponseSurface/Surfaces/Restart.antt =====
-- src/response_surface_ledger.rs: a surface that was created is there for the next process that
-- loads the ledger's file.
use agents_router.Prelude.{
  ℕ, String, ◌≡◌, refl, none, some, Option, inl, inr, arith, ap, sym, subst, ◌∙◌,
}
use agents_router.Exec.{ok}
use agents_router.Persist.{Json, Disk}
use agents_router.Ledger.{Ledger, Backend, load, update}
use agents_router.Ledger.Laws.{commit_read_back, state-commit, Result-cases}
use agents_router.ResponseSurface.Records.{
  ResponseSurfaceLedgerFile, ResponseSurfaceRecord, NewResponseSurface, ResponseSurfaceLookupQuery,
  hit, ledger_schema_version,
}
use agents_router.ResponseSurface.Store.{ledger_backend, load_ledger_file}
use agents_router.ResponseSurface.WellFormed.{WellFormed}
use agents_router.ResponseSurface.Surfaces.{
  new_surface, from_surface, create_or_return, create_surface_at, lookup_surface_at,
}
use agents_router.ResponseSurface.Surfaces.Threads.{thread_of_input}
use agents_router.ResponseSurface.Surfaces.Lookup.{create_steps}
use agents_router.ResponseSurface.Surfaces.Binding.{create_then_lookup}

module _ {Raw : Type 0} (json : Json ResponseSurfaceLedgerFile Raw) (path : String) where
  abbrev backend : Backend ResponseSurfaceLedgerFile Raw
  backend = ledger_backend json

  abbrev StoredLedger : Type 0
  StoredLedger = Ledger ResponseSurfaceLedgerFile Raw

  -- The ledger that a store loads
  abbrev opened : ResponseSurfaceLedgerFile → Disk Raw → StoredLedger
  opened f disk = record { state_path = some path; state = f; disk = disk }

  create_or_return_read_back :
      (o : Option ResponseSurfaceRecord) (i : NewResponseSurface) (now : ℕ) (id : String)
      (l : StoredLedger) (r : ResponseSurfaceRecord)
      → l.state_path ≡ some path
      → l.state.schema_version ≡ ledger_schema_version
      → load_ledger_file json l.disk.file ≡ ok l.state
      → (create_or_return backend o i now id l).0 ≡ ok r
      → load_ledger_file json (create_or_return backend o i now id l).1.disk.file
        ≡ ok (create_or_return backend o i now id l).1.state
  unfolding create_or_return
  create_or_return_read_back (some e) i now id l r p v h k = ground arith
  create_or_return_read_back none i now id l r p v h k =
      let n = new_surface id i now in
      commit_read_back backend _ n r l path p v k ∙ ap ok (sym (state-commit backend _ n l))

  same_answer :
      (q : ResponseSurfaceLookupQuery) (l l' : StoredLedger)
      → l.state ≡ l'.state
      → (lookup_surface_at backend q l).0 ≡ (lookup_surface_at backend q l').0
  unfolding lookup_surface_at
  same_answer q l l' h = ground arith

  create_read_back :
      (i : NewResponseSurface) (now : ℕ) (id : String) (f : ResponseSurfaceLedgerFile)
      (disk : Disk Raw) (r : ResponseSurfaceRecord)
      → load_ledger_file json disk.file ≡ ok f
      → WellFormed f
      → (create_surface_at backend i now id (opened f disk)).0 ≡ ok r
      → load_ledger_file json (create_surface_at backend i now id (opened f disk)).1.disk.file
        ≡ ok (create_surface_at backend i now id (opened f disk)).1.state
  create_read_back i now id f disk r e w h =
      let l = opened f disk in
      let (v, same) = create_steps backend i now id l r h in
      subst (λ x. load_ledger_file json x.1.disk.file ≡ ok x.1.state) (sym same)
        (create_or_return_read_back _ i now id l r refl w.current e (ap (λ x. x.0) (sym same) ∙ h))

  -- If every ledger that the file can be loaded as is well-formed, and a store creates a surface, or
  -- returns it for a repeated request, then a store that is opened afterwards finds that surface
  -- by its thread.
  pub created_survives_restart :
      (i : NewResponseSurface) (now : ℕ) (id : String) (disk : Disk Raw) (r : ResponseSurfaceRecord)
      → ((g : ResponseSurfaceLedgerFile) → load_ledger_file json disk.file ≡ ok g → WellFormed g)
      → (update backend path (create_surface_at backend i now id) disk).0 ≡ ok r
      → (update backend path
          (lookup_surface_at backend (thread_of_input i))
          (update backend path (create_surface_at backend i now id) disk).1).0
        ≡ ok (hit (from_surface r))
  unfolding update load
  created_survives_restart i now id disk r w h =
      elim (Result-cases (load_ledger_file json disk.file)) [
        | inr (x, e) ↦ ground arith
        | inl (f, e) ↦
            let l = opened f disk in
            let l' : StoredLedger = (create_surface_at backend i now id l).1 in
            let created : (create_surface_at backend i now id l).0 ≡ ok r = ground arith in
            let back : load_ledger_file json l'.disk.file ≡ ok l'.state =
              create_read_back i now id f disk r e (w f e) created in
            rw (e, back)
              (same_answer (thread_of_input i) (opened l'.state l'.disk) l' refl
                ∙ create_then_lookup backend i now id l r (w f e).surfaces created)
      ]
