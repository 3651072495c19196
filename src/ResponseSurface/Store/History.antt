-- ===== src/ResponseSurface/Store/History.antt =====
-- src/response_surface_ledger.rs: the ledger's file under the calls of a store, each of which loads
-- the file, changes the ledger and saves it.
use agents_router.Prelude.{ℕ, String, ◌≡◌, Bool, List, [], ◌∷◌}
use agents_router.Exec.{Exec, ok}
use agents_router.Persist.{Json, Disk}
use agents_router.Ledger.{Ledger, Backend, update}
use agents_router.Ledger.Laws.{OnDisk, update-OnDisk}
use agents_router.ResponseSurface.Records.{
  ResponseSurfaceLedgerFile, NewResponseSurface, ResponseSurfaceContinuationTurnInput,
}
use agents_router.ResponseSurface.WellFormed.{WellFormed}
use agents_router.ResponseSurface.Surfaces.{create_surface_at, close_surface}
use agents_router.ResponseSurface.Surfaces.Changes.{create_surface_at-Change, close_surface-Change}
use agents_router.ResponseSurface.Events.AtMostOnce.{EventCall, step}
use agents_router.ResponseSurface.Events.Changes.{step-Change}
use agents_router.ResponseSurface.Turns.{record_response_surface_continuation_turn_at}
use agents_router.ResponseSurface.Turns.Changes.{
  record_response_surface_continuation_turn_at-Change,
}
use agents_router.ResponseSurface.Store.{ledger_backend, ledger_backend-IsAtomic, load_ledger_file}

-- The calls of a store that change its ledger
pub data StoreCall : Type 0 where
  creates : NewResponseSurface → ℕ → String → StoreCall
  closes : String → StoreCall
  on_events : EventCall → StoreCall
  records_turn : ResponseSurfaceContinuationTurnInput → ℕ → StoreCall

-- Which of the system calls succeed while a call of the store runs
pub record Attempt : Type 0 where
  pub call : StoreCall
  pub can_create_dir : Bool
  pub can_write : Bool
  pub can_rename : Bool

module _ {Raw : Type 0} (json : Json ResponseSurfaceLedgerFile Raw) (sha256 : String → List ℕ)
    (path : String) where
  abbrev backend : Backend ResponseSurfaceLedgerFile Raw
  backend = ledger_backend json

  -- The call on the inbound events, its answer left out
  abbrev perform : EventCall → Exec (Ledger ResponseSurfaceLedgerFile Raw) (Unit {0})
  perform c l = (ok tt, step backend sha256 c l)

  abbrev serve : StoreCall → Disk Raw → Disk Raw
  serve (creates i now id) disk = (update backend path (create_surface_at backend i now id) disk).1
  serve (closes id) disk = (update backend path (close_surface backend id) disk).1
  serve (on_events c) disk = (update backend path (perform c) disk).1
  serve (records_turn i now) disk =
      (update backend path (record_response_surface_continuation_turn_at backend i now) disk).1

  abbrev weather : Attempt → Disk Raw → Disk Raw
  weather a disk = record disk {
    can_create_dir = a.can_create_dir;
    can_write = a.can_write;
    can_rename = a.can_rename;
  }

  unfoldable pub serve_all : List Attempt → Disk Raw → Disk Raw
  serve_all [] disk = disk
  serve_all (a ∷ rest) disk = serve_all rest (serve a.call (weather a disk))

  serve-OnDisk :
      (c : StoreCall) (disk : Disk Raw)
      → OnDisk backend WellFormed disk
      → OnDisk backend WellFormed (serve c disk)
  serve-OnDisk (creates i now id) disk h =
      update-OnDisk backend WellFormed path _ disk (ledger_backend-IsAtomic json) (λ f w. w.current)
        (create_surface_at-Change backend i now id) h
  serve-OnDisk (closes id) disk h =
      update-OnDisk backend WellFormed path _ disk (ledger_backend-IsAtomic json) (λ f w. w.current)
        (close_surface-Change backend id) h
  serve-OnDisk (on_events c) disk h =
      update-OnDisk backend WellFormed path (perform c) disk (ledger_backend-IsAtomic json)
        (λ f w. w.current) (step-Change backend sha256 c) h
  serve-OnDisk (records_turn i now) disk h =
      update-OnDisk backend WellFormed path _ disk (ledger_backend-IsAtomic json) (λ f w. w.current)
        (record_response_surface_continuation_turn_at-Change backend i now) h

  serve_all-OnDisk :
      (calls : List Attempt) (disk : Disk Raw)
      → OnDisk backend WellFormed disk
      → OnDisk backend WellFormed (serve_all calls disk)
  unfolding serve_all
  serve_all-OnDisk [] disk h = h
  serve_all-OnDisk (a ∷ rest) disk h =
      serve_all-OnDisk rest (serve a.call (weather a disk)) (serve-OnDisk a.call (weather a disk) h)

  -- If every ledger that the file can be loaded as is well-formed, then so is every ledger that it
  -- is loaded as after any calls of the store, whichever of their writes fail.
  pub file_stays_well_formed :
      (calls : List Attempt) (disk : Disk Raw) (f : ResponseSurfaceLedgerFile)
      → ((g : ResponseSurfaceLedgerFile) → load_ledger_file json disk.file ≡ ok g → WellFormed g)
      → load_ledger_file json (serve_all calls disk).file ≡ ok f
      → WellFormed f
  file_stays_well_formed calls disk f h e = serve_all-OnDisk calls disk h f e
