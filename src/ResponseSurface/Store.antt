-- ===== src/ResponseSurface/Store.antt =====
-- src/response_surface_ledger.rs: the ledger's file, `load_ledger_file` and `save_ledger_file`.
pub mod History
use agents_router.Exec.{Exec, Result}
use agents_router.Persist.{
  Json, Disk, FileContent, read_file, replace_file, replace_file_err, read_file-replace_file,
}
use agents_router.Ledger.{Backend, IsAtomic}
use agents_router.ResponseSurface.Records.{
  ResponseSurfaceLedgerFile, default_file, ledger_schema_version,
}

module _ {Raw : Type 0} (json : Json ResponseSurfaceLedgerFile Raw) where
  abbrev pub load_ledger_file : FileContent Raw → Result ResponseSurfaceLedgerFile
  load_ledger_file = read_file json default_file (λ f. f.schema_version) ledger_schema_version

  abbrev pub save_ledger_file : ResponseSurfaceLedgerFile → Exec (Disk Raw) (Unit {0})
  save_ledger_file = replace_file json

  abbrev pub ledger_backend : Backend ResponseSurfaceLedgerFile Raw
  ledger_backend = record {
    write = save_ledger_file;
    read = load_ledger_file;
    version = λ f. f.schema_version;
    schema_version = ledger_schema_version;
    read_back = λ f d v w.
        read_file-replace_file json f default_file (λ g. g.schema_version) ledger_schema_version d w
          v;
  }

  pub ledger_backend-IsAtomic : IsAtomic ledger_backend
  ledger_backend-IsAtomic f d e h = replace_file_err json f d e h
