-- ===== src/BridgeBinding/Store.antt =====
-- src/bridge_binding_ledger.rs: the ledger's file, which is written in place. What a write that fails
-- leaves of the file is a parameter, `left_by`.
pub mod Restart
mod Tests
use agents_router.Prelude.{ℕ, ◌≡◌, Bool, Option-cases, inl, inr, none, some, arith, if◌then◌else◌}
use agents_router.Exec.{
  Exec, Result, ok, err, create_dir_failed, serialize_failed, write_failed, or_fail, lift, ensure,
  ◌>>=◌, ◌>>◌,
}
use agents_router.Persist.{Json, Disk, FileContent, contents, read_file}
use agents_router.Ledger.{Backend}
use agents_router.BridgeBinding.Records.{
  BridgeBindingLedgerFile, empty_bridge_file, bridge_schema_version,
}

module _ {Raw : Type 0} (json : Json BridgeBindingLedgerFile Raw)
    (left_by : BridgeBindingLedgerFile → FileContent Raw → FileContent Raw) where
  abbrev pub load_bridge_file : FileContent Raw → Result BridgeBindingLedgerFile
  load_bridge_file = read_file json empty_bridge_file (λ f. f.schema_version) bridge_schema_version

  -- `create_dir_all`, serialize, `fs::write`
  unfoldable pub save_state : BridgeBindingLedgerFile → Exec (Disk Raw) (Unit {0})
  save_state f d =
      (do
        ensure d.can_create_dir create_dir_failed
        raw ← lift (or_fail (json.to_vec_pretty f) serialize_failed)
        λ (e : Disk Raw).
            if e.can_write
            then (ok tt, record e { file = contents raw })
            else (err write_failed, record e { file = left_by f e.file }))
        d

  pub load-save_state :
      (f : BridgeBindingLedgerFile) (d : Disk Raw)
      → f.schema_version ≡ bridge_schema_version
      → (save_state f d).0 ≡ ok tt
      → load_bridge_file (save_state f d).1.file ≡ ok f
  unfolding save_state
  load-save_state f d v h = elim (Option-cases (json.to_vec_pretty f)) [
    | inl e ↦ ground arith
    | inr (raw, e) ↦ ground (arith, json.round_trip f raw e)
  ]

  abbrev pub bridge_backend : Backend BridgeBindingLedgerFile Raw
  bridge_backend = record {
    write = save_state;
    read = load_bridge_file;
    version = λ f. f.schema_version;
    schema_version = bridge_schema_version;
    read_back = load-save_state;
  }
