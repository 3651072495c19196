-- ===== src/BridgeBinding/Fixtures.antt =====
-- A ledger for the tests.
use agents_router.Prelude.{◌≡◌, arith}
use agents_router.Exec.{Result, ok, err, write_failed}
use agents_router.Ledger.{Backend}
use agents_router.BridgeBinding.Records.{BridgeBindingLedgerFile, empty_bridge_file}

abbrev pub failed : Result (Unit {0})
failed = err write_failed

pub never : {A : Type 0} → failed ≡ ok tt → A
never h = ground arith

-- A ledger whose file is never written
abbrev pub b : Backend BridgeBindingLedgerFile BridgeBindingLedgerFile
b = record {
  write = λ f d. (failed, d);
  read = λ c. ok empty_bridge_file;
  version = λ f. f.schema_version;
  schema_version = 1;
  read_back = λ f d v w. never w;
}
