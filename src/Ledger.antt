-- ===== src/Ledger.antt =====
-- What the two ledgers share: a ledger is a value in memory with the path of its file, an operation
-- changes the value and saves it, and a store runs each operation on a ledger that it loads from
-- the file, under a lock (src/response_surface_ledger.rs, src/bridge_binding_ledger.rs).
pub mod Laws
use agents_router.Prelude.{
  ℕ, String, ◌≡◌, refl, ap, sym, subst, ◌∙◌, ◌⊎◌, inl, inr, Option, none, some, List, [], ◌∷◌,
  arith, Bool, not, if◌then◌else◌,
}
use agents_router.Prelude.Text.{is_blank}
use agents_router.Exec.{Exec, Result, Error, ok, err, must_be_present, ◌>>◌, ensure}
use agents_router.Persist.{
  Json, Disk, FileContent, read_file, replace_file, replace_file_err, read_file-replace_file,
}

pub record Ledger (F Raw : Type 0) : Type 0 where
  pub state_path : Option String
  pub state : F
  pub disk : Disk Raw

-- `ensure_present` of each field, by its name and its value
abbrev pub ensure_present : String → String → Result (Unit {0})
ensure_present field value = if not (is_blank value) then ok tt else err (must_be_present field)

abbrev and_also : Result (Unit {0}) → Result (Unit {0}) → Result (Unit {0})
and_also (ok t) r = r
and_also (err e) r = err e

unfoldable pub ensure_all_present : List (String × String) → Result (Unit {0})
ensure_all_present [] = ok tt
ensure_all_present ((field, value) ∷ rest) =
    and_also (ensure_present field value) (ensure_all_present rest)

-- How a ledger file is written and read. `version` is the `schema_version` of a value.
pub record Backend (F Raw : Type 0) : Type 0 where
  pub write : F → Exec (Disk Raw) (Unit {0})
  pub read : FileContent Raw → Result F
  pub version : F → ℕ
  pub schema_version : ℕ
  pub read_back :
      (f : F) (d : Disk Raw)
      → version f ≡ schema_version
      → (write f d).0 ≡ ok tt
      → read (write f d).1.file ≡ ok f

-- A write that fails leaves the file.
abbrev pub IsAtomic : {F Raw : Type 0} → Backend F Raw → Type 0
IsAtomic {F} {Raw} b =
    (f : F) (d : Disk Raw) (e : Error) → (b.write f d).0 ≡ err e → (b.write f d).1 ≡ d

module _ {F Raw : Type 0} (b : Backend F Raw) where
  unfoldable pub save : Exec (Ledger F Raw) (Unit {0})
  save l = elim l.state_path [
    | none ↦ (ok tt, l)
    | some path ↦ ((b.write l.state l.disk).0, record l { disk = (b.write l.state l.disk).1 })
  ]

  -- A change of the value, a save, and the answer.
  unfoldable pub commit : {A : Type 0} → F → A → Exec (Ledger F Raw) A
  unfolding save
  commit f a l = (do save; λ (l' : Ledger F Raw). (ok a, l')) (record l { state = f })

  abbrev loaded : String → Disk Raw → Result F → Result (Ledger F Raw)
  loaded path disk (err e) = err e
  loaded path disk (ok f) = ok (record { state_path = some path; state = f; disk = disk })

  unfoldable pub load : String → Disk Raw → Result (Ledger F Raw)
  load path disk = loaded path disk (b.read disk.file)

  abbrev run_loaded :
      {A : Type 0} → Result (Ledger F Raw) → Exec (Ledger F Raw) A → Disk Raw → Result A × Disk Raw
  run_loaded (err e) op disk = (err e, disk)
  run_loaded (ok l) op disk = ((op l).0, (op l).1.disk)

  -- `update` of a store: the lock makes it one step on the disk.
  unfoldable pub update : {A : Type 0} → String → Exec (Ledger F Raw) A → Exec (Disk Raw) A
  unfolding load
  update path op disk = run_loaded (load path disk) op disk
