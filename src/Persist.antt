-- ===== src/Persist.antt =====
-- State files: what a path holds, the JSON library as a parameter, and the two steps that the
-- ledgers and the delivery guard share, `load` and the replacement of a file by a renamed one
-- (src/delivery_safety.rs, src/response_surface_ledger.rs).
use agents_router.Prelude.{
  ℕ, ◌≡◌, Bool, inl, inr, Option, none, some, Option-cases, arith, eqb, if◌then◌else◌,
}
use agents_router.Exec.{
  Exec, Result, ok, err, Error, create_dir_failed, serialize_failed, write_failed, rename_failed,
  read_failed, parse_failed, unsupported_schema, or_fail, lift, ensure, ◌>>=◌, ◌>>◌,
}

-- serde_json for one file type: writing may fail, and what was written is read back unchanged.
pub record Json (F Raw : Type 0) : Type 0 where
  pub to_vec_pretty : F → Option Raw
  pub from_str : Raw → Option F
  pub round_trip : (f : F) (raw : Raw) → to_vec_pretty f ≡ some raw → from_str raw ≡ some f

pub data FileContent (Raw : Type 0) : Type 0 where
  absent unreadable : FileContent Raw
  contents : Raw → FileContent Raw

-- The file at a state path, and which of the system calls that replace it would succeed now.
pub record Disk (Raw : Type 0) : Type 0 where
  pub file : FileContent Raw
  pub can_create_dir : Bool
  pub can_write : Bool
  pub can_rename : Bool

module _ {F Raw : Type 0} (json : Json F Raw) where
  abbrev parse_file : Option F → (F → ℕ) → ℕ → Result F
  parse_file none version expected = err parse_failed
  parse_file (some f) version expected =
      if eqb (version f) expected then ok f else err (unsupported_schema (version f))

  -- A missing file stands for the empty state; any other content must parse, at the version.
  abbrev pub read_file : F → (F → ℕ) → ℕ → FileContent Raw → Result F
  read_file empty version expected absent = ok empty
  read_file empty version expected unreadable = err read_failed
  read_file empty version expected (contents raw) = parse_file (json.from_str raw) version expected

  -- `create_dir_all`, serialize, write the temporary file, rename it over the path
  unfoldable pub replace_file : F → Exec (Disk Raw) (Unit {0})
  replace_file f d =
      (do
        ensure d.can_create_dir create_dir_failed
        raw ← lift (or_fail (json.to_vec_pretty f) serialize_failed)
        ensure d.can_write write_failed
        ensure d.can_rename rename_failed
        λ (e : Disk Raw). (ok tt, record e { file = contents raw }))
        d

  -- A replacement that fails leaves the old file.
  pub replace_file_err :
      (f : F) (d : Disk Raw) (e : Error) → (replace_file f d).0 ≡ err e → (replace_file f d).1 ≡ d
  unfolding replace_file
  replace_file_err f d e h = ground arith

  -- One that succeeds is what a later load reads.
  pub read_file-replace_file :
      (f empty : F) (version : F → ℕ) (expected : ℕ) (d : Disk Raw)
      → (replace_file f d).0 ≡ ok tt
      → version f ≡ expected
      → read_file empty version expected (replace_file f d).1.file ≡ ok f
  unfolding replace_file
  read_file-replace_file f empty version expected d h v =
      elim (Option-cases (json.to_vec_pretty f)) [
        | inl e ↦ ground arith
        | inr (raw, e) ↦ ground (arith, json.round_trip f raw e)
      ]
