-- ===== src/Ledger/Laws.antt =====
-- Saving and loading a ledger: what an operation that ends in `commit` leaves in memory and on the
-- disk, and how a property of the value passes to the file through `update`.
use agents_router.Prelude.{
  String, ◌≡◌, refl, sym, subst, ◌∙◌, ◌⊎◌, inl, inr, some, arith, Option-cases,
}
use agents_router.Exec.{Exec, Result, Error, ok, err}
use agents_router.Persist.{Disk}
use agents_router.Ledger.{Ledger, Backend, IsAtomic, save, commit, update}

pub Result-cases {ℓ} :
    {A : Type ℓ} (r : Result A) → ((a : A) × (r ≡ ok a)) ⊎ ((e : Error) × (r ≡ err e))
Result-cases (ok a) = inl (a, refl)
Result-cases (err e) = inr (e, refl)

pub ok-injective {ℓ} : {A : Type ℓ} {a b : A} → ok a ≡ ok b → a ≡ b
ok-injective e = ground arith

module _ {F Raw : Type 0} (b : Backend F Raw) where
  pub state-commit : {A : Type 0} (f : F) (a : A) (l : Ledger F Raw) → (commit b f a l).1.state ≡ f
  unfolding commit
  state-commit f a l = ground arith

  pub result-commit :
      {A : Type 0} (f : F) (a a' : A) (l : Ledger F Raw) → (commit b f a l).0 ≡ ok a' → a ≡ a'
  unfolding commit
  result-commit f a a' l h = ground arith

  -- A save that succeeds is read back.
  pub commit_read_back :
      {A : Type 0} (f : F) (a a' : A) (l : Ledger F Raw) (path : String)
      → l.state_path ≡ some path
      → b.version f ≡ b.schema_version
      → (commit b f a l).0 ≡ ok a'
      → b.read (commit b f a l).1.disk.file ≡ ok f
  unfolding commit
  commit_read_back f a a' l path e v h = ground (arith, b.read_back f l.disk v)

  -- What `commit` leaves, whatever it answers
  abbrev pub saved : F → Ledger F Raw → Ledger F Raw
  saved f l = (save b (record l { state = f })).1

  pub commit-saved :
      {A : Type 0} (f : F) (a : A) (l : Ledger F Raw) → (commit b f a l).1 ≡ saved f l
  unfolding commit
  commit-saved f a l = ground arith

  -- An operation that ends in `commit` with a value that has a property, or changes nothing
  abbrev pub Change {ℓ} : (F → Type ℓ) → Ledger F Raw → Ledger F Raw → Type ℓ
  Change P l l' = (l' ≡ l) ⊎ ((f : F) × P f × (l' ≡ saved f l))

  pub commit-Change {ℓ} :
      {A : Type 0} (P : F → Type ℓ) (f : F) (a : A) (l : Ledger F Raw)
      → P f
      → Change P l (commit b f a l).1
  commit-Change P f a l p = inr (f, p, commit-saved f a l)

  -- A property of the value that a file stands for.
  abbrev pub OnDisk {ℓ} : (F → Type ℓ) → Disk Raw → Type ℓ
  OnDisk P disk = (f : F) → b.read disk.file ≡ ok f → P f

  saved-OnDisk {ℓ} :
      (P : F → Type ℓ) (f : F) (l : Ledger F Raw)
      → IsAtomic b
      → b.version f ≡ b.schema_version
      → OnDisk P l.disk
      → P f
      → OnDisk P (saved f l).disk
  unfolding save
  saved-OnDisk P f l atomic v h p = elim (Option-cases l.state_path) [
    | inl e ↦ rw e h
    | inr (path, e) ↦ elim (Result-cases (b.write f l.disk).0) [
      | inl (t, w) ↦ rw e (λ g r. subst P (ok-injective (sym (b.read_back f l.disk v w) ∙ r)) p)
      | inr (x, w) ↦ rw (e, atomic f l.disk x w) h
    ]
  ]

  Change-OnDisk {ℓ} :
      (P : F → Type ℓ) (l l' : Ledger F Raw)
      → IsAtomic b
      → ((f : F) → P f → b.version f ≡ b.schema_version)
      → OnDisk P l.disk
      → Change P l l'
      → OnDisk P l'.disk
  Change-OnDisk P l l' atomic v h (inl same) = subst (λ x. OnDisk P x.disk) (sym same) h
  Change-OnDisk P l l' atomic v h (inr (f, p, same)) =
      subst (λ x. OnDisk P x.disk) (sym same) (saved-OnDisk P f l atomic (v f p) h p)

  -- An operation that keeps a property of the value, and saves what it changes, keeps it on disk.
  pub update-OnDisk {ℓ} :
      {A : Type 0} (P : F → Type ℓ) (path : String) (op : Exec (Ledger F Raw) A) (disk : Disk Raw)
      → IsAtomic b
      → ((f : F) → P f → b.version f ≡ b.schema_version)
      → ((l : Ledger F Raw) → P l.state → Change P l (op l).1)
      → OnDisk P disk
      → OnDisk P (update b path op disk).1
  unfolding update
  update-OnDisk P path op disk atomic v changes h = elim (Result-cases (b.read disk.file)) [
    | inl (f, e) ↦
        let l : Ledger F Raw = record { state_path = some path; state = f; disk = disk } in
        rw (e, update) (Change-OnDisk P l (op l).1 atomic v h (changes l (h f e)))
    | inr (x, e) ↦ rw (e, update) h
  ]
