-- ===== src/Exec.antt =====
-- Fallible operations on a mutable object, and the errors that they raise. A `?` on an error leaves
-- the changes that were made before it, so the state comes back beside the error too.
pub mod Results
use agents_router.Prelude.{ℕ, String, Bool, Option, none, some, if◌then◌else◌}

-- One constructor for each message of the modelled files (`anyhow::Error`), and one for the panic of
-- a slice that would cut a character.
pub data Error : Type 0 where
  lock_poisoned create_dir_failed serialize_failed write_failed rename_failed : Error
  read_failed parse_failed : Error
  unsupported_schema : ℕ → Error
  must_be_present must_not_be_empty surrounding_whitespace : String → Error
  provider_target_not_trimmed project_path_not_clean : Error
  thread_bound_to_surface event_not_found : String → Error
  event_of_other_surface turn_of_other_surface not_terminal : Error
  not_claimed : String → Error
  thread_bound_to_other_session unreachable : Error
  provider_inbound_missing missing_part : String → Error
  provider_mode_mismatch provider_type_mismatch thread_binding_mismatch : Error
  sliced_inside_character : Error

pub data Result {ℓ} (A : Type ℓ) : Type ℓ where
  ok : A → Result A
  err : Error → Result A

abbrev pub Exec {ℓ} : Type ℓ → Type ℓ → Type ℓ
Exec S A = S → Result A × S

module _ {ℓ} {S A : Type ℓ} where
  abbrev pub pure : A → Exec S A
  pure a s = (ok a, s)

  abbrev pub raise : Error → Exec S A
  raise e s = (err e, s)

  abbrev pub lift : Result A → Exec S A
  lift r s = (r, s)

abbrev pub or_fail {ℓ} : {A : Type ℓ} → Option A → Error → Result A
or_fail none e = err e
or_fail (some a) e = ok a

abbrev pub ensure {ℓ} : {S : Type ℓ} → Bool → Error → S → Result (Unit {ℓ}) × S
ensure b e s = if b then (ok tt, s) else (err e, s)

module _ {ℓ} {S A B : Type ℓ} where
  abbrev continue : Result A → (A → Exec S B) → Exec S B
  continue (ok a) f s = f a s
  continue (err e) f s = (err e, s)

  infixl 10 ◌>>=◌ ◌>>◌
  abbrev pub ◌>>=◌ : Exec S A → (A → Exec S B) → Exec S B
  ◌>>=◌ m f s = continue (m s).0 f (m s).1

  abbrev pub ◌>>◌ : Exec S A → Exec S B → Exec S B
  m >> n = m >>= λ _. n
