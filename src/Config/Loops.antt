-- ===== src/Config/Loops.antt =====
-- src/config.rs: what the loops of the validation check.
use Prim.Native.Nat.{◌^◌}
use agents_router.Prelude.{◌≡◌, refl, ◌<◌, ◌*◌, All, arith, and_then}
use agents_router.Config.Typed.{validated_provider_keeps_its_type}
use agents_router.Prelude.{
  ℕ, String, Bool, true, false, not, ◌&&◌, Option, none, some, is_some, List, [], ◌∷◌, any, eqb,
  ◌==◌,
}
use agents_router.Config.{checked_mul, is_clean_absolute_project_path}
use agents_router.Config.Checked.{
  ConfigError, duplicate_source_id, duplicate_provider_id, invalid_minimum_task_duration, Checked,
  refused, accepted, ◌>>=◌, ◌>>◌, refuse_if,
}
use agents_router.Config.Providers.{RawProviderConfig, ProviderConfig}
use agents_router.ProviderUrls.{UrlParser}
use agents_router.Config.RawProviders.{to_validated}
use agents_router.Config.Validation.{
  SourceConfig, contains_id, validate_source, check_sources, check_provider_ids, validate_providers,
  check_known, check_duration, check_paths, source_ids, raw_provider_ids, provider_ids,
}

-- Each id differs from those behind it.
unfoldable pub distinct : List String → Bool
distinct [] = true
distinct (id ∷ ids) = not (any (λ later. id == later) ids) && distinct ids

abbrev pub Fits : Option ℕ → Option ℕ → Type 0
Fits none ms = ms ≡ none
Fits (some minutes) ms = (0 < minutes) × (ms ≡ some (minutes * 60000)) × (minutes * 60000 < 2 ^ 64)

pub both_accepted :
    {B : Type 0} (m : Checked (Unit {0})) (n : Checked B) (x : B)
    → (m >> n) ≡ accepted x
    → (m ≡ accepted tt) × (n ≡ accepted x)
both_accepted (accepted t) n x e = (refl, e)
both_accepted (refused problem) n x e = ground arith

pub value_accepted :
    {A B : Type 0} (m : Checked A) (f : A → Checked B) (x : B)
    → (m >>= f) ≡ accepted x
    → (a : A) × (m ≡ accepted a) × (f a ≡ accepted x)
value_accepted (accepted a) f x e = (a, refl, e)
value_accepted (refused problem) f x e = ground arith

test_failed :
    (test : Bool) (problem : ConfigError) → refuse_if test problem ≡ accepted tt → test ≡ false
test_failed true problem e = ground arith
test_failed false problem e = refl

-- The ids that a loop accepts are distinct, and none of them was inserted before.
abbrev pub Fresh : List String → List String → Type 0
Fresh ids more = (distinct more ≡ true) × All (λ id. contains_id ids id ≡ false) more

not_inserted :
    (id : String) (ids more : List String)
    → All (λ other. contains_id (id ∷ ids) other ≡ false) more
    → (any (λ later. id == later) more ≡ false) × All (λ other. contains_id ids other ≡ false) more
unfolding any contains_id
not_inserted id ids [] h = (refl, tt)
not_inserted id ids (other ∷ more) (h, hs) =
    let (a, old) = not_inserted id ids more hs in (ground arith, (ground arith, old))

fresh :
    (id : String) (ids more : List String)
    → contains_id ids id ≡ false
    → Fresh (id ∷ ids) more
    → Fresh ids (id ∷ more)
unfolding distinct
fresh id ids more h (d, hs) =
    let (a, old) = not_inserted id ids more hs in (rw (a, d) refl, (h, old))

pub sources_fresh :
    (ids : List String) (ss : List SourceConfig)
    → check_sources ids ss ≡ accepted tt
    → Fresh ids (source_ids ss)
unfolding check_sources distinct
sources_fresh ids [] e = (refl, tt)
sources_fresh ids (s ∷ ss) e =
    let (new, more) =
      both_accepted (refuse_if (contains_id ids s.id) (duplicate_source_id s.id)) _ tt e in
    let (valid, rest) = both_accepted (validate_source s) _ tt more in
    fresh s.id ids (source_ids ss) (test_failed _ _ new) (sources_fresh (s.id ∷ ids) ss rest)

pub providers_fresh :
    (ids : List String) (ps : List RawProviderConfig)
    → check_provider_ids ids ps ≡ accepted tt
    → Fresh ids (raw_provider_ids ps)
unfolding check_provider_ids distinct
providers_fresh ids [] e = (refl, tt)
providers_fresh ids (p ∷ ps) e =
    let (new, rest) =
      both_accepted (refuse_if (contains_id ids p.id) (duplicate_provider_id p.id)) _ tt e in
    fresh p.id ids (raw_provider_ids ps) (test_failed _ _ new)
      (providers_fresh (p.id ∷ ids) ps rest)

pub same_ids :
    (parse : UrlParser) (ps : List RawProviderConfig) (vs : List ProviderConfig)
    → validate_providers parse ps ≡ accepted vs
    → provider_ids vs ≡ raw_provider_ids ps
unfolding validate_providers
same_ids parse [] vs e = let none_left : vs ≡ [] = ground arith in rw none_left refl
same_ids parse (p ∷ ps) vs e =
    let (v, ev, more) = value_accepted (to_validated parse p) _ vs e in
    let (rest, er, last) = value_accepted (validate_providers parse ps) _ vs more in
    let built : vs ≡ v ∷ rest = ground arith in
    rw (built, (validated_provider_keeps_its_type parse p v ev).0, same_ids parse ps rest er) refl

pub known :
    (problem : String → ConfigError) (ids more : List String)
    → check_known problem ids more ≡ accepted tt
    → All (λ id. contains_id ids id ≡ true) more
unfolding check_known
known problem ids [] e = tt
known problem ids (id ∷ more) e =
    let (here, rest) = both_accepted (refuse_if (not (contains_id ids id)) (problem id)) _ tt e in
    let missing = test_failed (not (contains_id ids id)) (problem id) here in
    (ground arith, known problem ids more rest)

pub clean :
    (n : ℕ) (paths : List String)
    → check_paths n paths ≡ accepted tt
    → All (λ path. is_clean_absolute_project_path path ≡ true) paths
unfolding check_paths
clean n [] e = tt
clean n (path ∷ paths) e =
    let (here, rest) =
      both_accepted (refuse_if (not (is_clean_absolute_project_path path)) _) _ tt e in
    let failed = test_failed (not (is_clean_absolute_project_path path)) _ here in
    (ground arith, clean n paths rest)

pub fits :
    (n : ℕ) (minutes : Option ℕ)
    → check_duration n minutes ≡ accepted tt
    → Fits minutes (and_then minutes (λ m. checked_mul m 60000))
unfolding check_duration
fits n none e = refl
fits n (some m) e =
    let (nonzero, small) =
      both_accepted (refuse_if (eqb m 0) (invalid_minimum_task_duration n)) _ tt e in
    let positive = test_failed (eqb m 0) _ nonzero in
    let bounded = test_failed (not (is_some (checked_mul m 60000))) _ small in
    (ground arith, ground arith, ground arith)
