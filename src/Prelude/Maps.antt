-- ===== src/Prelude/Maps.antt =====
-- A `HashMap` or `HashSet` with text keys, as an association list. Each operation keeps one entry
-- for a key; nothing that the program does depends on the order of the entries.
use agents_router.Prelude.{
  String, ◌≡◌, refl, Bool, false, Option, none, some, List, [], ◌∷◌, arith, ◌==◌, eq_iff,
  if◌then◌else◌,
}

module _ {ℓ} {V : Type ℓ} where
  -- `HashMap::get`
  unfoldable pub lookup : String → List (String × V) → Option V
  lookup key ((held, value) ∷ entries) = if held == key then some value else lookup key entries
  lookup key [] = none

  -- `HashMap::insert`, which replaces the value of a key that is there
  unfoldable pub insert : String → V → List (String × V) → List (String × V)
  insert key value ((held, old) ∷ entries) =
      if held == key then (key, value) ∷ entries else (held, old) ∷ insert key value entries
  insert key value [] = (key, value) ∷ []

  -- `retain(|_, value| keep(value))`
  unfoldable pub retain : (V → Bool) → List (String × V) → List (String × V)
  retain keep [] = []
  retain keep ((j, v) ∷ m) = let rest = retain keep m in if keep v then (j, v) ∷ rest else rest

  pub lookup-insert :
      (key asked : String) (value : V) (entries : List (String × V))
      → lookup asked (insert key value entries)
        ≡ (if key == asked then some value else lookup asked entries)
  unfolding lookup insert
  lookup-insert key asked value [] = refl
  lookup-insert key asked value ((held, old) ∷ entries) = ground (
    arith,
    lookup-insert key asked value entries,
    eq_iff held key,
    eq_iff held asked,
    eq_iff key asked,
  )

  -- The keys are those of distinct entries.
  abbrev pub Fresh : String → List (String × V) → Type 0
  Fresh k [] = Unit {0}
  Fresh k ((j, v) ∷ m) = ((j == k) ≡ false) × Fresh k m

  abbrev pub Distinct : List (String × V) → Type 0
  Distinct [] = Unit {0}
  Distinct ((j, v) ∷ m) = Fresh j m × Distinct m

  Fresh-insert :
      (k j : String) (v : V) (m : List (String × V))
      → (k == j) ≡ false
      → Fresh j m
      → Fresh j (insert k v m)
  unfolding insert
  Fresh-insert k j v [] ne f = (ne, tt)
  Fresh-insert k j v ((i, w) ∷ m) ne f = ground (arith, Fresh-insert k j v m ne f.1)

  pub Distinct-insert :
      (k : String) (v : V) (m : List (String × V)) → Distinct m → Distinct (insert k v m)
  unfolding insert
  Distinct-insert k v [] d = (tt, tt)
  Distinct-insert k v ((i, w) ∷ m) d =
      ground (arith, eq_iff i k, eq_iff k i, Fresh-insert k i v m, Distinct-insert k v m d.1)

  Fresh-retain :
      (keep : V → Bool) (k : String) (m : List (String × V)) → Fresh k m → Fresh k (retain keep m)
  unfolding retain
  Fresh-retain keep k [] f = tt
  Fresh-retain keep k ((i, w) ∷ m) f = ground (arith, Fresh-retain keep k m f.1)

  pub Distinct-retain :
      (keep : V → Bool) (m : List (String × V)) → Distinct m → Distinct (retain keep m)
  unfolding retain
  Distinct-retain keep [] d = tt
  Distinct-retain keep ((i, w) ∷ m) d =
      ground (arith, Fresh-retain keep i m d.0, Distinct-retain keep m d.1)

  lookup-Fresh : (k : String) (m : List (String × V)) → Fresh k m → lookup k m ≡ none
  unfolding lookup
  lookup-Fresh k [] f = refl
  lookup-Fresh k ((i, w) ∷ m) f = ground (arith, lookup-Fresh k m f.1)

  -- A map with distinct keys keeps an entry exactly when its value passes.
  abbrev pub kept : (V → Bool) → Option V → Option V
  kept keep none = none
  kept keep (some v) = if keep v then some v else none

  pub lookup-retain :
      (keep : V → Bool) (k : String) (m : List (String × V))
      → Distinct m
      → lookup k (retain keep m) ≡ kept keep (lookup k m)
  unfolding lookup retain
  lookup-retain keep k [] d = refl
  lookup-retain keep k ((i, w) ∷ m) d = ground (
    arith,
    lookup-retain keep k m d.1,
    eq_iff i k,
    lookup-Fresh i m d.0,
    lookup-retain keep i m d.1,
  )
