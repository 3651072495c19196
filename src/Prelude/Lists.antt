-- ===== src/Prelude/Lists.antt =====
-- Lists searched and changed by Boolean tests, as Rust's iterators and `Vec` do, and measured by
-- native numbers.
use Prim.Native.Nat.{ℕ, suc, ◌+◌}
use mathlib.Core.Path.{◌≡◌, refl, subst}
use mathlib.Core.Logic.{inl, inr}
use mathlib.Core.Bool.{Bool, true, false, ◌||◌}
use mathlib.Core.Option.{Option, none, some}
use mathlib.Core.List.{List, [], ◌∷◌, ◌++◌}
use native.Mathlib.Omega.{arith}
use agents_router.Prelude.Tests.{leb, Bool-cases, Option-cases, if◌then◌else◌}

module _ {ℓ} {A : Type ℓ} where
  abbrev pub length : List A → ℕ
  length [] = 0
  length (x ∷ xs) = suc (length xs)

  -- A predicate by recursion computes to tuples.
  abbrev pub All {κ} : (A → Type κ) → List A → Type κ
  All P [] = Unit
  All P (x ∷ xs) = P x × All P xs

  pub length-append : (xs ys : List A) → length (xs ++ ys) ≡ length xs + length ys
  length-append [] ys = omega arith
  length-append (x ∷ xs) ys = omega (arith, length-append xs ys)

  pub All-append {κ} : (P : A → Type κ) (xs ys : List A) → All P xs → All P ys → All P (xs ++ ys)
  All-append P [] ys h k = k
  All-append P (x ∷ xs) ys h k = (h.0, All-append P xs ys h.1 k)

  pub All-map {κ ι} :
      {P : A → Type κ} {Q : A → Type ι} (f : (x : A) → P x → Q x) (xs : List A)
      → All P xs
      → All Q xs
  All-map f [] h = tt
  All-map f (x ∷ xs) h = (f x h.0, All-map f xs h.1)

module _ {ℓ} {A : Type ℓ} (p : A → Bool) where
  -- `iter().filter(p)`
  unfoldable pub filter : List A → List A
  filter [] = []
  filter (x ∷ xs) = let rest = filter xs in if p x then x ∷ rest else rest

  -- `iter().find(p)`
  unfoldable pub find : List A → Option A
  find [] = none
  find (x ∷ xs) = let rest = find xs in if p x then some x else rest

  -- `iter().rev().find(p)`
  unfoldable pub find_last : List A → Option A
  find_last [] = none
  find_last (x ∷ xs) = elim (find_last xs) [ some y ↦ some y | none ↦ if p x then some x else none ]

  -- `iter().any(p)`
  unfoldable pub any : List A → Bool
  any [] = false
  any (x ∷ xs) = p x || any xs

  -- `position(p)` followed by `remove`
  unfoldable pub remove_first : List A → List A
  remove_first [] = []
  remove_first (x ∷ xs) = let rest = remove_first xs in if p x then xs else x ∷ rest

  -- `iter_mut().find(p)` and a change of what it found
  unfoldable pub update_first : (A → A) → List A → List A
  update_first f [] = []
  update_first f (x ∷ xs) = let rest = update_first f xs in if p x then f x ∷ xs else x ∷ rest

  -- `iter_mut().filter(p)` and a change of each
  unfoldable pub update_all : (A → A) → List A → List A
  update_all f [] = []
  update_all f (x ∷ xs) = (if p x then f x else x) ∷ update_all f xs

module _ {ℓ} {A : Type ℓ} (p : A → Bool) where
  pub filter-append : (xs ys : List A) → filter p (xs ++ ys) ≡ filter p xs ++ filter p ys
  unfolding filter
  filter-append [] ys = refl
  filter-append (x ∷ xs) ys = ground (arith, filter-append xs ys)

  pub All-filter {κ} : (P : A → Type κ) (xs : List A) → All P xs → All P (filter p xs)
  unfolding filter
  All-filter P [] h = tt
  All-filter P (x ∷ xs) h = ground (arith, All-filter P xs h.1)

  pub find-holds : (xs : List A) (x : A) → find p xs ≡ some x → p x ≡ true
  unfolding find
  find-holds [] x h = ground arith
  find-holds (y ∷ ys) x h = ground (arith, find-holds ys x)

  pub find-none-All : (xs : List A) → find p xs ≡ none → All (λ x. p x ≡ false) xs
  unfolding find
  find-none-All [] h = tt
  find-none-All (x ∷ xs) h = ground (arith, find-none-All xs)

  pub find-append-none :
      (xs : List A) (y : A) → find p xs ≡ none → p y ≡ true → find p (xs ++ y ∷ []) ≡ some y
  unfolding find
  find-append-none [] y h e = ground arith
  find-append-none (x ∷ xs) y h e = ground (arith, find-append-none xs y)

  pub remove_first-append :
      (xs : List A) (y : A) → find p xs ≡ none → p y ≡ true → remove_first p (xs ++ y ∷ []) ≡ xs
  unfolding find remove_first
  remove_first-append [] y h e = ground arith
  remove_first-append (x ∷ xs) y h e = ground (arith, remove_first-append xs y)

  -- A stronger test finds nothing where the weaker one does not.
  pub find-weaker :
      (q : A → Bool) (xs : List A)
      → find p xs ≡ none
      → ((x : A) → p x ≡ false → q x ≡ false)
      → find q xs ≡ none
  unfolding find
  find-weaker q [] h w = refl
  find-weaker q (x ∷ xs) h w = ground (arith, w x, find-weaker q xs)

module _ {ℓ} {A : Type ℓ} (key : A → ℕ) where
  abbrev later_of : A → Option A → Option A
  later_of x none = some x
  later_of x (some y) = if leb (key x) (key y) then some y else some x

  -- `iter().max_by_key(key)`, the last one of the greatest
  unfoldable pub max_by_key : List A → Option A
  max_by_key [] = none
  max_by_key (x ∷ xs) = later_of x (max_by_key xs)

  pub max_by_key-All {κ} :
      (P : A → Type κ) (xs : List A) (y : A) → All P xs → max_by_key xs ≡ some y → P y
  unfolding max_by_key
  max_by_key-All P [] y h e = ground arith
  max_by_key-All P (x ∷ xs) y h e = elim (Option-cases (max_by_key xs)) [
    | inl none' ↦ subst P (ground arith) h.0
    | inr (z, f) ↦ elim (Bool-cases (leb (key x) (key z))) [
      | inl later ↦ max_by_key-All P xs y h.1 (ground arith)
      | inr earlier ↦ subst P (ground arith) h.0
    ]
  ]
