-- ===== src/Prelude/Found.antt =====
-- What a search finds after its list is extended, shortened or changed in place.
use agents_router.Prelude.{
  ◌≡◌, ◌⊎◌, Bool, true, false, some, List, [], ◌∷◌, ◌++◌, find, remove_first, update_first, arith,
}

module _ {ℓ} {A : Type ℓ} (p : A → Bool) where
  pub find-append-some : (xs ys : List A) (x : A) → find p xs ≡ some x → find p (xs ++ ys) ≡ some x
  unfolding find
  find-append-some [] ys x h = ground arith
  find-append-some (y ∷ xs) ys x h = ground (arith, find-append-some xs ys x)

  pub find-remove_first :
      (c : A → Bool) (xs : List A) (x : A)
      → find p xs ≡ some x
      → c x ≡ false
      → find p (remove_first c xs) ≡ some x
  unfolding find remove_first
  find-remove_first c [] x h k = ground arith
  find-remove_first c (y ∷ xs) x h k = ground (arith, find-remove_first c xs x)

  -- A change that the search does not see leaves the entry, or changes it in place.
  pub find-update_first :
      (m : A → Bool) (f : A → A) (xs : List A) (x : A)
      → ((y : A) → p (f y) ≡ p y)
      → find p xs ≡ some x
      → (find p (update_first m f xs) ≡ some x)
        ⊎ (find p (update_first m f xs) ≡ some (f x)) × (m x ≡ true)
  unfolding find update_first
  find-update_first m f [] x same h = ground arith
  find-update_first m f (y ∷ xs) x same h = ground (arith, same y, find-update_first m f xs x same)

-- A found entry, after a change in place by the same search
pub find-update_first_self {ℓ} :
    {A : Type ℓ} (p : A → Bool) (f : A → A) (xs : List A) (x : A)
    → ((y : A) → p (f y) ≡ p y)
    → find p xs ≡ some x
    → find p (update_first p f xs) ≡ some (f x)
unfolding find update_first
find-update_first_self p f [] x same h = ground arith
find-update_first_self p f (y ∷ xs) x same h =
    ground (arith, same y, find-update_first_self p f xs x same)
