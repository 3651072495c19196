-- ===== src/DeliverySafety/Guard/Windows.antt =====
-- src/delivery_safety.rs: the delivery windows of the guard against the history of its calls.
use agents_router.Prelude.{
  ℕ, ◌≤◌, String, ◌≡◌, refl, List, [], ◌∷◌, ◌++◌, All, All-filter, filter, arith, leb, eq_iff,
}
use agents_router.Prelude.Maps.{lookup, Fresh, Distinct}
use agents_router.DeliverySafety.Guard.{pop_expired, prune_delivery_windows, or_default}

abbrev pub Sorted : List ℕ → Type 0
Sorted [] = Unit {0}
Sorted (t ∷ ts) = All (λ u. t ≤ u) ts × Sorted ts

abbrev pub since : ℕ → List ℕ → List ℕ
since cutoff = filter (leb cutoff)

since-All : (cutoff : ℕ) (ts : List ℕ) → All (λ u. cutoff ≤ u) ts → since cutoff ts ≡ ts
unfolding filter
since-All cutoff [] h = refl
since-All cutoff (t ∷ ts) h = ground (arith, since-All cutoff ts h.1)

All-le : (a b : ℕ) (ts : List ℕ) → a ≤ b → All (λ u. b ≤ u) ts → All (λ u. a ≤ u) ts
All-le a b [] h k = tt
All-le a b (t ∷ ts) h k = (omega arith, All-le a b ts h k.1)

-- In a sorted window the entries that are popped are those before the cutoff.
pub pop_expired-since :
    (cutoff : ℕ) (ts : List ℕ) → Sorted ts → pop_expired cutoff ts ≡ since cutoff ts
unfolding pop_expired filter
pop_expired-since cutoff [] s = refl
pop_expired-since cutoff (t ∷ ts) s =
    ground (arith, pop_expired-since cutoff ts s.1, since-All cutoff ts, All-le cutoff t ts)

pub Sorted-since : (cutoff : ℕ) (ts : List ℕ) → Sorted ts → Sorted (since cutoff ts)
unfolding filter
Sorted-since cutoff [] s = tt
Sorted-since cutoff (t ∷ ts) s =
    ground (arith, Sorted-since cutoff ts s.1, All-filter (leb cutoff) (λ u. t ≤ u) ts s.0)

pub since-since : (a b : ℕ) (ts : List ℕ) → a ≤ b → since b (since a ts) ≡ since b ts
unfolding filter
since-since a b [] h = refl
since-since a b (t ∷ ts) h = ground (arith, since-since a b ts h)

pub Sorted-snoc :
    (now : ℕ) (ts : List ℕ) → Sorted ts → All (λ u. u ≤ now) ts → Sorted (ts ++ now ∷ [])
Sorted-snoc now [] s h = (tt, tt)
Sorted-snoc now (t ∷ ts) s h = (go ts s.0, Sorted-snoc now ts s.1 h.1)
  where
    go : (us : List ℕ) → All (λ u. t ≤ u) us → All (λ u. t ≤ u) (us ++ now ∷ [])
    go [] k = (h.0, tt)
    go (u ∷ us) k = (k.0, go us k.1)

abbrev pub Windows : Type 0
Windows = List (String × List ℕ)

abbrev pub window : String → Windows → List ℕ
window k m = or_default (lookup k m)

Fresh-prune :
    (cutoff : ℕ) (k : String) (m : Windows) → Fresh k m → Fresh k (prune_delivery_windows cutoff m)
unfolding prune_delivery_windows
Fresh-prune cutoff k [] f = tt
Fresh-prune cutoff k ((j, w) ∷ m) f = ground (arith, Fresh-prune cutoff k m f.1)

pub Distinct-prune :
    (cutoff : ℕ) (m : Windows) → Distinct m → Distinct (prune_delivery_windows cutoff m)
unfolding prune_delivery_windows
Distinct-prune cutoff [] d = tt
Distinct-prune cutoff ((j, w) ∷ m) d =
    ground (arith, Fresh-prune cutoff j m d.0, Distinct-prune cutoff m d.1)

window-Fresh : (k : String) (m : Windows) → Fresh k m → window k m ≡ []
unfolding lookup
window-Fresh k [] f = refl
window-Fresh k ((j, w) ∷ m) f = ground (arith, window-Fresh k m f.1)

pub window-prune :
    (cutoff : ℕ) (k : String) (m : Windows)
    → Distinct m
    → window k (prune_delivery_windows cutoff m) ≡ pop_expired cutoff (window k m)
unfolding prune_delivery_windows lookup pop_expired
window-prune cutoff k [] d = refl
window-prune cutoff k ((j, w) ∷ m) d = ground (
  arith,
  window-prune cutoff k m d.1,
  eq_iff j k,
  window-Fresh j (prune_delivery_windows cutoff m),
  Fresh-prune cutoff j m d.0,
)
