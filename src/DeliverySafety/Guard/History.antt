-- ===== src/DeliverySafety/Guard/History.antt =====
-- src/delivery_safety.rs: the history of the guard's calls, and what its windows must hold after it.
use agents_router.Prelude.{
  ℕ, ◌-◌, ◌≤◌, String, ◌≡◌, refl, sym, List, [], ◌∷◌, ◌++◌, All, All-append, filter, filter-append,
  arith, leb, ◌==◌, eq_iff, Bool-cases, inl, inr, if◌then◌else◌,
}
use mathlib.Core.List.{append-nil}
use agents_router.Prelude.Maps.{insert, lookup-insert, Distinct, Distinct-insert}
use agents_router.DeliverySafety.State.{duplicate_window}
use agents_router.DeliverySafety.Guard.{record_attempt, prune_delivery_windows}
use agents_router.DeliverySafety.Guard.Windows.{
  Sorted, since, Sorted-since, Sorted-snoc, pop_expired-since, since-since, Windows, window,
  window-prune, Distinct-prune,
}

-- A call of `check_at_inner` by its two hashes.
pub record Call : Type 0 where
  pub fingerprint : String
  pub key : String
  pub now : ℕ

-- The times of the calls for a key, oldest first.
unfoldable pub times : String → List Call → List ℕ
times k [] = []
times k (c ∷ cs) = let rest = times k cs in if c.key == k then c.now ∷ rest else rest

-- The clock does not go back in a history whose calls are at `start` or later.
abbrev pub Ordered : ℕ → List Call → Type 0
Ordered start [] = Unit {0}
Ordered start (c ∷ cs) = (start ≤ c.now) × Ordered c.now cs

abbrev pub last_time : ℕ → List Call → ℕ
last_time start [] = start
last_time start (c ∷ cs) = last_time c.now cs

-- What the windows must hold after `past`, of which the last call was at `last`.
pub record Tracks (past : List Call) (last : ℕ) (m : Windows) : Type 0 where
  pub recent : (k : String) → window k m ≡ since (last - duplicate_window) (times k past)
  pub sorted : (k : String) → Sorted (times k past)
  pub bounded : (k : String) → All (λ t. t ≤ last) (times k past)
  pub distinct : Distinct m

pub times-snoc :
    (k : String) (past : List Call) (c : Call)
    → times k (past ++ c ∷ []) ≡ times k past ++ (if c.key == k then c.now ∷ [] else [])
unfolding times
times-snoc k [] c = refl
times-snoc k (d ∷ past) c = ground (arith, times-snoc k past c)

bounded_later : (a b : ℕ) (ts : List ℕ) → a ≤ b → All (λ t. t ≤ a) ts → All (λ t. t ≤ b) ts
bounded_later a b [] h k = tt
bounded_later a b (t ∷ ts) h k = (omega arith, bounded_later a b ts h k.1)

abbrev pub next_windows : Call → Windows → Windows
next_windows c m =
    let pruned = prune_delivery_windows (c.now - duplicate_window) m in
    insert c.key (record_attempt c.key c.now pruned) pruned

module _ {past : List Call} {last : ℕ} {m : Windows} (t : Tracks past last m) (c : Call)
    (later : last ≤ c.now) where
  abbrev horizon : ℕ
  horizon = c.now - duplicate_window

  pruned_window :
      (k : String) → window k (prune_delivery_windows horizon m) ≡ since horizon (times k past)
  pruned_window k =
      rw
        (
          window-prune horizon k m t.distinct,
          t.recent k,
          pop_expired-since horizon (since (last - duplicate_window) (times k past))
              (Sorted-since _ (times k past) (t.sorted k)),
        )
        (since-since (last - duplicate_window) horizon (times k past) (omega arith))

  pub attempt_window :
      record_attempt c.key c.now (prune_delivery_windows horizon m)
      ≡ since horizon (times c.key past) ++ c.now ∷ []
  attempt_window = rw (
    pruned_window c.key,
    pop_expired-since horizon (since horizon (times c.key past))
        (Sorted-since horizon (times c.key past) (t.sorted c.key)),
    since-since horizon horizon (times c.key past) (omega arith),
  )

  since_now : since horizon (c.now ∷ []) ≡ c.now ∷ []
  unfolding filter
  since_now = ground arith

  next_recent :
      (k : String) → window k (next_windows c m) ≡ since horizon (times k (past ++ c ∷ []))
  unfolding filter
  next_recent k =
      rw
        (
          lookup-insert c.key k (record_attempt c.key c.now (prune_delivery_windows horizon m))
              (prune_delivery_windows horizon m),
          times-snoc k past c,
          filter-append (leb horizon) (times k past) (if c.key == k then c.now ∷ [] else []),
        )
        (elim (Bool-cases (c.key == k)) [
          | inl same ↦ rw (same, attempt_window, (eq_iff c.key k).0 same, since_now)
          | inr other ↦ rw (other, pruned_window k) (sym (append-nil _))
        ])

  next-Sorted : (k : String) → Sorted (times k (past ++ c ∷ []))
  next-Sorted k = rw (times-snoc k past c) (
      ground (
        arith,
        append-nil (times k past),
        t.sorted k,
        Sorted-snoc c.now (times k past) (t.sorted k)
            (bounded_later last c.now (times k past) later (t.bounded k)),
      ))

  next_bounded : (k : String) → All (λ u. u ≤ c.now) (times k (past ++ c ∷ []))
  next_bounded k = rw (times-snoc k past c) (
      All-append (λ u. u ≤ c.now) (times k past) _
        (bounded_later last c.now (times k past) later (t.bounded k)) (ground arith))

  pub next_Tracks : Tracks (past ++ c ∷ []) c.now (next_windows c m)
  next_Tracks = record {
    recent = next_recent;
    sorted = next-Sorted;
    bounded = next_bounded;
    distinct = Distinct-insert c.key _ _ (Distinct-prune horizon m t.distinct);
  }
