-- ===== src/ExecutionScope/Exclusion.antt =====
-- src/execution_scope_guard.rs: the tasks that hold leases, step by step. The lock makes each call
-- one step; a task may panic at any time, which drops its leases, and may poison the lock.
use agents_router.Prelude.{
  ◌≡◌, refl, ap, sym, ◌∙◌, true, false, not, ◌&&◌, ◌||◌, Option, none, some, List, [], ◌∷◌, any,
  remove_first, arith, inl, inr, if◌then◌else◌, Bool-cases,
}
use agents_router.Exec.{Result, ok, err}
use agents_router.ExecutionScope.{
  ExecutionScopeKey, ExecutionScopeGuard, ExecutionScopeLease, default_guard, same_key,
  contains_key, try_acquire, drop_lease,
}
use agents_router.ExecutionScope.Keys.{
  Once, contains-remove_key, contains-remove_first, Once-remove_first,
}

-- The guard, and the keys of the leases that have not been dropped.
pub record World : Type 0 where
  pub guard : ExecutionScopeGuard
  pub leases : List ExecutionScopeKey

abbrev with_lease :
    Result (Option ExecutionScopeLease) → List ExecutionScopeKey → List ExecutionScopeKey
with_lease (ok (some lease)) ks = lease.key ∷ ks
with_lease (ok none) ks = ks
with_lease (err e) ks = ks

-- A call of `try_acquire`: a lease that is returned is held from then on.
abbrev pub acquired : ExecutionScopeKey → World → World
acquired k w = record {
  guard = (try_acquire k w.guard).1;
  leases = with_lease (try_acquire k w.guard).0 w.leases;
}

abbrev pub dropped : ExecutionScopeKey → World → World
dropped k w = record {
  guard = drop_lease (record { key = k }) w.guard;
  leases = remove_first (same_key k) w.leases;
}

abbrev poisoned_world : World → World
poisoned_world w = record w { guard = record w.guard { poisoned = true } }

pub data Step : World → World → Type 0 where
  acquires : (k : ExecutionScopeKey) (w : World) → Step w (acquired k w)
  drops :
      (k : ExecutionScopeKey) (w : World) → contains_key k w.leases ≡ true → Step w (dropped k w)
  poisons : (w : World) → Step w (poisoned_world w)

pub data Reaches : World → World → Type 0 where
  stays : (w : World) → Reaches w w
  and_then_step : {u v w : World} → Reaches u v → Step v w → Reaches u w

abbrev pub start : World
start = record { guard = default_guard; leases = [] }

pub record IsExclusive (w : World) : Type 0 where
  pub once : Once w.leases
  pub exact :
      w.guard.poisoned ≡ false
      → (k : ExecutionScopeKey) → contains_key k w.guard.active ≡ contains_key k w.leases

acquired-IsExclusive :
    (k : ExecutionScopeKey) (w : World) → IsExclusive w → IsExclusive (acquired k w)
unfolding try_acquire any
acquired-IsExclusive k w v = elim (Bool-cases w.guard.poisoned) [
  | inl bad ↦ record { once = rw bad v.once; exact = λ p. ground arith }
  | inr good ↦ elim (Bool-cases (contains_key k w.guard.active)) [
    | inl busy ↦ record {
      once = rw (good, busy) v.once;
      exact = λ p j. rw (good, busy) (v.exact good j);
    }
    | inr free ↦ record {
      once = rw (good, free) (sym (v.exact good k) ∙ free, v.once);
      exact = λ p j. rw (good, free) (ap (λ x. same_key j k || x) (v.exact good j));
    }
  ]
]

dropped-IsExclusive :
    (k : ExecutionScopeKey) (w : World) → IsExclusive w → IsExclusive (dropped k w)
unfolding drop_lease
dropped-IsExclusive k w v = record {
  once = Once-remove_first k w.leases v.once;
  exact = λ p j. elim (Bool-cases w.guard.poisoned) [
    | inl bad ↦ ground arith
    | inr good ↦ rw good (
        contains-remove_key k j w.guard.active
        ∙ ap (λ x. not (same_key k j) && x) (v.exact good j)
        ∙ sym (contains-remove_first k j w.leases v.once))
  ];
}

Step-IsExclusive : {u w : World} → Step u w → IsExclusive u → IsExclusive w
Step-IsExclusive (acquires k w) v = acquired-IsExclusive k w v
Step-IsExclusive (drops k w held) v = dropped-IsExclusive k w v
Step-IsExclusive (poisons w) v = record { once = v.once; exact = λ p. ground arith }

start-IsExclusive : IsExclusive start
start-IsExclusive = record { once = tt; exact = λ p k. refl }

reachable-IsExclusive : {w : World} → Reaches start w → IsExclusive w
reachable-IsExclusive r = from r start-IsExclusive
  where
    from : {u w : World} → Reaches u w → IsExclusive u → IsExclusive w
    from (stays w) v = v
    from (and_then_step r s) v = Step-IsExclusive s (from r v)

-- In every state that the tasks reach, no two leases are held for one session of a source, even
-- after the lock is poisoned.
pub one_lease_per_session : (w : World) → Reaches start w → Once w.leases
one_lease_per_session w r = (reachable-IsExclusive r).once

-- In every state that the tasks reach with a sound lock, `try_acquire` grants a lease for a session
-- exactly when none is held for it: a lease that is dropped frees its session.
pub acquires_exactly_when_free :
    (w : World) (k : ExecutionScopeKey)
    → Reaches start w
    → w.guard.poisoned ≡ false
    → (try_acquire k w.guard).0
      ≡ ok (if contains_key k w.leases then none else some (record { key = k }))
unfolding try_acquire
acquires_exactly_when_free w k r p = ground (arith, (reachable-IsExclusive r).exact p k)
