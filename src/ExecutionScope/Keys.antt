-- ===== src/ExecutionScope/Keys.antt =====
-- src/execution_scope_guard.rs: sets of keys.
use agents_router.Prelude.{
  ◌≡◌, true, false, not, ◌&&◌, List, [], ◌∷◌, any, filter, remove_first, arith, eq_iff, Bool-cases,
  inl, inr,
}
use agents_router.ExecutionScope.{ExecutionScopeKey, same_key, contains_key, remove_key}

pub same_key_refl : (k : ExecutionScopeKey) → same_key k k ≡ true
unfolding same_key
same_key_refl k = ground (
  arith,
  eq_iff k.source_type k.source_type,
  eq_iff k.source_id k.source_id,
  eq_iff k.source_session_id k.source_session_id,
)

pub same_key_eq : (k j : ExecutionScopeKey) → same_key k j ≡ true → k ≡ j
unfolding same_key
same_key_eq k j h = ground (
  arith,
  eq_iff k.source_type j.source_type,
  eq_iff k.source_id j.source_id,
  eq_iff k.source_session_id j.source_session_id,
)

-- Each key once
abbrev pub Once : List ExecutionScopeKey → Type 0
Once [] = Unit {0}
Once (k ∷ ks) = (contains_key k ks ≡ false) × Once ks

pub contains-remove_key :
    (k j : ExecutionScopeKey) (ks : List ExecutionScopeKey)
    → contains_key j (remove_key k ks) ≡ (not (same_key k j) && contains_key j ks)
unfolding any filter
contains-remove_key k j [] = ground arith
contains-remove_key k j (x ∷ ks) = ground (
  arith,
  contains-remove_key k j ks,
  same_key_eq k x,
  same_key_eq k j,
  same_key_eq j x,
  same_key_refl k,
)

pub contains-remove_first :
    (k j : ExecutionScopeKey) (ks : List ExecutionScopeKey)
    → Once ks
    → contains_key j (remove_first (same_key k) ks) ≡ (not (same_key k j) && contains_key j ks)
unfolding any remove_first
contains-remove_first k j [] o = ground arith
contains-remove_first k j (x ∷ ks) o = ground (
  arith,
  contains-remove_first k j ks o.1,
  same_key_eq k x,
  same_key_eq k j,
  same_key_eq j x,
  same_key_refl k,
)

pub Once-remove_first :
    (k : ExecutionScopeKey) (ks : List ExecutionScopeKey)
    → Once ks
    → Once (remove_first (same_key k) ks)
unfolding any remove_first
Once-remove_first k [] o = tt
Once-remove_first k (x ∷ ks) o = elim (Bool-cases (same_key k x)) [
  | inl chosen ↦ rw chosen o.1
  | inr kept ↦
      rw kept (ground (arith, contains-remove_first k x ks o.1), Once-remove_first k ks o.1)
]
