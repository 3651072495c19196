-- ===== src/BridgeBinding/Threads/Lookup.antt =====
-- src/bridge_binding_ledger.rs: what a lookup of a thread sees of a change of the bindings.
use agents_router.Prelude.{
  ℕ, String, ◌≡◌, refl, ap, true, Option, List, [], ◌∷◌, find, arith, eq_iff, eq_refl,
}
use agents_router.Prelude.Paths.{starts_with, is_prefix, components}
use agents_router.Ledger.{Backend}
use agents_router.Ledger.Laws.{state-commit}
use agents_router.BridgeBinding.Records.{
  ThreadSessionBindingRecord, ThreadSessionBindingInput, ThreadBindingQuery,
  BridgeBindingLedgerFile,
}
use agents_router.BridgeBinding.Threads.{
  thread_query, thread_binding_matches, project_paths_share_tree, same_session, new_thread_binding,
  adopt_hash, put_threads, lookup_thread_session, BridgeLedger,
}

pub matches-adopt :
    (q : ThreadBindingQuery) (h : Option String) (r : ThreadSessionBindingRecord)
    → thread_binding_matches q (adopt_hash h r) ≡ thread_binding_matches q r
unfolding thread_binding_matches
matches-adopt q h r = refl

pub same_query :
    (q p : ThreadBindingQuery) (r : ThreadSessionBindingRecord)
    → thread_binding_matches q r ≡ true
    → thread_binding_matches p r ≡ true
    → q ≡ p
unfolding thread_binding_matches
same_query q p r h k = ground (
  arith,
  eq_iff r.provider_id q.provider_id,
  eq_iff r.provider_type q.provider_type,
  eq_iff r.provider_account_id q.provider_account_id,
  eq_iff r.provider_conversation_id q.provider_conversation_id,
  eq_iff r.provider_thread_id q.provider_thread_id,
  eq_iff r.provider_id p.provider_id,
  eq_iff r.provider_type p.provider_type,
  eq_iff r.provider_account_id p.provider_account_id,
  eq_iff r.provider_conversation_id p.provider_conversation_id,
  eq_iff r.provider_thread_id p.provider_thread_id,
)

is_prefix_refl : (xs : List String) → is_prefix xs xs ≡ true
unfolding is_prefix
is_prefix_refl [] = refl
is_prefix_refl (x ∷ xs) = ground (arith, eq_refl x, is_prefix_refl xs)

pub new_same_session :
    (i : ThreadSessionBindingInput) (now : ℕ) → same_session (new_thread_binding i now) i ≡ true
unfolding same_session new_thread_binding project_paths_share_tree starts_with
new_same_session i now = ground (
  arith,
  is_prefix_refl (components i.project_path),
  eq_refl i.source_id,
  eq_refl i.source_type,
  eq_refl i.source_session_id,
)

pub new_matches :
    (i : ThreadSessionBindingInput) (now : ℕ)
    → thread_binding_matches (thread_query i) (new_thread_binding i now) ≡ true
unfolding thread_binding_matches new_thread_binding
new_matches i now = ground (
  arith,
  eq_refl i.provider_id,
  eq_refl i.provider_type,
  eq_refl i.provider_account_id,
  eq_refl i.provider_conversation_id,
  eq_refl i.provider_thread_id,
)

module _ {Raw : Type 0} (b : Backend BridgeBindingLedgerFile Raw) where
  pub lookup_put :
      (q : ThreadBindingQuery) (rs : List ThreadSessionBindingRecord)
      (r : ThreadSessionBindingRecord) (l : BridgeLedger b)
      → lookup_thread_session q (put_threads b rs r l).1.state ≡ find (thread_binding_matches q) rs
  unfolding lookup_thread_session
  lookup_put q rs r l =
      ap (λ f. find (thread_binding_matches q) f.thread_session_bindings)
        (state-commit b (record l.state { thread_session_bindings = rs }) r l)
