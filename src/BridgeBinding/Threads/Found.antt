-- ===== src/BridgeBinding/Threads/Found.antt =====
-- src/bridge_binding_ledger.rs: a thread that was bound is found.
use agents_router.Prelude.{
  ℕ, String, ◌≡◌, refl, ap, ◌∙◌, subst, inl, inr, true, false, Option, none, some, [], ◌∷◌, ◌++◌,
  find, find-append-none, update_first, arith, Bool-cases,
}
use agents_router.Prelude.Found.{find-update_first_self}
use agents_router.Exec.{ok}
use agents_router.Ledger.{Backend}
use agents_router.Ledger.Laws.{result-commit, Result-cases}
use agents_router.BridgeBinding.Records.{
  ThreadSessionBindingRecord, ThreadSessionBindingInput, BridgeBindingLedgerFile,
}
use agents_router.BridgeBinding.Threads.{
  validate_thread_session_binding_input, thread_query, thread_binding_matches, same_session,
  thread_session_binding_matches, thread_session_binding_can_adopt_route_hash, new_thread_binding,
  adopt_hash, put_threads, bind_found, bind_thread_session_at, lookup_thread_session, BridgeLedger,
}
use agents_router.BridgeBinding.Threads.Lookup.{
  matches-adopt, new_same_session, new_matches, lookup_put,
}

module _ {Raw : Type 0} (b : Backend BridgeBindingLedgerFile Raw) where
  kept_bound :
      (x : ThreadSessionBindingRecord) (i : ThreadSessionBindingInput) (now : ℕ)
      (l : BridgeLedger b) (r : ThreadSessionBindingRecord)
      → find (thread_binding_matches (thread_query i)) l.state.thread_session_bindings ≡ some x
      → (bind_found b (some x) i now l).0 ≡ ok r
      → thread_session_binding_matches x i ≡ true
      → (lookup_thread_session (thread_query i) (bind_found b (some x) i now l).1.state ≡ some r)
        × (same_session r i ≡ true)
  unfolding bind_found thread_session_binding_matches lookup_thread_session
  kept_bound x i now l r e h same = ground arith

  same_session-adopt :
      (hash : Option String) (x : ThreadSessionBindingRecord) (i : ThreadSessionBindingInput)
      → same_session (adopt_hash hash x) i ≡ same_session x i
  unfolding same_session
  same_session-adopt hash x i = refl

  adopted_bound :
      (x : ThreadSessionBindingRecord) (i : ThreadSessionBindingInput) (now : ℕ)
      (l : BridgeLedger b) (r : ThreadSessionBindingRecord)
      → find (thread_binding_matches (thread_query i)) l.state.thread_session_bindings ≡ some x
      → (bind_found b (some x) i now l).0 ≡ ok r
      → thread_session_binding_matches x i ≡ false
      → (lookup_thread_session (thread_query i) (bind_found b (some x) i now l).1.state ≡ some r)
        × (same_session r i ≡ true)
  unfolding bind_found thread_session_binding_can_adopt_route_hash
  adopted_bound x i now l r e h differs =
      elim (Bool-cases (thread_session_binding_can_adopt_route_hash x i)) [
        | inl adopts ↦
            let m = thread_binding_matches (thread_query i) in
            let rs = l.state.thread_session_bindings in
            let y = adopt_hash i.route_binding_hash x in
            let changed = update_first m (adopt_hash i.route_binding_hash) rs in
            let saved : (put_threads b changed y l).0 ≡ ok r = ground arith in
            let same : y ≡ r =
              result-commit b (record l.state { thread_session_bindings = changed }) y r l saved in
            rw (differs, adopts)
              (
                lookup_put b (thread_query i) changed y l
                    ∙ find-update_first_self m (adopt_hash i.route_binding_hash) rs x
                        (matches-adopt (thread_query i) i.route_binding_hash) e
                    ∙ ap some same,
                subst (λ z. same_session z i ≡ true) same
                    (same_session-adopt i.route_binding_hash x i ∙ ground arith),
              )
        | inr refused ↦ ground arith
      ]

  found_bound :
      (o : Option ThreadSessionBindingRecord) (i : ThreadSessionBindingInput) (now : ℕ)
      (l : BridgeLedger b) (r : ThreadSessionBindingRecord)
      → find (thread_binding_matches (thread_query i)) l.state.thread_session_bindings ≡ o
      → (bind_found b o i now l).0 ≡ ok r
      → (lookup_thread_session (thread_query i) (bind_found b o i now l).1.state ≡ some r)
        × (same_session r i ≡ true)
  unfolding bind_found
  found_bound none i now l r e h =
      let new = new_thread_binding i now in
      let rs = l.state.thread_session_bindings in
      let same : new ≡ r =
        result-commit b (record l.state { thread_session_bindings = rs ++ new ∷ [] }) new r l h in
      (
        lookup_put b (thread_query i) (rs ++ new ∷ []) new l
            ∙ find-append-none (thread_binding_matches (thread_query i)) rs new e
                (new_matches i now)
            ∙ ap some same,
        subst (λ x. same_session x i ≡ true) same (new_same_session i now),
      )
  found_bound (some x) i now l r e h = elim (Bool-cases (thread_session_binding_matches x i)) [
    | inl same ↦ kept_bound x i now l r e h same
    | inr differs ↦ adopted_bound x i now l r e h differs
  ]

  -- When a thread is bound, whether anew, again, or with a route hash that it lacked, a lookup of the
  -- thread finds the record that was returned, and it is of the session that was given.
  pub bound_thread_is_found :
      (i : ThreadSessionBindingInput) (now : ℕ) (l : BridgeLedger b)
      (r : ThreadSessionBindingRecord)
      → (bind_thread_session_at b i now l).0 ≡ ok r
      → (lookup_thread_session (thread_query i) (bind_thread_session_at b i now l).1.state ≡ some r)
        × (same_session r i ≡ true)
  unfolding bind_thread_session_at
  bound_thread_is_found i now l r h =
      elim (Result-cases (validate_thread_session_binding_input i)) [
        | inl (t, e) ↦ rw e (found_bound _ i now l r refl (ground arith))
        | inr (x, e) ↦ ground arith
      ]
