-- ===== src/BridgeBinding/Threads/Immutable.antt =====
-- src/bridge_binding_ledger.rs: a thread stays bound to the session that it was first bound to.
use agents_router.Prelude.{
  ℕ, ◌≡◌, refl, ap, sym, ◌∙◌, subst, ◌⊎◌, inl, inr, false, Option, none, some, List, [], ◌∷◌, ◌++◌,
  find, find-holds, update_first, is_some, arith, Bool-cases,
}
use agents_router.Prelude.Found.{find-append-some, find-update_first}
use agents_router.Ledger.{Backend}
use agents_router.Ledger.Laws.{Result-cases}
use agents_router.BridgeBinding.Records.{
  ThreadSessionBindingRecord, ThreadSessionBindingInput, ThreadBindingQuery,
  BridgeBindingLedgerFile,
}
use agents_router.BridgeBinding.Threads.{
  validate_thread_session_binding_input, thread_query, thread_binding_matches,
  thread_session_binding_matches, thread_session_binding_can_adopt_route_hash, new_thread_binding,
  adopt_hash, put_threads, bind_found, bind_thread_session_at, lookup_thread_session, BridgeLedger,
}
use agents_router.BridgeBinding.Threads.Lookup.{matches-adopt, same_query, lookup_put}

-- A later record of a binding: the same one, or the same one but for a route hash that it lacked.
abbrev pub Extends : ThreadSessionBindingRecord → ThreadSessionBindingRecord → Type 0
Extends r r' =
    (r' ≡ r) ⊎ (is_some r.route_binding_hash ≡ false) × (r' ≡ adopt_hash r'.route_binding_hash r)

Extends-trans : (r s t : ThreadSessionBindingRecord) → Extends r s → Extends s t → Extends r t
Extends-trans r s t (inl e) f = subst (λ x. Extends x t) e f
Extends-trans r s t (inr (n, e)) (inl f) =
    inr (n, subst (λ x. x ≡ adopt_hash x.route_binding_hash r) (sym f) e)
Extends-trans r s t (inr (n, e)) (inr (m, f)) = inr (n, f ∙ ap (adopt_hash t.route_binding_hash) e)

-- What a lookup finds later
abbrev pub StillBound :
    ThreadBindingQuery → ThreadSessionBindingRecord → BridgeBindingLedgerFile → Type 0
StillBound q r f =
    (r' : ThreadSessionBindingRecord) × (lookup_thread_session q f ≡ some r') × Extends r r'

module _ {Raw : Type 0} (b : Backend BridgeBindingLedgerFile Raw) where
  adopted-StillBound :
      (q : ThreadBindingQuery) (x r : ThreadSessionBindingRecord) (i : ThreadSessionBindingInput)
      (l : BridgeLedger b)
      → find (thread_binding_matches (thread_query i)) l.state.thread_session_bindings ≡ some x
      → lookup_thread_session q l.state ≡ some r
      → is_some x.route_binding_hash ≡ false
      → StillBound q r
          (put_threads b
            (update_first
              (thread_binding_matches (thread_query i))
              (adopt_hash i.route_binding_hash)
              l.state.thread_session_bindings)
            (adopt_hash i.route_binding_hash x)
            l).1.state
  unfolding lookup_thread_session
  adopted-StillBound q x r i l hx h n =
      let m = thread_binding_matches (thread_query i) in
      let rs = l.state.thread_session_bindings in
      let adopt = adopt_hash i.route_binding_hash in
      elim (find-update_first (thread_binding_matches q) m adopt rs r
        (matches-adopt q i.route_binding_hash) h) [
          | inl kept ↦ (r, lookup_put b q (update_first m adopt rs) (adopt x) l ∙ kept, inl refl)
          | inr (changed, here) ↦
              let same =
                same_query q (thread_query i) r (find-holds (thread_binding_matches q) rs r h)
                  here in
              let hr : find m rs ≡ some r =
                subst (λ p. find (thread_binding_matches p) rs ≡ some r) same h in
              let e : x ≡ r = ground arith in
              (
                adopt r,
                lookup_put b q (update_first m adopt rs) (adopt x) l ∙ changed,
                inr (subst (λ y. is_some y.route_binding_hash ≡ false) e n, refl),
              )
        ]

  found-StillBound :
      (q : ThreadBindingQuery) (o : Option ThreadSessionBindingRecord)
      (r : ThreadSessionBindingRecord) (i : ThreadSessionBindingInput) (now : ℕ)
      (l : BridgeLedger b)
      → find (thread_binding_matches (thread_query i)) l.state.thread_session_bindings ≡ o
      → lookup_thread_session q l.state ≡ some r
      → StillBound q r (bind_found b o i now l).1.state
  unfolding bind_found thread_session_binding_can_adopt_route_hash lookup_thread_session
  found-StillBound q none r i now l e h = (
    r,
    lookup_put b q (l.state.thread_session_bindings ++ new_thread_binding i now ∷ [])
          (new_thread_binding i now) l
        ∙ appended l.state.thread_session_bindings h,
    inl refl,
  )
    where
      appended :
          (rs : List ThreadSessionBindingRecord)
          → find (thread_binding_matches q) rs ≡ some r
          → find (thread_binding_matches q) (rs ++ new_thread_binding i now ∷ []) ≡ some r
      appended rs h =
          find-append-some (thread_binding_matches q) rs (new_thread_binding i now ∷ []) r h
  found-StillBound q (some x) r i now l e h =
      elim (Bool-cases (thread_session_binding_matches x i)) [
        | inl same ↦ rw same (r, h, inl refl)
        | inr differs ↦ elim (Bool-cases (thread_session_binding_can_adopt_route_hash x i)) [
          | inl adopts ↦ rw (differs, adopts) (adopted-StillBound q x r i l e h (ground arith))
          | inr refused ↦ rw (differs, refused) (r, h, inl refl)
        ]
      ]

  bind-StillBound :
      (q : ThreadBindingQuery) (r : ThreadSessionBindingRecord) (i : ThreadSessionBindingInput)
      (now : ℕ) (l : BridgeLedger b)
      → lookup_thread_session q l.state ≡ some r
      → StillBound q r (bind_thread_session_at b i now l).1.state
  unfolding bind_thread_session_at
  bind-StillBound q r i now l h = elim (Result-cases (validate_thread_session_binding_input i)) [
    | inl (t, e) ↦ rw e (found-StillBound q _ r i now l refl h)
    | inr (x, e) ↦ rw e (r, h, inl refl)
  ]

  unfoldable pub bind_all : List (ThreadSessionBindingInput × ℕ) → BridgeLedger b → BridgeLedger b
  bind_all [] l = l
  bind_all ((i, now) ∷ rest) l = bind_all rest (bind_thread_session_at b i now l).1

  -- Whatever threads are bound later, a thread that is bound stays bound to the same session, project
  -- and provider thread; all that may change of its record is a route hash that was absent.
  pub binding_is_immutable :
      (q : ThreadBindingQuery) (r : ThreadSessionBindingRecord)
      (calls : List (ThreadSessionBindingInput × ℕ)) (l : BridgeLedger b)
      → lookup_thread_session q l.state ≡ some r
      → StillBound q r (bind_all calls l).state
  unfolding bind_all
  binding_is_immutable q r [] l h = (r, h, inl refl)
  binding_is_immutable q r ((i, now) ∷ rest) l h =
      let (s, hs, e) = bind-StillBound q r i now l h in
      let (t, ht, f) = binding_is_immutable q s rest (bind_thread_session_at b i now l).1 hs in
      (t, ht, Extends-trans r s t e f)
