-- ===== src/BridgeBinding/Store/Restart.antt =====
-- src/bridge_binding_ledger.rs: a thread that was bound is bound for the next process that loads the
-- ledger's file.
use agents_router.Prelude.{
  ℕ, String, ◌≡◌, refl, none, some, Option, Option-cases, inl, inr, Bool-cases, arith, ap, sym, ◌∙◌,
}
use agents_router.Exec.{Exec, ok}
use agents_router.Persist.{Json, Disk, FileContent, absent, unreadable, contents}
use agents_router.Ledger.{Backend, load, update}
use agents_router.Ledger.Laws.{commit_read_back, state-commit, Result-cases}
use agents_router.BridgeBinding.Records.{
  BridgeBindingLedgerFile, ThreadSessionBindingRecord, ThreadSessionBindingInput,
  ThreadBindingQuery, bridge_schema_version,
}
use agents_router.BridgeBinding.Threads.{
  validate_thread_session_binding_input, thread_query, thread_session_binding_matches,
  thread_session_binding_can_adopt_route_hash, bind_found, bind_thread_session_at,
  lookup_thread_session, BridgeLedger,
}
use agents_router.BridgeBinding.Threads.Found.{bound_thread_is_found}
use agents_router.BridgeBinding.Store.{load_bridge_file, bridge_backend}

module _ {Raw : Type 0} (json : Json BridgeBindingLedgerFile Raw)
    (left_by : BridgeBindingLedgerFile → FileContent Raw → FileContent Raw) (path : String) where
  abbrev backend : Backend BridgeBindingLedgerFile Raw
  backend = bridge_backend json left_by

  abbrev opened : BridgeBindingLedgerFile → Disk Raw → BridgeLedger backend
  opened f disk = record { state_path = some path; state = f; disk = disk }

  -- A store's lookup of a thread
  abbrev pub looks_up :
      ThreadBindingQuery → Exec (BridgeLedger backend) (Option ThreadSessionBindingRecord)
  looks_up q l = (ok (lookup_thread_session q l.state), l)

  loaded_version :
      (c : FileContent Raw) (f : BridgeBindingLedgerFile)
      → load_bridge_file json left_by c ≡ ok f
      → f.schema_version ≡ bridge_schema_version
  loaded_version absent f h = ground arith
  loaded_version unreadable f h = ground arith
  loaded_version (contents raw) f h = elim (Option-cases (json.from_str raw)) [
    | inl none' ↦ ground arith
    | inr (g, e) ↦ ground arith
  ]

  -- What the file holds after a binding is what memory holds.
  bind_found_read_back :
      (o : Option ThreadSessionBindingRecord) (i : ThreadSessionBindingInput) (now : ℕ)
      (l : BridgeLedger backend) (r : ThreadSessionBindingRecord)
      → l.state_path ≡ some path
      → l.state.schema_version ≡ bridge_schema_version
      → load_bridge_file json left_by l.disk.file ≡ ok l.state
      → (bind_found backend o i now l).0 ≡ ok r
      → load_bridge_file json left_by (bind_found backend o i now l).1.disk.file
        ≡ ok (bind_found backend o i now l).1.state
  unfolding bind_found
  bind_found_read_back none i now l r p v h k =
      commit_read_back backend _ _ r l path p v k ∙ ap ok (sym (state-commit backend _ _ l))
  bind_found_read_back (some x) i now l r p v h k =
      elim (Bool-cases (thread_session_binding_matches x i)) [
        | inl same ↦ rw same h
        | inr differs ↦ elim (Bool-cases (thread_session_binding_can_adopt_route_hash x i)) [
          | inl adopts ↦
              rw (differs, adopts)
                (commit_read_back backend _ _ r l path p v (rw (differs, adopts) at k)
                  ∙ ap ok (sym (state-commit backend _ _ l)))
          | inr refused ↦ ground arith
        ]
      ]

  bind_read_back :
      (i : ThreadSessionBindingInput) (now : ℕ) (f : BridgeBindingLedgerFile) (disk : Disk Raw)
      (r : ThreadSessionBindingRecord)
      → load_bridge_file json left_by disk.file ≡ ok f
      → (bind_thread_session_at backend i now (opened f disk)).0 ≡ ok r
      → load_bridge_file json left_by
          (bind_thread_session_at backend i now (opened f disk)).1.disk.file
        ≡ ok (bind_thread_session_at backend i now (opened f disk)).1.state
  unfolding bind_thread_session_at
  bind_read_back i now f disk r e h =
      elim (Result-cases (validate_thread_session_binding_input i)) [
        | inl (t, v) ↦ rw v (
            bind_found_read_back _ i now (opened f disk) r refl (loaded_version disk.file f e) e
              (rw v at h))
        | inr (x, v) ↦ ground arith
      ]

  -- If a store binds a thread, whether anew, again, or with a route hash that it lacked, then a store
  -- that is opened afterwards finds the record that was returned.
  pub bound_thread_survives_restart :
      (i : ThreadSessionBindingInput) (now : ℕ) (disk : Disk Raw) (r : ThreadSessionBindingRecord)
      → (update backend path (bind_thread_session_at backend i now) disk).0 ≡ ok r
      → (update backend path
          (looks_up (thread_query i))
          (update backend path (bind_thread_session_at backend i now) disk).1).0
        ≡ ok (some r)
  unfolding update load
  bound_thread_survives_restart i now disk r h =
      elim (Result-cases (load_bridge_file json left_by disk.file)) [
        | inr (x, e) ↦ ground arith
        | inl (f, e) ↦
            let l = opened f disk in
            let l' : BridgeLedger backend = (bind_thread_session_at backend i now l).1 in
            let bound : (bind_thread_session_at backend i now l).0 ≡ ok r = ground arith in
            let back : load_bridge_file json left_by l'.disk.file ≡ ok l'.state =
              bind_read_back i now f disk r e bound in
            rw (e, back) (ap ok (bound_thread_is_found backend i now l r bound).0)
      ]
