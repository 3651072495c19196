-- ===== src/DeliverySafety/Guard/Pause.antt =====
-- src/delivery_safety.rs: the global pause, its start, its end, and the file that keeps it.
use agents_router.Prelude.{
  ℕ, ◌-◌, ◌<◌, String, ◌≡◌, true, false, none, some, List, [], ◌∷◌, length, arith, is_some, leb,
}
use agents_router.Prelude.Maps.{insert, retain, Distinct, Distinct-insert, Distinct-retain}
use agents_router.Exec.{Result, Error, ok, err}
use agents_router.Persist.{Json, Disk, replace_file_err, read_file-replace_file}
use agents_router.DeliverySafety.State.{
  global_pause_window, global_pause_threshold, state_schema_version, DeliverySafetyInner,
  DeliverySafetyStateFile, DeliverySafetyGuard, DeliverySafetyDecision, DeliverySuppression,
  suppress, empty_inner,
}
use agents_router.DeliverySafety.Guard.{
  record_suppressed_message, save_locked, suppress_storm, check_keys, load,
}
use agents_router.DeliverySafety.Guard.History.{Call}
use agents_router.DeliverySafety.Guard.Decisions.{after, run, counted, attempts}

started_pause :
    (inner : DeliverySafetyInner) (fingerprint : String) (now : ℕ)
    → is_some (record_suppressed_message inner fingerprint now).0 ≡ true
    → is_some (record_suppressed_message inner fingerprint now).1.global_pause ≡ true
unfolding record_suppressed_message
started_pause inner fingerprint now h = ground arith

-- A guard that is not paused holds at most two suppressed messages, each once.
pub record IsConsistent (inner : DeliverySafetyInner) : Type 0 where
  pub distinct : Distinct inner.suppressed_messages
  pub few : inner.global_pause ≡ none → length inner.suppressed_messages < global_pause_threshold

record_suppressed_message-IsConsistent :
    (inner : DeliverySafetyInner) (fingerprint : String) (now : ℕ)
    → IsConsistent inner
    → IsConsistent (record_suppressed_message inner fingerprint now).1
unfolding record_suppressed_message
record_suppressed_message-IsConsistent inner fingerprint now v = record {
  distinct = ground (arith, kept);
  few = ground arith;
}
  where
    kept : Distinct (
        insert fingerprint now (retain (leb (now - global_pause_window)) inner.suppressed_messages))
    kept = Distinct-insert fingerprint now _ (Distinct-retain _ _ v.distinct)

module _ {Raw : Type 0} (json : Json DeliverySafetyStateFile Raw) where
  suppress_storm_inner :
      (fingerprint key : String) (count now : ℕ) (g : DeliverySafetyGuard Raw)
      → (suppress_storm json fingerprint key count now g).1.inner
        ≡ (record_suppressed_message g.inner fingerprint now).1
  unfolding suppress_storm save_locked
  suppress_storm_inner fingerprint key count now g = ground arith

  suppress_storm-IsConsistent :
      (fingerprint key : String) (count now : ℕ) (g : DeliverySafetyGuard Raw)
      → IsConsistent g.inner
      → IsConsistent (suppress_storm json fingerprint key count now g).1.inner
  suppress_storm-IsConsistent fingerprint key count now g v =
      rw (suppress_storm_inner fingerprint key count now g)
        (record_suppressed_message-IsConsistent g.inner fingerprint now v)

  after-IsConsistent :
      (c : Call) (g : DeliverySafetyGuard Raw)
      → IsConsistent g.inner
      → IsConsistent (after json c g).inner
  unfolding check_keys
  after-IsConsistent c g v = ground (
    arith,
    suppress_storm-IsConsistent c.fingerprint c.key (attempts json c g) c.now (counted json c g)
        (record { distinct = v.distinct; few = v.few }),
  )

  -- From a consistent guard, after any calls, the guard is consistent: as long as it is not paused,
  -- it holds fewer than three suppressed messages.
  pub run-IsConsistent :
      (cs : List Call) (g : DeliverySafetyGuard Raw)
      → IsConsistent g.inner
      → IsConsistent (run json cs g).inner
  unfolding run
  run-IsConsistent [] g v = v
  run-IsConsistent (c ∷ cs) g v = run-IsConsistent cs (after json c g) (after-IsConsistent c g v)

  abbrev pub restarted : String → DeliverySafetyGuard Raw → Disk Raw → DeliverySafetyGuard Raw
  restarted path g disk = record {
    inner = record empty_inner { global_pause = g.inner.global_pause };
    poisoned = false;
    state_path = some path;
    disk = disk;
  }

  pub load-save_locked :
      (path : String) (g : DeliverySafetyGuard Raw)
      → g.state_path ≡ some path
      → (save_locked json g).0 ≡ ok tt
      → load json path (save_locked json g).1.disk
        ≡ ok (restarted path g (save_locked json g).1.disk)
  unfolding load save_locked
  load-save_locked path g e h = ground (
    arith,
    read_file-replace_file json
        (record { schema_version = state_schema_version; global_pause = g.inner.global_pause })
        (record { schema_version = state_schema_version; global_pause = none })
        (λ f. f.schema_version) state_schema_version g.disk,
  )

  pub save_locked-inner : (g : DeliverySafetyGuard Raw) → (save_locked json g).1.inner ≡ g.inner
  unfolding save_locked
  save_locked-inner g = ground arith

  save_locked_err :
      (g : DeliverySafetyGuard Raw) (e : Error)
      → (save_locked json g).0 ≡ err e
      → (save_locked json g).1.disk ≡ g.disk
  unfolding save_locked
  save_locked_err g e h = ground (
    arith,
    replace_file_err json
        (record { schema_version = state_schema_version; global_pause = g.inner.global_pause })
        g.disk e,
  )

  -- What is left of a storm that started a pause: the save was made, and was of this guard.
  module _ (fingerprint key : String) (count now : ℕ) (g : DeliverySafetyGuard Raw) where
    abbrev pub marked : DeliverySafetyGuard Raw
    marked = record g { inner = (record_suppressed_message g.inner fingerprint now).1 }

    abbrev pub outcome : Result DeliverySafetyDecision × DeliverySafetyGuard Raw
    outcome = suppress_storm json fingerprint key count now g

    pub storm_saved :
        (s : DeliverySuppression)
        → outcome.0 ≡ ok (suppress s)
        → is_some s.pause_started ≡ true
        → ((save_locked json marked).0 ≡ ok tt)
          × (outcome.1 ≡ (save_locked json marked).1)
          × (is_some marked.inner.global_pause ≡ true)
    unfolding suppress_storm
    storm_saved s h e = ground (arith, started_pause g.inner fingerprint now)

    pub storm_failed :
        (e : Error)
        → outcome.0 ≡ err e
        → (is_some outcome.1.inner.global_pause ≡ true) × (outcome.1.disk ≡ g.disk)
    unfolding suppress_storm
    storm_failed e h = ground (
      arith,
      started_pause g.inner fingerprint now,
      save_locked-inner marked,
      save_locked_err marked e,
    )
