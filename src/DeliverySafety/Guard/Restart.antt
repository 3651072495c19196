-- ===== src/DeliverySafety/Guard/Restart.antt =====
-- src/delivery_safety.rs: the pause across restarts of the router, and its end by `reset`.
use agents_router.Prelude.{
  String, ◌≡◌, refl, ap, sym, subst, ◌∙◌, true, false, some, arith, is_some,
}
use agents_router.Prelude.Maps.{lookup}
use agents_router.Exec.{Result, Error, ok, err}
use agents_router.Persist.{Json}
use agents_router.DeliverySafety.State.{
  DeliverySafetyStateFile, DeliverySafetyGuard, DeliverySafetyDecision, DeliverySuppression, allow,
  suppress, empty_inner,
}
use agents_router.DeliverySafety.Guard.{
  save_locked, suppress_storm, check_keys, reset, load, pop_expired, prune_delivery_windows,
}
use agents_router.DeliverySafety.Guard.History.{Call}
use agents_router.DeliverySafety.Guard.Decisions.{after, decision, counted, attempts}
use agents_router.DeliverySafety.Guard.Pause.{
  restarted, load-save_locked, save_locked-inner, storm_saved, storm_failed, marked,
}

module _ {Raw : Type 0} (json : Json DeliverySafetyStateFile Raw) where
  -- A guard that is loaded from the file of `g` has the pause of `g`.
  abbrev pub KeepsPause : String → DeliverySafetyGuard Raw → Type 0
  KeepsPause path g =
      (h : DeliverySafetyGuard Raw) × (load json path g.disk ≡ ok h)
      × (h.inner.global_pause ≡ g.inner.global_pause)
      × (is_some h.inner.global_pause ≡ true)

  KeepsPause-save_locked :
      (path : String) (g : DeliverySafetyGuard Raw)
      → g.state_path ≡ some path
      → (save_locked json g).0 ≡ ok tt
      → is_some g.inner.global_pause ≡ true
      → KeepsPause path (save_locked json g).1
  KeepsPause-save_locked path g e h paused = (
    restarted json path g (save_locked json g).1.disk,
    load-save_locked json path g e h,
    rw (save_locked-inner json g) refl,
    paused,
  )

module _ {Raw : Type 0} (json : Json DeliverySafetyStateFile Raw) (c : Call)
    (g : DeliverySafetyGuard Raw) where
  abbrev storm : Result DeliverySafetyDecision × DeliverySafetyGuard Raw
  storm = suppress_storm json c.fingerprint c.key (attempts json c g) c.now (counted json c g)

  storm_of_started :
      (s : DeliverySuppression)
      → decision json c g ≡ ok (suppress s)
      → is_some s.pause_started ≡ true
      → check_keys json c.fingerprint c.key c.now g ≡ storm
  unfolding check_keys
  storm_of_started s h e = ground arith

  storm_of_error :
      (e : Error)
      → g.poisoned ≡ false
      → decision json c g ≡ err e
      → check_keys json c.fingerprint c.key c.now g ≡ storm
  unfolding check_keys
  storm_of_error e p h = ground arith

  pub pause_survives_restart :
      (path : String) (s : DeliverySuppression)
      → g.state_path ≡ some path
      → decision json c g ≡ ok (suppress s)
      → is_some s.pause_started ≡ true
      → KeepsPause json path (after json c g)
  pause_survives_restart path s e d started =
      let same = storm_of_started s d started in
      let (saved, final, paused) =
        storm_saved json c.fingerprint c.key (attempts json c g) c.now (counted json c g) s
          (ap (λ r. r.0) (sym same) ∙ d) started in
      subst (KeepsPause json path) (sym (ap (λ r. r.1) same ∙ final)) (
        KeepsPause-save_locked json path
          (marked json c.fingerprint c.key (attempts json c g) c.now (counted json c g)) e saved
          paused)

  -- When a call fails on a guard whose lock is sound, the file could not be replaced: it is as it
  -- was, and the guard is paused in memory all the same.
  pub failed_call_pauses :
      (e : Error)
      → g.poisoned ≡ false
      → decision json c g ≡ err e
      → (is_some (after json c g).inner.global_pause ≡ true) × ((after json c g).disk ≡ g.disk)
  failed_call_pauses e p h =
      subst (λ r. (is_some r.1.inner.global_pause ≡ true) × (r.1.disk ≡ g.disk))
        (sym (storm_of_error e p h))
        (storm_failed json c.fingerprint c.key (attempts json c g) c.now (counted json c g) e
          (ap (λ r. r.0) (sym (storm_of_error e p h)) ∙ h))

  reset_allows :
      g.poisoned ≡ false → decision json c (reset json g).1 ≡ ok (allow c.fingerprint c.key)
  unfolding reset check_keys prune_delivery_windows pop_expired lookup save_locked
  reset_allows p = ground arith

  -- A reset that succeeds lets the next call through, and a guard that is loaded from the file
  -- afterwards is not paused.
  pub reset_reopens :
      (path : String)
      → g.state_path ≡ some path
      → g.poisoned ≡ false
      → (reset json g).0 ≡ ok tt
      → (decision json c (reset json g).1 ≡ ok (allow c.fingerprint c.key))
        × (load json path (reset json g).1.disk
            ≡ ok (restarted json path (record g { inner = empty_inner }) (reset json g).1.disk))
  unfolding reset
  reset_reopens path e p h =
      let g' = record g { inner = empty_inner } in
      (reset_allows p, ground (arith, load-save_locked json path g'))
