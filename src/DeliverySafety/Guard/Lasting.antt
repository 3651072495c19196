-- ===== src/DeliverySafety/Guard/Lasting.antt =====
-- src/delivery_safety.rs: a pause lasts over calls, restarts and a disk that changes what it allows.
use agents_router.Prelude.{
  String, ◌≡◌, refl, ap, sym, subst, ◌∙◌, true, false, some, arith, is_some,
}
use agents_router.Exec.{ok}
use agents_router.Persist.{Json, Disk}
use agents_router.DeliverySafety.State.{
  DeliverySafetyStateFile, DeliverySafetyGuard, DeliverySuppression, suppress,
}
use agents_router.DeliverySafety.Guard.{check_keys, load, paused_suppression}
use agents_router.DeliverySafety.Guard.History.{Call}
use agents_router.DeliverySafety.Guard.Decisions.{
  after, decision, after_paused, counted, attempts, suppress_storm_poisoned,
}
use agents_router.DeliverySafety.Guard.Restart.{KeepsPause, pause_survives_restart}

module _ {Raw : Type 0} (json : Json DeliverySafetyStateFile Raw) (path : String) where
  -- What the router does to its guard without a reset: calls of it, and a restart, which loads the
  -- file anew. Meanwhile the disk may change which system calls succeed, but keeps the file.
  pub data Later (g : DeliverySafetyGuard Raw) : DeliverySafetyGuard Raw → Type 0 where
    at_once : Later g g
    called : (c : Call) (h : DeliverySafetyGuard Raw) → Later g h → Later g (after json c h)
    reloaded :
        (h k : DeliverySafetyGuard Raw) → load json path h.disk ≡ ok k → Later g h → Later g k
    disk_changed :
        (h : DeliverySafetyGuard Raw) (disk : Disk Raw)
        → disk.file ≡ h.disk.file
        → Later g h
        → Later g (record h { disk = disk })

  record IsLasting (g : DeliverySafetyGuard Raw) : Type 0 where
    sound : g.poisoned ≡ false
    paused : is_some g.inner.global_pause ≡ true
    kept : KeepsPause json path g

  load-disk :
      (disk : Disk Raw) (k : DeliverySafetyGuard Raw)
      → load json path disk ≡ ok k
      → (k.disk ≡ disk) × (k.poisoned ≡ false)
  unfolding load
  load-disk disk k e = ground arith

  load-same_file :
      (disk other : Disk Raw)
      → other.file ≡ disk.file
      → (k : DeliverySafetyGuard Raw) → load json path disk ≡ ok k
      → load json path other ≡ ok (record k { disk = other })
  unfolding load
  load-same_file disk other e k h = ground arith

  reloaded-IsLasting :
      (h k : DeliverySafetyGuard Raw) → load json path h.disk ≡ ok k → IsLasting h → IsLasting k
  reloaded-IsLasting h k e v =
      let (k', e', same, paused) = v.kept in
      let again : k' ≡ k = ground arith in
      let (disk, sound) = load-disk h.disk k e in
      let still : is_some k.inner.global_pause ≡ true = rw (← again) paused in
      record {
        sound = sound;
        paused = still;
        kept = (k, ap (load json path) disk ∙ e, refl, still);
      }

  disk_changed-IsLasting :
      (h : DeliverySafetyGuard Raw) (disk : Disk Raw)
      → disk.file ≡ h.disk.file
      → IsLasting h
      → IsLasting (record h { disk = disk })
  disk_changed-IsLasting h disk e v =
      let (k, loads, same, paused) = v.kept in
      record {
        sound = v.sound;
        paused = v.paused;
        kept = (record k { disk = disk }, load-same_file h.disk disk e k loads, same, paused);
      }

  Later-IsLasting : (g h : DeliverySafetyGuard Raw) → Later g h → IsLasting g → IsLasting h
  Later-IsLasting g _ at_once v = v
  Later-IsLasting g _ (called c h l) v =
      let w = Later-IsLasting g h l v in subst IsLasting (sym (after_paused json c h w.paused)) w
  Later-IsLasting g _ (reloaded h k e l) v = reloaded-IsLasting h k e (Later-IsLasting g h l v)
  Later-IsLasting g _ (disk_changed h disk e l) v =
      disk_changed-IsLasting h disk e (Later-IsLasting g h l v)

  not_poisoned :
      (c : Call) (g : DeliverySafetyGuard Raw) (s : DeliverySuppression)
      → decision json c g ≡ ok (suppress s)
      → (after json c g).poisoned ≡ false
  unfolding check_keys
  not_poisoned c g s e = ground (
    arith,
    suppress_storm_poisoned json c.fingerprint c.key (attempts json c g) c.now (counted json c g),
  )

  paused_decision :
      (c : Call) (h : DeliverySafetyGuard Raw)
      → IsLasting h
      → decision json c h ≡ ok (suppress (paused_suppression c.fingerprint c.key))
  unfolding check_keys
  paused_decision c h v = ground (arith, v.sound, v.paused)

  -- When a call starts a pause on a guard with a state file, then after any further calls, restarts
  -- and changes of what the disk allows, with no reset among them, each call is suppressed for the
  -- pause, and a restart succeeds and has the pause of the guard.
  pub pause_lasts_until_reset :
      (c : Call) (g : DeliverySafetyGuard Raw) (s : DeliverySuppression)
      → g.state_path ≡ some path
      → decision json c g ≡ ok (suppress s)
      → is_some s.pause_started ≡ true
      → (h : DeliverySafetyGuard Raw) → Later (after json c g) h
      → (d : Call)
      → (decision json d h ≡ ok (suppress (paused_suppression d.fingerprint d.key)))
        × KeepsPause json path h
  pause_lasts_until_reset c g s p e started h l d =
      let kept = pause_survives_restart json c g path s p e started in
      let (k, loads, same, paused) = kept in
      let begun : IsLasting (after json c g) = record {
        sound = not_poisoned c g s e;
        paused = rw (← same) paused;
        kept = kept;
      } in
      let v = Later-IsLasting (after json c g) h l begun in (paused_decision d h v, v.kept)
