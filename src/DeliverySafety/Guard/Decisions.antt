-- ===== src/DeliverySafety/Guard/Decisions.antt =====
-- src/delivery_safety.rs: what a call of the guard decides, against the history of the calls.
use mathlib.Core.List.{append-nil, append_assoc}
use agents_router.Prelude.{
  ℕ, ◌+◌, ◌-◌, ◌≤◌, String, ◌≡◌, refl, ap, ◌∙◌, Bool, true, false, ◌&&◌, none, List, [], ◌∷◌, ◌++◌,
  length, filter, length-append, arith, is_some, leb, ltb, ◌==◌, Option-cases, inl, inr,
  if◌then◌else◌,
}
use agents_router.Prelude.Maps.{lookup}
use agents_router.Exec.{Result, ok, err}
use agents_router.Persist.{Json}
use agents_router.DeliverySafety.State.{
  duplicate_window, duplicate_threshold, DeliverySafetyStateFile, DeliverySafetyGuard,
  DeliverySafetyDecision, allow, suppress,
}
use agents_router.DeliverySafety.Guard.{
  record_suppressed_message, save_locked, suppress_storm, check_keys, record_attempt,
  prune_delivery_windows,
}
use agents_router.DeliverySafety.Guard.Windows.{since, Windows}
use agents_router.DeliverySafety.Guard.History.{
  Call, times, Ordered, last_time, Tracks, next_windows, attempt_window, next_Tracks,
}

abbrev pub is_allowed : Result DeliverySafetyDecision → Bool
is_allowed (ok (allow fingerprint key)) = true
is_allowed (ok (suppress s)) = false
is_allowed (err e) = false

-- How many of the calls were for the key, at the cutoff or later.
unfoldable pub recent_calls : String → ℕ → List Call → ℕ
recent_calls k cutoff [] = 0
recent_calls k cutoff (c ∷ cs) =
    (if c.key == k && leb cutoff c.now then 1 else 0) + recent_calls k cutoff cs

length-since-times :
    (k : String) (cutoff : ℕ) (cs : List Call)
    → length (since cutoff (times k cs)) ≡ recent_calls k cutoff cs
unfolding recent_calls times filter
length-since-times k cutoff [] = refl
length-since-times k cutoff (c ∷ cs) = ground (arith, length-since-times k cutoff cs)

module _ {Raw : Type 0} (json : Json DeliverySafetyStateFile Raw) where
  abbrev pub after : Call → DeliverySafetyGuard Raw → DeliverySafetyGuard Raw
  after c g = (check_keys json c.fingerprint c.key c.now g).1

  abbrev pub decision : Call → DeliverySafetyGuard Raw → Result DeliverySafetyDecision
  decision c g = (check_keys json c.fingerprint c.key c.now g).0

  unfoldable pub run : List Call → DeliverySafetyGuard Raw → DeliverySafetyGuard Raw
  run [] g = g
  run (c ∷ cs) g = run cs (after c g)

  -- The windows of a guard that is not paused follow the history.
  abbrev pub Follows : List Call → ℕ → DeliverySafetyGuard Raw → Type 0
  Follows past last g = g.inner.global_pause ≡ none → Tracks past last g.inner.delivery_windows

  suppress_storm_windows :
      (fingerprint key : String) (count now : ℕ) (g : DeliverySafetyGuard Raw)
      → (suppress_storm json fingerprint key count now g).1.inner.delivery_windows
        ≡ g.inner.delivery_windows
  unfolding suppress_storm record_suppressed_message save_locked
  suppress_storm_windows fingerprint key count now g = ground arith

  suppress_storm_decision :
      (fingerprint key : String) (count now : ℕ) (g : DeliverySafetyGuard Raw)
      → is_allowed (suppress_storm json fingerprint key count now g).0 ≡ false
  unfolding suppress_storm record_suppressed_message save_locked
  suppress_storm_decision fingerprint key count now g = ground arith

  pub suppress_storm_poisoned :
      (fingerprint key : String) (count now : ℕ) (g : DeliverySafetyGuard Raw)
      → (suppress_storm json fingerprint key count now g).1.poisoned ≡ g.poisoned
  unfolding suppress_storm record_suppressed_message save_locked
  suppress_storm_poisoned fingerprint key count now g = ground arith

  module _ (c : Call) (g : DeliverySafetyGuard Raw) where
    abbrev pub counted : DeliverySafetyGuard Raw
    counted = record g {
      inner = record g.inner { delivery_windows = next_windows c g.inner.delivery_windows };
    }

    abbrev pub attempts : ℕ
    attempts = length (
        record_attempt c.key c.now
          (prune_delivery_windows (c.now - duplicate_window) g.inner.delivery_windows))

    after_poisoned : (after c g).poisoned ≡ g.poisoned
    unfolding check_keys
    after_poisoned =
        ground (arith, suppress_storm_poisoned c.fingerprint c.key attempts c.now counted)

    pub after_paused : is_some g.inner.global_pause ≡ true → (after c g) ≡ g
    unfolding check_keys
    after_paused h = ground arith

    after_windows :
        g.poisoned ≡ false
        → g.inner.global_pause ≡ none
        → (after c g).inner.delivery_windows ≡ next_windows c g.inner.delivery_windows
    unfolding check_keys
    after_windows h k =
        ground (arith, suppress_storm_windows c.fingerprint c.key attempts c.now counted)

    decision-attempts :
        g.poisoned ≡ false
        → g.inner.global_pause ≡ none
        → is_allowed (decision c g) ≡ ltb attempts duplicate_threshold
    unfolding check_keys
    decision-attempts h k =
        ground (arith, suppress_storm_decision c.fingerprint c.key attempts c.now counted)

    after-Follows :
        {past : List Call} {last : ℕ}
        → Follows past last g
        → last ≤ c.now
        → g.poisoned ≡ false
        → Follows (past ++ c ∷ []) c.now (after c g)
    after-Follows f later p = elim (Option-cases g.inner.global_pause) [
      | inl e ↦ λ _. rw (after_windows p e) (next_Tracks (f e) c later)
      | inr (pause, e) ↦
          λ e'. cc (e, e', ap (λ h. h.inner.global_pause) (after_paused (ap is_some e)))
    ]

  run-Follows :
      (past cs : List Call) (last : ℕ) (g : DeliverySafetyGuard Raw)
      → Follows past last g
      → Ordered last cs
      → g.poisoned ≡ false
      → Follows (past ++ cs) (last_time last cs) (run cs g) × ((run cs g).poisoned ≡ false)
  unfolding run
  run-Follows past [] last g f o p = (rw (append-nil past) f, p)
  run-Follows past (c ∷ cs) last g f o p = rw (← append_assoc past (c ∷ []) cs) (
      run-Follows (past ++ c ∷ []) cs c.now (after c g) (after-Follows c g f o.0 p) o.1
        (after_poisoned c g ∙ p))

  Tracks-start : (m : Windows) → m ≡ [] → Tracks [] 0 m
  unfolding times lookup filter
  Tracks-start m e =
      rw e (record { recent = λ k. refl; sorted = λ k. tt; bounded = λ k. tt; distinct = tt })

  attempts-recent :
      (c : Call) (g : DeliverySafetyGuard Raw) (past : List Call) (last : ℕ)
      → Tracks past last g.inner.delivery_windows
      → last ≤ c.now
      → attempts c g ≡ recent_calls c.key (c.now - duplicate_window) past + 1
  attempts-recent c g past last t later = rw (
    attempt_window t c later,
    length-append (since (c.now - duplicate_window) (times c.key past)) (c.now ∷ []),
    length-since-times c.key (c.now - duplicate_window) past,
  )

  -- From a guard with no windows, after any calls in the order of time that have not led to a
  -- pause, the next call, at the same time or later, is allowed exactly when fewer than five calls
  -- for its key, itself included, fall in the last ten seconds.
  pub check_counts_recent_calls :
      (g : DeliverySafetyGuard Raw) (cs : List Call) (c : Call)
      → g.poisoned ≡ false
      → g.inner.delivery_windows ≡ []
      → Ordered 0 cs
      → last_time 0 cs ≤ c.now
      → (run cs g).inner.global_pause ≡ none
      → is_allowed (decision c (run cs g))
        ≡ ltb (recent_calls c.key (c.now - duplicate_window) cs + 1) duplicate_threshold
  check_counts_recent_calls g cs c p w o later up =
      let (follows, clean) = run-Follows [] cs 0 g (λ _. Tracks-start _ w) o p in
      decision-attempts c (run cs g) clean up
      ∙ ap (λ n. ltb n duplicate_threshold)
          (attempts-recent c (run cs g) cs (last_time 0 cs) (follows up) later)
