-- ===== src/ResponseSurface/Turns/Recorded.antt =====
-- src/response_surface_ledger.rs: each turn is recorded of one surface, and is then in the index.
use agents_router.Prelude.{
  ℕ, ◌≡◌, refl, sym, subst, ◌∙◌, Bool, true, false, ◌&&◌, Option, none, some, List, [], ◌∷◌, ◌++◌,
  find, find-append-none, any, map, All, All-append, arith, ◌==◌, eq_iff, eq_refl,
}
use agents_router.Exec.{ok}
use agents_router.Ledger.{Ledger, Backend}
use agents_router.Ledger.Laws.{state-commit}
use agents_router.ResponseSurface.Records.{
  ResponseSurfaceContinuationTurnRecord, ResponseSurfaceContinuationTurnInput,
  ResponseSurfaceLedgerFile,
}
use agents_router.ResponseSurface.Turns.{
  continuation_turn_matches, turn_key, response_surface_continuation_turn_index, contains, new_turn,
  record_turn, record_response_surface_continuation_turn_at,
}

-- The first turn that the keys of an index belong to
contains-find :
    (i : ResponseSurfaceContinuationTurnInput) (rs : List ResponseSurfaceContinuationTurnRecord)
    → contains (map turn_key rs) i.source_session_id i.source_turn_id
      ≡ any (continuation_turn_matches i) rs
unfolding contains turn_key any continuation_turn_matches
contains-find i [] = refl
contains-find i (r ∷ rs) = ground (arith, contains-find i rs)

-- Each turn was recorded of one surface.
abbrev pub OneSurface : List ResponseSurfaceContinuationTurnRecord → Type 0
OneSurface [] = Unit {0}
OneSurface (r ∷ rs) =
    All
      (λ s.
        (s.source_session_id == r.source_session_id && s.source_turn_id == r.source_turn_id)
        ≡ false)
      rs
    × OneSurface rs

pub OneSurface-snoc :
    (i : ResponseSurfaceContinuationTurnInput) (now : ℕ)
    (rs : List ResponseSurfaceContinuationTurnRecord)
    → OneSurface rs
    → find (continuation_turn_matches i) rs ≡ none
    → OneSurface (rs ++ new_turn i now ∷ [])
unfolding find continuation_turn_matches new_turn
OneSurface-snoc i now [] o h = (tt, tt)
OneSurface-snoc i now (r ∷ rs) o h = (
  All-append _ rs _ o.0 (
    ground (
      arith,
      eq_iff i.source_session_id r.source_session_id,
      eq_iff i.source_turn_id r.source_turn_id,
      eq_iff r.source_session_id i.source_session_id,
      eq_iff r.source_turn_id i.source_turn_id,
    ),
    tt,
  ),
  OneSurface-snoc i now rs o.1 (ground arith),
)

any-find : {A : Type 0} (p : A → Bool) (xs : List A) (x : A) → find p xs ≡ some x → any p xs ≡ true
unfolding find any
any-find p [] x h = cc
any-find p (y ∷ xs) x h = ground (arith, any-find p xs x)

new_turn_matches :
    (i : ResponseSurfaceContinuationTurnInput) (now : ℕ)
    → continuation_turn_matches i (new_turn i now) ≡ true
unfolding continuation_turn_matches new_turn
new_turn_matches i now = ground (arith, eq_refl i.source_session_id, eq_refl i.source_turn_id)

indexed :
    (i : ResponseSurfaceContinuationTurnInput) (f : ResponseSurfaceLedgerFile)
    (r : ResponseSurfaceContinuationTurnRecord)
    → find (continuation_turn_matches i) f.continuation_turns ≡ some r
    → contains (response_surface_continuation_turn_index f) i.source_session_id i.source_turn_id
      ≡ true
unfolding response_surface_continuation_turn_index
indexed i f r h =
    contains-find i f.continuation_turns
    ∙ any-find (continuation_turn_matches i) f.continuation_turns r h

module _ {Raw : Type 0} (b : Backend ResponseSurfaceLedgerFile Raw) where
  abbrev TurnLedger : Type 0
  TurnLedger = Ledger ResponseSurfaceLedgerFile Raw

  record_turn-OneSurface :
      (o : Option ResponseSurfaceContinuationTurnRecord) (i : ResponseSurfaceContinuationTurnInput)
      (now : ℕ) (l : TurnLedger)
      → find (continuation_turn_matches i) l.state.continuation_turns ≡ o
      → OneSurface l.state.continuation_turns
      → OneSurface (record_turn b o (new_turn i now) l).1.state.continuation_turns
  unfolding record_turn
  record_turn-OneSurface (some e) i now l h o = ground arith
  record_turn-OneSurface none i now l h o =
      subst (λ f. OneSurface f.continuation_turns) (sym (state-commit b _ true l))
        (OneSurface-snoc i now l.state.continuation_turns o h)

  -- Recording a continuation turn, whether it succeeds or fails, keeps each turn recorded once, so
  -- that no turn belongs to two surfaces.
  pub record_response_surface_continuation_turn_at-OneSurface :
      (i : ResponseSurfaceContinuationTurnInput) (now : ℕ) (l : TurnLedger)
      → OneSurface l.state.continuation_turns
      → OneSurface
          (record_response_surface_continuation_turn_at b i now l).1.state.continuation_turns
  unfolding record_response_surface_continuation_turn_at
  record_response_surface_continuation_turn_at-OneSurface i now l o = ground (
    arith,
    record_turn-OneSurface (find (continuation_turn_matches i) l.state.continuation_turns) i now l
        refl o,
  )

  recorded_found :
      (o : Option ResponseSurfaceContinuationTurnRecord) (i : ResponseSurfaceContinuationTurnInput)
      (now : ℕ) (l : TurnLedger) (new : Bool)
      → find (continuation_turn_matches i) l.state.continuation_turns ≡ o
      → (record_turn b o (new_turn i now) l).0 ≡ ok new
      → (r : ResponseSurfaceContinuationTurnRecord) × (find
            (continuation_turn_matches i)
            (record_turn b o (new_turn i now) l).1.state.continuation_turns
          ≡ some r)
        × (r.surface_id ≡ i.surface_id)
  unfolding record_turn new_turn
  recorded_found (some e) i now l new h k =
      (e, ground arith, ground (arith, eq_iff e.surface_id i.surface_id))
  recorded_found none i now l new h k = (
    new_turn i now,
    subst (λ f. find (continuation_turn_matches i) f.continuation_turns ≡ some (new_turn i now))
        (sym (state-commit b _ true l))
        (find-append-none (continuation_turn_matches i) l.state.continuation_turns (new_turn i now)
          h (new_turn_matches i now)),
    refl,
  )

  recorded_steps :
      (i : ResponseSurfaceContinuationTurnInput) (now : ℕ) (l : TurnLedger) (new : Bool)
      → (record_response_surface_continuation_turn_at b i now l).0 ≡ ok new
      → (r : ResponseSurfaceContinuationTurnRecord) × (find
            (continuation_turn_matches i)
            (record_response_surface_continuation_turn_at b i now l).1.state.continuation_turns
          ≡ some r)
        × (r.surface_id ≡ i.surface_id)
  unfolding record_response_surface_continuation_turn_at
  recorded_steps i now l new h = ground (
    arith,
    recorded_found (find (continuation_turn_matches i) l.state.continuation_turns) i now l new refl,
  )

  -- After a turn is recorded, or found recorded, the index contains it, and the ledger holds it for
  -- the surface that was given.
  pub recorded_turn_is_indexed :
      (i : ResponseSurfaceContinuationTurnInput) (now : ℕ) (l : TurnLedger) (new : Bool)
      → (record_response_surface_continuation_turn_at b i now l).0 ≡ ok new
      → (contains
            (response_surface_continuation_turn_index
              (record_response_surface_continuation_turn_at b i now l).1.state)
            i.source_session_id
            i.source_turn_id
          ≡ true)
        × ((r : ResponseSurfaceContinuationTurnRecord) × (find
                (continuation_turn_matches i)
                (record_response_surface_continuation_turn_at b i now l).1.state.continuation_turns
              ≡ some r)
            × (r.surface_id ≡ i.surface_id))
  recorded_turn_is_indexed i now l new h =
      let (r, found, same) = recorded_steps i now l new h in (indexed i _ r found, (r, found, same))
