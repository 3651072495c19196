-- ===== src/ResponseSurface/Turns/Changes.antt =====
-- src/response_surface_ledger.rs: what recording a turn leaves in memory and saves.
use agents_router.Prelude.{ℕ, ◌≡◌, refl, none, some, Option, true, find, inl, arith}
use agents_router.Ledger.{Ledger, Backend}
use agents_router.Ledger.Laws.{Change, commit-Change}
use agents_router.ResponseSurface.Records.{
  ResponseSurfaceLedgerFile, ResponseSurfaceContinuationTurnRecord,
  ResponseSurfaceContinuationTurnInput,
}
use agents_router.ResponseSurface.WellFormed.{WellFormed, with_turns}
use agents_router.ResponseSurface.Turns.{
  record_turn, new_turn, continuation_turn_matches, record_response_surface_continuation_turn_at,
}
use agents_router.ResponseSurface.Turns.Recorded.{OneSurface-snoc}

module _ {Raw : Type 0} (b : Backend ResponseSurfaceLedgerFile Raw) where
  record_turn-Change :
      (o : Option ResponseSurfaceContinuationTurnRecord) (i : ResponseSurfaceContinuationTurnInput)
      (now : ℕ) (l : Ledger ResponseSurfaceLedgerFile Raw)
      → find (continuation_turn_matches i) l.state.continuation_turns ≡ o
      → WellFormed l.state
      → Change b WellFormed l (record_turn b o (new_turn i now) l).1
  unfolding record_turn
  record_turn-Change (some e) i now l h w = inl (ground arith)
  record_turn-Change none i now l h w =
      commit-Change b WellFormed _ true l
        (with_turns l.state w _ (OneSurface-snoc i now l.state.continuation_turns w.turns h))

  pub record_response_surface_continuation_turn_at-Change :
      (i : ResponseSurfaceContinuationTurnInput) (now : ℕ)
      (l : Ledger ResponseSurfaceLedgerFile Raw)
      → WellFormed l.state
      → Change b WellFormed l (record_response_surface_continuation_turn_at b i now l).1
  unfolding record_response_surface_continuation_turn_at
  record_response_surface_continuation_turn_at-Change i now l w = ground (
    arith,
    record_turn-Change (find (continuation_turn_matches i) l.state.continuation_turns) i now l refl
        w,
  )
