-- ===== src/ResponseSurface/Turns.antt =====
-- src/response_surface_ledger.rs: the turns that a reply on a response surface has continued. The
-- index is a `BTreeSet` of keys; only membership is asked of it.
pub mod Recorded
pub mod Changes
mod Tests
use agents_router.Prelude.{
  ℕ, String, ◌≡◌, refl, ap, sym, subst, ◌∙◌, Bool, true, false, ◌&&◌, ◌||◌, Option, none, some,
  List, [], ◌∷◌, ◌++◌, find, find-append-none, any, map, All, All-append, arith, ◌==◌, eq_iff,
  eq_refl, if◌then◌else◌,
}
use agents_router.Exec.{Exec, Result, ok, err, turn_of_other_surface, lift, ◌>>=◌, ◌>>◌}
use agents_router.Ledger.{Ledger, Backend, ensure_all_present, commit}
use agents_router.Ledger.Laws.{state-commit}
use agents_router.ResponseSurface.Records.{
  ResponseSurfaceContinuationTurnRecord, ResponseSurfaceContinuationTurnInput,
  ResponseSurfaceContinuationTurnKey, ResponseSurfaceLedgerFile,
}

pub validate_turn : ResponseSurfaceContinuationTurnInput → Result (Unit {0})
validate_turn i = ensure_all_present (
    ("surface_id", i.surface_id)
    ∷ ("source_session_id", i.source_session_id)
    ∷ ("source_turn_id", i.source_turn_id)
    ∷ [])

pub continuation_turn_matches :
    ResponseSurfaceContinuationTurnInput → ResponseSurfaceContinuationTurnRecord → Bool
continuation_turn_matches i r =
    r.source_session_id == i.source_session_id && r.source_turn_id == i.source_turn_id

pub turn_key : ResponseSurfaceContinuationTurnRecord → ResponseSurfaceContinuationTurnKey
turn_key r = record { source_session_id = r.source_session_id; source_turn_id = r.source_turn_id }

pub response_surface_continuation_turn_index :
    ResponseSurfaceLedgerFile → List ResponseSurfaceContinuationTurnKey
unfolding turn_key
response_surface_continuation_turn_index f = map turn_key f.continuation_turns

pub contains : List ResponseSurfaceContinuationTurnKey → String → String → Bool
contains [] session turn = false
contains (k ∷ ks) session turn =
    (k.source_session_id == session && k.source_turn_id == turn) || contains ks session turn

pub new_turn : ResponseSurfaceContinuationTurnInput → ℕ → ResponseSurfaceContinuationTurnRecord
new_turn i now = record {
  surface_id = i.surface_id;
  source_session_id = i.source_session_id;
  source_turn_id = i.source_turn_id;
  recorded_at = now;
}

module _ {Raw : Type 0} (b : Backend ResponseSurfaceLedgerFile Raw) where
  -- The two branches behind the search
  pub record_turn :
      Option ResponseSurfaceContinuationTurnRecord
      → ResponseSurfaceContinuationTurnRecord
      → Exec (Ledger ResponseSurfaceLedgerFile Raw) Bool
  record_turn (some e) new l =
      if e.surface_id == new.surface_id then (ok false, l) else (err turn_of_other_surface, l)
  record_turn none new l =
      commit b (record l.state { continuation_turns = l.state.continuation_turns ++ new ∷ [] }) true
        l

  pub record_response_surface_continuation_turn_at :
      ResponseSurfaceContinuationTurnInput → ℕ → Exec (Ledger ResponseSurfaceLedgerFile Raw) Bool
  record_response_surface_continuation_turn_at i now = do
    lift (validate_turn i)
    λ (l : Ledger ResponseSurfaceLedgerFile Raw).
        record_turn (find (continuation_turn_matches i) l.state.continuation_turns) (new_turn i now)
          l
