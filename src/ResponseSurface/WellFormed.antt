-- ===== src/ResponseSurface/WellFormed.antt =====
-- src/response_surface_ledger.rs: what holds of every ledger that the operations build: its version
-- is the current one, no two active surfaces share a provider thread, no two records are of one
-- event, and no turn belongs to two surfaces.
use agents_router.Prelude.{◌≡◌, refl, List}
use agents_router.ResponseSurface.Records.{
  ResponseSurfaceRecord, InboundEventDedupRecord, ResponseSurfaceContinuationTurnRecord,
  ResponseSurfaceLedgerFile, default_file, ledger_schema_version,
}
use agents_router.ResponseSurface.Surfaces.Threads.{IsOrdered}
use agents_router.ResponseSurface.Events.Unique.{OneRecord}
use agents_router.ResponseSurface.Turns.Recorded.{OneSurface}

pub record WellFormed (f : ResponseSurfaceLedgerFile) : Type 0 where
  pub current : f.schema_version ≡ ledger_schema_version
  pub surfaces : IsOrdered f.surfaces
  pub events : OneRecord f.inbound_events
  pub turns : OneSurface f.continuation_turns

pub default_file-WellFormed : WellFormed default_file
default_file-WellFormed = record { current = refl; surfaces = tt; events = tt; turns = tt }

module _ (f : ResponseSurfaceLedgerFile) (w : WellFormed f) where
  pub with_surfaces :
      (rs : List ResponseSurfaceRecord) → IsOrdered rs → WellFormed (record f { surfaces = rs })
  with_surfaces rs o = record {
    current = w.current;
    surfaces = o;
    events = w.events;
    turns = w.turns;
  }

  pub with_events :
      (es : List InboundEventDedupRecord)
      → OneRecord es
      → WellFormed (record f { inbound_events = es })
  with_events es o = record {
    current = w.current;
    surfaces = w.surfaces;
    events = o;
    turns = w.turns;
  }

  pub with_turns :
      (ts : List ResponseSurfaceContinuationTurnRecord)
      → OneSurface ts
      → WellFormed (record f { continuation_turns = ts })
  with_turns ts o = record {
    current = w.current;
    surfaces = w.surfaces;
    events = w.events;
    turns = o;
  }
