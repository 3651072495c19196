-- ===== src/ResponseSurface/Events/Recovery.antt =====
-- src/response_surface_ledger.rs: the events that were left unfinished, for the recovery after a
-- restart.
pub mod Finished
use agents_router.Prelude.{String, Bool, none, some, List, [], ◌∷◌, find, filter, map, ◌==◌}
use agents_router.ResponseSurface.Records.{
  ResponseSurfaceRecord, InboundEventDedupRecord, InboundEventDiagnosticRecord,
  UnfinishedInboundEventRecoveryRecord, ResponseSurfaceLedgerFile, is_processing,
}

abbrev pub processing : InboundEventDedupRecord → Bool
processing r = is_processing r.status

diagnostic : InboundEventDedupRecord → InboundEventDiagnosticRecord
diagnostic r = record {
  provider_id = r.provider_id;
  provider_type = r.provider_type;
  provider_event_id_hash = r.provider_event_id_hash;
  surface_id = r.surface_id;
  status = r.status;
  received_at = r.received_at;
}

pub unfinished_inbound_events : ResponseSurfaceLedgerFile → List InboundEventDiagnosticRecord
unfolding diagnostic
unfinished_inbound_events f = map diagnostic (filter processing f.inbound_events)

recovery : InboundEventDedupRecord → ResponseSurfaceRecord → UnfinishedInboundEventRecoveryRecord
recovery e s = record {
  provider_id = e.provider_id;
  provider_type = e.provider_type;
  provider_event_id_hash = e.provider_event_id_hash;
  surface_id = e.surface_id;
  status = e.status;
  received_at = e.received_at;
  provider_account_id = s.provider_account_id;
  provider_conversation_id = s.provider_conversation_id;
  provider_thread_id = s.provider_thread_id;
}

-- `filter_map` over the events that are being processed: those whose surface is known
recoveries :
    List ResponseSurfaceRecord
    → List InboundEventDedupRecord
    → List UnfinishedInboundEventRecoveryRecord
unfolding recovery
recoveries surfaces [] = []
recoveries surfaces (e ∷ es) = elim (find (λ s. s.surface_id == e.surface_id) surfaces) [
  | none ↦ recoveries surfaces es
  | some s ↦ recovery e s ∷ recoveries surfaces es
]

pub unfinished_inbound_event_recovery_records :
    ResponseSurfaceLedgerFile → List UnfinishedInboundEventRecoveryRecord
unfolding recoveries
unfinished_inbound_event_recovery_records f =
    recoveries f.surfaces (filter processing f.inbound_events)
