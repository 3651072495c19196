-- ===== src/ProviderInbound/ReadyOnce.antt =====
-- src/provider_inbound.rs: a reply is handed on once, whichever way it comes.
use agents_router.Prelude.{
  ℕ, String, ◌≡◌, refl, sym, subst, ◌∙◌, Bool, true, false, some, List, arith, if◌then◌else◌,
}
use agents_router.Exec.{Exec, Error, Result, ok, err, ensure, lift, ◌>>=◌, ◌>>◌}
use agents_router.Ledger.{Backend}
use agents_router.ProviderCatalog.{ProviderModeCapability}
use agents_router.BridgeBinding.Records.{ThreadSessionBindingRecord}
use agents_router.ResponseSurface.Records.{
  ResponseSurfaceLookupRecord, ResponseSurfaceLookupResult, hit, miss, closed,
  ResponseSurfaceLedgerFile,
}
use agents_router.ResponseSurface.Surfaces.{lookup_surface_at}
use agents_router.ResponseSurface.Events.{provider_event_id_hash, claim_inbound_event_at}
use agents_router.ResponseSurface.Events.Steps.{EventLedger, entry}
use agents_router.ResponseSurface.Events.AtMostOnce.{
  EventCall, is_claimed, run, key_of, known_not_claimed,
}
use agents_router.ResponseSurface.Events.Claims.{NoRelease, claimed-Kept}
use agents_router.ProviderInbound.Types.{
  NormalizedProviderSurfaceReply, ProviderInboundDecision, ready, skipped,
  ProviderInboundSkipReason,
}
use agents_router.ProviderInbound.Claim.{
  reply_event, claim_reply, claim_looked_up, decide_claim, lookup_and_claim_provider_surface_reply,
  lookup_and_claim_provider_thread_session_reply,
}

-- The two ways in which a reply comes to an agent
pub data Way : Type 0 where
  through_surface : ProviderModeCapability → Way
  through_binding : ProviderModeCapability → ThreadSessionBindingRecord → Way

abbrev pub is_ready : Result ProviderInboundDecision → Bool
is_ready (ok (ready r)) = true
is_ready (ok (skipped reason)) = false
is_ready (err e) = false

-- The texts and threads of two messages may differ: an event is known by these ids alone.
pub record IsSameEvent (r s : NormalizedProviderSurfaceReply) : Type 0 where
  pub provider : s.provider_id ≡ r.provider_id
  pub kind : s.provider_type ≡ r.provider_type
  pub account : s.provider_account_id ≡ r.provider_account_id
  pub conversation : s.provider_conversation_id ≡ r.provider_conversation_id
  pub event : s.provider_event_id ≡ r.provider_event_id

module _ {Raw : Type 0} (b : Backend ResponseSurfaceLedgerFile Raw) (sha256 : String → List ℕ) where
  unfoldable pub hand_on :
      Way → NormalizedProviderSurfaceReply → ℕ → Exec (EventLedger Raw) ProviderInboundDecision
  hand_on (through_surface provider) reply now =
      lookup_and_claim_provider_surface_reply b sha256 provider reply now
  hand_on (through_binding provider binding) reply now =
      lookup_and_claim_provider_thread_session_reply b sha256 provider binding reply now

  -- A call is not ready, or it claimed the event of the reply for a surface, and is ready if that
  -- claim was granted.
  data Handed (reply : NormalizedProviderSurfaceReply) (now : ℕ) (l : EventLedger Raw)
      (out : Result ProviderInboundDecision × EventLedger Raw) : Type 0 where
    not_ready : is_ready out.0 ≡ false → Handed reply now l out
    claims :
        (surface_id : String)
        → is_ready out.0
          ≡ is_claimed (claim_inbound_event_at b sha256 (reply_event reply surface_id) now l).0
        → out.1 ≡ (claim_inbound_event_at b sha256 (reply_event reply surface_id) now l).1
        → Handed reply now l out

  claim_reply-Handed :
      (reply : NormalizedProviderSurfaceReply) (surface : ResponseSurfaceLookupRecord) (now : ℕ)
      (l : EventLedger Raw)
      → Handed reply now l (claim_reply b sha256 reply surface now l)
  unfolding claim_reply decide_claim
  claim_reply-Handed reply surface now l = claims surface.surface_id (ground arith) (ground arith)

  claim_looked_up-Handed :
      (reply : NormalizedProviderSurfaceReply) (now : ℕ) (o : ResponseSurfaceLookupResult)
      (l : EventLedger Raw)
      → Handed reply now l (claim_looked_up b sha256 reply now o l)
  unfolding claim_looked_up
  claim_looked_up-Handed reply now (hit surface) l = claim_reply-Handed reply surface now l
  claim_looked_up-Handed reply now miss l = not_ready refl
  claim_looked_up-Handed reply now (closed surface_id) l = not_ready refl

  module _ (reply : NormalizedProviderSurfaceReply) (now : ℕ) (l : EventLedger Raw) where
    Handed-ensure :
        (test : Bool) (e : Error) (m : Exec (EventLedger Raw) ProviderInboundDecision)
        → Handed reply now l (m l)
        → Handed reply now l ((ensure test e >> m) l)
    Handed-ensure true e m h = h
    Handed-ensure false e m h = not_ready refl

    Handed-ensure_both :
        (test test' : Bool) (e e' : Error) (m : Exec (EventLedger Raw) ProviderInboundDecision)
        → Handed reply now l (m l)
        → Handed reply now l (((ensure test e >> ensure test' e') >> m) l)
    Handed-ensure_both true true e e' m h = h
    Handed-ensure_both true false e e' m h = not_ready refl
    Handed-ensure_both false test' e e' m h = not_ready refl

    Handed-if :
        (test : Bool) (reason : ProviderInboundSkipReason)
        (out : Result ProviderInboundDecision × EventLedger Raw)
        → Handed reply now l out
        → Handed reply now l (if test then (ok (skipped reason), l) else out)
    Handed-if true reason out h = not_ready refl
    Handed-if false reason out h = h

    Handed-lookup :
        (valid : Result (Unit {0})) (o : EventLedger Raw → ResponseSurfaceLookupResult)
        → Handed reply now l (
            ((lift valid >> λ (l' : EventLedger Raw). (ok (o l'), l'))
                >>= claim_looked_up b sha256 reply now)
              l)
    Handed-lookup (ok tt) o = claim_looked_up-Handed reply now (o l) l
    Handed-lookup (err e) o = not_ready refl

  hand_on-Handed :
      (w : Way) (reply : NormalizedProviderSurfaceReply) (now : ℕ) (l : EventLedger Raw)
      → Handed reply now l (hand_on w reply now l)
  unfolding hand_on lookup_and_claim_provider_surface_reply lookup_surface_at
      lookup_and_claim_provider_thread_session_reply
  hand_on-Handed (through_surface provider) reply now l =
      search (Handed-ensure_both, Handed-if, Handed-lookup)
  hand_on-Handed (through_binding provider binding) reply now l =
      search (Handed-ensure_both, Handed-ensure, Handed-if, claim_reply-Handed)

  same_key :
      (r s : NormalizedProviderSurfaceReply) (surface surface' : String)
      → IsSameEvent r s
      → key_of b sha256 (reply_event s surface') ≡ key_of b sha256 (reply_event r surface)
  unfolding provider_event_id_hash
  same_key r s surface surface' h = ground arith

  -- Once a reply is ready for an agent, no message of the same event is ready again, whichever of the
  -- two ways each of them takes and whatever its text, until a claim is released.
  pub ready_once :
      (w w' : Way) (reply again : NormalizedProviderSurfaceReply) (now later : ℕ)
      (cs : List EventCall) (l : EventLedger Raw)
      → is_ready (hand_on w reply now l).0 ≡ true
      → IsSameEvent reply again
      → NoRelease cs
      → is_ready (hand_on w' again later (run b sha256 cs (hand_on w reply now l).1)).0 ≡ false
  ready_once w w' reply again now later cs l h same n =
      let l' : EventLedger Raw = (hand_on w reply now l).1 in
      elim (hand_on-Handed w reply now l) [
        | not_ready r ↦ ground arith
        | claims surface e st ↦
            let i = reply_event reply surface in
            let (x, held, _) = claimed-Kept b sha256 i now cs l (sym e ∙ h) n in
            let held' : entry (key_of b sha256 i) (run b sha256 cs l') ≡ some x =
              subst (λ m. entry (key_of b sha256 i) (run b sha256 cs m) ≡ some x) (sym st) held in
            elim (hand_on-Handed w' again later (run b sha256 cs l')) [
              | not_ready r' ↦ r'
              | claims surface' e' st' ↦
                  e'
                  ∙ known_not_claimed b sha256 (reply_event again surface') later x
                      (run b sha256 cs l')
                      (subst (λ k. entry k (run b sha256 cs l') ≡ some x)
                        (sym (same_key reply again surface surface' same)) held')
            ]
      ]
