-- ===== src/ProviderInbound/Identified.antt =====
-- src/provider_inbound.rs: the replies that come out of the events of Slack and of Feishu and Lark name
-- a thread and an event, so that the ledger accepts them.
pub mod Accepted
use agents_router.Prelude.{
  ℕ, String, ◌≡◌, refl, sym, ap, ◌∙◌, ◌⊎◌, inl, inr, Bool, true, false, not, ◌||◌, Option, none,
  some, is_some, List, [], ◌∷◌, and_then, arith, ◌==◌, eq_iff, Bool-cases, Option-cases,
  if◌then◌else◌,
}
use agents_router.Prelude.Text.{trim, is_blank}
use agents_router.Prelude.Trimming.{trim_idempotent}
use agents_router.Exec.{
  Error, Result, ok, err, or_fail, provider_inbound_missing, missing_part, parse_failed,
}
use agents_router.Exec.Results.{◌>>=◌, ◌>>◌, or_return, return_unless}
use agents_router.Ledger.{ensure_present, ensure_all_present}
use agents_router.ResponseSurface.Surfaces.{validate_query}
use agents_router.ResponseSurface.Events.{validate_event}
use agents_router.ProviderInbound.Types.{
  NormalizedProviderSurfaceReply, ProviderInboundNormalizeResult, surface_reply, skip,
  ProviderInboundSkipReason,
}
use agents_router.ProviderInbound.Fields.{
  optional_trimmed, optional_field, required_trimmed, ensure_field, is_text,
}
use agents_router.ProviderInbound.Slack.{
  SlackMessageEvent, SlackEventCallbackPayload, SlackSocketModeEnvelope, other_than,
  normalize_message, normalize_payload, normalize_envelope,
  normalize_slack_socket_mode_surface_reply,
}
use agents_router.ProviderInbound.Lark.{
  FeishuLarkEventHeader, FeishuLarkEventBody, FeishuLarkEventMessage, FeishuLarkEventEnvelope,
  FeishuLarkTextContent, addressed_feishu_lark_text, normalize_reply_message, normalize_reply_event,
  normalize_feishu_lark_long_connection_surface_reply,
}
use agents_router.ProviderInbound.Claim.{reply_lookup_query, reply_event}

abbrev pub IsPresent : String → Type 0
IsPresent s = is_blank s ≡ false

-- The ids that a reply is looked up and claimed by are there, and its text.
pub record IsIdentified (r : NormalizedProviderSurfaceReply) : Type 0 where
  pub provider : IsPresent r.provider_id
  pub kind : IsPresent r.provider_type
  pub account : IsPresent r.provider_account_id
  pub conversation : IsPresent r.provider_conversation_id
  pub thread : IsPresent r.provider_thread_id
  pub event : IsPresent r.provider_event_id
  pub text : (r.reply_text == "") ≡ false

-- What holds of the reply, if a result is one
pub data Yields : Result ProviderInboundNormalizeResult → Type 0 where
  replied : {r : NormalizedProviderSurfaceReply} → IsIdentified r → Yields (ok (surface_reply r))
  left : (reason : ProviderInboundSkipReason) → Yields (ok (skip reason))
  failed : (e : Error) → Yields (err e)

optional_trimmed_present :
    (value s : String) → optional_trimmed value ≡ some s → IsPresent s × ((s == "") ≡ false)
unfolding optional_trimmed is_blank
optional_trimmed_present value s h = elim (Bool-cases (trim value == "")) [
  | inl blank ↦ ground arith
  | inr more ↦
      let same : s ≡ trim value = ground arith in rw same (rw (trim_idempotent value) more, more)
]

field_present :
    (value : Option String) (s : String)
    → optional_field value ≡ some s
    → IsPresent s × ((s == "") ≡ false)
field_present none s h = ground arith
field_present (some v) s h = optional_trimmed_present v s h

required_present :
    (field : String) (value : Option String) (s : String)
    → required_trimmed field value ≡ ok s
    → IsPresent s
unfolding required_trimmed
required_present field value s h = elim (Option-cases (optional_field value)) [
  | inl absent ↦ ground arith
  | inr (t, e) ↦ let same : t ≡ s = ground arith in rw (← same) (field_present value t e).0
]

other_present :
    (value : Option String) (taken s : String) → other_than value taken ≡ some s → IsPresent s
other_present value taken s h = elim (Option-cases (optional_field value)) [
  | inl absent ↦ ground arith
  | inr (t, e) ↦ let same : t ≡ s = ground arith in rw (← same) (field_present value t e).0
]

ensure_field_present : (field value : String) → ensure_field field value ≡ ok tt → IsPresent value
unfolding ensure_field
ensure_field_present field value h = ground arith

Yields->>= :
    {A : Type 0} (m : Result A) (f : A → Result ProviderInboundNormalizeResult)
    → ((a : A) → m ≡ ok a → Yields (f a))
    → Yields (m >>= f)
Yields->>= (ok a) f h = h a refl
Yields->>= (err e) f h = failed e

Yields->> :
    (m : Result (Unit {0})) (f : Result ProviderInboundNormalizeResult)
    → (m ≡ ok tt → Yields f)
    → Yields (m >> f)
Yields->> (ok tt) f h = h refl
Yields->> (err e) f h = failed e

Yields-or_return :
    {A : Type 0} (o : Option A) (reason : ProviderInboundSkipReason)
    (f : A → Result ProviderInboundNormalizeResult)
    → ((a : A) → o ≡ some a → Yields (f a))
    → Yields (or_return o (skip reason) f)
Yields-or_return none reason f h = left reason
Yields-or_return (some a) reason f h = h a refl

Yields-return_unless :
    (b : Bool) (reason : ProviderInboundSkipReason)
    (f : Unit {0} → Result ProviderInboundNormalizeResult)
    → Yields (f tt)
    → Yields (return_unless b (skip reason) f)
Yields-return_unless true reason f h = h
Yields-return_unless false reason f h = left reason

Yields-if :
    (b : Bool) (reason : ProviderInboundSkipReason) (r : Result ProviderInboundNormalizeResult)
    → (b ≡ false → Yields r)
    → Yields (if b then ok (skip reason) else r)
Yields-if true reason r h = left reason
Yields-if false reason r h = h refl

text_present :
    (value : Option String) (s : String) → optional_field value ≡ some s → (s == "") ≡ false
text_present value s h = (field_present value s h).1

reply-IsIdentified :
    (r : NormalizedProviderSurfaceReply)
    → IsPresent r.provider_id
    → IsPresent r.provider_type
    → IsPresent r.provider_account_id
    → IsPresent r.provider_conversation_id
    → IsPresent r.provider_thread_id
    → IsPresent r.provider_event_id
    → (r.reply_text == "") ≡ false
    → Yields (ok (surface_reply r))
reply-IsIdentified r p k a c t e x = replied (record {
  provider = p;
  kind = k;
  account = a;
  conversation = c;
  thread = t;
  event = e;
  text = x;
})

slack_present : IsPresent "slack"
unfolding is_blank
slack_present = refl

lark_present : IsPresent "feishu_lark"
unfolding is_blank
lark_present = refl

ruleset rules = (
  Yields-if, Yields->>=, Yields->>, Yields-or_return, Yields-return_unless, reply-IsIdentified,
  slack_present, lark_present, required_present, other_present, text_present, ensure_field_present,
)

normalize_message_identified :
    (provider_id team_id event_id : String) (event : SlackMessageEvent)
    → IsPresent provider_id
    → IsPresent team_id
    → IsPresent event_id
    → Yields (normalize_message provider_id team_id event_id event)
unfolding normalize_message
normalize_message_identified provider_id team_id event_id event p t e = search rules depth 16

normalize_payload_identified :
    (provider_id : String) (payload : SlackEventCallbackPayload)
    → IsPresent provider_id
    → Yields (normalize_payload provider_id payload)
unfolding normalize_payload
normalize_payload_identified provider_id payload p =
    search (rules, normalize_message_identified) depth 12

normalize_envelope_identified :
    (provider_id : String) (envelope : SlackSocketModeEnvelope)
    → IsPresent provider_id
    → Yields (normalize_envelope provider_id envelope)
unfolding normalize_envelope
normalize_envelope_identified provider_id envelope p =
    search (rules, normalize_payload_identified) depth 12

pub slack_identified :
    {Bytes : Type 0} (from_slice : Bytes → Option SlackSocketModeEnvelope) (provider_id : String)
    (raw : Bytes)
    → Yields (normalize_slack_socket_mode_surface_reply from_slice provider_id raw)
unfolding normalize_slack_socket_mode_surface_reply
slack_identified from_slice provider_id raw = search (rules, normalize_envelope_identified) depth 12

module _ (from_str : String → Option FeishuLarkTextContent) where
  reply_message_identified :
      (provider_id bot_open_id tenant_key : String) (message : FeishuLarkEventMessage)
      → IsPresent provider_id
      → IsPresent tenant_key
      → Yields (normalize_reply_message from_str provider_id bot_open_id tenant_key message)
  unfolding normalize_reply_message
  reply_message_identified provider_id bot_open_id tenant_key message p t = search rules depth 24

  reply_event_identified :
      (provider_id bot_open_id : String) (header : FeishuLarkEventHeader)
      (body : Option FeishuLarkEventBody)
      → IsPresent provider_id
      → Yields (normalize_reply_event from_str provider_id bot_open_id header body)
  unfolding normalize_reply_event
  reply_event_identified provider_id bot_open_id header body p =
      search (rules, reply_message_identified) depth 16

  pub lark_identified :
      {Bytes : Type 0} (from_slice : Bytes → Option FeishuLarkEventEnvelope)
      (provider_id bot_open_id : String) (raw : Bytes)
      → Yields (
          normalize_feishu_lark_long_connection_surface_reply from_str from_slice provider_id
            bot_open_id raw)
  unfolding normalize_feishu_lark_long_connection_surface_reply
  lark_identified from_slice provider_id bot_open_id raw =
      search (rules, reply_event_identified) depth 16
