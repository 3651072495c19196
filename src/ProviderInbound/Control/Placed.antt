-- ===== src/ProviderInbound/Control/Placed.antt =====
-- src/provider_inbound.rs: where a command may be given.
use agents_router.Prelude.{
  String, ◌≡◌, subst, Bool, true, false, Option, none, some, arith, if◌then◌else◌,
}
use agents_router.Exec.{Error, Result, ok, err, or_fail}
use agents_router.Exec.Results.{◌>>=◌, ◌>>◌, or_return, return_unless}
use agents_router.ProviderInbound.Types.{
  ProviderControlNormalizeResult, control_command, NormalizedProviderControlCommand,
  NormalizedProviderRoomEvent, NormalizedProviderProjectRoomAction, room_event, project_room_action,
  ProviderControlSkipReason,
}
use agents_router.ProviderInbound.Lark.{
  FeishuLarkEventHeader, FeishuLarkEventBody, FeishuLarkEventMessage, FeishuLarkEventEnvelope,
  FeishuLarkTextContent,
}
use agents_router.ProviderInbound.Control.{
  normalize_feishu_lark_project_room_action, normalize_bot_added, normalize_command,
  normalize_command_message, normalize_command_event, normalize_by_event_type,
  normalize_feishu_lark_long_connection_control_command,
}
use agents_router.ProviderInbound.Control.InPlace.{IsPlaced, IsPlaced-in_place}

data Placed (message : FeishuLarkEventMessage)
    : Result ProviderControlNormalizeResult → Type 0 where
  placed :
      {c : NormalizedProviderControlCommand}
      → IsPlaced message c
      → Placed message (ok (control_command c))
  event_left : (e : NormalizedProviderRoomEvent) → Placed message (ok (room_event e))
  action_left :
      (a : NormalizedProviderProjectRoomAction) → Placed message (ok (project_room_action a))
  left :
      (reason : ProviderControlSkipReason)
      → Placed message (ok (ProviderControlNormalizeResult.skip reason))
  failed : (e : Error) → Placed message (err e)

module _ (message : FeishuLarkEventMessage) where
  Placed->>= :
      {A : Type 0} (m : Result A) (f : A → Result ProviderControlNormalizeResult)
      → ((a : A) → Placed message (f a))
      → Placed message (m >>= f)
  Placed->>= (ok a) f h = h a
  Placed->>= (err e) f h = failed e

  Placed->> :
      (m : Result (Unit {0})) (f : Result ProviderControlNormalizeResult)
      → Placed message f
      → Placed message (m >> f)
  Placed->> (ok t) f h = h
  Placed->> (err e) f h = failed e

  Placed-or_return :
      {A : Type 0} (o : Option A) (reason : ProviderControlSkipReason)
      (f : A → Result ProviderControlNormalizeResult)
      → ((a : A) → Placed message (f a))
      → Placed message (or_return o (ProviderControlNormalizeResult.skip reason) f)
  Placed-or_return none reason f h = left reason
  Placed-or_return (some a) reason f h = h a

  Placed-return_unless :
      (b : Bool) (reason : ProviderControlSkipReason)
      (f : Unit {0} → Result ProviderControlNormalizeResult)
      → Placed message (f tt)
      → Placed message (return_unless b (ProviderControlNormalizeResult.skip reason) f)
  Placed-return_unless true reason f h = h
  Placed-return_unless false reason f h = left reason

  Placed-if :
      (b : Bool) (r s : Result ProviderControlNormalizeResult)
      → Placed message r
      → Placed message s
      → Placed message (if b then r else s)
  Placed-if true r s h k = h
  Placed-if false r s h k = k

  Placed-command :
      (provider_id tenant_key message_id chat_id text : String)
      → Placed message (normalize_command provider_id tenant_key message_id chat_id message text)
  unfolding normalize_command
  Placed-command provider_id tenant_key message_id chat_id text =
      search (Placed-or_return, placed, IsPlaced-in_place)

ruleset rules = (
  Placed->>=, Placed->>, Placed-or_return, Placed-return_unless, Placed-if, Placed-command,
  event_left, action_left, left,
)

module _ (message : FeishuLarkEventMessage) where
  Placed-action :
      (provider_id : String) (header : FeishuLarkEventHeader) (body : Option FeishuLarkEventBody)
      → Placed message (normalize_feishu_lark_project_room_action provider_id header body)
  unfolding normalize_feishu_lark_project_room_action
  Placed-action provider_id header body = search rules depth 20

  Placed-bot_added :
      (provider_id : String) (header : FeishuLarkEventHeader) (body : Option FeishuLarkEventBody)
      → Placed message (normalize_bot_added provider_id header body)
  unfolding normalize_bot_added
  Placed-bot_added provider_id header body = search rules depth 12

  module _ (from_str : String → Option FeishuLarkTextContent) where
    Placed-message :
        (provider_id bot_open_id tenant_key : String)
        → Placed message
            (normalize_command_message from_str provider_id bot_open_id tenant_key message)
    unfolding normalize_command_message
    Placed-message provider_id bot_open_id tenant_key = search rules depth 24

    Placed-its_message :
        (provider_id bot_open_id tenant_key : String) (o : Option FeishuLarkEventMessage)
        (e : Error)
        → o ≡ some message
        → Placed message
            (or_fail o e >>= normalize_command_message from_str provider_id bot_open_id tenant_key)
    Placed-its_message provider_id bot_open_id tenant_key o e h =
        rw h (Placed-message provider_id bot_open_id tenant_key)

    Placed-known :
        {A : Type 0} (a : A) (e : Error) (f : A → Result ProviderControlNormalizeResult)
        → Placed message (f a)
        → Placed message (or_fail (some a) e >>= f)
    Placed-known a e f h = h

    Placed-event :
        (provider_id bot_open_id : String) (header : FeishuLarkEventHeader)
        (event : FeishuLarkEventBody) (body : Option FeishuLarkEventBody)
        → body ≡ some event
        → event.message ≡ some message
        → Placed message (normalize_command_event from_str provider_id bot_open_id header body)
    unfolding normalize_command_event
    Placed-event provider_id bot_open_id header event body h m =
        rw h (search (Placed-known, Placed-its_message, rules) depth 20)

    Placed-by_event_type :
        (provider_id bot_open_id : String) (header : FeishuLarkEventHeader)
        (event : FeishuLarkEventBody) (body : Option FeishuLarkEventBody)
        → body ≡ some event
        → event.message ≡ some message
        → Placed message (normalize_by_event_type from_str provider_id bot_open_id header body)
    unfolding normalize_by_event_type
    Placed-by_event_type provider_id bot_open_id header event body h m =
        search (rules, Placed-action, Placed-bot_added, Placed-event) depth 12

placed_of :
    (message : FeishuLarkEventMessage) (m : Result ProviderControlNormalizeResult)
    (c : NormalizedProviderControlCommand)
    → Placed message m
    → m ≡ ok (control_command c)
    → IsPlaced message c
placed_of message _ c (placed {c = c'} h) e =
    let same : c' ≡ c = ground arith in subst (IsPlaced message) same h
placed_of message _ c (event_left x) e = ground arith
placed_of message _ c (action_left x) e = ground arith
placed_of message _ c (left reason) e = ground arith
placed_of message _ c (failed x) e = ground arith

Placed-control :
    {Bytes : Type 0} (from_str : String → Option FeishuLarkTextContent)
    (from_slice : Bytes → Option FeishuLarkEventEnvelope) (provider_id bot_open_id : String)
    (raw : Bytes) (envelope : FeishuLarkEventEnvelope) (event : FeishuLarkEventBody)
    (message : FeishuLarkEventMessage)
    → from_slice raw ≡ some envelope
    → envelope.event ≡ some event
    → event.message ≡ some message
    → Placed message (
        normalize_feishu_lark_long_connection_control_command from_str from_slice provider_id
          bot_open_id raw)
unfolding normalize_feishu_lark_long_connection_control_command
Placed-control from_str from_slice provider_id bot_open_id raw envelope event message r b m =
    rw r (search (Placed-known, Placed-by_event_type, rules) depth 12)

-- A command that a message of Feishu or Lark is read as fits the place of the message: in a direct
-- chat it is about no project room, and in a thread, that is where its thread is not the message
-- itself, it is none of those that need the room itself.
pub command_fits_its_place :
    {Bytes : Type 0} (from_str : String → Option FeishuLarkTextContent)
    (from_slice : Bytes → Option FeishuLarkEventEnvelope) (provider_id bot_open_id : String)
    (raw : Bytes) (envelope : FeishuLarkEventEnvelope) (event : FeishuLarkEventBody)
    (message : FeishuLarkEventMessage) (c : NormalizedProviderControlCommand)
    → from_slice raw ≡ some envelope
    → envelope.event ≡ some event
    → event.message ≡ some message
    → normalize_feishu_lark_long_connection_control_command from_str from_slice provider_id
        bot_open_id raw
      ≡ ok (control_command c)
    → IsPlaced message c
command_fits_its_place from_str from_slice provider_id bot_open_id raw envelope event message c r b
      m e =
    placed_of message _ c
      (Placed-control from_str from_slice provider_id bot_open_id raw envelope event message r b m)
      e
