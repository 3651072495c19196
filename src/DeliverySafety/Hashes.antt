-- ===== src/DeliverySafety/Hashes.antt =====
-- src/delivery_safety.rs: the fingerprint of a message and the key of a delivery. `sha256` stands
-- for the sha2 crate: the digest of the UTF-8 bytes of a text.
use agents_router.Prelude.{ℕ, String, Option, none, some, List, [], ◌∷◌, and_then, unwrap_or}
use agents_router.Prelude.Text.{concat, hex}
use agents_router.Signal.{
  Signal, SignalEventKind, SignalAnswerKind, SignalAnswer, turn_completed, custom, preview, full,
  source_id, source_type,
}

abbrev event_kind_key : SignalEventKind → String
event_kind_key turn_completed = "turn_completed"
event_kind_key custom = "custom"

abbrev answer_kind_key : SignalAnswerKind → String
answer_kind_key preview = "preview"
answer_kind_key full = "full"

module _ (sha256 : String → List ℕ) where
  stable_hash : String → String
  stable_hash value = hex (sha256 value)

  answer_hash_of : Option SignalAnswer → String
  unfolding stable_hash
  answer_hash_of none = "none"
  answer_hash_of (some a) = stable_hash a.content

  display_hash_of : Signal → Option SignalAnswer → String
  unfolding stable_hash
  display_hash_of s none =
      stable_hash
        (concat ("title=" ∷ s.display.title ∷ "\nsummary=" ∷ s.display.summary ∷ "\n" ∷ []))
  display_hash_of s (some a) = "structured"

  answer_kind_of : Option SignalAnswer → String
  answer_kind_of none = "none"
  answer_kind_of (some a) = answer_kind_key a.kind

  pub message_fingerprint_hash : Signal → String
  unfolding stable_hash answer_hash_of display_hash_of answer_kind_of
  message_fingerprint_hash s =
      let answer = and_then s.conversation (λ c. c.answer) in
      stable_hash (
        concat (
          "v=1\nsource.id="
          ∷ source_id s
          ∷ "\nsource.type="
          ∷ source_type s
          ∷ "\nevent.kind="
          ∷ event_kind_key s.event.kind
          ∷ "\nevent.raw="
          ∷ unwrap_or s.event.raw_name ""
          ∷ "\nsession.id="
          ∷ unwrap_or (and_then s.conversation (λ c. c.session_id)) ""
          ∷ "\nturn.id="
          ∷ unwrap_or (and_then s.conversation (λ c. c.turn_id)) ""
          ∷ "\nproject.path="
          ∷ unwrap_or (and_then s.workspace (λ w. w.project_path)) ""
          ∷ "\nanswer.kind="
          ∷ answer_kind_of answer
          ∷ "\nanswer.hash="
          ∷ answer_hash_of answer
          ∷ "\ndisplay.hash="
          ∷ display_hash_of s answer
          ∷ "\n"
          ∷ []))

  pub delivery_key_hash : String → Option String → String → String
  unfolding stable_hash
  delivery_key_hash provider_id provider_target_id fingerprint = stable_hash (
      concat (
        "v=2\nprovider.id="
        ∷ provider_id
        ∷ "\nprovider.target_id="
        ∷ unwrap_or provider_target_id ""
        ∷ "\nmessage.fingerprint="
        ∷ fingerprint
        ∷ "\n"
        ∷ []))
