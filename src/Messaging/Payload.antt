-- ===== src/Messaging/Payload.antt =====
-- server/messaging/model.ts: the payload of a message, its schema, its canonical form, and the
-- handoff of an inbox message to the agent.
use open_instinct.Base.{
  ℕ, Bool, true, false, ◌&&◌, ◌||◌, Option, none, some, List, [], ◌∷◌, Text, codes, text_eq, trim,
  has_length, trimmed_text, length, leb, ◌==◌,
}
use mathlib.Core.Option.{get_or}

pub record InputReference : Type 0 where
  pub session_id : Text
  pub request_id : Text
  pub revision : Text

pub record Attachment : Type 0 where
  pub id : Text
  pub media_type : Text
  pub name : Option Text

pub record MessagePayload : Type 0 where
  pub input_request : Option InputReference
  pub source_occurred_at_ms : Option ℕ
  pub text : Option Text
  pub attachments : Option (List Attachment)
  pub reply_to_message_id : Option Text
  pub delivery_target_id : Option Text
  pub conversation_scope : Option Text

-- What the store takes from the platform: the SHA-256 of a text that JSON.stringify makes of a
-- payload, that of the pair of a source message and such a digest, and the text of a UUID.
pub record Digest : Type 0 where
  pub payload_digest : MessagePayload → Text
  pub event_digest : Option Text → Text → Text
  pub uuid_text : ℕ → Text

-- `reference`
unfoldable pub reference : Text → Bool
unfolding trimmed_text
reference text = trimmed_text 1 256 text

-- `Schema.optionalKey` and `Schema.NullOr`
abbrev pub optional : {A : Type 0} → (A → Bool) → Option A → Bool
optional test none = true
optional test (some a) = test a

abbrev pub every : {A : Type 0} → (A → Bool) → List A → Bool
every test [] = true
every test (a ∷ rest) = test a && every test rest

-- /^[0-9a-f]$/
is_hex : ℕ → Bool
is_hex c = (leb b'0' c && leb c b'9') || (leb b'a' c && leb c b'f')

-- /^[0-9a-f]{64}$/
is_digest : Text → Bool
unfolding is_hex
is_digest text = length text == 64 && every is_hex text

unfoldable pub input_reference_schema : InputReference → Bool
unfolding reference is_digest
input_reference_schema r = reference r.session_id && reference r.request_id && is_digest r.revision

attachment_schema : Attachment → Bool
unfolding reference has_length
attachment_schema a = reference a.id && has_length 1 128 a.media_type && optional reference a.name

-- `Boolean(message.text?.trim())`
has_words : Option Text → Bool
unfolding has_length trim
has_words none = false
has_words (some text) = leb 1 (length (trim text))

unfoldable pub message_payload_schema : MessagePayload → Bool
unfolding input_reference_schema attachment_schema has_words reference has_length trimmed_text
message_payload_schema m =
    optional input_reference_schema m.input_request
    && optional (has_length 1 16384) m.text
    && optional (λ found. every attachment_schema found && leb (length found) 10) m.attachments
    && optional reference m.reply_to_message_id
    && optional reference m.delivery_target_id
    && optional (trimmed_text 1 320) m.conversation_scope
    && (has_words m.text || leb 1 (length (get_or m.attachments [])))

-- `canonicalPayload(payload).payload`: a missing list of attachments is the empty one.
unfoldable pub canonical_payload : MessagePayload → MessagePayload
canonical_payload m = record m { attachments = some (get_or m.attachments []) }

-- `NativeInboxContentSchema`
pub data Content : Type 0 where
  plain : Text → Content
  parts : List Text → Content

nonempty : Text → Bool
nonempty [] = false
nonempty (_ ∷ _) = true

unfoldable pub native_inbox_content_schema : Content → Bool
unfolding nonempty
native_inbox_content_schema (plain text) = nonempty text
native_inbox_content_schema (parts texts) = leb 1 (length texts) && every nonempty texts

texts_eq : List Text → List Text → Bool
unfolding text_eq
texts_eq [] [] = true
texts_eq (s ∷ ss) (t ∷ ts) = text_eq s t && texts_eq ss ts
texts_eq _ _ = false

-- Equality of two contents as `jsonb` values.
unfoldable pub content_eq : Content → Content → Bool
unfolding texts_eq text_eq
content_eq (plain s) (plain t) = text_eq s t
content_eq (parts ss) (parts ts) = texts_eq ss ts
content_eq _ _ = false

-- `NativeInboxHandoffSchema`, less the literal `protocol`.
pub record Handoff : Type 0 where
  pub input_id : ℕ
  pub channel : Text
  pub address : Text
  pub principal_id : Text
  pub content : Option Content

-- `channelProviderSchema`
is_provider : Text → Bool
unfolding codes text_eq
is_provider channel = text_eq channel (codes "telegram") || text_eq channel (codes "kapso")

unfoldable pub native_inbox_handoff_schema : Handoff → Bool
unfolding is_provider trimmed_text nonempty native_inbox_content_schema
native_inbox_handoff_schema h =
    is_provider h.channel
    && trimmed_text 1 320 h.address
    && nonempty h.principal_id
    && optional native_inbox_content_schema h.content
