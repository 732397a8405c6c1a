-- ===== src/Sdk/Message.antt =====
-- packages/ac2-sdk/src/schema/types.ts and protocol/messages.ts: envelopes, bodies and their
-- builders. Times are natural numbers; a `number` of an open JSON value is one too. Fresh ids and
-- the clock are arguments.
pub mod Reads
pub mod Reply
mod Tests
use ac.Common.{
  or_else, ℕ, String, Option, none, some, List, [], ◌∷◌, if◌then◌else◌, Bool, ◌==◌, string_eq,
}

-- Any JSON value.
mutual
  pub data Json : Type 0 where
    null : Json
    bool : Bool → Json
    num : ℕ → Json
    str : String → Json
    arr : Items → Json
    obj : Fields → Json

  pub data Items : Type 0 where
    nil : Items
    cons : Json → Items → Items

  pub data Fields : Type 0 where
    end : Fields
    field : String → Json → Fields → Fields

pub data SigningHint : Type 0 where
  raw_ed25519 raw_secp256k1 message_algorand message_evm message_solana typed_data_evm : SigningHint
  transaction_algorand transaction_evm transaction_solana : SigningHint

pub data SignerKey : Type 0 where
  account identity : SignerKey

pub data DisplayHint : Type 0 where
  text json hex : DisplayHint

pub data KeyPurpose : Type 0 where
  encrypt decrypt sign verify derive_key derive_bits wrap_key unwrap_key : KeyPurpose

pub data KeyType : Type 0 where
  ed25519 secp256k1 : KeyType

pub data KeyStatus : Type 0 where
  approved rejected : KeyStatus

pub record SigningRequestBody : Type 0 where
  pub description : String
  pub payload : String
  pub schema : Option String
  pub key_type : Option SignerKey
  pub display_hint : Option DisplayHint
  pub sig_hint : Option SigningHint

pub record SigningResponseBody : Type 0 where
  pub signature : String
  pub public_key : String
  pub address : Option String
  pub key_type : Option SignerKey

pub record SigningRejectedBody : Type 0 where
  pub reason : String

pub record KeyRequestBody : Type 0 where
  pub key_type : KeyType
  pub derivation_path : Option String
  pub purpose : List KeyPurpose
  pub for_operation : String

pub record KeyResponseBody : Type 0 where
  pub status : KeyStatus
  pub key_type : KeyType
  pub material : String
  pub public_key : String
  pub derivation_path : Option String
  pub reason : Option String

-- The body of a message: one of the five shapes, or that of an extension.
pub data Body : Type 0 where
  signing_request : SigningRequestBody → Body
  signing_response : SigningResponseBody → Body
  signing_rejected : SigningRejectedBody → Body
  key_request : KeyRequestBody → Body
  key_response : KeyResponseBody → Body
  extension : Json → Body

pub record Attachment : Type 0 where
  pub id : String
  pub media_type : Option String
  pub description : Option String
  pub content : Json

-- `AC2BaseMessage`; `kind` is its field `type`.
pub record Message : Type 0 where
  pub context : Option (List String)
  pub id : String
  pub kind : String
  pub from : String
  pub to : List String
  pub created_time : ℕ
  pub expires_time : Option ℕ
  pub thid : Option String
  pub pthid : Option String
  pub body : Body
  pub attachments : Option (List Attachment)

-- `EnvelopeFields`.
pub record Envelope : Type 0 where
  pub id : String
  pub from : String
  pub to : List String
  pub created_time : ℕ
  pub expires_time : Option ℕ
  pub thid : Option String
  pub pthid : Option String
  pub attachments : Option (List Attachment)

-- `AC2MessageTypes`.
abbrev pub signing_request_type : String
signing_request_type = "ac2/SigningRequest"

abbrev pub signing_response_type : String
signing_response_type = "ac2/SigningResponse"

abbrev pub signing_rejected_type : String
signing_rejected_type = "ac2/SigningRejected"

abbrev pub key_request_type : String
key_request_type = "ac2/KeyRequest"

abbrev pub key_response_type : String
key_response_type = "ac2/KeyResponse"

-- A field that is undefined in the envelope is left out of the message.
unfoldable pub create_base_message : String → Envelope → Body → Message
create_base_message kind e body = record {
  context = none;
  id = e.id;
  kind = kind;
  from = e.from;
  to = e.to;
  created_time = e.created_time;
  expires_time = e.expires_time;
  thid = e.thid;
  pthid = e.pthid;
  body = body;
  attachments = e.attachments;
}

unfoldable pub create_signing_request : Envelope → SigningRequestBody → Message
unfolding create_base_message
create_signing_request e body = create_base_message signing_request_type e (signing_request body)

unfoldable pub create_signing_response : Envelope → SigningResponseBody → Message
unfolding create_base_message
create_signing_response e body = create_base_message signing_response_type e (signing_response body)

unfoldable pub create_signing_rejected : Envelope → SigningRejectedBody → Message
unfolding create_base_message
create_signing_rejected e body = create_base_message signing_rejected_type e (signing_rejected body)

unfoldable pub create_key_request : Envelope → KeyRequestBody → Message
unfolding create_base_message
create_key_request e body = create_base_message key_request_type e (key_request body)

unfoldable pub create_key_response : Envelope → KeyResponseBody → Message
unfolding create_base_message
create_key_response e body = create_base_message key_response_type e (key_response body)

abbrev first : List String → Option String
first [] = none
first (x ∷ xs) = some x

-- An empty text is falsy.
abbrev truthy : Option String → Option String
truthy none = none
truthy (some s) = if s == "" then none else some s

-- `none` is the error that `from` could not be inferred.
unfoldable pub infer_reply_from : Message → Option String → Option String
infer_reply_from request none = truthy (first request.to)
infer_reply_from request (some from) = truthy (some from)

-- The arguments that the three reply builders share. `fresh_id` is what `generateMessageId` returns
-- in this call and `now` the clock, in seconds.
pub record ReplyArgs : Type 0 where
  pub request : Message
  pub from : Option String
  pub id : Option String
  pub created_time : Option ℕ
  pub expires_time : Option ℕ
  pub fresh_id : String
  pub now : ℕ

unfoldable pub build_reply_envelope : ReplyArgs → String → Envelope
build_reply_envelope args from = record {
  id = or_else args.id args.fresh_id;
  from = from;
  to = args.request.from ∷ [];
  created_time = or_else args.created_time args.now;
  expires_time = args.expires_time;
  thid = some args.request.id;
  pthid = none;
  attachments = none;
}

-- `inferReplyFrom`, `buildReplyEnvelope` and a constructor, as all three builders chain them.
unfoldable pub build_reply : ReplyArgs → (Envelope → Message) → Option Message
unfolding infer_reply_from build_reply_envelope
build_reply args create = elim (infer_reply_from args.request args.from) [
  | none ↦ none
  | some from ↦ some (create (build_reply_envelope args from))
]

unfoldable pub build_signing_response : ReplyArgs → SigningResponseBody → Option Message
unfolding build_reply create_signing_response
build_signing_response args body = build_reply args (λ e. create_signing_response e body)

unfoldable pub build_signing_rejected : ReplyArgs → String → Option Message
unfolding build_reply create_signing_rejected
build_signing_rejected args reason =
    build_reply args (λ e. create_signing_rejected e (record { reason = reason }))

unfoldable pub build_key_response : ReplyArgs → KeyResponseBody → Option Message
unfolding build_reply create_key_response
build_key_response args body = build_reply args (λ e. create_key_response e body)
