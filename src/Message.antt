-- ===== src/Message.antt =====
-- message/message.go and message/types.go: the message that the services exchange.
use cliros.Prelude.{String, List, [], ◌≡◌, refl, arith}
use cliros.Errors.{Error, leaf}
use cliros.Effect.{Result, ok, err}

-- The string type `MessageType`: `EventTypeComplete`, `EventTypeFailed`, or any other text.
pub data MessageType : Type 0 where
  complete failed : MessageType
  unknown_type : String → MessageType

pub record MessageMeta : Type 0 where
  pub message_type : MessageType
  pub from_step : String
  pub saga_id : String
  pub traceparent : String
  pub tracestate : String

-- `map[string]any`, with `A` for `any`; a nil map is the empty one.
abbrev pub MessagePayload : Type 0 → Type 0
MessagePayload A = List (String × A)

pub record Message (A : Type 0) : Type 0 where
  pub meta : MessageMeta
  pub open meta use *
  pub payload : MessagePayload A

-- `message.Message{}`
abbrev pub empty_meta : MessageMeta
empty_meta = record {
  message_type = unknown_type "";
  from_step = "";
  saga_id = "";
  traceparent = "";
  tracestate = "";
}

abbrev pub empty_message : {A : Type 0} → Message A
empty_message = record { meta = empty_meta; payload = [] }

check_type : MessageType → Result MessageType
check_type (unknown_type s) = err (leaf "invalid message type")
check_type t = ok t

-- `Message.GetType`
unfoldable pub get_type : {A : Type 0} → Message A → Result MessageType
unfolding check_type
get_type m = check_type m.message_type

check_type-ok : (s t : MessageType) → check_type s ≡ ok t → s ≡ t
unfolding check_type
check_type-ok complete t e = ground arith
check_type-ok failed t e = ground arith
check_type-ok (unknown_type s) t e = cc

pub get_type-ok :
    {A : Type 0} (m : Message A) (t : MessageType) → get_type m ≡ ok t → m.message_type ≡ t
unfolding get_type
get_type-ok m t e = check_type-ok m.message_type t e

check_type-err :
    (s : MessageType) (x : Error) → check_type s ≡ err x → (kind : String) × (s ≡ unknown_type kind)
unfolding check_type
check_type-err complete x e = absurd cc
check_type-err failed x e = absurd cc
check_type-err (unknown_type s) x e = (s, refl)

-- Only a type that is neither of the two is refused.
pub get_type-err :
    {A : Type 0} (m : Message A) (x : Error)
    → get_type m ≡ err x
    → (kind : String) × (m.message_type ≡ unknown_type kind)
unfolding get_type
get_type-err m x e = check_type-err m.message_type x e

-- `Message.GetSagaID`
unfoldable pub get_saga_id : {A : Type 0} → Message A → String
get_saga_id m = m.saga_id

-- Writes to one field of the embedded `MessageMeta`.
abbrev pub with_saga_id : {A : Type 0} → String → Message A → Message A
with_saga_id s m = record m { meta = record m.meta { saga_id = s } }

abbrev pub with_origin : {A : Type 0} → MessageType → String → Message A → Message A
with_origin t s m = record m { meta = record m.meta { message_type = t; from_step = s } }
