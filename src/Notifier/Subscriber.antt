-- ===== src/Notifier/Subscriber.antt =====
-- `Subscriber` of src/notifier.rs, the end of a subscription at the client. It sends one request
-- and then reads lines; the last message that it could read is the value of a watch channel.
use nkv.Base.{Text, List, [], ◌∷◌}
use nkv.Errors.{Result, ok, err}
use nkv.Message.{Message, hello}
use nkv.Protocol.{Failure, failed, panic}
use nkv.Protocol.Trim.{trim_end}
use nkv.Protocol.Base64.{Base64}
use nkv.Protocol.Request.{ServerRequest}
use nkv.Protocol.Notice.{parse_message}

pub record Subscriber : Type 0 where
  pub addr : Text
  pub key : Text
  pub uuid : Text

-- `Subscriber::new`, with the first value of the watch channel.
unfoldable pub new : Text → Text → Text → Subscriber × Message
new addr key uuid = (record { addr = addr; key = key; uuid = uuid }, hello)

-- The request that `connect` sends.
unfoldable pub subscription_request : Subscriber → ServerRequest
subscription_request s =
    ServerRequest.subscribe (record { id = s.uuid; key = s.key; client_uuid = s.uuid })

module _ (B : Base64) where
  -- `parse_message`: a text that is no message is only logged.
  unfoldable pub hear : Text → Message → Result Message Failure
  hear line seen = elim (parse_message B line) [
    | ok m ↦ ok m
    | err e ↦ elim e [ failed _ ↦ ok seen | panic ↦ err panic ]
  ]

  -- The loop of `connect` over the lines of the stream: the value of the watch channel at its end.
  unfoldable pub connect : List Text → Message → Result Message Failure
  unfolding hear
  connect [] seen = ok seen
  connect (line ∷ lines) seen = elim (hear (trim_end line) seen) [
    | err e ↦ err e
    | ok m ↦ connect lines m
  ]
