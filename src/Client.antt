-- ===== src/Client.antt =====
-- `NkvClient` of src/lib.rs. A v4 UUID of the crate `uuid` is an argument of the methods that draw
-- one, and the network is an interface: a request goes out on a connection of its own.
pub mod Wire
pub mod Tests
use nkv.Base.{
  Text, literal, Bool, true, false, Option, none, some, [], ◌∷◌, ◌++◌, if◌then◌else◌, ◌==◌, list_eq,
  number_eq,
}
use nkv.Base.Dict
use nkv.Base.Dict.{Dict}
use nkv.Errors.{Result, ok, err, IoError, ErrorKind, display_serializing}
use nkv.Message.{Message}
use nkv.Storage.{Bytes}
use nkv.Notifier.Subscriber
use nkv.Notifier.Subscriber.{Subscriber}
use nkv.Protocol.{Failure, failed, panic}
use nkv.Protocol.Trim.{trim_end}
use nkv.Protocol.Base64.{Base64}
use nkv.Protocol.Request.{ServerRequest, BaseMessage, print_request}
use nkv.Protocol.Response.{ServerResponse, base, parse_response}

pub record NkvClient : Type 0 where
  pub addr : Text
  pub client_uuid : Text
  pub subscriptions : Dict Text Text

-- `LOCAL_UUID`
abbrev pub local_uuid : Text
local_uuid = literal "0"

-- `NkvClient::uuid`
abbrev pub uuid : Text → Text
uuid v4 = literal "rust-nkv-client-" ++ v4

unfoldable pub new : Text → Text → Text → NkvClient
new addr client_uuid v4 = record {
  addr = addr;
  client_uuid = if client_uuid == [] then uuid v4 else client_uuid;
  subscriptions = [];
}

-- What stands between a client and the server at an address: a line is sent on a new connection,
-- and the next line of that connection is the answer, if there is one before the connection ends.
pub record Network : Type 1 where
  pub State : Type 0
  pub exchange : State → Text → Text → State × Result (Option Text) IoError

-- A method returns an error or panics (`unwrap`).
pub data ClientFailure : Type 0 where
  io_failure : IoError → ClientFailure
  panicked : ClientFailure

abbrev pub Answer : Type 0
Answer = Result ServerResponse ClientFailure

-- The message that a request about a key carries.
abbrev pub message : NkvClient → Text → Text → BaseMessage
message c key id = record { id = id; key = key; client_uuid = c.client_uuid }

module _ (N : Network) (B : Base64) where
  -- The part of `send_request` behind the answer.
  unfoldable pub read_response : Result (Option Text) IoError → Answer
  read_response (err e) = err (io_failure e)
  read_response (ok none) = err panicked
  read_response (ok (some line)) = elim (parse_response B (trim_end line)) [
    | ok response ↦ ok response
    | err e ↦ elim e [
      | failed why ↦ err (
          io_failure (record {
            kind = ErrorKind.other;
            message =
                literal "failed to parse message to Server Response: " ++ display_serializing why;
          }))
      | panic ↦ err panicked
    ]
  ]

  unfoldable pub send_request : NkvClient → N.State → ServerRequest → N.State × Answer
  unfolding read_response
  send_request c w request =
      let (w', answer) = N.exchange w c.addr (print_request B request ++ b'\n' ∷ []) in
      (w', read_response answer)

  unfoldable pub get : NkvClient → N.State → Text → Text → N.State × Answer
  get c w key v4 = send_request c w (ServerRequest.get (message c key (uuid v4)))

  unfoldable pub put : NkvClient → N.State → Text → Bytes → Text → N.State × Answer
  put c w key val v4 =
      send_request c w (ServerRequest.put (record { base = message c key (uuid v4); value = val }))

  unfoldable pub delete : NkvClient → N.State → Text → Text → N.State × Answer
  delete c w key v4 = send_request c w (ServerRequest.delete (message c key (uuid v4)))

  -- The id of the request is that of the subscription; without one nothing is sent.
  unfoldable pub unsubscribe : NkvClient → N.State → Text → N.State × Answer
  unsubscribe c w key = elim (Dict.lookup key c.subscriptions) [
    | some req_id ↦ send_request c w (ServerRequest.unsubscribe (message c key req_id))
    | none ↦ (w, ok (base (record { id = local_uuid; status = false })))
  ]

  unfoldable pub trace : NkvClient → N.State → Text → Text → N.State × Answer
  trace c w key v4 = send_request c w (ServerRequest.trace (message c key (uuid v4)))

  unfoldable pub health : NkvClient → N.State → Text → N.State × Answer
  health c w v4 = send_request c w (ServerRequest.health (message c (literal "HK") (uuid v4)))

  unfoldable pub version : NkvClient → N.State → N.State × Answer
  version c w =
      send_request c w (ServerRequest.version (message c (literal "DISCARDME") c.client_uuid))

-- `subscribe`: a subscriber is made and started, unless there was one for the key before.
unfoldable pub subscribe : NkvClient → Text → Text → NkvClient × ServerResponse × Option Subscriber
unfolding Subscriber.new
subscribe c key v4 = elim (Dict.lookup key c.subscriptions) [
  | some req_id ↦ (c, base (record { id = req_id; status = false }), none)
  | none ↦ (
    record c { subscriptions = Dict.insert key (uuid v4) c.subscriptions },
    base (record { id = c.client_uuid; status = true }),
    some (Subscriber.new c.addr key c.client_uuid).0,
  )
]
