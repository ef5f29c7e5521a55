-- ===== src/Server.antt =====
-- src/srv.rs: the task that owns the core, and the handlers of requests. A handler sends one
-- message to the task and waits for the answer; the task serves one message at a time. So a
-- request is one step of the state of the task.
pub mod Lines
pub mod LineLaws
pub mod GetLaws
pub mod SubLaws
pub mod SubForever
pub mod Notified
pub mod SubTests
pub mod Reach
pub mod Replay
pub mod Start
pub mod Addresses
pub mod Started
pub mod StartTests
pub mod StartedTests
pub mod Tests
pub mod RouterTests
use nkv.Base.{
  Option, ℕ, Text, literal, Bool, true, false, some, none, List, [], ◌∷◌, ◌++◌, if◌then◌else◌,
  list_eq, number_eq,
}
use nkv.Base.Dict
use nkv.Base.Dict.{Dict}
use nkv.Errors.{Result, ok, err, NotifyKeyValueError, no_error}
use nkv.Message.{Message}
use nkv.Storage.{Bytes, StorageEngine}
use nkv.Channels.{Mpsc}
use nkv.Core
use nkv.Core.{NkvCore}
use nkv.Core.Put
use nkv.Core.Delete
use nkv.Core.Subscribe
use nkv.Protocol.Request
use nkv.Protocol.Request.{ServerRequest, BaseMessage, PutMessage}
use nkv.Protocol.Response.{BaseResp, DataResp, ServerResponse, base, map_response, trace, version}

-- `Notifier` of src/notifier.rs as the task sees it: the receiver it reads, and the connections
-- by the uuid of the client. A connection (`SinkWriter`) is a number.
pub record Notifier : Type 0 where
  pub receiver : ℕ
  pub clients : Dict Text ℕ

-- `Notifier::new`, without the tasks that it spawns.
unfoldable pub new_notifier : ℕ → Notifier
new_notifier rx = record { receiver = rx; clients = [] }

-- `Notifier::subscribe`
unfoldable pub add_client : Notifier → Text → ℕ → Notifier
add_client n uuid writer = record n { clients = Dict.insert uuid writer n.clients }

-- `NkvGetResp` and `NkvTraceResp`
pub record TaskResp {ℓ} (A : Type ℓ) : Type ℓ where
  pub error : NotifyKeyValueError
  pub value : A

-- `match r { Ok(_) => NoError, Err(e) => e }`
abbrev pub error_of {ℓ} : {A : Type ℓ} → Result A NotifyKeyValueError → NotifyKeyValueError
error_of (ok _) = no_error
error_of (err e) = e

-- `env!("CARGO_PKG_VERSION")`
abbrev pub pkg_version : Text
pkg_version = literal "0.1.1"

-- `match err { NoError => true, _ => false }`
unfoldable pub status_of : NotifyKeyValueError → Bool
status_of no_error = true
status_of _ = false

-- The answer to GET and TRACE: what was found, or NotFound.
unfoldable pub answer_of {ℓ} : {A : Type ℓ} → List A → TaskResp (List A)
answer_of [] = record { error = NotifyKeyValueError.not_found; value = [] }
answer_of (x ∷ xs) = record { error = no_error; value = x ∷ xs }

module _ (S : StorageEngine) (Q : Mpsc Message) where
  -- What the task owns.
  pub record Task : Type 0 where
    pub nkv : NkvCore S Q
    pub notifiers : Dict Text Notifier

  unfoldable pub serve_get : Task → Text → TaskResp (Dict Text Bytes)
  unfolding answer_of
  serve_get t key = answer_of (Core.get S Q t.nkv key)

  unfoldable pub serve_delete : Task → Text → Task × NotifyKeyValueError
  serve_delete t key =
      let (nkv, deleted) = Delete.delete S Q t.nkv key in (record t { nkv = nkv }, error_of deleted)

  unfoldable pub serve_sub : Task → Text → Text → ℕ → Task × NotifyKeyValueError
  unfolding new_notifier add_client
  serve_sub t key uuid writer = elim (Dict.lookup key t.notifiers) [
    | some n ↦
        (record t { notifiers = Dict.insert key (add_client n uuid writer) t.notifiers }, no_error)
    | none ↦
        let (nkv, subscribed) = Subscribe.subscribe S Q t.nkv key uuid in
        elim subscribed [
          | err e ↦ (record t { nkv = nkv }, e)
          | ok rx ↦
              let n = add_client (new_notifier rx) uuid writer in
              (record { nkv = nkv; notifiers = Dict.insert key n t.notifiers }, no_error)
        ]
  ]

  unfoldable pub serve_unsub : Task → Text → Text → Task × NotifyKeyValueError
  serve_unsub t key uuid =
      let (nkv, closed) = Subscribe.unsubscribe S Q t.nkv key uuid in
      (record t { nkv = nkv }, error_of closed)

  unfoldable pub serve_trace : Task → Text → TaskResp (List Text)
  unfolding answer_of
  serve_trace t key = answer_of (Subscribe.trace S Q t.nkv key)

unfoldable pub base_reply : Text → NotifyKeyValueError → ServerResponse
unfolding status_of
base_reply id error = base (record { id = id; status = status_of error })

module _ (S : StorageEngine) (Q : Mpsc Message) (is_match : Text → Text → Bool) where
  unfoldable pub serve_put : Task S Q → Text → Bytes → Task S Q × NotifyKeyValueError
  serve_put t key value =
      let (nkv, stored) = Put.put S Q is_match t.nkv key value in
      (record t { nkv = nkv }, error_of stored)

  unfoldable pub handle_put : Task S Q → PutMessage → Task S Q × ServerResponse
  unfolding serve_put base_reply
  handle_put t m =
      let (t', error) = serve_put t m.base.key m.value in (t', base_reply m.base.id error)

module _ (S : StorageEngine) (Q : Mpsc Message) where
  unfoldable pub handle_get : Task S Q → BaseMessage → ServerResponse
  unfolding serve_get status_of
  handle_get t m =
      let r = serve_get S Q t m.key in
      let head : BaseResp = record { id = m.id; status = status_of r.error } in
      map_response (record { base = head; content = r.value })

  unfoldable pub handle_delete : Task S Q → BaseMessage → Task S Q × ServerResponse
  unfolding serve_delete base_reply
  handle_delete t m = let (t', error) = serve_delete S Q t m.key in (t', base_reply m.id error)

  -- The answer of the task is dropped: a subscription has no reply.
  unfoldable pub handle_sub : Task S Q → BaseMessage → ℕ → Task S Q
  unfolding serve_sub
  handle_sub t m writer = (serve_sub S Q t m.key m.client_uuid writer).0

  unfoldable pub handle_unsub : Task S Q → BaseMessage → Task S Q × ServerResponse
  unfolding serve_unsub base_reply
  handle_unsub t m =
      let (t', error) = serve_unsub S Q t m.key m.client_uuid in (t', base_reply m.id error)

  unfoldable pub handle_trace : Task S Q → BaseMessage → ServerResponse
  unfolding serve_trace status_of
  handle_trace t m =
      let r = serve_trace S Q t m.key in
      let head : BaseResp = record { id = m.id; status = status_of r.error } in
      trace (record { base = head; content = r.value })

unfoldable pub handle_health : BaseMessage → ServerResponse
handle_health m = base (record { id = m.id; status = true })

unfoldable pub handle_version : BaseMessage → ServerResponse
handle_version m =
    let head : BaseResp = record { id = m.id; status = true } in
    version (record { base = head; content = pkg_version })

module _ (S : StorageEngine) (Q : Mpsc Message) (is_match : Text → Text → Bool) where
  -- The `match` of `handle_request`, with the connection that the request came on.
  unfoldable pub handle : Task S Q → ServerRequest → ℕ → Task S Q × Option ServerResponse
  unfolding handle_put handle_get handle_delete handle_sub handle_unsub handle_trace handle_health
      handle_version
  handle t (ServerRequest.put m) writer =
      let (t', reply) = handle_put S Q is_match t m in (t', some reply)
  handle t (ServerRequest.get m) writer = (t, some (handle_get S Q t m))
  handle t (ServerRequest.delete m) writer =
      let (t', reply) = handle_delete S Q t m in (t', some reply)
  handle t (ServerRequest.subscribe m) writer = (handle_sub S Q t m writer, none)
  handle t (ServerRequest.unsubscribe m) writer =
      let (t', reply) = handle_unsub S Q t m in (t', some reply)
  handle t (ServerRequest.trace m) writer = (t, some (handle_trace S Q t m))
  handle t (ServerRequest.health m) writer = (t, some (handle_health m))
  handle t (ServerRequest.version m) writer = (t, some (handle_version m))
