-- ===== src/Server/SubTests.antt =====
-- Clients that subscribe to one key of the server of src/srv.rs, one after the other.
use nkv.Base.{ℕ, literal, true, none, some, list_eq, number_eq, ◌++◌, ◌≡◌, refl, List, [], ◌∷◌}
use nkv.Base.Dict
use nkv.Message.{Message, hello, close, update}
use nkv.Channels.{list_view, list_channels-IsLawful}
use nkv.Storage.Memory.{memory_storage}
use nkv.Core.{get}
use nkv.Core.Greeting.{updates}
use nkv.Core.Addresses.{AreManaged, new-IsManaged}
use nkv.Core.Tests.{Q, is_match, code, filled, accepts_ab}
use nkv.Core.DeliveryTests.{filled_stored, filled_absent, filled_plain, filled_open, same_path}
use nkv.Protocol.Request.{ServerRequest, BaseMessage, PutMessage}
use nkv.Protocol.Response.{base}
use nkv.Server.Notified.{handle-subscribe-put}
use nkv.Server.{
  Task, handle, handle_put, handle_unsub, serve_put, serve_unsub, serve_sub, new_notifier,
  add_client,
}
use nkv.Server.Tests.{start, served, first_served, for_key, put_ab}
use nkv.Server.SubForever.{nkv-serve_sub_later}
use nkv.Server.Replay.{run}

-- The first client goes, the second one comes, and then a key below is put.
abbrev left : List (ServerRequest × ℕ)
left = (ServerRequest.unsubscribe (for_key (literal "a")), 0) ∷ []

abbrev second : Task memory_storage Q
second =
    (served (run memory_storage Q is_match left (served start (literal "u1")).0) (literal "u2")).0

-- The only channel is the one that was closed for the first client.
second_is_deaf :
    (run memory_storage Q is_match ((ServerRequest.put put_ab, 0) ∷ []) second).nkv.channels
    ≡ (true, hello ∷ close (literal "a") ∷ []) ∷ []
unfolding code run handle handle_put handle_unsub serve_put serve_unsub serve_sub new_notifier
    add_client
second_is_deaf = refl

nkv-serve_sub_later_example :
    second.nkv ≡ (run memory_storage Q is_match left (served start (literal "u1")).0).nkv
nkv-serve_sub_later_example =
    nkv-serve_sub_later memory_storage Q is_match start left (literal "a") (literal "u1")
      (literal "u2") 0 0 first_served

-- A server that holds a value, and to which nobody has subscribed.
abbrev holding : Task memory_storage Q
holding = record { nkv = filled; notifiers = [] }

filled-AreManaged : AreManaged filled
unfolding code
filled-AreManaged = new-IsManaged 0

abbrev subscription : BaseMessage
subscription = for_key (literal "a.b")

abbrev change : PutMessage
change = record { base = for_key (literal "a.b"); value = 3 ∷ [] }

nobody : Dict.lookup subscription.key holding.notifiers ≡ none
unfolding Dict.lookup
nobody = refl

handle-subscribe-put_example :
    (let tx = (Q.unbounded_channel holding.nkv.channels).0 in
      let t' =
        (handle memory_storage Q is_match holding (ServerRequest.subscribe subscription) 0).0 in
      let (t'', reply) = handle memory_storage Q is_match t' (ServerRequest.put change) 1 in
      (reply ≡ some (base (record { id = change.base.id; status = true })))
      × ((list_view Message).queued t''.nkv.channels tx
          ≡ hello
            ∷ (updates (get memory_storage Q holding.nkv subscription.key)
                ++ update change.base.key change.value ∷ [])))
handle-subscribe-put_example =
    handle-subscribe-put (list_channels-IsLawful Message) is_match holding subscription change 0 1
      [] filled-AreManaged filled_plain nobody filled_absent same_path accepts_ab filled_stored
      filled_open
