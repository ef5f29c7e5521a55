-- ===== src/Client/Tests.antt =====
-- Runs of the client of src/lib.rs, and its theorem at a concrete value.
use nkv.Base.{literal, false, true, none, [], ◌∷◌, ◌≡◌, refl, arith, list_beq, list_eq, number_eq}
use nkv.Base.Dict
use nkv.Errors.{ok}
use nkv.Storage.Memory.{memory_storage, memory_storage-IsStore}
use nkv.Core.Tests.{Q, is_match, fresh, accepts_ab, stored_ok}
use nkv.Protocol.Words.{IsWord, is_whitespace}
use nkv.Protocol.Response.{base, map_response}
use nkv.Protocol.Tests.{shifted}
use nkv.Server.{Task}
use nkv.Client
use nkv.Client.{NkvClient, uuid}
use nkv.Client.Wire.{served, get-put}
use nkv.Notifier.Subscriber

abbrev pub start : Task memory_storage Q
start = record { nkv = fresh; notifiers = [] }

abbrev pub client : NkvClient
client = record { addr = literal "sock"; client_uuid = literal "u1"; subscriptions = [] }

pub a_b-IsWord : IsWord (literal "a.b")
unfolding is_whitespace
a_b-IsWord = ground arith

get-put_example :
    (Client.get
      (served memory_storage Q is_match shifted)
      shifted
      client
      (Client.put
        (served memory_storage Q is_match shifted)
        shifted
        client
        start
        (literal "a.b")
        (1 ∷ [])
        []).0
      (literal "a.b")
      []).1
    ≡ ok (
        map_response (record {
          base = record { id = uuid []; status = true };
          content = (literal "a.b", 1 ∷ []) ∷ [];
        }))
get-put_example =
    get-put memory_storage-IsStore is_match shifted client client start (literal "a.b") (1 ∷ []) []
      [] accepts_ab refl stored_ok (λ e. cc) a_b-IsWord (ground arith) (ground arith) tt tt

-- A second subscription to a key starts no subscriber.
subscribed_twice :
    ((Client.subscribe (Client.subscribe client (literal "a") []).0 (literal "a") []).1
      ≡ base (record { id = uuid []; status = false }))
    × ((Client.subscribe (Client.subscribe client (literal "a") []).0 (literal "a") []).2 ≡ none)
unfolding Client.subscribe Subscriber.new Dict.lookup Dict.insert list_beq
subscribed_twice = (refl, refl)
