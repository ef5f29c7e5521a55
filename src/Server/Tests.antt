-- ===== src/Server/Tests.antt =====
-- Runs of the task and the handlers of src/srv.rs over the map in memory, and the theorems about
-- them at concrete inputs.
use nkv.Base.{
  Text, literal, true, ◌&&◌, ◌≡◌, ◌≢◌, ◌↔◌, refl, some, none, [], ◌∷◌, ◌++◌, ◌==◌, list_eq,
  number_eq, if◌then◌else◌, arith,
}
use nkv.Base.Dict
use nkv.Errors.{NotifyKeyValueError, no_error}
use nkv.Message.{hello}
use nkv.Storage.Memory
use nkv.Storage.Memory.{memory_storage, memory_view, memory_storage-IsStore}
use nkv.Trie.{has_wildcard, parts_of}
use nkv.Trie.Select.{selects}
use nkv.Core.Subscribe.{trace}
use nkv.Core.Tests.{code, Q, is_match, fresh, fresh-IsConsistent, accepts_ab, stored_ok}
use nkv.Protocol.Words.{is_whitespace, IsWord}
use nkv.Protocol.Request.{ServerRequest, BaseMessage, PutMessage, print_request}
use nkv.Protocol.RequestLaws.{received}
use nkv.Protocol.Tests.{shifted}
use nkv.Server.{new_notifier, add_client, Task, handle, serve_sub}
use nkv.Server.Lines.{handle_line, write_response, silence}
use nkv.Server.LineLaws.{handle_line-print_request, handle_line-empty_put}
use nkv.Server.GetLaws.{content_of, found_of, found_of-get_iff, content_of-get-put}

abbrev pub start : Task memory_storage Q
start = record { nkv = fresh; notifiers = [] }

abbrev pub for_key : Text → BaseMessage
for_key key = record { id = literal "7"; key = key; client_uuid = literal "u1" }

abbrev pub put_ab : PutMessage
put_ab = record { base = for_key (literal "a.b"); value = 1 ∷ [] }

abbrev pub step : Task memory_storage Q → ServerRequest → Task memory_storage Q
step t r = (handle memory_storage Q is_match t r 0).0

content_of-get-put_example :
    Dict.lookup (literal "a.b") (
      content_of
        (handle memory_storage Q is_match
          (step start (ServerRequest.put put_ab))
          (ServerRequest.get (for_key (literal "a.*")))
          1).1)
    ≡ (if selects
            (has_wildcard (literal "a.*"))
            (parts_of (literal "a.*"))
            (parts_of (literal "a.b"))
          && literal "a.b" == literal "a.b"
        then some (1 ∷ [])
        else Dict.lookup (literal "a.b") (
            content_of
              (handle memory_storage Q is_match start
                (ServerRequest.get (for_key (literal "a.*")))
                1).1))
content_of-get-put_example =
    content_of-get-put memory_storage-IsStore is_match start put_ab (for_key (literal "a.*"))
      (literal "a.b") 0 1 fresh-IsConsistent accepts_ab refl stored_ok

found_of-get_iff_example :
    (found_of
        (handle memory_storage Q is_match start (ServerRequest.get (for_key (literal "a"))) 1).1
      ≡ true)
    ↔ ((k : Text) × (selects (has_wildcard (literal "a")) (parts_of (literal "a")) (parts_of k)
          ≡ true)
        × (memory_view.contents Memory.new k ≢ none))
found_of-get_iff_example =
    found_of-get_iff memory_storage-IsStore is_match start (for_key (literal "a")) 1
      fresh-IsConsistent

handle_line-print_request_example :
    handle_line memory_storage Q is_match shifted start
      (print_request shifted (ServerRequest.put put_ab) ++ b'\n' ∷ [])
      0
    ≡ (
      (handle memory_storage Q is_match start (received (ServerRequest.put put_ab)) 0).0,
      write_response shifted
          (handle memory_storage Q is_match start (received (ServerRequest.put put_ab)) 0).1,
    )
handle_line-print_request_example =
    handle_line-print_request memory_storage Q is_match shifted start (ServerRequest.put put_ab) 0
      (ground arith) (λ e. cc)

a-IsWord : IsWord (literal "a")
unfolding is_whitespace
a-IsWord = ground arith

handle_line-empty_put_example :
    handle_line memory_storage Q is_match shifted start
      (print_request shifted
          (ServerRequest.put (record { base = for_key (literal "a"); value = [] }))
        ++ b'\n' ∷ [])
      0
    ≡ (start, silence)
handle_line-empty_put_example =
    handle_line-empty_put memory_storage Q is_match shifted start (for_key (literal "a")) 0
      (ground arith) a-IsWord

-- The second client that subscribes to a key shares the channel of the first one.
abbrev pub served : Task memory_storage Q → Text → Task memory_storage Q × NotifyKeyValueError
served t uuid = serve_sub memory_storage Q t (literal "a") uuid 0

two_clients :
    ((served (served start (literal "u1")).0 (literal "u2")).0.nkv.channels
      ≡ (true, hello ∷ []) ∷ [])
    × (trace memory_storage Q
          (served (served start (literal "u1")).0 (literal "u2")).0.nkv
          (literal "a")
        ≡ literal "u1" ∷ [])
unfolding code serve_sub new_notifier add_client
two_clients = (refl, refl)

pub first_served : (served start (literal "u1")).1 ≡ no_error
unfolding code serve_sub new_notifier add_client
first_served = refl
