-- ===== src/Server/StartTests.antt =====
-- The start of a server of src/srv.rs, and the theorem about its notifiers at concrete values.
use nkv.Base.{ℕ, literal, Bool, true, false, ◌≡◌, refl, Option, none, some, List, [], ◌∷◌}
use nkv.Errors.{ok, err, ErrorKind}
use nkv.Storage.Memory
use nkv.Storage.Memory.{memory_storage}
use nkv.Core.Tests.{Q, is_match, heap, fresh_made}
use nkv.Server.Replay.{run}
use nkv.Server.Start.{Addresses, prepare_address, start_over}
use nkv.Core.Addresses.{AreManaged}
use nkv.Server.Addresses.{start_over-run-AreManaged}
use nkv.Server.Tests.{start, for_key, put_ab}
use nkv.Protocol.Request.{ServerRequest}

-- The state is what is at the address: nothing, or a file that is a socket or not.
abbrev pub one_address : Addresses
one_address = record {
  State = Option Bool;
  is_socket = λ w addr. w;
  remove_file = λ w addr. (none, ok tt);
  create_parent = λ w addr. (w, ok tt);
}

abbrev requests : List (ServerRequest × ℕ)
requests =
    (ServerRequest.put put_ab, 0)
    ∷ (ServerRequest.subscribe (for_key (literal "a")), 0)
    ∷ (ServerRequest.delete (for_key (literal "a.b")), 0)
    ∷ []

begun :
    (start_over memory_storage Q one_address Memory.new heap [] none (literal "sock")).1 ≡ ok start
unfolding start_over prepare_address
begun = rw fresh_made refl

-- The socket of the run before is removed.
freed : (prepare_address one_address (some true) (literal "sock")).1 ≡ ok tt
unfolding prepare_address
freed = refl

refused :
    (prepare_address one_address (some false) (literal "sock")).1
    ≡ err (record {
      kind = ErrorKind.invalid_input;
      message = literal "Path exists but is not a Unix socket";
    })
unfolding prepare_address
refused = refl

start_over-run-AreManaged_example : AreManaged (run memory_storage Q is_match requests start).nkv
start_over-run-AreManaged_example =
    start_over-run-AreManaged is_match one_address Memory.new heap [] none (literal "sock") start
      requests begun
