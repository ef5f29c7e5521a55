-- ===== src/Server/RouterTests.antt =====
-- A run of the server of src/srv.rs over the router: a PUT that goes to the files, a PUT that goes
-- to the map in memory, a SUB and a DELETE.
use nkv.Base.{
  ℕ, Text, List, none, if◌then◌else◌, literal, true, [], ◌∷◌, ◌≡◌, ◌≢◌, refl, list_eq, number_eq,
  join, starts_with, elem, arith,
}
use nkv.Base.Dict
use nkv.Errors.{ok, err, IoError, io_error}
use nkv.Storage.{StorageEngine, View}
use nkv.Storage.Memory
use nkv.Storage.Memory.{new-IsValid}
use nkv.Storage.Paths.{key_to_path, path_to_key, file_path, parse_path, join_path}
use nkv.Storage.Files
use nkv.Storage.Files.{located}
use nkv.Storage.FileModel.{dict_files, dict_view, dict_files-IsLawful}
use nkv.Storage.FileTests.{storage, made_storage}
use nkv.Storage.Router
use nkv.Storage.Router.{router_storage}
use nkv.Storage.RouterLaws.{is_proper, router_view, router_storage-IsStore}
use nkv.Trie
use nkv.Trie.{has_wildcard, parts_of}
use nkv.Trie.Select.{selects}
use nkv.Core.Put.{put}
use nkv.Core.Delete.{delete}
use nkv.Core.DeleteLaws.{is_trailing}
use nkv.Core.Consistent.{IsConsistent}
use nkv.Core.Restart.{made-IsConsistent}
use nkv.Core.Tests
use nkv.Core.Tests.{Q, is_match, heap}
use nkv.Protocol.Request.{ServerRequest, PutMessage}
use nkv.Server.{
  Task, handle, handle_put, handle_sub, handle_delete, serve_put, serve_sub, serve_delete,
}
use nkv.Server.GetLaws.{content_of}
use nkv.Server.Replay.{run, replay, AreSmooth, content_of-run}
use nkv.Server.Reach.{Served, serve, Served-IsConsistent}
use nkv.Server.Tests.{for_key, put_ab}

unfoldable pub code : Unit {0}
unfolding Tests.code Router.put Router.get Router.delete Router.new Files.put Files.get Files.delete
    located key_to_path path_to_key file_path parse_path join_path join starts_with is_proper elem
    handle handle_put handle_sub handle_delete serve_put serve_sub serve_delete has_wildcard
    is_trailing
code = tt

abbrev engine : StorageEngine
engine = router_storage dict_files 3 storage

abbrev view : View engine
view = router_view dict_view 3 storage

abbrev start : Task engine Q
start = record {
  nkv = record {
    notifiers = Trie.new;
    objects = Trie.new;
    storage = record { mem = Memory.new; disk = [] };
    heap = heap;
    channels = [];
  };
  notifiers = [];
}

nothing_stored : (k : Text) → view.contents start.nkv.storage k ≡ none
unfolding code
nothing_stored k = ground arith

start-IsConsistent : IsConsistent view start.nkv
start-IsConsistent = made-IsConsistent view start.nkv.storage heap [] new-IsValid nothing_stored

abbrev put_runtime : PutMessage
put_runtime = record { base = for_key (literal "runtime.a"); value = 2 ∷ [] }

abbrev after_put : Task engine Q
after_put = (handle engine Q is_match start (ServerRequest.put put_ab) 0).0

abbrev after_puts : Task engine Q
after_puts = (handle engine Q is_match after_put (ServerRequest.put put_runtime) 0).0

taken : (put engine Q is_match start.nkv (literal "a.b") (1 ∷ [])).1 ≡ ok tt
unfolding code
taken = refl

taken_runtime : (put engine Q is_match after_put.nkv (literal "runtime.a") (2 ∷ [])).1 ≡ ok tt
unfolding code
taken_runtime = refl

deleted : (delete engine Q after_puts.nkv (literal "a.b")).1 ≡ ok tt
unfolding code
deleted = refl

trailing : is_trailing (has_wildcard (literal "a.b")) (parts_of (literal "a.b")) ≡ true
unfolding code
trailing = refl

admitted : (view.admits (literal "a.b") ≡ true) × (view.admits (literal "runtime.a") ≡ true)
unfolding code
admitted = (refl, refl)

taken_quiet :
    (e : IoError) → (put engine Q is_match start.nkv (literal "a.b") (1 ∷ [])).1 ≢ err (io_error e)
taken_quiet e failed = cc taken

runtime_quiet :
    (e : IoError)
    → (put engine Q is_match after_put.nkv (literal "runtime.a") (2 ∷ [])).1 ≢ err (io_error e)
runtime_quiet e failed = cc taken_runtime

abbrev emptied : Task engine Q
emptied = (handle engine Q is_match after_puts (ServerRequest.delete (for_key (literal "a.b"))) 0).0

emptied-Served : Served engine Q is_match view.admits start emptied
emptied-Served =
    serve
      (serve (serve Served.start (ServerRequest.put put_ab) 0 (admitted.0, taken_quiet))
        (ServerRequest.put put_runtime) 0 (admitted.1, runtime_quiet))
      (ServerRequest.delete (for_key (literal "a.b"))) 0 (trailing, deleted)

Served-IsConsistent_example : IsConsistent view emptied.nkv
Served-IsConsistent_example =
    Served-IsConsistent
      (router_storage-IsStore dict_files-IsLawful 3 (literal "/" ∷ literal "data" ∷ []) [] storage
        made_storage)
      is_match start-IsConsistent emptied-Served

abbrev requests : List (ServerRequest × ℕ)
requests =
    (ServerRequest.put put_ab, 0)
    ∷ (ServerRequest.put put_runtime, 0)
    ∷ (ServerRequest.delete (for_key (literal "a.b")), 0)
    ∷ []

requests-AreSmooth : AreSmooth engine Q is_match view.admits requests start
requests-AreSmooth =
    ((admitted.0, taken_quiet), ((admitted.1, runtime_quiet), ((trailing, deleted), tt)))

content_of-run_example :
    Dict.lookup (literal "a.b") (
      content_of
        (handle engine Q is_match
          (run engine Q is_match requests start)
          (ServerRequest.get (for_key (literal "a.*")))
          1).1)
    ≡ (if selects
          (has_wildcard (literal "a.*"))
          (parts_of (literal "a.*"))
          (parts_of (literal "a.b"))
        then replay is_match requests (view.contents start.nkv.storage) (literal "a.b")
        else none)
content_of-run_example =
    content_of-run
      (router_storage-IsStore dict_files-IsLawful 3 (literal "/" ∷ literal "data" ∷ []) [] storage
        made_storage)
      is_match requests start (for_key (literal "a.*")) 1 (literal "a.b") requests-AreSmooth
      start-IsConsistent
