-- ===== src/Server/StartedTests.antt =====
-- A server of src/srv.rs that is started over a directory with one file.
use mathlib.Core.List.Memᴰ
use mathlib.Core.List.{Memᴰ}
use mathlib.Core.Path.{ap}
use nkv.Base.{
  ℕ, literal, true, false, List, ◌≡◌, ◌≢◌, ◌↔◌, refl, ◌∙◌, sym, none, [], ◌∷◌, if◌then◌else◌,
  list_eq, number_eq, Text, arith, eq_iff, inl, inr,
}
use nkv.Base.Dict
use nkv.Errors.{ok, err, IoError, io_error}
use nkv.Storage.{StorageEngine}
use nkv.Storage.Memory
use nkv.Storage.Paths.{PathBuf, file_path, IsProper}
use nkv.Storage.PathLaws.{file_path-injective}
use nkv.Storage.Files
use nkv.Storage.Files.{located}
use nkv.Storage.FileSystem
use nkv.Storage.FileModel.{dict_files-IsLawful}
use nkv.Storage.FileTests
use nkv.Storage.FileTests.{
  folders, stored, storage, file_key1, folders-Tree, key1_named, listed, key1-IsProper,
}
use nkv.Storage.Router
use nkv.Storage.Router.{is_runtime}
use nkv.Storage.RouterKeys.{IsReadable, on_disk}
use nkv.Trie
use nkv.Trie.{Trie, has_wildcard, parts_of}
use nkv.Trie.Select.{selects}
use nkv.Core
use nkv.Core.{load_keys}
use nkv.Core.Tests
use nkv.Core.Tests.{Q, is_match, heap}
use nkv.Protocol.Request.{ServerRequest}
use nkv.Server.{Task, handle}
use nkv.Server.GetLaws.{content_of}
use nkv.Server.RouterTests
use nkv.Server.Replay.{run, replay, AreSmooth}
use nkv.Core.Put.{put}
use nkv.Core.Delete.{delete}
use nkv.Core.DeleteLaws.{is_trailing}
use nkv.Storage.RouterLaws.{router_admits}
use nkv.Server.Start.{engine, new, start_over, prepare_address}
use nkv.Server.Started.{content_of-run-new}
use nkv.Server.StartTests.{one_address}
use nkv.Server.Tests.{for_key, put_ab}

abbrev folders_view : FileSystem.View folders
folders_view = record { file = λ s p. Dict.lookup p s }

folders-IsLawful : FileSystem.IsLawful folders folders_view
folders-IsLawful = record {
  read_some = dict_files-IsLawful.read_some;
  read_none = dict_files-IsLawful.read_none;
  remove_file_ok = dict_files-IsLawful.remove_file_ok;
  remove_file_err = dict_files-IsLawful.remove_file_err;
  file-create_dir_all = dict_files-IsLawful.file-create_dir_all;
  rename_ok = dict_files-IsLawful.rename_ok;
  rename_err = dict_files-IsLawful.rename_err;
  new_in_name = dict_files-IsLawful.new_in_name;
  new_in_ok = dict_files-IsLawful.new_in_ok;
  new_in_err = dict_files-IsLawful.new_in_err;
  write_all_ok = dict_files-IsLawful.write_all_ok;
  write_all_others = dict_files-IsLawful.write_all_others;
  file-drop_temp = dict_files-IsLawful.file-drop_temp;
}

abbrev path : PathBuf
path = literal "/" ∷ literal "data" ∷ []

-- The task of the server that is started.
abbrev started : Task (engine folders 3 Q one_address path) Q
started = record {
  nkv = record {
    notifiers = Trie.new;
    objects = (Trie.insert Trie.new (literal "a.key1") (literal "a.key1")).0;
    storage = record { mem = Memory.new; disk = stored };
    heap = heap;
    channels = [];
  };
  notifiers = [];
}

opened : Files.new folders path stored ≡ (stored, ok (located path))
unfolding FileTests.code
opened = refl

loaded :
    Core.new
      (engine folders 3 Q one_address path)
      Q
      (record { mem = Memory.new; disk = stored })
      heap
      []
    ≡ ok started.nkv
unfolding Tests.code Router.keys load_keys
loaded = rw (Core.new, Router.keys, listed) refl

begun : (new folders 3 Q one_address path heap [] stored none (literal "sock")).2 ≡ ok started
unfolding new start_over prepare_address Router.new
begun = rw (new, opened, ap (λ r. r.0) opened, Router.new, start_over, loaded) refl

key1_file : file_path storage.digest (literal "a.key1") ≡ file_key1
unfolding FileTests.code
key1_file = refl

key1_of : (k : Text) → IsProper k → file_path storage.digest k ≡ file_key1 → k ≡ literal "a.key1"
key1_of k proper same =
    file_path-injective storage.digest k (literal "a.key1") proper key1-IsProper
      (same ∙ sym key1_file)

there_iff : (p : PathBuf) → Memᴰ p (file_key1 ∷ []) ↔ (folders_view.file stored p ≢ none)
unfolding Dict.lookup
there_iff p = (
  (λ m. elim (Memᴰ.cases_cons m) [
    | inl same ↦ ground (arith, eq_iff file_key1 p, same)
    | inr none_left ↦ elim none_left [ ]
  ]),
  λ held. Memᴰ.head (ground (arith, eq_iff file_key1 p, held)),
)

not_runtime : is_runtime (literal "a.key1") ≡ false
unfolding FileTests.code
not_runtime = refl

readable :
    IsReadable folders_view 3 (located path) (Files.new folders path stored).0 (file_key1 ∷ [])
readable = rw opened (record {
  tree = folders-Tree;
  named = key1_named;
  persistent = λ k m proper. elim (Memᴰ.cases_cons m) [
    | inl same ↦ rw (key1_of k proper same) not_runtime
    | inr none_left ↦ elim none_left [ ]
  ];
  present = λ k proper. there_iff (file_path storage.digest k);
})

abbrev opened_storage : StorageEngine
opened_storage = engine folders 3 Q one_address path

abbrev after_put : Task opened_storage Q
after_put = (handle opened_storage Q is_match started (ServerRequest.put put_ab) 0).0

taken : (put opened_storage Q is_match started.nkv (literal "a.b") (1 ∷ [])).1 ≡ ok tt
unfolding RouterTests.code FileTests.code
taken = refl

deleted : (delete opened_storage Q after_put.nkv (literal "a.key1")).1 ≡ ok tt
unfolding RouterTests.code FileTests.code
deleted = refl

trailing : is_trailing (has_wildcard (literal "a.key1")) (parts_of (literal "a.key1")) ≡ true
unfolding RouterTests.code
trailing = refl

admitted : router_admits (literal "a.b") ≡ true
unfolding RouterTests.code
admitted = refl

taken_quiet :
    (e : IoError)
    → (put opened_storage Q is_match started.nkv (literal "a.b") (1 ∷ [])).1 ≢ err (io_error e)
taken_quiet e failed = cc taken

abbrev requests : List (ServerRequest × ℕ)
requests =
    (ServerRequest.put put_ab, 0) ∷ (ServerRequest.delete (for_key (literal "a.key1")), 0) ∷ []

requests-AreSmooth : AreSmooth opened_storage Q is_match router_admits requests started
requests-AreSmooth = ((admitted, taken_quiet), ((trailing, deleted), tt))

content_of-run-new_example :
    Dict.lookup (literal "a.b") (
      content_of
        (handle opened_storage Q is_match
          (run opened_storage Q is_match requests started)
          (ServerRequest.get (for_key (literal "a.*")))
          1).1)
    ≡ (if selects
          (has_wildcard (literal "a.*"))
          (parts_of (literal "a.*"))
          (parts_of (literal "a.b"))
        then replay is_match requests
            (on_disk folders_view 3 (located path) (Files.new folders path stored).0)
            (literal "a.b")
        else none)
content_of-run-new_example =
    content_of-run-new folders-IsLawful 3 one_address is_match path heap [] stored none
      (literal "sock") started (file_key1 ∷ []) requests (for_key (literal "a.*")) 1 (literal "a.b")
      begun readable requests-AreSmooth
