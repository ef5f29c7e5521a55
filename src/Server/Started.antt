-- ===== src/Server/Started.antt =====
-- What a server of src/srv.rs answers once `Server::new` has opened its directory.
use mathlib.Core.Path.{fun_ext}
use nkv.Base.{ℕ, Text, Bool, ◌≡◌, refl, none, List, if◌then◌else◌, list_eq, number_eq, inl, inr}
use nkv.Base.Dict
use nkv.Errors.{Result-cases, ok}
use nkv.Message.{Message}
use nkv.Storage.Memory
use nkv.Storage.Paths.{PathBuf}
use nkv.Storage.FileMap.{made_at_path}
use nkv.Storage.Files
use nkv.Storage.Files.{FileStorage, located}
use nkv.Storage.FileSystem
use nkv.Storage.FileSystem.{FileSystem}
use nkv.Storage.Router
use nkv.Storage.RouterLaws.{router_view, router_admits, router_storage-IsStore}
use nkv.Storage.RouterKeys.{
  IsReadable, on_disk, contents-new_router, new_router-IsValid, keys-new_iff,
}
use nkv.Channels.{Mpsc}
use nkv.Trie.{has_wildcard, parts_of}
use nkv.Trie.Select.{selects}
use nkv.Core.{Heap}
use nkv.Core.Restart.{core_of_listing, storage-new}
use nkv.Server.Replay.{run, replay, AreSmooth, content_of-run}
use nkv.Protocol.Request.{ServerRequest, BaseMessage}
use nkv.Server.{Task, handle}
use nkv.Server.Start.{Addresses, engine, new, start_over}
use nkv.Server.Addresses.{core_of_start}
use nkv.Server.GetLaws.{content_of}

module _ {F : FileSystem} {W : FileSystem.View F} (L : FileSystem.IsLawful F W) (fuel : ℕ)
    {Q : Mpsc Message} (A : Addresses) (is_match : Text → Text → Bool) where
  -- The directory was opened, and the server started over what is in it.
  new_inverse :
      (path : PathBuf) (heap : Heap) (channels : Q.State) (disk : F.State) (w : A.State)
      (addr : Text) (t : Task (engine F fuel Q A path) Q)
      → (new F fuel Q A path heap channels disk w addr).2 ≡ ok t
      → ((Files.new F path disk).1 ≡ ok (located path))
        × ((start_over
              (engine F fuel Q A path)
              Q
              A
              (Router.new F fuel (located path) Memory.new (Files.new F path disk).0)
              heap
              channels
              w
              addr).1
            ≡ ok t)
  unfolding new
  new_inverse path heap channels disk w addr t begun =
      elim (Result-cases (Files.new F path disk).1) [
        | inl (fs, made) ↦ (rw (made_at_path F path disk fs made) made, rw (new, made) at begun)
        | inr (e, failed) ↦ absurd (cc (rw (new, failed) at begun))
      ]

  -- A server that Server::new starts over a directory answers a GET, after any sequence of
  -- requests, for each key that it selects with what replaying the requests on the files of the
  -- directory gives, and with nothing for the others: a key starts out with the data of its file,
  -- and a key that starts with "runtime" with none. The conditions: the file system keeps its
  -- laws; once the directories of the storage are made, the walk, with fuel for the height of the
  -- tree, can read every directory and meets exactly the files that are there, which are those of
  -- keys whose parts are names and that do not start with "runtime"; every PUT is of a key that
  -- starts with "runtime" or whose parts are names, and meets no error of the storage; every
  -- DELETE has a wildcard as its last part or nowhere and succeeds.
  pub content_of-run-new :
      (path : PathBuf) (heap : Heap) (channels : Q.State) (disk : F.State) (w : A.State)
      (addr : Text) (t : Task (engine F fuel Q A path) Q) (files : List PathBuf)
      (rs : List (ServerRequest × ℕ)) (m : BaseMessage) (writer : ℕ) (k : Text)
      → (new F fuel Q A path heap channels disk w addr).2 ≡ ok t
      → IsReadable W fuel (located path) (Files.new F path disk).0 files
      → AreSmooth (engine F fuel Q A path) Q is_match router_admits rs t
      → Dict.lookup k (
          content_of
            (handle
              (engine F fuel Q A path)
              Q
              is_match
              (run (engine F fuel Q A path) Q is_match rs t)
              (ServerRequest.get m)
              writer).1)
        ≡ (if selects (has_wildcard m.key) (parts_of m.key) (parts_of k)
            then replay is_match rs (on_disk W fuel (located path) (Files.new F path disk).0) k
            else none)
  content_of-run-new path heap channels disk w addr t files rs m writer k begun readable smooth =
      let (opened, started) = new_inverse path heap channels disk w addr t begun in
      let disk' = (Files.new F path disk).0 in
      let storage : Router.RouterStorage F = Router.new F fuel (located path) Memory.new disk' in
      let V = router_view W fuel (located path) in
      let core = core_of_start A storage heap channels w addr t started in
      let h =
        core_of_listing V storage heap channels t.nkv
          (new_router-IsValid W fuel (located path) disk')
          (keys-new_iff W fuel (located path) disk' files readable) core in
      let kept = router_storage-IsStore L fuel path disk (located path) opened in
      let held : V.contents t.nkv.storage ≡ on_disk W fuel (located path) disk' = fun_ext λ j.
        rw (storage-new storage heap channels t.nkv core)
          (contents-new_router W fuel (located path) disk' j) in
      rw (content_of-run kept is_match rs t m writer k smooth h, held) refl
