-- ===== src/Storage/Router.antt =====
-- src/storage/router_storage.rs: keys that start with "runtime" live in the map in memory, all
-- others in the file storage. The field `file` is three paths, which nothing changes: it is a
-- parameter, and what changes is the file system. The walk over its directories takes fuel.
use nkv.Base.{
  ℕ, Text, literal, Bool, Option, none, some, List, [], ◌++◌, if◌then◌else◌, starts_with,
}
use nkv.Errors.{IoResult}
use nkv.Storage.{Bytes, StorageEngine}
use nkv.Storage.Memory
use nkv.Storage.Memory.{MemoryStorage}
use nkv.Storage.Files
use nkv.Storage.Files.{FileStorage}
use nkv.Storage.FileSystem.{FileSystem}
use nkv.Storage.Folders

abbrev pub runtime_route : Text
runtime_route = literal "runtime"

abbrev pub is_runtime : Text → Bool
is_runtime key = starts_with key runtime_route

pub record RouterStorage (F : FileSystem) : Type 0 where
  pub mem : MemoryStorage
  pub disk : F.State

module _ (F : FileSystem) (fuel : ℕ) (file : FileStorage) where
  unfoldable pub new : MemoryStorage → F.State → RouterStorage F
  new mem disk = record { mem = mem; disk = disk }

  unfoldable pub put : RouterStorage F → Text → Bytes → RouterStorage F × IoResult
  put s key d =
      if is_runtime key
      then (let (mem, result) = Memory.put s.mem key d in (record s { mem = mem }, result))
      else (let (disk, result) = Files.put F file s.disk key d in
          (record s { disk = disk }, result))

  unfoldable pub delete : RouterStorage F → Text → RouterStorage F × IoResult
  delete s key =
      if is_runtime key
      then (let (mem, result) = Memory.delete s.mem key in (record s { mem = mem }, result))
      else (let (disk, result) = Files.delete F file s.disk key in
          (record s { disk = disk }, result))

  unfoldable pub get : RouterStorage F → Text → Bytes
  get s key = if is_runtime key then Memory.get s.mem key else Files.get F file s.disk key

  -- No key is listed of files for which the fuel is not enough.
  abbrev pub file_keys : Option (List Text) → List Text
  file_keys none = []
  file_keys (some ks) = ks

  unfoldable pub keys : RouterStorage F → List Text
  keys s = Memory.keys s.mem ++ file_keys (Folders.keys F fuel file s.disk)

  abbrev pub router_storage : StorageEngine
  router_storage = record {
    State = RouterStorage F;
    put = put;
    get = get;
    delete = delete;
    keys = keys;
  }
