-- ===== src/Server/Start.antt =====
-- `Server::new` of src/srv.rs: the storage, the core over it, and the address of the socket. The files
-- at the address are an interface of their own: the address is taken to be apart from the data.
use nkv.Base.{ℕ, Text, literal, Bool, Option, none, some, [], if◌then◌else◌}
use nkv.Errors.{Result, ok, err, IoError, IoResult, ErrorKind}
use nkv.Message.{Message}
use nkv.Storage.{StorageEngine}
use nkv.Storage.Memory
use nkv.Storage.Paths.{PathBuf}
use nkv.Storage.Files
use nkv.Storage.Files.{located}
use nkv.Storage.FileSystem.{FileSystem}
use nkv.Storage.Router
use nkv.Storage.Router.{router_storage}
use nkv.Channels.{Mpsc}
use nkv.Core
use nkv.Core.{NkvCore, Heap}
use nkv.Server.{Task}

-- The file system at the address: whether a file is there and is a socket, `remove_file`, and
-- `create_dir_all` of the parent of the path, if it has one.
pub record Addresses : Type 1 where
  pub State : Type 0
  pub is_socket : State → Text → Option Bool
  pub remove_file : State → Text → State × IoResult
  pub create_parent : State → Text → State × IoResult

module _ (A : Addresses) where
  -- An old socket is removed; another file at the address is an error.
  unfoldable pub prepare_address : A.State → Text → A.State × IoResult
  prepare_address w addr = elim (A.is_socket w addr) [
    | none ↦ A.create_parent w addr
    | some socket ↦
        if socket
        then (let (w', removed) = A.remove_file w addr in
            elim removed [ err e ↦ (w', err e) | ok _ ↦ A.create_parent w' addr ])
        else (
          w,
          err (record {
            kind = ErrorKind.invalid_input;
            message = literal "Path exists but is not a Unix socket";
          }),
        )
  ]

module _ (S : StorageEngine) (Q : Mpsc Message) (A : Addresses) where
  -- The server of a core, once its address is free.
  abbrev pub owner : NkvCore S Q → A.State × IoResult → A.State × Result (Task S Q) IoError
  owner nkv (w, err e) = (w, err e)
  owner nkv (w, ok _) = (w, ok (record { nkv = nkv; notifiers = [] }))

  abbrev pub started :
      Result (NkvCore S Q) IoError → A.State → Text → A.State × Result (Task S Q) IoError
  started (err e) w addr = (w, err e)
  started (ok nkv) w addr = owner nkv (prepare_address A w addr)

  -- The part of `Server::new` behind the constructors of the storage, over any engine.
  unfoldable pub start_over :
      S.State → Heap → Q.State → A.State → Text → A.State × Result (Task S Q) IoError
  start_over storage heap channels w addr = started (Core.new S Q storage heap channels) w addr

module _ (F : FileSystem) (fuel : ℕ) (Q : Mpsc Message) (A : Addresses) where
  -- The engine of the server: an empty map in memory beside the files below a path.
  -- `FileStorage::new` returns the record `located path`, or an error.
  abbrev pub engine : PathBuf → StorageEngine
  engine path = router_storage F fuel (located path)

  -- `Server::new`, with the file system below the path of the data.
  unfoldable pub new :
      (path : PathBuf)
      → Heap
      → Q.State
      → F.State
      → A.State
      → Text
      → F.State × A.State × Result (Task (engine path) Q) IoError
  unfolding start_over
  new path heap channels disk w addr =
      let (disk', opened) = Files.new F path disk in
      elim opened [
        | err e ↦ (disk', w, err e)
        | ok _ ↦
            let storage = Router.new F fuel (located path) Memory.new disk' in
            let (w', made) = start_over (engine path) Q A storage heap channels w addr in
            (disk', w', made)
      ]
