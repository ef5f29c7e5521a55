-- ===== src/ServerProgram.antt =====
-- `main` of src/server/main.rs: the command line, the address and the directory of the server.
-- What the crates `tracing` and `dirs_next` and the file system do is an argument; the log is left
-- out.
pub mod Tests
use nkv.Base.{
  ℕ, Text, literal, true, false, Option, none, some, List, [], ◌∷◌, ◌++◌, is_some, if◌then◌else◌,
  list_eq, number_eq,
}
use nkv.Base.Format.{line}
use nkv.Errors.{Result, ok, err, IoResult}
use nkv.FlagParser
use nkv.FlagParser.{FlagParser, FlagParserError, display_error}
use nkv.Message.{Message}
use nkv.Storage.Paths.{PathBuf, parse_path}
use nkv.Storage.FileSystem.{FileSystem}
use nkv.Channels.{Mpsc}
use nkv.Core.{Heap}
use nkv.Server.{Task, pkg_version}
use nkv.Server.Start.{Addresses, engine, new}

-- `DEFAULT_URL` and `DEFAULT_LOG_DIR`
abbrev default_url : Text
default_url = literal "/tmp/nkv/nkv.sock"

abbrev default_log_dir : Text
default_log_dir = literal "logs"

-- `HELP_MESSAGE`
abbrev help_message : Text
help_message =
    line (literal "nkv-server [OPTIONS]")
    ++ line (literal "Run the notify key-value (nkv) server.")
    ++ line []
    ++ line (literal "OPTIONS:")
    ++ line (literal "  --dir <path-to-store-data>")
    ++ line (literal "      Specify the directory where data files will be stored.")
    ++ line (
        literal "      If not provided, it defaults to the user"
        ++ 0x2019 ∷ literal "s data directory under the `nkv` folder.")
    ++ line []
    ++ line (literal "  --addr <path-to-socket>")
    ++ line (literal "      Define the address to listen for connections.")
    ++ line (literal "      Supports UNIX socket path.")
    ++ line []
    ++ line (literal "  --logs <path-to-logs>")
    ++ line (literal "      Specify the directory where logs should be stored.")
    ++ line (literal "      Defaults to `./log` if not provided.")
    ++ line []
    ++ line (literal "  --level <info|debug|trace>")
    ++ line (literal "      Set the logging level:")
    ++ line (literal "        - `info`  (default): Standard operational messages.")
    ++ line (literal "        - `debug` : More detailed debugging information.")
    ++ line (literal "        - `trace` : Maximum level of detailed logs.")
    ++ line []
    ++ line (literal "  --help")
    ++ line (literal "      Display this help message and exit.")
    ++ line []
    ++ line (literal "  --version")
    ++ literal "      Display nkv-server version and exit."

abbrev pub allowed_flags : List Text
allowed_flags =
    literal "dir" ∷ literal "help" ∷ literal "addr" ∷ literal "logs" ∷ literal "level" ∷ []

-- What the command line asks for; the log is set up in the last two cases.
pub record Settings (Level : Type 0) : Type 0 where
  pub level : Level
  pub log_dir : Text
  pub addr : Text
  pub dir : Option Text

pub data Start (Level : Type 0) : Type 0 where
  usage : FlagParserError → Start Level
  show_version : Start Level
  bad_level : Text → Start Level
  help run : Settings Level → Start Level

-- The value of a flag that is given with one.
abbrev given : FlagParser → Text → Option Text
given flags flag = elim (FlagParser.get flags flag) [ none ↦ none | some value ↦ value ]

abbrev given_or : FlagParser → Text → Text → Text
given_or flags flag other = elim (given flags flag) [ none ↦ other | some value ↦ value ]

-- The levels of the crate `tracing`, with `Level::INFO` and `Level::from_str`.
module _ {Level : Type 0} (info : Level) (parse_level : Text → Result Level Text) where
  abbrev pub level_of : Option Text → Result Level Text
  level_of none = ok info
  level_of (some text) = parse_level text

  abbrev pub settings : FlagParser → Level → Settings Level
  settings flags level = record {
    level = level;
    log_dir = given_or flags (literal "logs") default_log_dir;
    addr = given_or flags (literal "addr") default_url;
    dir = given flags (literal "dir");
  }

  -- What `main` makes of the flags.
  abbrev pub plan : Result (FlagParser × List Text) FlagParserError → Start Level
  plan (err e) = usage e
  plan (ok (flags, positional)) =
      if is_some (FlagParser.get flags (literal "version"))
      then show_version
      else elim (level_of (given flags (literal "level"))) [
        | err why ↦ bad_level why
        | ok level ↦
            if is_some (FlagParser.get flags (literal "help"))
            then help (settings flags level)
            else run (settings flags level)
      ]

  unfoldable pub read_args : List Text → Start Level
  read_args args = plan (FlagParser.new args (some allowed_flags))

abbrev about : Text
about = line (literal "nkv-server, version: " ++ pkg_version) ++ line help_message

-- An `unwrap` or `expect` fails; or the default directory cannot be made, which is only logged.
pub data Failure : Type 0 where
  panicked given_up : Failure

-- How the program goes on: it has printed a text and ended, it has failed, or it serves requests.
pub data Ended {ℓ} (Served : Type ℓ) : Type ℓ where
  printed : Text → Ended Served
  failed : Failure → Ended Served
  serving : Served → Ended Served

-- The files beside the address: `create_dir_all`, and the directory `nkv` below the one that
-- `dirs::data_dir` tells.
module _ (A : Addresses) (create_dir_all : A.State → Text → A.State × IoResult)
    (default_dir : Option Text) where
  -- Whatever is at the address is removed.
  unfoldable pub clear_address : A.State → Text → A.State × IoResult
  clear_address w addr = elim (A.is_socket w addr) [
    | none ↦ (w, ok tt)
    | some _ ↦ A.remove_file w addr
  ]

  abbrev pub made_dir : Failure → Text → A.State × IoResult → A.State × Result Text Failure
  made_dir failure path (w, ok _) = (w, ok path)
  made_dir failure path (w, err _) = (w, err failure)

  unfoldable pub pick_dir : A.State → Option Text → A.State × Result Text Failure
  pick_dir w (some val) = made_dir panicked val (create_dir_all w val)
  pick_dir w none = elim default_dir [
    | none ↦ (w, err panicked)
    | some path ↦ made_dir given_up path (create_dir_all w path)
  ]

  -- The file system of the data is apart from the files beside the address.
  module _ (F : FileSystem) (fuel : ℕ) (Q : Mpsc Message) (heap : Heap) (channels : Q.State) where
    -- The server over a directory.
    abbrev Served : Type 0
    Served = (path : PathBuf) × Task (engine F fuel Q A path) Q

    unfoldable pub serve_dir : A.State → F.State → Text → Text → A.State × F.State × Ended Served
    serve_dir w disk addr dir =
        let (disk', w', made) = new F fuel Q A (parse_path dir) heap channels disk w addr in
        elim made [
          | err _ ↦ (w', disk', failed panicked)
          | ok t ↦ (w', disk', serving (parse_path dir, t))
        ]

    -- `main` behind the flags.
    unfoldable pub launch :
        A.State → F.State → Text → Option Text → A.State × F.State × Ended Served
    unfolding clear_address pick_dir serve_dir
    launch w disk addr dir_flag =
        let (w', cleared) = clear_address w addr in
        let (w2, picked) = pick_dir w' dir_flag in
        elim cleared [
          | err _ ↦ (w', disk, failed panicked)
          | ok _ ↦ elim picked [
            | err why ↦ (w2, disk, failed why)
            | ok dir ↦ serve_dir w2 disk addr dir
          ]
        ]

    -- `main`
    unfoldable pub main :
        {Level : Type 0}
        → Level
        → (Text → Result Level Text)
        → A.State
        → F.State
        → List Text
        → A.State × F.State × Ended Served
    unfolding read_args launch
    main info parse_level w disk args = elim (read_args info parse_level args) [
      | usage e ↦ (w, disk, printed (line (literal "error: " ++ display_error e) ++ about))
      | show_version ↦ (w, disk, printed (line pkg_version))
      | bad_level why ↦
          (w, disk, printed (line (literal "error parsing log level: " ++ why) ++ about))
      | help _ ↦ (w, disk, printed about)
      | run settings ↦ launch w disk settings.addr settings.dir
    ]
