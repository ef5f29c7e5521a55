-- ===== src/Storage/Files.antt =====
-- `FileStorage` of src/storage/file_storage.rs, over any file system. Its state is the record of its
-- three paths, beside that of the file system.
use nkv.Base.{
  ◌≡◌, refl, ap, arith, Text, literal, Bool, true, false, Option, none, some, [], ◌∷◌, ◌++◌,
  if◌then◌else◌, not, ◌==◌, list_eq, number_eq,
}
use nkv.Errors.{Result, ok, err, IoError, IoResult, ErrorKind}
use nkv.Storage.{Bytes}
use nkv.Storage.Paths.{PathBuf, root_dir, join_path, parse_path, file_path}
use nkv.Storage.FileSystem.{FileSystem}

pub record FileStorage : Type 0 where
  pub root : PathBuf
  pub ingest : PathBuf
  pub digest : PathBuf

-- `Path::parent`
unfoldable pub parent : PathBuf → Option PathBuf
parent [] = none
parent (name ∷ []) = if name == root_dir then none else some []
parent (name ∷ next ∷ path) = elim (parent (next ∷ path)) [
  | none ↦ some (name ∷ [])
  | some above ↦ some (name ∷ above)
]

-- `parent().unwrap_or_else(|| Path::new("."))`
abbrev pub or_here : Option PathBuf → PathBuf
or_here none = []
or_here (some path) = path

abbrev pub parent_or_here : PathBuf → PathBuf
parent_or_here path = or_here (parent path)

unfoldable pub located : PathBuf → FileStorage
unfolding join_path parse_path
located path = record {
  root = path;
  ingest = join_path path (parse_path (literal "ingest/"));
  digest = join_path path (parse_path (literal "digest/"));
}

-- The operator `?` over the state of the file system.
module _ {ℓ} {S : Type 0} {A : Type ℓ} where
  infixl 10 ◌then◌
  abbrev pub ◌then◌ : S × IoResult → (S → S × Result A IoError) → S × Result A IoError
  (s, ok _) then next = next s
  (s, err e) then next = (s, err e)

  pub then_ok :
      (x : S × IoResult) (next : S → S × Result A IoError) → x.1 ≡ ok tt → (x then next) ≡ next x.0
  then_ok (s, ok _) next h = refl
  then_ok (s, err e) next h = cc

  -- What three steps end with, if they succeed.
  pub made_of_then :
      (x : S × IoResult) (f g : S → S × IoResult) (a b : A)
      → (x then (λ t. f t then (λ u. g u then (λ v. (v, ok a))))).1 ≡ ok b
      → ◌≡◌ {A = Result A IoError} (ok a) (ok b)
  made_of_then x f g a b h = ground arith

  pub then_err :
      (x : S × IoResult) (next : S → S × Result A IoError) (e : IoError)
      → x.1 ≡ err e
      → (x then next) ≡ (x.0, err e)
  then_err (s, ok _) next e h = cc
  then_err (s, err e') next e h = ap (λ r. elim r [ ok _ ↦ next s | err d ↦ (s, err d) ]) h

module _ (F : FileSystem) where
  abbrev unless : Bool → F.State → (F.State → F.State × IoResult) → F.State × IoResult
  unless true s act = (s, ok tt)
  unless false s act = act s

  -- What a former run left there is removed.
  abbrev pub clear_ingest : FileStorage → F.State → F.State × IoResult
  clear_ingest res s = unless (not (F.exists s res.ingest)) s (λ t. F.remove_dir_all t res.ingest)

  abbrev pub make_digest : FileStorage → F.State → F.State × IoResult
  make_digest res s = unless (F.exists s res.digest) s (λ t. F.create_dir_all t res.digest)

  -- `FileStorage::new`
  unfoldable pub new : PathBuf → F.State → F.State × Result FileStorage IoError
  unfolding located
  new path s =
      let res = located path in
      if F.is_dir s path
      then (clear_ingest res s then (λ t.
          make_digest res t then (λ u. F.create_dir_all u res.ingest then (λ v. (v, ok res)))))
      else (
        s,
        err (record {
          kind = ErrorKind.other;
          message = F.debug_path path ++ literal " is a file, not a directory";
        }),
      )

  abbrev pub create_parent : Option PathBuf → F.State → F.State × IoResult
  create_parent none s = (s, ok tt)
  create_parent (some dir) s = F.create_dir_all s dir

  unfoldable pub move_to : F.State → PathBuf → PathBuf → F.State × IoResult
  unfolding parent
  move_to s tmp filename = create_parent (parent filename) s then (λ t. F.rename t tmp filename)

  -- What `atomic_write` does with the temporary file, up to the first error.
  unfoldable pub fill_and_move : F.State → PathBuf → Bytes → PathBuf → F.State × IoResult
  unfolding move_to
  fill_and_move s tmp bytes filename = F.write_all s tmp bytes then (λ t. move_to t tmp filename)

  unfoldable pub atomic_write : F.State → Bytes → PathBuf → PathBuf → F.State × IoResult
  unfolding parent fill_and_move
  atomic_write s bytes ingest_dir filename =
      let (t, made) = F.new_in s (parent_or_here ingest_dir) in
      elim made [
        | err e ↦ (t, err e)
        | ok tmp ↦
            let (u, result) = fill_and_move t tmp bytes filename in (F.drop_temp u tmp, result)
      ]

  unfoldable pub put : FileStorage → F.State → Text → Bytes → F.State × IoResult
  unfolding atomic_write file_path
  put fs s key bytes = atomic_write s bytes fs.ingest (file_path fs.digest key)

  unfoldable pub delete : FileStorage → F.State → Text → F.State × IoResult
  unfolding file_path
  delete fs s key = F.remove_file s (file_path fs.digest key)

  unfoldable pub get : FileStorage → F.State → Text → Bytes
  unfolding file_path
  get fs s key = elim (F.read s (file_path fs.digest key)) [ ok bytes ↦ bytes | err _ ↦ [] ]
