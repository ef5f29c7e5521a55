-- ===== src/Storage/FileSystem.antt =====
-- The file system under src/storage/file_storage.rs, `std::fs` and the crate `tempfile`: an
-- interface, what is relied on, and a model that has it. No two paths lead to the same file.
use nkv.Base.{
  Text, Bool, false, ◌≡◌, Option, none, some, List, [], ◌∷◌, ◌++◌, if◌then◌else◌, ◌==◌, list_eq,
  number_eq,
}
use nkv.Errors.{Result, ok, err, IoError, IoResult}
use nkv.Storage.{Bytes}
use nkv.Storage.Paths.{PathBuf}

pub record FileSystem : Type 1 where
  pub State : Type 0
  pub is_dir : State → PathBuf → Bool
  pub is_file : State → PathBuf → Bool
  pub exists : State → PathBuf → Bool
  pub read : State → PathBuf → Result Bytes IoError
  pub read_dir : State → PathBuf → Result (List (Result PathBuf IoError)) IoError
  pub remove_file : State → PathBuf → State × IoResult
  pub remove_dir_all : State → PathBuf → State × IoResult
  pub create_dir_all : State → PathBuf → State × IoResult
  pub rename : State → PathBuf → PathBuf → State × IoResult
  -- `NamedTempFile::new_in`, its `write_all`, and its `drop`, which removes the file if it is there.
  pub new_in : State → PathBuf → State × Result PathBuf IoError
  pub write_all : State → PathBuf → Bytes → State × IoResult
  pub drop_temp : State → PathBuf → State
  -- The path in the form of `Debug`.
  pub debug_path : PathBuf → Text

-- The data of the file at a path, if there is one.
pub record View (F : FileSystem) : Type 1 where
  pub file : F.State → PathBuf → Option Bytes

-- Nothing is promised of a temporary file that was not written to its end.
pub record IsLawful (F : FileSystem) (V : View F) : Type 0 where
  pub read_some : (s : F.State) (p : PathBuf) (d : Bytes) → V.file s p ≡ some d → F.read s p ≡ ok d
  pub read_none :
      (s : F.State) (p : PathBuf) → V.file s p ≡ none → (e : IoError) × (F.read s p ≡ err e)
  pub remove_file_ok :
      (s : F.State) (p q : PathBuf)
      → (F.remove_file s p).1 ≡ ok tt
      → V.file (F.remove_file s p).0 q ≡ (if p == q then none else V.file s q)
  pub remove_file_err :
      (s : F.State) (p q : PathBuf) (e : IoError)
      → (F.remove_file s p).1 ≡ err e
      → V.file (F.remove_file s p).0 q ≡ V.file s q
  pub file-create_dir_all :
      (s : F.State) (p q : PathBuf) → V.file (F.create_dir_all s p).0 q ≡ V.file s q
  pub rename_ok :
      (s : F.State) (p p' q : PathBuf)
      → (F.rename s p p').1 ≡ ok tt
      → V.file (F.rename s p p').0 q
        ≡ (if p' == q then V.file s p else (if p == q then none else V.file s q))
  pub rename_err :
      (s : F.State) (p p' q : PathBuf) (e : IoError)
      → (F.rename s p p').1 ≡ err e
      → V.file (F.rename s p p').0 q ≡ V.file s q
  -- A new file in the directory, under a name that was free.
  pub new_in_name :
      (s : F.State) (dir p : PathBuf)
      → (F.new_in s dir).1 ≡ ok p
      → ((name : Text) × (p ≡ dir ++ name ∷ [])) × (V.file s p ≡ none)
  pub new_in_ok :
      (s : F.State) (dir p q : PathBuf)
      → (F.new_in s dir).1 ≡ ok p
      → V.file (F.new_in s dir).0 q ≡ (if p == q then some [] else V.file s q)
  pub new_in_err :
      (s : F.State) (dir q : PathBuf) (e : IoError)
      → (F.new_in s dir).1 ≡ err e
      → V.file (F.new_in s dir).0 q ≡ V.file s q
  pub write_all_ok :
      (s : F.State) (p : PathBuf) (d : Bytes)
      → V.file s p ≡ some []
      → (F.write_all s p d).1 ≡ ok tt
      → V.file (F.write_all s p d).0 p ≡ some d
  pub write_all_others :
      (s : F.State) (p q : PathBuf) (d : Bytes)
      → (p == q) ≡ false
      → V.file (F.write_all s p d).0 q ≡ V.file s q
  pub file-drop_temp :
      (s : F.State) (p q : PathBuf)
      → V.file (F.drop_temp s p) q ≡ (if p == q then none else V.file s q)
