-- ===== src/Storage/FileModel.antt =====
-- A model of the file system of Storage/FileSystem.antt: a map from paths to data, where every other
-- path is a directory, and a temporary file has one fixed name.
use nkv.Base.{
  literal, not, ◌≡◌, refl, ap, ◌∙◌, Option, none, some, [], ◌∷◌, ◌++◌, if◌then◌else◌, ◌==◌, eq_refl,
  list_eq, number_eq,
}
use nkv.Base.Dict
use nkv.Base.Dict.{Dict, lookup-insert, lookup-remove}
use nkv.Errors.{Result, ok, err, IoError, IoResult, ErrorKind}
use nkv.Storage.{Bytes}
use nkv.Storage.Paths.{PathBuf}
use nkv.Storage.FileSystem.{FileSystem, View, IsLawful}

abbrev Files : Type 0
Files = Dict PathBuf Bytes

abbrev failure : IoError
failure = record { kind = ErrorKind.not_found; message = literal "No such file or directory" }

abbrev temp_in : PathBuf → PathBuf
temp_in dir = dir ++ literal ".tmp" ∷ []

abbrev remove_if : PathBuf → Files → Option Bytes → Files × IoResult
remove_if p s none = (s, err failure)
remove_if p s (some _) = (Dict.remove p s, ok tt)

abbrev rename_if : PathBuf → PathBuf → Files → Option Bytes → Files × IoResult
rename_if p p' s none = (s, err failure)
rename_if p p' s (some d) = (Dict.insert p' d (Dict.remove p s), ok tt)

abbrev make_if : PathBuf → Files → Option Bytes → Files × Result PathBuf IoError
make_if p s none = (Dict.insert p [] s, ok p)
make_if p s (some _) = (s, err failure)

abbrev read_if : Option Bytes → Result Bytes IoError
read_if none = err failure
read_if (some d) = ok d

abbrev pub dict_files : FileSystem
dict_files = record {
  State = Files;
  is_dir = λ s p. not (Dict.contains_key p s);
  is_file = λ s p. Dict.contains_key p s;
  exists = λ s p. Dict.contains_key p s;
  read = λ s p. read_if (Dict.lookup p s);
  read_dir = λ s p. err failure;
  remove_file = λ s p. remove_if p s (Dict.lookup p s);
  remove_dir_all = λ s p. (s, err failure);
  create_dir_all = λ s p. (s, ok tt);
  rename = λ s p p'. rename_if p p' s (Dict.lookup p s);
  new_in = λ s dir. make_if (temp_in dir) s (Dict.lookup (temp_in dir) s);
  write_all = λ s p d. (Dict.insert p d s, ok tt);
  drop_temp = λ s p. Dict.remove p s;
  debug_path = λ p. [];
}

abbrev pub dict_view : View dict_files
dict_view = record { file = λ s p. Dict.lookup p s }

remove_if_lem :
    (p q : PathBuf) (s : Files) (o : Option Bytes)
    → ((remove_if p s o).1 ≡ ok tt
        → Dict.lookup q (remove_if p s o).0 ≡ (if p == q then none else Dict.lookup q s))
      × ((e : IoError)
          → (remove_if p s o).1 ≡ err e
          → Dict.lookup q (remove_if p s o).0 ≡ Dict.lookup q s)
remove_if_lem p q s none = ((λ h. cc), λ e h. refl)
remove_if_lem p q s (some d) = ((λ h. lookup-remove p q s), λ e h. cc)

rename_if_lem :
    (p p' q : PathBuf) (s : Files) (o : Option Bytes)
    → ((rename_if p p' s o).1 ≡ ok tt
        → Dict.lookup q (rename_if p p' s o).0
          ≡ (if p' == q then o else (if p == q then none else Dict.lookup q s)))
      × ((e : IoError)
          → (rename_if p p' s o).1 ≡ err e
          → Dict.lookup q (rename_if p p' s o).0 ≡ Dict.lookup q s)
rename_if_lem p p' q s none = ((λ h. cc), λ e h. refl)
rename_if_lem p p' q s (some d) =
    ((λ h. rw (lookup-insert p' q d (Dict.remove p s), lookup-remove p q s) refl), λ e h. cc)

make_if_lem :
    (p q r : PathBuf) (s : Files) (o : Option Bytes)
    → ((make_if p s o).1 ≡ ok r
        → (r ≡ p)
          × (o ≡ none)
          × (Dict.lookup q (make_if p s o).0 ≡ (if p == q then some [] else Dict.lookup q s)))
      × ((e : IoError)
          → (make_if p s o).1 ≡ err e
          → Dict.lookup q (make_if p s o).0 ≡ Dict.lookup q s)
make_if_lem p q r s none = ((λ h. (cc, refl, lookup-insert p q [] s)), λ e h. cc)
make_if_lem p q r s (some d) = ((λ h. cc), λ e h. refl)

pub dict_files-IsLawful : IsLawful dict_files dict_view
dict_files-IsLawful = record {
  read_some = λ s p d found. ap read_if found;
  read_none = λ s p missing. (failure, ap read_if missing);
  remove_file_ok = λ s p q. (remove_if_lem p q s (Dict.lookup p s)).0;
  remove_file_err = λ s p q. (remove_if_lem p q s (Dict.lookup p s)).1;
  file-create_dir_all = λ s p q. refl;
  rename_ok = λ s p p' q. (rename_if_lem p p' q s (Dict.lookup p s)).0;
  rename_err = λ s p p' q. (rename_if_lem p p' q s (Dict.lookup p s)).1;
  new_in_name = λ s dir p made.
      let (same, free, _) =
        (make_if_lem (temp_in dir) p p s (Dict.lookup (temp_in dir) s)).0 made in
      ((literal ".tmp", same), ap (λ x. Dict.lookup x s) same ∙ free);
  new_in_ok = λ s dir p q made.
      let (same, _, after) =
        (make_if_lem (temp_in dir) q p s (Dict.lookup (temp_in dir) s)).0 made in
      rw same after;
  new_in_err = λ s dir q. (make_if_lem (temp_in dir) q q s (Dict.lookup (temp_in dir) s)).1;
  write_all_ok = λ s p d fresh done. rw (lookup-insert p p d s, eq_refl p) refl;
  write_all_others = λ s p q d other. rw (lookup-insert p q d s, other) refl;
  file-drop_temp = λ s p q. lookup-remove p q s;
}
