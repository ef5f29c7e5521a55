-- ===== src/Storage/FileTests.antt =====
-- Runs of `FileStorage`, after the unit tests of src/storage/file_storage.rs, and its theorems at
-- concrete data.
use mathlib.Core.Option.{get_or}
use nkv.Base.{
  All, List, ◌++◌, ◌↔◌, Text, literal, ◌&&◌, ◌≡◌, refl, none, some, [], ◌∷◌, if◌then◌else◌, ◌==◌,
  list_eq, number_eq, list_beq, split, join, starts_with, arith,
}
use nkv.Base.Dict
use nkv.Errors.{ok}
use nkv.Storage.Paths.{
  PathBuf, key_to_path, path_to_key, file_path, IsProper, parse_path, join_path, trim_end_matches,
  strip_suffix, strip_prefix,
}
use nkv.Storage.PathLaws.{path_to_key-file_path}
use nkv.Storage.Files.{FileStorage, located, new, put, get, delete}
use nkv.Storage.FileLaws.{is_ok}
use nkv.Storage.FileMap.{contents, contents_lem}
use nkv.Base.Dict.{Dict}
use mathlib.Core.List.{Memᴰ}
use nkv.Storage.{Bytes}
use nkv.Storage.FileSystem.{FileSystem}
use nkv.Storage.Folders.{Tree, leaf, branch, empty, grow, file_name, keys, keys_lem}
use nkv.Storage.FileModel.{dict_files, dict_view, dict_files-IsLawful}

unfoldable pub code : Unit {0}
unfolding key_to_path path_to_key file_path parse_path join_path trim_end_matches strip_suffix
    strip_prefix located new put get delete list_beq split join starts_with Dict.lookup Dict.insert
    Dict.remove
code = tt

abbrev prefix : PathBuf
prefix = literal "some" ∷ literal "folders" ∷ []

there_and_back :
    (key_to_path (literal "ks1.ks2.key") ≡ literal "ks1/ks2/key.json")
    × (path_to_key (file_path prefix (literal "ks1.ks2.key")) prefix ≡ literal "ks1.ks2.key")
unfolding code
there_and_back = (refl, refl)

-- Two keys with one file, and a key whose file is outside the directory.
strange_keys :
    (file_path prefix (literal "a..b") ≡ file_path prefix (literal "a.b"))
    × (file_path prefix (literal "a/b") ≡ file_path prefix (literal "a.b"))
    × (file_path prefix (literal ".etc.x") ≡ literal "/" ∷ literal "etc" ∷ literal "x.json" ∷ [])
unfolding code
strange_keys = (refl, refl, refl)

pub key1-IsProper : IsProper (literal "a.key1")
unfolding code
key1-IsProper = (
  ((λ e. cc), ((λ e. cc), tt)),
  (omega arith, (omega arith, (omega arith, (omega arith, (omega arith, (omega arith, tt)))))),
)

path_to_key-file_path_example :
    path_to_key (file_path prefix (literal "a.key1")) prefix ≡ literal "a.key1"
path_to_key-file_path_example = path_to_key-file_path prefix (literal "a.key1") key1-IsProper

abbrev pub storage : FileStorage
storage = located (literal "/" ∷ literal "data" ∷ [])

made : new dict_files (literal "/" ∷ literal "data" ∷ []) [] ≡ ([], ok storage)
unfolding code
made = refl

pub made_storage : (new dict_files (literal "/" ∷ literal "data" ∷ []) []).1 ≡ ok storage
unfolding code
made_storage = refl

restored :
    get dict_files storage
      (put dict_files storage [] (literal "a.key1") (1 ∷ 2 ∷ [])).0
      (literal "a.key1")
    ≡ 1 ∷ 2 ∷ []
unfolding code
restored = refl

contents_lem_example :
    (contents dict_view storage
        (put dict_files storage [] (literal "a.key1") (1 ∷ 2 ∷ [])).0
        (literal "a.key1")
      ≡ (if is_ok (put dict_files storage [] (literal "a.key1") (1 ∷ 2 ∷ [])).1
            && literal "a.key1" == literal "a.key1"
          then some (1 ∷ 2 ∷ [])
          else contents dict_view storage [] (literal "a.key1")))
    × (contents dict_view storage
          (delete dict_files storage [] (literal "a.key1")).0
          (literal "a.key1")
        ≡ (if is_ok (delete dict_files storage [] (literal "a.key1")).1
              && literal "a.key1" == literal "a.key1"
            then none
            else contents dict_view storage [] (literal "a.key1")))
    × (get dict_files storage [] (literal "a.key1")
        ≡ get_or (contents dict_view storage [] (literal "a.key1")) [])
contents_lem_example =
    contents_lem dict_files-IsLawful (literal "/" ∷ literal "data" ∷ []) [] [] storage
      (literal "a.key1") (literal "a.key1") (1 ∷ 2 ∷ []) made_storage key1-IsProper key1-IsProper

-- A directory with one directory in it, which holds one file.
abbrev dir_a : PathBuf
dir_a = literal "/" ∷ literal "data" ∷ literal "digest" ∷ literal "a" ∷ []

abbrev pub file_key1 : PathBuf
file_key1 = dir_a ++ literal "key1.json" ∷ []

abbrev pub folders : FileSystem
folders = record dict_files {
  read_dir = λ s p. if p == dir_a then ok (ok file_key1 ∷ []) else ok (ok dir_a ∷ []);
}

abbrev pub stored : Dict PathBuf Bytes
stored = (file_key1, 1 ∷ 2 ∷ []) ∷ []

pub folders-Tree : Tree folders stored 3 storage.digest (file_key1 ∷ [])
unfolding code file_name
folders-Tree =
    branch refl refl refl (grow (branch refl refl refl (grow (leaf refl refl) empty)) empty)

pub key1_named :
    All (λ p. (j : Text) × IsProper j × (p ≡ file_path storage.digest j)) (file_key1 ∷ [])
unfolding code
key1_named = ((literal "a.key1", key1-IsProper, refl), tt)

pub listed : keys folders 3 storage stored ≡ some (literal "a.key1" ∷ [])
unfolding code keys
listed = refl

keys_lem_example :
    (ks : List Text) × (keys folders 3 storage stored ≡ some ks)
    × ((k : Text) → Memᴰ k ks ↔ (IsProper k × Memᴰ (file_path storage.digest k) (file_key1 ∷ [])))
keys_lem_example = keys_lem folders storage stored 3 (file_key1 ∷ []) folders-Tree key1_named
