-- ===== src/Storage/Folders.antt =====
-- `keys` of src/storage/file_storage.rs, which walks the directories of the storage. The walk runs on
-- fuel for the height of the tree of directories.
use mathlib.Core.Path.{subst}
use mathlib.Core.List.Memᴰ
use mathlib.Core.List.{Memᴰ}
use nkv.Base.{
  ℕ, zero, suc, Text, true, false, ◌≡◌, ◌↔◌, refl, ap, sym, ◌∙◌, Option, none, some, List, [], ◌∷◌,
  ◌++◌, map, arith, All, append-nil, append_assoc, if◌then◌else◌, ◌==◌, list_eq, number_eq, split,
  list_beq,
}
use nkv.Errors.{Result, ok, err, IoError, IoResult}
use nkv.Storage.Paths.{PathBuf, root_dir, path_to_key, file_path, IsProper}
use nkv.Storage.PathLaws.{path_to_key-file_path}
use nkv.Storage.FileSystem.{FileSystem}
use nkv.Storage.Files.{FileStorage}

-- `Path::file_name`
unfoldable pub file_name : PathBuf → Option Text
file_name [] = none
file_name (name ∷ []) = if name == root_dir then none else some name
file_name (name ∷ next ∷ path) = file_name (next ∷ path)

unfoldable push_key : Text → List Text → List Text
push_key key result = if key == [] then result else result ++ key ∷ []

-- What a walk returns, beside the keys it has found; `none` is a walk that ran out of fuel.
abbrev Walk : Type 0
Walk = Option (List Text × IoResult)

-- The loop over the entries of a directory, up to the first error.
unfoldable visit_entries :
    (PathBuf → List Text → Walk) → List (Result PathBuf IoError) → List Text → Walk
visit_entries visit [] result = some (result, ok tt)
visit_entries visit (err e ∷ entries) result = some (result, err e)
visit_entries visit (ok path ∷ entries) result = elim (visit path result) [
  | none ↦ none
  | some (result', done) ↦ elim done [
    | err e ↦ some (result', err e)
    | ok _ ↦ visit_entries visit entries result'
  ]
]

module _ (F : FileSystem) where
  abbrev visit_dir :
      (PathBuf → List Text → Walk)
      → Result (List (Result PathBuf IoError)) IoError
      → List Text
      → Walk
  visit_dir visit (err e) result = some (result, err e)
  visit_dir visit (ok entries) result = visit_entries visit entries result

  unfoldable iterate_folders : ℕ → F.State → PathBuf → PathBuf → List Text → Walk
  unfolding visit_entries file_name push_key
  iterate_folders zero s root cur result = none
  iterate_folders (suc fuel) s root cur result =
      let visit = iterate_folders fuel s root in
      if F.is_file s cur
      then elim (file_name cur) [
        | none ↦ some (result, ok tt)
        | some _ ↦ some (push_key (path_to_key cur root) result, ok tt)
      ]
      else if F.is_dir s cur
      then visit_dir visit (F.read_dir s cur) result
      else some (result, ok tt)

  -- An error is only logged.
  unfoldable pub keys : ℕ → FileStorage → F.State → Option (List Text)
  unfolding iterate_folders
  keys fuel fs s = elim (iterate_folders fuel s fs.digest fs.digest []) [
    | none ↦ none
    | some (result, _) ↦ some result
  ]

  -- A directory tree of this height at most, whose files are these.
  mutual
    pub data Tree (s : F.State) : ℕ → PathBuf → List PathBuf → Type 0 where
      leaf :
          {n : ℕ} {p : PathBuf} {name : Text}
          → F.is_file s p ≡ true
          → file_name p ≡ some name
          → Tree s (suc n) p (p ∷ [])
      branch :
          {n : ℕ} {p : PathBuf} {entries files : List PathBuf}
          → F.is_file s p ≡ false
          → F.is_dir s p ≡ true
          → F.read_dir s p ≡ ok (map ok entries)
          → Forest s n entries files
          → Tree s (suc n) p files

    pub data Forest (s : F.State) : ℕ → List PathBuf → List PathBuf → Type 0 where
      empty : {n : ℕ} → Forest s n [] []
      grow :
          {n : ℕ} {p : PathBuf} {entries files more : List PathBuf}
          → Tree s n p files
          → Forest s n entries more
          → Forest s n (p ∷ entries) (files ++ more)

-- The keys of the files, in their order.
unfoldable keys_of : PathBuf → List PathBuf → List Text
unfolding push_key
keys_of root [] = []
keys_of root (p ∷ files) = push_key (path_to_key p root) [] ++ keys_of root files

keys_of-append :
    (root : PathBuf) (files more : List PathBuf)
    → keys_of root (files ++ more) ≡ keys_of root files ++ keys_of root more
unfolding keys_of
keys_of-append root [] more = refl
keys_of-append root (p ∷ files) more =
    rw (keys_of-append root files more) (
      sym
        (append_assoc (push_key (path_to_key p root) []) (keys_of root files) (keys_of root more)))

push_key-append :
    (key : Text) (result : List Text) → push_key key result ≡ result ++ push_key key []
unfolding push_key
push_key-append key result = ground (arith, append-nil result)

module _ {F : FileSystem} {s : F.State} (root : PathBuf) where
  mutual
    unfolding iterate_folders visit_entries keys_of

    iterate_folders_lem :
        {n : ℕ} {cur : PathBuf} {files : List PathBuf} (result : List Text)
        → Tree F s n cur files
        → iterate_folders F n s root cur result ≡ some (result ++ keys_of root files, ok tt)
    iterate_folders_lem {cur} result (leaf is_file named) =
        let key = path_to_key cur root in
        rw
          (
            is_file,
            named,
            iterate_folders,
            push_key-append key result,
            append-nil (push_key key []),
          )
          refl
    iterate_folders_lem {n} {cur} result (branch no_file is_dir listed forest) =
        rw (no_file, is_dir, listed, iterate_folders) (visit_entries_lem result forest)

    visit_entries_lem :
        {n : ℕ} {entries files : List PathBuf} (result : List Text)
        → Forest F s n entries files
        → visit_entries (iterate_folders F n s root) (map ok entries) result
          ≡ some (result ++ keys_of root files, ok tt)
    visit_entries_lem result empty = rw (append-nil result) refl
    visit_entries_lem {n} result (grow {p} {entries} {files} {more} tree forest) =
        rw
          (
            iterate_folders_lem result tree,
            visit_entries,
            visit_entries_lem (result ++ keys_of root files) forest,
            keys_of-append root files more,
            append_assoc result (keys_of root files) (keys_of root more),
          )
          refl

keys_of_cons :
    (root p : PathBuf) (files : List PathBuf) (k : Text)
    → IsProper k
    → p ≡ file_path root k
    → keys_of root (p ∷ files) ≡ k ∷ keys_of root files
unfolding keys_of push_key
keys_of_cons root p files k proper here =
    rw (here, path_to_key-file_path root k proper, full k proper) refl
  where
    full : (k : Text) → IsProper k → (k == []) ≡ false
    full [] h = absurd (unfold split in h.0.0 refl)
    full (x ∷ k) h = unfold list_beq in refl

Memᴰ-keys_of :
    (root : PathBuf) (files : List PathBuf) (k : Text)
    → IsProper k
    → Memᴰ (file_path root k) files
    → Memᴰ k (keys_of root files)
unfolding keys_of
Memᴰ-keys_of root [] k proper m = elim m [ ]
Memᴰ-keys_of root (p ∷ files) k proper m = elim m [
  | Memᴰ.head here ↦
      subst (Memᴰ k) (sym (keys_of_cons root p files k proper (sym here))) (Memᴰ.head refl)
  | Memᴰ.tail later ↦
      Memᴰ.append_right (push_key (path_to_key p root) []) (Memᴰ-keys_of root files k proper later)
]

keys_of-Memᴰ :
    (root : PathBuf) (files : List PathBuf) (k : Text)
    → All (λ p. (j : Text) × IsProper j × (p ≡ file_path root j)) files
    → Memᴰ k (keys_of root files)
    → IsProper k × Memᴰ (file_path root k) files
unfolding keys_of
keys_of-Memᴰ root [] k h m = elim m [ ]
keys_of-Memᴰ root (p ∷ files) k ((j, proper, here), hs) m =
    elim (subst (Memᴰ k) (keys_of_cons root p files j proper here) m) [
      | Memᴰ.head same ↦
          (subst IsProper (sym same) proper, Memᴰ.head (ap (file_path root) same ∙ sym here))
      | Memᴰ.tail later ↦
          let (proper', there) = keys_of-Memᴰ root files k hs later in (proper', Memᴰ.tail there)
    ]

-- If every directory on the walk over a file storage can be read, with the entries that the tree
-- has, and every file in the tree is that of a key whose parts are names, then the walk ends, with
-- fuel for the height of the tree, and lists exactly the keys of these files.
pub keys_lem :
    (F : FileSystem) (fs : FileStorage) (s : F.State) (n : ℕ) (files : List PathBuf)
    → Tree F s n fs.digest files
    → All (λ p. (j : Text) × IsProper j × (p ≡ file_path fs.digest j)) files
    → (ks : List Text) × (keys F n fs s ≡ some ks)
      × ((k : Text) → Memᴰ k ks ↔ (IsProper k × Memᴰ (file_path fs.digest k) files))
unfolding keys
keys_lem F fs s n files tree named = (
  keys_of fs.digest files,
  rw (iterate_folders_lem fs.digest [] tree, keys) refl,
  λ k. (
    keys_of-Memᴰ fs.digest files k named,
    λ found. Memᴰ-keys_of fs.digest files k found.0 found.1,
  ),
)
