-- ===== src/Storage/FileMap.antt =====
-- `FileStorage` of src/storage/file_storage.rs and the map that it stands for.
use mathlib.Core.Option.{get_or}
use nkv.Base.{
  Text, literal, Bool, true, false, ◌&&◌, ◌≡◌, ◌≢◌, refl, ap, sym, ◌∙◌, Option, none, some, [], ◌∷◌,
  ◌++◌, arith, if◌then◌else◌, ◌==◌, eq_iff, list_eq, number_eq, Option-cases, inl, inr, split,
  split-ne-nil, list_beq, starts_with,
}
use mathlib.Core.Path.{subst}
use nkv.Storage.FileLaws.{
  is_ok, Result-cases, parent-append, too_short, not_root, atomic_write-Writes,
}
use nkv.Storage.Files.{
  new, located, clear_ingest, make_digest, made_of_then, FileStorage, parent, parent_or_here,
  or_here, put, get, delete, ◌then◌,
}
use nkv.Storage.Paths.{parse_path, join_path, names, PathBuf, file_path, IsProper, key_to_path}
use nkv.Errors.{Result, ok, err, IoError}
use nkv.Storage.{Bytes}
use nkv.Storage.PathLaws.{file_path-injective, file_path_of_IsProper}
use nkv.Storage.FileSystem.{FileSystem, View, IsLawful}

-- The directories are where `new` puts them.
abbrev IsPlaced : FileStorage → Type 0
IsPlaced fs =
    (fs.ingest ≡ fs.root ++ literal "ingest" ∷ []) × (fs.digest ≡ fs.root ++ literal "digest" ∷ [])

located-IsPlaced : (path : PathBuf) → IsPlaced (located path)
unfolding located join_path parse_path split starts_with names list_beq
located-IsPlaced path = (refl, refl)

of_dir :
    {S : Type 0} (s : S) (b : Bool) (x : S × Result FileStorage IoError) (e : IoError)
    (fs : FileStorage)
    → (if b then x else (s, err e)).1 ≡ ok fs
    → x.1 ≡ ok fs
of_dir s true x e fs h = h
of_dir s false x e fs h = cc

located_of_ok : (p q : FileStorage) → ◌≡◌ {A = Result FileStorage IoError} (ok p) (ok q) → p ≡ q
located_of_ok p q h = cc

module _ (F : FileSystem) where
  pub made_at_path :
      (path : PathBuf) (s : F.State) (fs : FileStorage)
      → (new F path s).1 ≡ ok fs
      → located path ≡ fs
  unfolding new
  made_at_path path s fs made =
      let res = located path in
      let chain = of_dir s (F.is_dir s path) _ _ fs made in
      located_of_ok res fs (
        made_of_then (clear_ingest F res s) (make_digest F res) (λ u. F.create_dir_all u res.ingest)
          res fs chain)

  new-IsPlaced :
      (path : PathBuf) (s : F.State) (fs : FileStorage) → (new F path s).1 ≡ ok fs → IsPlaced fs
  new-IsPlaced path s fs made = subst IsPlaced (made_at_path path s fs made) (located-IsPlaced path)

module _ {F : FileSystem} (V : View F) where
  -- The map that a storage stands for.
  abbrev pub contents : FileStorage → F.State → Text → Option Bytes
  contents fs s key = V.file s (file_path fs.digest key)

module _ {F : FileSystem} {V : View F} (L : IsLawful F V) where
  get_lem :
      (fs : FileStorage) (s : F.State) (key : Text)
      → get F fs s key ≡ get_or (contents V fs s key) []
  unfolding get
  get_lem fs s key = elim (Option-cases (contents V fs s key)) [
    | inl missing ↦ rw (missing, get, (L.read_none s (file_path fs.digest key) missing).1) refl
    | inr (d, found) ↦ rw (found, get, L.read_some s (file_path fs.digest key) d found) refl
  ]

  path_eq :
      (digest : PathBuf) (k j : Text)
      → IsProper k
      → IsProper j
      → (file_path digest k == file_path digest j) ≡ (k == j)
  path_eq digest k j hk hj = ground (
    arith,
    eq_iff k j,
    eq_iff (file_path digest k) (file_path digest j),
    file_path-injective digest k j hk hj,
    λ (e : k ≡ j). ap (file_path digest) e,
  )

  -- The file of a key lies below the directory for temporary files, not in it.
  file_path-apart :
      (fs : FileStorage) (key name : Text)
      → IsPlaced fs
      → IsProper key
      → parent_or_here fs.ingest ++ name ∷ [] ≢ file_path fs.digest key
  file_path-apart fs key name (in_root, out_root) h e =
      too_short fs.root name (literal "digest") (split b'/' (key_to_path key))
        (split-ne-nil b'/' (key_to_path key))
        (ap (λ p. or_here p ++ name ∷ [])
            (sym (parent-append fs.root (literal "ingest") not_root) ∙ ap parent (sym in_root))
          ∙ e
          ∙ file_path_of_IsProper fs.digest key h
          ∙ ap (λ p. p ++ split b'/' (key_to_path key)) out_root)

  -- A file storage that new made stands for a map on the keys whose parts are names, whatever
  -- calls of the file system fail later: put sets the value of its key if it succeeds and else
  -- changes nothing, delete erases it if it succeeds and else changes nothing, both keep the other
  -- keys, and get returns the value of its key, or empty data for a missing key.
  pub contents_lem :
      (path : PathBuf) (s0 s : F.State) (fs : FileStorage) (k j : Text) (d : Bytes)
      → (new F path s0).1 ≡ ok fs
      → IsProper k
      → IsProper j
      → (contents V fs (put F fs s k d).0 j
          ≡ (if is_ok (put F fs s k d).1 && k == j then some d else contents V fs s j))
        × (contents V fs (delete F fs s k).0 j
            ≡ (if is_ok (delete F fs s k).1 && k == j then none else contents V fs s j))
        × (get F fs s j ≡ get_or (contents V fs s j) [])
  unfolding put delete
  contents_lem path s0 s fs k j d made hk hj = (
    rw (sym (path_eq fs.digest k j hk hj)) (
        atomic_write-Writes L s d fs.ingest (file_path fs.digest k) (file_path fs.digest j)
          (λ name. file_path-apart fs k name (new-IsPlaced F path s0 fs made) hk)),
    rw (sym (path_eq fs.digest k j hk hj)) (elim (Result-cases (delete F fs s k).1) [
      | inl (_, done) ↦
          rw done (L.remove_file_ok s (file_path fs.digest k) (file_path fs.digest j) done)
      | inr (e, failed) ↦
          rw failed (L.remove_file_err s (file_path fs.digest k) (file_path fs.digest j) e failed)
    ]),
    get_lem fs s j,
  )
