-- ===== src/Storage/RouterLaws.antt =====
-- The contract of src/storage/router_storage.rs over the files of src/storage/file_storage.rs.
use mathlib.Core.Option.{get_or}
use nkv.Base.{
  ℕ, Text, Bool, true, false, not, ◌||◌, ◌&&◌, ◌≡◌, ◌≢◌, refl, ap, ◌∙◌, Option, none, some, List,
  [], ◌∷◌, arith, if◌then◌else◌, ◌==◌, eq_iff, list_eq, number_eq, inl, inr, All, Avoids, elem,
  contains_char, split,
}
use nkv.Errors.{ok}
use nkv.Storage.{Bytes, View, IsStore}
use nkv.Storage.Memory
use nkv.Storage.Memory.{MemoryStorage, memory_storage, memory_view, memory_storage-IsStore}
use nkv.Storage.Paths.{PathBuf, IsProper}
use nkv.Storage.Files
use nkv.Storage.Files.{FileStorage}
use nkv.Storage.FileLaws.{is_ok, Result-cases}
use nkv.Storage.FileMap
use nkv.Storage.FileMap.{contents_lem}
use nkv.Storage.FileSystem
use nkv.Storage.FileSystem.{FileSystem}
use nkv.Storage.Router.{RouterStorage, is_runtime, put, get, delete, router_storage}

-- Whether the parts of a key are names.
unfoldable pub is_proper : Text → Bool
is_proper key = not (elem [] (split b'.' key)) && not (contains_char b'/' key)

parts_nonempty : (parts : List Text) → elem [] parts ≡ false → All (λ part. part ≢ []) parts
unfolding elem
parts_nonempty [] h = tt
parts_nonempty (part ∷ parts) h =
    (ground (arith, eq_iff part [], h), parts_nonempty parts (ground (arith, h)))

slash_free : (c : ℕ) (s : Text) → contains_char c s ≡ false → Avoids c s
unfolding contains_char
slash_free c [] h = tt
slash_free c (x ∷ s) h = (ground (arith, h), slash_free c s (ground (arith, h)))

pub is_proper-IsProper : (key : Text) → is_proper key ≡ true → IsProper key
unfolding is_proper
is_proper-IsProper key h =
    (parts_nonempty (split b'.' key) (ground (arith, h)), slash_free b'/' key (ground (arith, h)))

-- The keys of the tree `runtime`, and the keys whose parts are names.
abbrev pub router_admits : Text → Bool
router_admits k = is_runtime k || is_proper k

-- The map in memory, in the same form.
mem_put :
    (s : MemoryStorage) (k j : Text) (v : Bytes)
    → memory_view.contents (Memory.put s k v).0 j
      ≡ (if is_ok (Memory.put s k v).1 && k == j then some v else memory_view.contents s j)
mem_put s k j v = elim (Result-cases (Memory.put s k v).1) [
  | inl (_, e) ↦ rw e (memory_storage-IsStore.put_ok s k j v refl e)
  | inr (why, e) ↦ rw e (memory_storage-IsStore.put_err s k j v why refl e)
]

mem_delete :
    (s : MemoryStorage) (k j : Text)
    → memory_view.contents (Memory.delete s k).0 j
      ≡ (if is_ok (Memory.delete s k).1 && k == j then none else memory_view.contents s j)
mem_delete s k j = elim (Result-cases (Memory.delete s k).1) [
  | inl (_, e) ↦ rw e (memory_storage-IsStore.delete_ok s k j refl e)
  | inr (why, e) ↦ rw e (memory_storage-IsStore.delete_err s k j why refl e)
]

module _ {F : FileSystem} (W : FileSystem.View F) (fuel : ℕ) (file : FileStorage) where
  -- What the router stands for: the map in memory on the one side, the files on the other.
  abbrev pub contents : RouterStorage F → Text → Option Bytes
  contents s k =
      if is_runtime k
      then memory_view.contents s.mem k
      else if is_proper k
      then FileMap.contents W file s.disk k
      else none

  abbrev pub router_view : View (router_storage F fuel file)
  router_view = record {
    contents = contents;
    admits = router_admits;
    IsValid = λ s. memory_view.IsValid s.mem;
  }

module _ {F : FileSystem} {W : FileSystem.View F} (L : FileSystem.IsLawful F W) (fuel : ℕ)
    (path : PathBuf) (s0 : F.State) (file : FileStorage)
    (made : (Files.new F path s0).1 ≡ ok file) where
  file_put :
      (w : F.State) (k j : Text) (d : Bytes)
      → is_proper k ≡ true
      → is_proper j ≡ true
      → FileMap.contents W file (Files.put F file w k d).0 j ≡ (
          if is_ok (Files.put F file w k d).1 && k == j
          then some d
          else FileMap.contents W file w j)
  file_put w k j d hk hj =
      (contents_lem L path s0 w file k j d made (is_proper-IsProper k hk)
        (is_proper-IsProper j hj)).0

  file_delete :
      (w : F.State) (k j : Text)
      → is_proper k ≡ true
      → is_proper j ≡ true
      → FileMap.contents W file (Files.delete F file w k).0 j ≡ (
          if is_ok (Files.delete F file w k).1 && k == j then none else FileMap.contents W file w j)
  file_delete w k j hk hj =
      (contents_lem L path s0 w file k j [] made (is_proper-IsProper k hk)
        (is_proper-IsProper j hj)).1

  file_get :
      (w : F.State) (k : Text)
      → is_proper k ≡ true
      → Files.get F file w k ≡ get_or (FileMap.contents W file w k) []
  file_get w k h =
      (contents_lem L path s0 w file k k [] made (is_proper-IsProper k h)
        (is_proper-IsProper k h)).2

  admitted :
      (s : RouterStorage F) (k : Text) → contents W fuel file s k ≢ none → router_admits k ≡ true
  admitted s k there = ground (arith, there)

  get_contents :
      (s : RouterStorage F) (k : Text)
      → router_admits k ≡ true
      → get F fuel file s k ≡ get_or (contents W fuel file s k) []
  unfolding get
  get_contents s k h =
      ground (arith, h, memory_storage-IsStore.get_lem s.mem k refl, file_get s.disk k)

  put_contents :
      (s : RouterStorage F) (k j : Text) (v : Bytes)
      → router_admits k ≡ true
      → contents W fuel file (put F fuel file s k v).0 j
        ≡ (if is_ok (put F fuel file s k v).1 && k == j then some v else contents W fuel file s j)
  unfolding put
  put_contents s k j v h = ground (arith, eq_iff k j, h, mem_put s.mem k j v, file_put s.disk k j v)

  delete_contents :
      (s : RouterStorage F) (k j : Text)
      → router_admits k ≡ true
      → contents W fuel file (delete F fuel file s k).0 j
        ≡ (if is_ok (delete F fuel file s k).1 && k == j then none else contents W fuel file s j)
  unfolding delete
  delete_contents s k j h =
      ground (arith, eq_iff k j, h, mem_delete s.mem k j, file_delete s.disk k j)

  put-IsValid :
      (s : RouterStorage F) (k : Text) (v : Bytes)
      → memory_view.IsValid s.mem
      → memory_view.IsValid (put F fuel file s k v).0.mem
  unfolding put
  put-IsValid s k v h = ground (arith, memory_storage-IsStore.put-IsValid s.mem k v h, h)

  delete-IsValid :
      (s : RouterStorage F) (k : Text)
      → memory_view.IsValid s.mem
      → memory_view.IsValid (delete F fuel file s k).0.mem
  unfolding delete
  delete-IsValid s k h = ground (arith, memory_storage-IsStore.delete-IsValid s.mem k h, h)

  -- The router over the map in memory and a file storage that new made keeps the contract IsStore,
  -- whatever calls of the file system fail: it admits the keys that start with "runtime", for
  -- which it stands for the map in memory, and the keys whose parts are names, for which it stands
  -- for the files.
  pub router_storage-IsStore : IsStore (router_storage F fuel file) (router_view W fuel file)
  router_storage-IsStore = record {
    admitted = admitted;
    get_lem = get_contents;
    put_ok = λ s k j v h done.
        put_contents s k j v h
        ∙ ap (λ r. if is_ok r && k == j then some v else contents W fuel file s j) done;
    put_err = λ s k j v e h failed.
        put_contents s k j v h
        ∙ ap (λ r. if is_ok r && k == j then some v else contents W fuel file s j) failed;
    delete_ok = λ s k j h done.
        delete_contents s k j h
        ∙ ap (λ r. if is_ok r && k == j then none else contents W fuel file s j) done;
    delete_err = λ s k j e h failed.
        delete_contents s k j h
        ∙ ap (λ r. if is_ok r && k == j then none else contents W fuel file s j) failed;
    put-IsValid = put-IsValid;
    delete-IsValid = delete-IsValid;
  }
