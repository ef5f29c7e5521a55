-- ===== src/Storage/RouterKeys.antt =====
-- `keys` of src/storage/router_storage.rs over the files of src/storage/file_storage.rs.
use mathlib.Core.List.{Memᴰ}
use nkv.Base.{
  ℕ, Text, true, false, not, ◌≡◌, ◌≢◌, ◌↔◌, refl, none, List, [], ◌∷◌, arith, list_eq, number_eq,
  All, Avoids, elem, contains_char, split, eq_iff, Option, if◌then◌else◌, ◌&&◌,
}
use nkv.Base.Dict
use nkv.Storage.Memory
use nkv.Storage.Memory.{contents-new, new-IsValid}
use nkv.Storage.Paths.{PathBuf, IsProper, file_path}
use nkv.Storage.Files.{FileStorage}
use nkv.Storage.FileSystem
use nkv.Storage.FileSystem.{FileSystem}
use nkv.Storage.Folders.{Tree, keys_lem}
use nkv.Storage.Router
use nkv.Storage.Router.{is_runtime}
use nkv.Storage.RouterLaws.{is_proper, is_proper-IsProper, contents, router_view}

nonempty_parts : (parts : List Text) → All (λ part. part ≢ []) parts → elem [] parts ≡ false
unfolding elem
nonempty_parts [] h = refl
nonempty_parts (part ∷ parts) (here, later) =
    ground (arith, eq_iff part [], here, nonempty_parts parts later)

no_slash : (c : ℕ) (s : Text) → Avoids c s → contains_char c s ≡ false
unfolding contains_char
no_slash c [] h = refl
no_slash c (x ∷ s) (here, later) = ground (arith, here, no_slash c s later)

pub IsProper-is_proper : (key : Text) → IsProper key → is_proper key ≡ true
unfolding is_proper
IsProper-is_proper key (parts, slashes) =
    ground (arith, nonempty_parts (split b'.' key) parts, no_slash b'/' key slashes)

module _ {F : FileSystem} (W : FileSystem.View F) (fuel : ℕ) (file : FileStorage)
    (disk : F.State) where
  -- What the files hold for a key.
  abbrev pub on_disk : Text → Option (List ℕ)
  on_disk k =
      if not (is_runtime k) && is_proper k then W.file disk (file_path file.digest k) else none

  pub new_router-IsValid :
      (router_view W fuel file).IsValid (Router.new F fuel file Memory.new disk)
  unfolding Router.new
  new_router-IsValid = new-IsValid

  pub contents-new_router :
      (k : Text) → contents W fuel file (Router.new F fuel file Memory.new disk) k ≡ on_disk k
  unfolding Router.new
  contents-new_router k = ground (arith, contents-new k)

module _ {F : FileSystem} (W : FileSystem.View F) (fuel : ℕ) (file : FileStorage) (disk : F.State)
    (files : List PathBuf) where
  -- The files of a directory are those of keys whose parts are names and that do not go to the map
  -- in memory, and the walk over the directory meets exactly the files that are there.
  pub record IsReadable : Type 0 where
    pub tree : Tree F disk fuel file.digest files
    pub named : All (λ p. (j : Text) × IsProper j × (p ≡ file_path file.digest j)) files
    pub persistent :
        (k : Text) → Memᴰ (file_path file.digest k) files → IsProper k → is_runtime k ≡ false
    pub present :
        (k : Text)
        → IsProper k
        → Memᴰ (file_path file.digest k) files ↔ (W.file disk (file_path file.digest k) ≢ none)

  of_on_disk :
      (k : Text)
      → on_disk W fuel file disk k ≢ none
      → (is_proper k ≡ true) × (W.file disk (file_path file.digest k) ≢ none)
  of_on_disk k there = (ground (arith, there), ground (arith, there))

  pub keys-new_iff :
      IsReadable
      → (k : Text)
      → Memᴰ k (Router.keys F fuel file (Router.new F fuel file Memory.new disk))
        ↔ (contents W fuel file (Router.new F fuel file Memory.new disk) k ≢ none)
  unfolding Router.keys Router.new Memory.keys Memory.new Dict.keys
  keys-new_iff h k =
      let (ks, walked, exact) = keys_lem F file disk fuel files h.tree h.named in
      rw (walked, contents-new_router W fuel file disk k)
        (
          (λ m.
              let (proper, there) = (exact k).0 m in
              rw (h.persistent k there proper, IsProper-is_proper k proper)
                ((h.present k proper).0 there)),
          λ there.
              let (good, held) = of_on_disk k there in
              let proper = is_proper-IsProper k good in
              (exact k).1 (proper, (h.present k proper).1 held),
        )
