-- ===== src/Storage.antt =====
-- src/storage/traits.rs: the trait `StorageEngine`, and the contract that `NkvCore` relies on.
pub mod Memory
pub mod Router
pub mod RouterLaws
pub mod RouterKeys
pub mod Tests
pub mod Paths
pub mod PathLaws
pub mod FileSystem
pub mod Files
pub mod FileLaws
pub mod FileMap
pub mod FileModel
pub mod Folders
pub mod FileTests
use mathlib.Core.List.{Memᴰ}
use mathlib.Core.Option.{get_or}
use nkv.Base.{
  ℕ, Text, Bool, true, ◌≡◌, ◌≢◌, ◌↔◌, Option, none, some, List, [], if◌then◌else◌, ◌==◌, list_eq,
  number_eq,
}
use nkv.Errors.{IoResult, IoError, ok, err}

-- `[u8]`
abbrev pub Bytes : Type 0
Bytes = List ℕ

pub record StorageEngine : Type 1 where
  pub State : Type 0
  pub put : State → Text → Bytes → State × IoResult
  pub get : State → Text → Bytes
  pub delete : State → Text → State × IoResult
  pub keys : State → List Text

-- What a state stands for, a map from keys to data, which keys the engine is meant for, and which
-- states are valid.
pub record View (S : StorageEngine) : Type 1 where
  pub contents : S.State → Text → Option Bytes
  pub admits : Text → Bool
  pub IsValid : S.State → Type 0

-- What the core relies on, on the admitted keys alone: an operation that succeeds does what it
-- says and keeps the other keys, one that fails changes nothing, and `get` of a missing key is
-- empty. Put and delete keep the validity of the state.
pub record IsStore (S : StorageEngine) (V : View S) : Type 0 where
  pub admitted : (s : S.State) (k : Text) → V.contents s k ≢ none → V.admits k ≡ true
  pub get_lem :
      (s : S.State) (k : Text) → V.admits k ≡ true → S.get s k ≡ get_or (V.contents s k) []
  pub put_ok :
      (s : S.State) (k j : Text) (v : Bytes)
      → V.admits k ≡ true
      → (S.put s k v).1 ≡ ok tt
      → V.contents (S.put s k v).0 j ≡ (if k == j then some v else V.contents s j)
  pub put_err :
      (s : S.State) (k j : Text) (v : Bytes) (e : IoError)
      → V.admits k ≡ true
      → (S.put s k v).1 ≡ err e
      → V.contents (S.put s k v).0 j ≡ V.contents s j
  pub delete_ok :
      (s : S.State) (k j : Text)
      → V.admits k ≡ true
      → (S.delete s k).1 ≡ ok tt
      → V.contents (S.delete s k).0 j ≡ (if k == j then none else V.contents s j)
  pub delete_err :
      (s : S.State) (k j : Text) (e : IoError)
      → V.admits k ≡ true
      → (S.delete s k).1 ≡ err e
      → V.contents (S.delete s k).0 j ≡ V.contents s j
  pub put-IsValid : (s : S.State) (k : Text) (v : Bytes) → V.IsValid s → V.IsValid (S.put s k v).0
  pub delete-IsValid : (s : S.State) (k : Text) → V.IsValid s → V.IsValid (S.delete s k).0

-- A store that lists its keys in every valid state.
pub record IsLawful (S : StorageEngine) (V : View S) : Type 0 where
  pub store : IsStore S V
  pub keys_iff :
      (s : S.State) (k : Text) → V.IsValid s → Memᴰ k (S.keys s) ↔ (V.contents s k ≢ none)
