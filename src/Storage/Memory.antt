-- ===== src/Storage/Memory.antt =====
-- src/storage/memory_storage.rs: a map in memory.
use mathlib.Core.List.{Memᴰ}
use nkv.Base.{
  Text, literal, List, ◌≡◌, ◌≢◌, ◌↔◌, refl, none, some, [], ◌∷◌, ◌++◌, arith, ◌==◌, eq_iff, list_eq,
  number_eq, Option-cases, inl, inr, Bool-cases, sym,
}
use nkv.Base.Dict
use nkv.Base.Dict.{Dict}
use nkv.Errors.{IoResult, IoError, ErrorKind, ok, err}
use mathlib.Core.Bool.{true}
use nkv.Storage.{Bytes, StorageEngine, View, IsStore, IsLawful}

pub record MemoryStorage : Type 0 where
  pub storage : Dict Text Bytes

unfoldable pub new : MemoryStorage
new = record { storage = [] }

unfoldable pub put : MemoryStorage → Text → Bytes → MemoryStorage × IoResult
put s key d = (record { storage = Dict.insert key d s.storage }, ok tt)

-- The error of a `delete` of a missing key.
abbrev pub key_not_found : Text → IoError
key_not_found key = record {
  kind = ErrorKind.not_found;
  message = literal "Key '" ++ (key ++ literal "' not found");
}

unfoldable pub delete : MemoryStorage → Text → MemoryStorage × IoResult
delete s key = elim (Dict.lookup key s.storage) [
  | some _ ↦ (record { storage = Dict.remove key s.storage }, ok tt)
  | none ↦ (s, err (key_not_found key))
]

unfoldable pub get : MemoryStorage → Text → Bytes
get s key = elim (Dict.lookup key s.storage) [ some d ↦ d | none ↦ [] ]

unfoldable pub keys : MemoryStorage → List Text
keys s = Dict.keys s.storage

abbrev pub memory_storage : StorageEngine
memory_storage = record {
  State = MemoryStorage;
  put = put;
  get = get;
  delete = delete;
  keys = keys;
}

-- The map in memory stands for itself; its keys are distinct.
abbrev pub memory_view : View memory_storage
memory_view = record {
  contents = λ s k. Dict.lookup k s.storage;
  admits = λ k. true;
  IsValid = λ s. Dict.NodupKeys s.storage;
}

keys-lookup : (k : Text) (d : Dict Text Bytes) → Memᴰ k (Dict.keys d) ↔ (Dict.lookup k d ≢ none)
unfolding Dict.keys Dict.lookup
keys-lookup k [] = ((λ m. elim m [ ]), λ h. absurd (h refl))
keys-lookup k ((j, v) ∷ d) = (
  (λ m. elim m [
    | Memᴰ.head e ↦ ground (arith, eq_iff j k)
    | Memᴰ.tail m' ↦ ground (arith, (keys-lookup k d).0 m')
  ]),
  λ h. elim (Bool-cases (j == k)) [
    | inl same ↦ Memᴰ.head (sym ((eq_iff j k).0 same))
    | inr other ↦ Memᴰ.tail ((keys-lookup k d).1 (rw other at h))
  ],
)

delete-NodupKeys :
    (s : MemoryStorage) (k : Text)
    → Dict.NodupKeys s.storage
    → Dict.NodupKeys (delete s k).0.storage
unfolding delete
delete-NodupKeys s k h = elim (Option-cases (Dict.lookup k s.storage)) [
  | inl missing ↦ rw (missing, delete) h
  | inr (v, found) ↦ rw (found, delete) (Dict.remove-NodupKeys k s.storage h)
]

pub memory_storage-IsStore : IsStore memory_storage memory_view
unfolding put get delete
memory_storage-IsStore = record {
  admitted = λ s k there. refl;
  get_lem = λ s k _. ground arith;
  put_ok = λ s k j v _ _. Dict.lookup-insert k j v s.storage;
  put_err = λ s k j v e _ h. cc;
  delete_ok = λ s k j _ h. ground (arith, Dict.lookup-remove k j s.storage);
  delete_err = λ s k j e _ h. ground arith;
  put-IsValid = λ s k v h. Dict.insert-NodupKeys k v s.storage h;
  delete-IsValid = λ s k h. delete-NodupKeys s k h;
}

-- The map in memory keeps the contract of a storage engine on all keys, and lists exactly the keys
-- that it holds.
pub memory_storage-IsLawful : IsLawful memory_storage memory_view
unfolding keys
memory_storage-IsLawful = record {
  store = memory_storage-IsStore;
  keys_iff = λ s k _. keys-lookup k s.storage;
}

pub new-IsValid : memory_view.IsValid new
unfolding new
new-IsValid = tt

pub contents-new : (k : Text) → memory_view.contents new k ≡ none
unfolding new Dict.lookup
contents-new k = refl
