-- ===== src/Core/Consistent.antt =====
-- The tree of objects of `NkvCore` (src/nkv.rs) lists exactly the keys of the storage, each at its
-- own path; so `get` returns the stored data of the keys that a key selects.
use mathlib.Core.List.{Memᴰ}
use mathlib.Core.Option.{get_or}
use nkv.Base.{
  Text, Bool, true, false, ◌≡◌, ◌≢◌, ◌↔◌, refl, Option, none, some, List, [], ◌∷◌, map, arith,
  if◌then◌else◌, eq_iff, list_eq, number_eq, elem, elem_iff,
}
use nkv.Base.Dict
use nkv.Message.{Message}
use nkv.Storage.{Bytes, StorageEngine, View, IsStore}
use nkv.Channels.{Mpsc}
use nkv.Trie
use nkv.Trie.{has_wildcard, parts_of}
use nkv.Trie.Lookup.{value_at}
use nkv.Trie.Shape.{IsWellFormed}
use nkv.Trie.Select.{selects, get-Selected_iff}
use nkv.Core.{NkvCore, collect, get}

module _ {S : StorageEngine} {Q : Mpsc Message} (V : View S) where
  pub record IsConsistent (s : NkvCore S Q) : Type 0 where
    pub shape : IsWellFormed s.objects.root
    pub storage : V.IsValid s.storage
    -- An object stands at the path of its key, which has no wildcard.
    pub listed :
        (path : List Text) (k : Text)
        → value_at path s.objects.root ≡ some k
        → (path ≡ parts_of k) × (has_wildcard k ≡ false)
    -- The storage holds exactly the keys that are listed.
    pub stored :
        (k : Text)
        → (value_at (parts_of k) s.objects.root ≡ some k) ↔ (V.contents s.storage k ≢ none)

-- A test that holds exactly for the selected and stored keys makes the entry of the key.
entry_of_listed :
    (here chosen : Bool) (content : Option Bytes) (read : Bytes)
    → (content ≢ none → read ≡ get_or content [])
    → (here ≡ true → (chosen ≡ true) × (content ≢ none))
    → (chosen ≡ true → content ≢ none → here ≡ true)
    → (if here then some read else none) ≡ (if chosen then content else none)
entry_of_listed true chosen none read same to from = absurd ((to refl).1 refl)
entry_of_listed true chosen (some v) read same to from = rw ((to refl).0, same (λ e. cc)) refl
entry_of_listed false true none read same to from = refl
entry_of_listed false true (some v) read same to from = cc (from refl (λ e. cc))
entry_of_listed false false content read same to from = refl

module _ {S : StorageEngine} {Q : Mpsc Message} where
  lookup-collect :
      (s : NkvCore S Q) (k : Text) (ks : List Text) (d : Dict.Dict Text Bytes)
      → Dict.lookup k (collect (map (λ j. (j, S.get s.storage j)) ks) d)
        ≡ (if elem k ks then some (S.get s.storage k) else Dict.lookup k d)
  unfolding collect elem
  lookup-collect s k [] d = refl
  lookup-collect s k (j ∷ ks) d =
      let ih = lookup-collect s k ks (Dict.insert j (S.get s.storage j) d) in
      ground (arith, eq_iff j k, ih, Dict.lookup-insert j k (S.get s.storage j) d)

module _ {S : StorageEngine} {Q : Mpsc Message} {V : View S} (L : IsStore S V) where
  -- The keys that `get` finds in the tree are the stored keys that are selected.
  pub objects_iff :
      (s : NkvCore S Q) (key k : Text)
      → IsConsistent V s
      → Memᴰ k (Trie.get s.objects key) ↔ (
          (selects (has_wildcard key) (parts_of key) (parts_of k) ≡ true)
          × (V.contents s.storage k ≢ none))
  objects_iff s key k h = (
    (λ m.
        let (path, chosen, at_path) = (get-Selected_iff s.objects key k h.shape).0 m in
        let (same, _) = h.listed path k at_path in
        (rw same at chosen, (h.stored k).0 (rw same at at_path))),
    λ (chosen, there).
        (get-Selected_iff s.objects key k h.shape).1 (parts_of k, chosen, (h.stored k).1 there),
  )

  -- On a consistent core over a storage that keeps the contract IsStore, get of a key is the map
  -- of the stored keys that the key selects, each with its stored data.
  pub lookup-get :
      (s : NkvCore S Q) (key k : Text)
      → IsConsistent V s
      → Dict.lookup k (get S Q s key) ≡ (
          if selects (has_wildcard key) (parts_of key) (parts_of k)
          then V.contents s.storage k
          else none)
  unfolding get Dict.lookup
  lookup-get s key k h =
      let found = lookup-collect s k (Trie.get s.objects key) [] in
      let listed = elem_iff k (Trie.get s.objects key) in
      let (to, from) = objects_iff s key k h in
      rw found (
        entry_of_listed (elem k (Trie.get s.objects key))
          (selects (has_wildcard key) (parts_of key) (parts_of k)) (V.contents s.storage k)
          (S.get s.storage k) (λ there. L.get_lem s.storage k (L.admitted s.storage k there))
          (λ e. to (listed.0 e)) (λ a b. listed.1 (from (a, b))))
