-- ===== src/Core/DeleteLaws.antt =====
-- What `delete` of src/nkv.rs does to the keys and to the storage.
use mathlib.Core.List.{Memᴰ}
use nkv.Base.{
  Text, Bool, true, false, not, ◌||◌, ◌≡◌, ◌≢◌, ◌↔◌, refl, Option, some, none, List, [], ◌∷◌, arith,
  if◌then◌else◌, ◌==◌, list_eq, number_eq, elem, elem_iff,
}
use nkv.Base.Dict
use nkv.Errors.{ok}
use nkv.Message.{Message}
use nkv.Storage.{Bytes, StorageEngine, View, IsStore}
use nkv.Channels.{Mpsc}
use nkv.Trie
use nkv.Trie.{wildcard, has_wildcard, parts_of}
use nkv.Trie.Lookup.{value_at, get-value_at}
use nkv.Trie.Remove.{matches, value_at-remove}
use nkv.Trie.Outcome.{remove-IsWellFormed}
use nkv.Trie.Select.{selects}
use nkv.Core.{NkvCore, get, collect}
use nkv.Core.Delete.{delete, delete_stored, delete_objects}
use nkv.Core.Consistent.{IsConsistent, objects_iff, lookup-get}

-- Does the key have a wildcard only as its last part, if anywhere?
unfoldable pub is_trailing : Bool → List Text → Bool
is_trailing wild [] = not wild
is_trailing wild (part ∷ []) = part == wildcard || not wild
is_trailing wild (part ∷ next ∷ parts) =
    let rest = is_trailing wild (next ∷ parts) in if part == wildcard then false else rest

selects-matches :
    (wild : Bool) (parts path : List Text)
    → is_trailing wild parts ≡ true
    → selects wild parts path ≡ matches parts path
unfolding is_trailing selects matches
selects-matches wild [] [] h = ground arith
selects-matches wild [] (name ∷ path) h = ground arith
selects-matches wild (part ∷ []) [] h = ground arith
selects-matches wild (part ∷ []) (name ∷ []) h = ground arith
selects-matches wild (part ∷ []) (name ∷ next ∷ path) h = ground arith
selects-matches wild (part ∷ next ∷ parts) [] h = ground arith
selects-matches wild (part ∷ next ∷ parts) (name ∷ path) h =
    ground (arith, selects-matches wild (next ∷ parts) path)

module _ {S : StorageEngine} {V : View S} (L : IsStore S V) where
  contents-delete_objects :
      (ks : List Text) (st : S.State) (k : Text)
      → ((j : Text) → Memᴰ j ks → V.admits j ≡ true)
      → (delete_objects S ks st).0 ≡ ok tt
      → V.contents (delete_objects S ks st).1 k ≡ (if elem k ks then none else V.contents st k)
  unfolding delete_objects elem
  contents-delete_objects [] st k admits h = refl
  contents-delete_objects (j ∷ ks) st k admits h =
      let done = L.delete_ok st j k (admits j (Memᴰ.head refl)) in
      let later = contents-delete_objects ks (S.delete st j).0 k (λ i m. admits i (Memᴰ.tail m)) in
      ground (arith, done, later)

  delete_objects-IsValid :
      (ks : List Text) (st : S.State) → V.IsValid st → V.IsValid (delete_objects S ks st).1
  unfolding delete_objects
  delete_objects-IsValid [] st h = h
  delete_objects-IsValid (k ∷ ks) st h =
      ground (arith, L.delete-IsValid st k, delete_objects-IsValid ks (S.delete st k).0)

module _ {S : StorageEngine} {Q : Mpsc Message} where
  delete_done :
      (s : NkvCore S Q) (key : Text)
      → (delete S Q s key).1 ≡ ok tt
      → ((delete_objects S (Trie.get s.objects key) s.storage).0 ≡ ok tt)
        × ((delete S Q s key).0.storage ≡ (delete_objects S (Trie.get s.objects key) s.storage).1)
        × ((delete S Q s key).0.objects ≡ (Trie.remove s.objects key).0)
  unfolding delete delete_stored
  delete_done s key h = ground arith

was_there :
    {A : Type 0} (gone : Bool) (o : Option A) {a : A}
    → (if gone then none else o) ≡ some a
    → o ≡ some a
was_there true o e = cc
was_there false o e = e

stored_left :
    (gone : Bool) {k : Text} {listed : Option Text} {o : Option Bytes}
    → (listed ≡ some k) ↔ (o ≢ none)
    → ((if gone then none else listed) ≡ some k) ↔ ((if gone then none else o) ≢ none)
stored_left true h = ((λ e. cc), λ n. absurd (n refl))
stored_left false h = h

-- What is left of an entry: `here` tells whether its key is deleted.
entry_left :
    (here chosen : Bool) (o : Option Bytes)
    → (here ≡ true → chosen ≡ true)
    → (chosen ≡ true → o ≢ none → here ≡ true)
    → (if here then none else o) ≡ (if chosen then none else o)
entry_left true chosen o to from = rw (to refl) refl
entry_left false false o to from = refl
entry_left false true none to from = refl
entry_left false true (some v) to from = cc (from refl (λ e. cc))

module _ {S : StorageEngine} {Q : Mpsc Message} {V : View S} (L : IsStore S V) where
  -- If delete succeeds on a consistent core over a storage that keeps the contract IsStore, the
  -- storage has lost the data of the keys that the key selects, and no other.
  pub contents-delete :
      (s : NkvCore S Q) (key k : Text)
      → IsConsistent V s
      → (delete S Q s key).1 ≡ ok tt
      → V.contents (delete S Q s key).0.storage k ≡ (
          if selects (has_wildcard key) (parts_of key) (parts_of k)
          then none
          else V.contents s.storage k)
  contents-delete s key k h done =
      let (gone, same, _) = delete_done s key done in
      let (to, from) = objects_iff L s key k h in
      let listed = elem_iff k (Trie.get s.objects key) in
      let admits = λ (j : Text) (m : Memᴰ j (Trie.get s.objects key)).
        L.admitted s.storage j ((objects_iff L s key j h).0 m).1 in
      rw (same, contents-delete_objects L (Trie.get s.objects key) s.storage k admits gone)
        (entry_left (elem k (Trie.get s.objects key))
          (selects (has_wildcard key) (parts_of key) (parts_of k)) (V.contents s.storage k)
          (λ e. (to (listed.0 e)).0) (λ a b. listed.1 (from (a, b))))

  -- delete of a key with a wildcard as its last part or nowhere keeps the tree of objects and the
  -- storage consistent, if it succeeds.
  pub delete-IsConsistent :
      (s : NkvCore S Q) (key : Text)
      → IsConsistent V s
      → is_trailing (has_wildcard key) (parts_of key) ≡ true
      → (delete S Q s key).1 ≡ ok tt
      → IsConsistent V (delete S Q s key).0
  delete-IsConsistent s key h trailing done =
      let (gone, same_storage, same_objects) = delete_done s key done in
      record {
        shape = rw same_objects (remove-IsWellFormed s.objects key h.shape);
        storage =
            rw same_storage (delete_objects-IsValid L (Trie.get s.objects key) s.storage h.storage);
        listed = λ path k e. h.listed path k (
            was_there (matches (parts_of key) path) (value_at path s.objects.root)
              (rw (same_objects, value_at-remove s.objects key path h.shape) at e));
        stored = λ k.
            rw
              (
                contents-delete s key k h done,
                same_objects,
                value_at-remove s.objects key (parts_of k) h.shape,
                selects-matches (has_wildcard key) (parts_of key) (parts_of k) trailing,
              )
              (stored_left (matches (parts_of key) (parts_of k)) (h.stored k));
      }

  -- After a successful delete, on a consistent core over a storage that keeps the contract
  -- IsStore, of a key with a wildcard as its last part or nowhere, get of any key finds what it
  -- found before, less the keys that the deleted key selects.
  pub lookup-get-delete :
      (s : NkvCore S Q) (key q k : Text)
      → IsConsistent V s
      → is_trailing (has_wildcard key) (parts_of key) ≡ true
      → (delete S Q s key).1 ≡ ok tt
      → Dict.lookup k (get S Q (delete S Q s key).0 q) ≡ (
          if selects (has_wildcard key) (parts_of key) (parts_of k)
          then none
          else Dict.lookup k (get S Q s q))
  lookup-get-delete s key q k h trailing done =
      rw
        (
          lookup-get L (delete S Q s key).0 q k (delete-IsConsistent s key h trailing done),
          lookup-get L s q k h,
          contents-delete s key k h done,
        )
        (ground arith)

  -- If delete succeeds on a consistent core over a storage that keeps the contract IsStore, for a
  -- key that selects a stored key but does not match its path, that key stays listed, and get
  -- finds it with empty data.
  pub lookup-get-delete_middle :
      (s : NkvCore S Q) (key k : Text)
      → IsConsistent V s
      → (delete S Q s key).1 ≡ ok tt
      → V.contents s.storage k ≢ none
      → selects (has_wildcard key) (parts_of key) (parts_of k) ≡ true
      → matches (parts_of key) (parts_of k) ≡ false
      → get S Q (delete S Q s key).0 k ≡ (k, []) ∷ []
  unfolding get collect Dict.insert
  lookup-get-delete_middle s key k h done there chosen kept =
      let (gone, same_storage, same_objects) = delete_done s key done in
      let at_path = (h.stored k).1 there in
      let plain = (h.listed (parts_of k) k at_path).1 in
      let found : Trie.get (delete S Q s key).0.objects k ≡ k ∷ [] =
        rw
          (
            same_objects,
            get-value_at (Trie.remove s.objects key).0 k plain,
            value_at-remove s.objects key (parts_of k) h.shape,
            kept,
            at_path,
          )
          refl in
      let lost : S.get (delete S Q s key).0.storage k ≡ [] =
        rw
          (
            L.get_lem (delete S Q s key).0.storage k (L.admitted s.storage k there),
            contents-delete s key k h done,
            chosen,
          )
          refl in
      rw (found, lost) refl
