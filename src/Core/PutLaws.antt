-- ===== src/Core/PutLaws.antt =====
-- What `put` of src/nkv.rs does to the keys and to the storage.
use nkv.Base.{
  ℕ, Text, literal, ◌++◌, Bool, true, false, not, ◌&&◌, ◌≡◌, ◌≢◌, ◌↔◌, refl, sym, ap, ◌∙◌, none,
  some, List, [], ◌∷◌, arith, if◌then◌else◌, ◌==◌, eq_iff, eq_refl, list_eq, number_eq, Bool-cases,
  inl, inr,
}
use nkv.Base.Dict
use nkv.Errors.{ok, err, IoError, io_error, wrong_key, IoResult}
use nkv.Message.{Message}
use nkv.Storage.{Bytes, StorageEngine, View, IsStore}
use nkv.Channels.{Mpsc}
use nkv.Trie
use nkv.Trie.{has_wildcard, parts_of, insert_node}
use nkv.Trie.Lookup.{value_at, parts_of-beq, get-insert}
use nkv.Trie.Shape.{insert-IsWellFormed}
use nkv.Trie.Select.{selects}
use nkv.Core.{NkvCore, Heap, captured, collect, get}
use nkv.Core.Notifications.{send_update}
use nkv.Core.Put.{put, put_checked, notify_put, notify_captured, notify_target, is_key_correct}
use nkv.Core.Listing.{value_at-entered, entered-IsListing}
use nkv.Core.Consistent.{IsConsistent, lookup-get}

module _ {S : StorageEngine} {Q : Mpsc Message} (s : NkvCore S Q) (key : Text) (v : Bytes) where
  objects-put_checked : (put_checked S Q s key v).0.objects ≡ (Trie.insert s.objects key key).0
  unfolding put_checked
  objects-put_checked = ground arith

  pub storage-put_checked : (put_checked S Q s key v).0.storage ≡ (S.put s.storage key v).0
  unfolding put_checked
  storage-put_checked = ground arith

module _ {S : StorageEngine} {Q : Mpsc Message} {V : View S} (L : IsStore S V) where
  put_checked-IsConsistent :
      (s : NkvCore S Q) (key : Text) (v : Bytes)
      → IsConsistent V s
      → has_wildcard key ≡ false
      → V.admits key ≡ true
      → (S.put s.storage key v).1 ≡ ok tt
      → IsConsistent V (put_checked S Q s key v).0
  put_checked-IsConsistent s key v h plain admits stored =
      let objects_eq = objects-put_checked s key v in
      let storage_eq = storage-put_checked s key v in
      record {
        shape = rw objects_eq (insert-IsWellFormed s.objects key key h.shape);
        storage = rw storage_eq (L.put-IsValid s.storage key v h.storage);
        listed = rw objects_eq (entered-IsListing s.objects key plain h.listed);
        stored = λ k.
            rw (objects_eq, storage_eq, L.put_ok s.storage key k v admits stored) (stored_after k);
      }
    where
      stored_after :
          (k : Text)
          → (value_at (parts_of k) (Trie.insert s.objects key key).0.root ≡ some k)
            ↔ ((if key == k then some v else V.contents s.storage k) ≢ none)
      stored_after k =
          rw (value_at-entered s.objects key plain (parts_of k), parts_of-beq key k)
            (elim (Bool-cases (key == k)) [
              | inl same ↦ rw same ((λ _. λ e. cc), λ _. ap some ((eq_iff key k).0 same))
              | inr other ↦ rw other (h.stored k)
            ])

-- Does `put` let the key through?
abbrev pub accepts : (Text → Text → Bool) → Text → Bool
accepts is_match key = not (has_wildcard key) && is_key_correct is_match key

pub plain_of_accepts :
    (is_match : Text → Text → Bool) (key : Text)
    → accepts is_match key ≡ true
    → has_wildcard key ≡ false
plain_of_accepts is_match key a = ground arith

-- The text of the error for a key that is not let through.
abbrev refusal : Text → Text
refusal key =
    if has_wildcard key
    then literal "put does not support wildcards"
    else literal "key " ++ (key ++ literal " is invalid")

module _ (Q : Mpsc Message) where
  notify_captured-ne-wrong_key :
      (heap : Heap) (ns : List ℕ) (key : Text) (v : Bytes) (c : Q.State) (m : Text)
      → (notify_captured Q heap ns key v c).0 ≢ err (wrong_key m)
  unfolding notify_captured
  notify_captured-ne-wrong_key heap [] key v c m = cc
  notify_captured-ne-wrong_key heap (n ∷ ns) key v c m =
      ground (
        arith,
        notify_captured-ne-wrong_key heap ns key v (send_update Q (heap.cell n) key v c).1 m,
      )

module _ {S : StorageEngine} {Q : Mpsc Message} where
  put_checked-ne-wrong_key :
      (s : NkvCore S Q) (key : Text) (v : Bytes) (m : Text)
      → (put_checked S Q s key v).1 ≢ err (wrong_key m)
  unfolding put_checked notify_put
  put_checked-ne-wrong_key s key v m =
      let (visited, notifiers) = Trie.get_mut s.notifiers key in
      ground (
        arith,
        notify_captured-ne-wrong_key Q s.heap (captured visited) key v
            (notify_target Q s.heap notifiers key v s.channels) m,
      )

module _ {S : StorageEngine} {Q : Mpsc Message} (is_match : Text → Text → Bool) where
  pub put_of_accepts :
      (s : NkvCore S Q) (key : Text) (v : Bytes)
      → accepts is_match key ≡ true
      → put S Q is_match s key v ≡ put_checked S Q s key v
  unfolding put
  put_of_accepts s key v a = ground arith

  -- A put that the storage does not take ends with the storage's error.
  put_checked_failed :
      (s : NkvCore S Q) (key : Text) (v : Bytes) (e : IoError)
      → (S.put s.storage key v).1 ≡ err e
      → (put_checked S Q s key v).1 ≡ err (io_error e)
  unfolding put_checked
  put_checked_failed s key v e failed = ground arith

  pub stored_of_no_io_error :
      (s : NkvCore S Q) (key : Text) (v : Bytes)
      → accepts is_match key ≡ true
      → ((e : IoError) → (put S Q is_match s key v).1 ≢ err (io_error e))
      → (S.put s.storage key v).1 ≡ ok tt
  stored_of_no_io_error s key v a quiet = by_result (S.put s.storage key v).1 refl
    where
      by_result : (r : IoResult) → (S.put s.storage key v).1 ≡ r → (S.put s.storage key v).1 ≡ ok tt
      by_result (ok tt) e = e
      by_result (err x) e =
          absurd (quiet x (rw (put_of_accepts s key v a) (put_checked_failed s key v x e)))

  pub refused_put :
      (s : NkvCore S Q) (key : Text) (v : Bytes)
      → accepts is_match key ≡ false
      → put S Q is_match s key v ≡ (s, err (wrong_key (refusal key)))
  unfolding put
  refused_put s key v refused = ground arith

  -- put answers WrongKey exactly for the keys with a wildcard and those that the pattern refuses,
  -- and then the state is as before.
  pub put_rejected_iff :
      (s : NkvCore S Q) (key : Text) (v : Bytes)
      → ((accepts is_match key ≡ false)
          ↔ ((m : Text) × (put S Q is_match s key v ≡ (s, err (wrong_key m)))))
  put_rejected_iff s key v = (
    (λ refused. (refusal key, refused_put s key v refused)),
    λ (m, e). elim (Bool-cases (accepts is_match key)) [
      | inr refused ↦ refused
      | inl a ↦
          absurd (
            put_checked-ne-wrong_key s key v m (ap (λ r. r.1) (sym (put_of_accepts s key v a) ∙ e)))
    ],
  )

module _ {S : StorageEngine} {Q : Mpsc Message} {V : View S} (L : IsStore S V)
    (is_match : Text → Text → Bool) where
  -- put keeps the tree of objects and the storage consistent, unless it returns an error of the
  -- storage.
  pub put-IsConsistent :
      (s : NkvCore S Q) (key : Text) (v : Bytes)
      → IsConsistent V s
      → V.admits key ≡ true
      → ((e : IoError) → (put S Q is_match s key v).1 ≢ err (io_error e))
      → IsConsistent V (put S Q is_match s key v).0
  put-IsConsistent s key v h admits quiet = elim (Bool-cases (accepts is_match key)) [
    | inl a ↦ rw (put_of_accepts is_match s key v a) (
        put_checked-IsConsistent L s key v h (plain_of_accepts is_match key a) admits
          (stored_of_no_io_error is_match s key v a quiet))
    | inr refused ↦ rw (refused_put is_match s key v refused) h
  ]

  -- Over a storage that keeps the contract IsStore, after a put of a key that the storage admits,
  -- which the key checks and the storage took, on a consistent core, get of any key finds the new
  -- value at the put key wherever it selects that key, and finds at every other key what it found
  -- before.
  pub lookup-get-put :
      (s : NkvCore S Q) (key q k : Text) (v : Bytes)
      → IsConsistent V s
      → accepts is_match key ≡ true
      → V.admits key ≡ true
      → (S.put s.storage key v).1 ≡ ok tt
      → Dict.lookup k (get S Q (put S Q is_match s key v).0 q) ≡ (
          if selects (has_wildcard q) (parts_of q) (parts_of k) && key == k
          then some v
          else Dict.lookup k (get S Q s q))
  lookup-get-put s key q k v h a admits stored =
      let h' =
        put_checked-IsConsistent L s key v h (plain_of_accepts is_match key a) admits stored in
      rw
        (
          put_of_accepts is_match s key v a,
          lookup-get L (put_checked S Q s key v).0 q k h',
          lookup-get L s q k h,
          storage-put_checked s key v,
          L.put_ok s.storage key k v admits stored,
        )
        (ground arith)

  -- After a put that the storage took, `get` of the key finds its value and nothing else.
  pub get_after_put :
      (s : NkvCore S Q) (key : Text) (v : Bytes)
      → accepts is_match key ≡ true
      → V.admits key ≡ true
      → (S.put s.storage key v).1 ≡ ok tt
      → get S Q (put S Q is_match s key v).0 key ≡ (key, v) ∷ []
  unfolding get collect Dict.insert
  get_after_put s key v a admits stored =
      let plain = plain_of_accepts is_match key a in
      rw
        (
          put_of_accepts is_match s key v a,
          objects-put_checked s key v,
          storage-put_checked s key v,
          get-insert s.objects key key key plain plain,
          eq_refl key,
          L.get_lem (S.put s.storage key v).0 key admits,
          L.put_ok s.storage key key v admits stored,
          eq_refl key,
        )
        refl

  -- If a storage that keeps the contract IsStore fails to take a new key that it admits and that
  -- passes the checks, the key is listed all the same: get then finds it with empty data.
  pub get_after_failed_put :
      (s : NkvCore S Q) (key : Text) (v : Bytes) (e : IoError)
      → accepts is_match key ≡ true
      → V.admits key ≡ true
      → V.contents s.storage key ≡ none
      → (S.put s.storage key v).1 ≡ err e
      → get S Q (put S Q is_match s key v).0 key ≡ (key, []) ∷ []
  unfolding get collect Dict.insert
  get_after_failed_put s key v e a admits missing failed =
      let plain = plain_of_accepts is_match key a in
      let listed = get-insert s.objects key key key plain plain in
      let empty = L.get_lem (S.put s.storage key v).0 key admits in
      let same = L.put_err s.storage key key v e admits failed in
      rw (
        put_of_accepts is_match s key v a,
        objects-put_checked s key v,
        storage-put_checked s key v,
        listed,
        eq_refl key,
        empty,
        same,
        missing,
      )
