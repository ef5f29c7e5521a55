-- ===== src/Core/Addresses.antt =====
-- The addresses of the notifiers of src/nkv.rs: the tree of notifiers holds an `Arc` at each of
-- its keys, and no two of them are one.
use nkv.Base.{
  ℕ, suc, Text, Bool, false, ◌<◌, ◌≡◌, refl, some, List, [], ◌∷◌, arith, ◌==◌, eq_iff, list_eq,
  number_eq, Bool-cases, inl, inr, if◌then◌else◌,
}
use nkv.Errors.{Result-cases, Result, ok, err, NotifyKeyValueError, NotificationError}
use nkv.Message.{Message}
use nkv.Storage.{Bytes, StorageEngine}
use nkv.Channels.{Mpsc}
use nkv.Trie
use nkv.Trie.{Trie, parts_of, has_wildcard}
use nkv.Trie.Nodes.{TrieNode}
use nkv.Trie.Lookup.{value_at, value_at-new, value_at-insert_node}
use nkv.Trie.Remove.{value_at-remove}
use nkv.Trie.Shape.{IsWellFormed, insert-IsWellFormed, new-IsWellFormed}
use nkv.Trie.Outcome.{remove-IsWellFormed}
use nkv.Core.{NkvCore, Heap, write, captured}
use nkv.Core.Notifications.{Notification, new, subscribe_uuid, unsubscribe_all}
use nkv.Core.Put.{put, put_checked, notify_put}
use nkv.Core.Delete.{delete, delete_stored, delete_objects, unsubscribe_notifiers, close_captured}
use nkv.Core.Subscribe.{subscribe, unsubscribe, subscribe_notifier, enter_new, send_present}

-- Every address in the tree was given out, and stands at one path only.
pub record IsManaged (root : TrieNode ℕ) (next : ℕ) : Type 0 where
  pub shape : IsWellFormed root
  pub allocated : (path : List Text) (n : ℕ) → value_at path root ≡ some n → n < next
  pub apart :
      (p q : List Text) (n : ℕ) → value_at p root ≡ some n → value_at q root ≡ some n → p ≡ q

abbrev pub AreManaged : {S : StorageEngine} {Q : Mpsc Message} → NkvCore S Q → Type 0
AreManaged s = IsManaged s.notifiers.root s.heap.next

later-IsManaged : (root : TrieNode ℕ) (next : ℕ) → IsManaged root next → IsManaged root (suc next)
later-IsManaged root next h = record {
  shape = h.shape;
  allocated = λ path n e. omega (arith, h.allocated path n e);
  apart = h.apart;
}

remove-IsManaged :
    (t : Trie ℕ) (key : Text) (next : ℕ)
    → IsManaged t.root next
    → IsManaged (Trie.remove t key).0.root next
remove-IsManaged t key next h =
    let kept : (path : List Text) (n : ℕ)
        → value_at path (Trie.remove t key).0.root ≡ some n
        → value_at path t.root ≡ some n =
      λ path n e. ground (arith, e, value_at-remove t key path h.shape) in
    record {
      shape = remove-IsWellFormed t key h.shape;
      allocated = λ path n e. h.allocated path n (kept path n e);
      apart = λ p q n e e'. h.apart p q n (kept p n e) (kept q n e');
    }

value_at-insert :
    (t : Trie ℕ) (key : Text) (path : List Text) (v : ℕ)
    → has_wildcard key ≡ false
    → value_at path (Trie.insert t key v).0.root
      ≡ (if parts_of key == path then some v else value_at path t.root)
unfolding Trie.insert
value_at-insert t key path v plain =
    rw (Trie.insert, plain) (value_at-insert_node (parts_of key) path v t.root)

insert-IsManaged :
    (t : Trie ℕ) (key : Text) (next : ℕ)
    → IsManaged t.root next
    → IsManaged (Trie.insert t key next).0.root (suc next)
insert-IsManaged t key next h = elim (Bool-cases (has_wildcard key)) [
  | inl wild ↦
      let same : (Trie.insert t key next).0 ≡ t = unfold Trie.insert in rw wild refl in
      rw same (later-IsManaged t.root next h)
  | inr plain ↦
      let at = λ (path : List Text). value_at-insert t key path next plain in
      record {
        shape = insert-IsWellFormed t key next h.shape;
        allocated = λ path n e. ground (arith, e, at path, h.allocated path n);
        apart = λ p q n e e'. ground (
          arith,
          e,
          e',
          at p,
          at q,
          eq_iff (parts_of key) p,
          eq_iff (parts_of key) q,
          h.allocated p n,
          h.allocated q n,
          h.apart p q n,
        );
      }
]

unsubscribe_notifiers-next :
    (Q : Mpsc Message) (ns : List ℕ) (key : Text) (heap : Heap) (c : Q.State)
    → (unsubscribe_notifiers Q ns key heap c).1.next ≡ heap.next
unfolding unsubscribe_notifiers
unsubscribe_notifiers-next Q [] key heap c = refl
unsubscribe_notifiers-next Q (n ∷ ns) key heap c =
    let (n', sent, c') = unsubscribe_all Q (heap.cell n) key c in
    ground (arith, unsubscribe_notifiers-next Q ns key (write heap n n') c')

module _ {S : StorageEngine} {Q : Mpsc Message} where
  -- The tree of notifiers and the addresses that were given out are the same.
  abbrev pub IsSameTree : NkvCore S Q → NkvCore S Q → Type 0
  IsSameTree s s' = (s'.notifiers ≡ s.notifiers) × (s'.heap.next ≡ s.heap.next)

  pub AreManaged-IsSameTree : (s s' : NkvCore S Q) → IsSameTree s s' → AreManaged s → AreManaged s'
  AreManaged-IsSameTree s s' (tree, next) h = rw (tree, next) h

  pub put-IsSameTree :
      (is_match : Text → Text → Bool) (s : NkvCore S Q) (key : Text) (v : Bytes)
      → IsSameTree s (put S Q is_match s key v).0
  unfolding put put_checked notify_put
  put-IsSameTree is_match s key v = (ground arith, ground arith)

  pub unsubscribe-IsSameTree :
      (s : NkvCore S Q) (key uuid : Text) → IsSameTree s (unsubscribe S Q s key uuid).0
  unfolding unsubscribe
  unsubscribe-IsSameTree s key uuid = (ground arith, ground arith)

  send_present-IsSameTree :
      (s : NkvCore S Q) (key uuid : Text) (r : Result (ℕ × ℕ) NotifyKeyValueError)
      → IsSameTree s (send_present S Q s key uuid r).0
  unfolding send_present
  send_present-IsSameTree s key uuid (err e) = (refl, refl)
  send_present-IsSameTree s key uuid (ok (rx, n)) = (ground arith, ground arith)

  enter_new-AreManaged :
      (s : NkvCore S Q) (key : Text) (n : Notification) (r : Result ℕ NotificationError)
      (c : Q.State)
      → AreManaged s
      → AreManaged (enter_new S Q s key (n, r, c)).0
  enter_new-AreManaged s key n (err e) c h = later-IsManaged s.notifiers.root s.heap.next h
  enter_new-AreManaged s key n (ok rx) c h = insert-IsManaged s.notifiers key s.heap.next h

  -- By what the tree holds at the key.
  subscribe_found-AreManaged :
      (s : NkvCore S Q) (key uuid : Text) (found : List ℕ)
      → (Trie.get_mut s.notifiers key).1 ≡ found
      → AreManaged s
      → AreManaged (subscribe_notifier S Q s key uuid).0
  unfolding subscribe_notifier
  subscribe_found-AreManaged s key uuid [] e h =
      rw (subscribe_notifier, e)
        (let (n, r, c) = subscribe_uuid Q new uuid s.channels in enter_new-AreManaged s key n r c h)
  subscribe_found-AreManaged s key uuid (n ∷ []) e h =
      AreManaged-IsSameTree s (subscribe_notifier S Q s key uuid).0
        (rw (subscribe_notifier, e) (ground arith), rw (subscribe_notifier, e) (ground arith)) h
  subscribe_found-AreManaged s key uuid (n ∷ other ∷ more) e h = rw (subscribe_notifier, e) h

  pub subscribe-AreManaged :
      (s : NkvCore S Q) (key uuid : Text) → AreManaged s → AreManaged (subscribe S Q s key uuid).0
  unfolding subscribe
  subscribe-AreManaged s key uuid h =
      let (s', subscribed) = subscribe_notifier S Q s key uuid in
      AreManaged-IsSameTree s' (send_present S Q s' key uuid subscribed).0
        (send_present-IsSameTree s' key uuid subscribed)
        (subscribe_found-AreManaged s key uuid (Trie.get_mut s.notifiers key).1 refl h)

  delete_stored-AreManaged :
      (s : NkvCore S Q) (key : Text) → AreManaged s → AreManaged (delete_stored S Q s key).0
  unfolding delete_stored
  delete_stored-AreManaged s key h =
      elim (Result-cases (delete_objects S (Trie.get s.objects key) s.storage).0) [
        | inl (_, e) ↦ rw (delete_stored, e) (remove-IsManaged s.notifiers key s.heap.next h)
        | inr (why, e) ↦ rw (delete_stored, e) h
      ]

  pub delete-AreManaged :
      (s : NkvCore S Q) (key : Text) → AreManaged s → AreManaged (delete S Q s key).0
  unfolding delete
  delete-AreManaged s key h =
      let (visited, notifiers) = Trie.get_mut s.notifiers key in
      let (closed, heap, c) = unsubscribe_notifiers Q notifiers key s.heap s.channels in
      let (told, c') = close_captured Q heap (captured visited) key c in
      let next = unsubscribe_notifiers-next Q notifiers key s.heap s.channels in
      let h' : IsManaged s.notifiers.root heap.next = rw next h in
      elim (Result-cases closed) [
        | inr (why, e) ↦ rw (delete, e) h'
        | inl (_, e) ↦ elim (Result-cases told) [
          | inr (why, e') ↦ rw (delete, e, e') h'
          | inl (_, e') ↦
              rw (delete, e, e')
                (delete_stored-AreManaged (record s { heap = heap; channels = c' }) key h')
        ]
      ]

-- A new tree holds nothing.
pub new-IsManaged : (next : ℕ) → IsManaged (Trie.new {T = ℕ}).root next
unfolding Trie.new
new-IsManaged next = record {
  shape = new-IsWellFormed ℕ;
  allocated = λ path n e. ground (arith, e, value_at-new {T = ℕ} path);
  apart = λ p q n e e'. ground (arith, e, value_at-new {T = ℕ} p);
}
