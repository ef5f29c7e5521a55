-- ===== src/Core/Delete.antt =====
-- `NkvCore::delete` of src/nkv.rs.
use nkv.Base.{ℕ, Text, List, [], ◌∷◌, number_eq, list_eq}
use nkv.Errors.{Result, ok, err, NotifyKeyValueError, io_error, notification_error}
use nkv.Message.{Message}
use nkv.Storage.{StorageEngine}
use nkv.Channels.{Mpsc}
use nkv.Trie
use nkv.Trie.{has_wildcard}
use nkv.Core.{Heap, write, captured, NkvCore}
use nkv.Core.Notifications.{unsubscribe_all, send_close}

module _ (Q : Mpsc Message) where
  -- The loop of `delete` over the notifiers that the key leads to: their subscriptions are
  -- closed; an error ends it.
  unfoldable pub unsubscribe_notifiers :
      List ℕ → Text → Heap → Q.State → Result (Unit {0}) NotifyKeyValueError × Heap × Q.State
  unsubscribe_notifiers [] key heap c = (ok tt, heap, c)
  unsubscribe_notifiers (n ∷ ns) key heap c =
      let (n', sent, c') = unsubscribe_all Q (heap.cell n) key c in
      let heap' = write heap n n' in
      let rest = unsubscribe_notifiers ns key heap' c' in
      elim sent [ err e ↦ (err (notification_error e), heap', c') | ok _ ↦ rest ]

  -- Its loop over the captured notifiers.
  unfoldable pub close_captured :
      Heap → List ℕ → Text → Q.State → Result (Unit {0}) NotifyKeyValueError × Q.State
  close_captured heap [] key c = (ok tt, c)
  close_captured heap (n ∷ ns) key c =
      let (sent, c') = send_close Q (heap.cell n) key c in
      let rest = close_captured heap ns key c' in
      elim sent [ err e ↦ (err (notification_error e), c') | ok _ ↦ rest ]

module _ (S : StorageEngine) where
  -- Its loop over the objects that the key selects.
  unfoldable pub delete_objects :
      List Text → S.State → Result (Unit {0}) NotifyKeyValueError × S.State
  delete_objects [] storage = (ok tt, storage)
  delete_objects (k ∷ ks) storage =
      let (storage', deleted) = S.delete storage k in
      let rest = delete_objects ks storage' in
      elim deleted [ err e ↦ (err (io_error e), storage') | ok _ ↦ rest ]

module _ (S : StorageEngine) (Q : Mpsc Message) where
  -- The part of `delete` behind the notifications.
  unfoldable pub delete_stored :
      NkvCore S Q → Text → NkvCore S Q × Result (Unit {0}) NotifyKeyValueError
  unfolding delete_objects
  delete_stored s key =
      let (deleted, storage) = delete_objects S (Trie.get s.objects key) s.storage in
      let s' = record s { storage = storage } in
      elim deleted [
        | err e ↦ (s', err e)
        | ok _ ↦ (
          record s' {
            notifiers = (Trie.remove s.notifiers key).0;
            objects = (Trie.remove s.objects key).0;
          },
          ok tt,
        )
      ]

  unfoldable pub delete : NkvCore S Q → Text → NkvCore S Q × Result (Unit {0}) NotifyKeyValueError
  unfolding unsubscribe_notifiers close_captured delete_stored captured
  delete s key =
      let (visited, notifiers) = Trie.get_mut s.notifiers key in
      let (closed, heap, c) = unsubscribe_notifiers Q notifiers key s.heap s.channels in
      let (told, c') = close_captured Q heap (captured visited) key c in
      elim closed [
        | err e ↦ (record s { heap = heap; channels = c }, err e)
        | ok _ ↦ elim told [
          | err e ↦ (record s { heap = heap; channels = c' }, err e)
          | ok _ ↦ delete_stored (record s { heap = heap; channels = c' }) key
        ]
      ]
