-- ===== src/Core/Subscribe.antt =====
-- `NkvCore::subscribe`, `unsubscribe` and `trace` of src/nkv.rs.
use nkv.Base.{ℕ, suc, Text, List, [], ◌∷◌, ◌++◌, number_eq, list_eq}
use nkv.Base.Dict
use nkv.Base.Dict.{Dict}
use nkv.Errors.{Result, ok, err, NotifyKeyValueError, NotificationError, notification_error}
use nkv.Message.{Message}
use nkv.Storage.{Bytes, StorageEngine}
use nkv.Channels.{Mpsc}
use nkv.Trie
use nkv.Trie.{has_wildcard}
use nkv.Core.{Heap, write, captured, NkvCore, get}
use nkv.Core.Notifications
use nkv.Core.Notifications.{
  Notification, subscribe_uuid, unsubscribe_uuid, unsubscribe_all, send_update, send_close,
  send_update_to_subscription,
}

module _ (S : StorageEngine) (Q : Mpsc Message) where
  -- A new notifier, with what its first subscription has made.
  abbrev pub enter_new :
      NkvCore S Q
      → Text
      → Notification × Result ℕ NotificationError × Q.State
      → NkvCore S Q × Result (ℕ × ℕ) NotifyKeyValueError
  enter_new s key (notification, subscribed, c) =
      let n = s.heap.next in
      let heap = record (write s.heap n notification) { next = suc n } in
      let s' = record s { heap = heap; channels = c } in
      elim subscribed [
        | err e ↦ (s', err (notification_error e))
        | ok rx ↦ (record s' { notifiers = (Trie.insert s.notifiers key n).0 }, ok (rx, n))
      ]

  -- `subscribe` finds the notifier of the key, or makes one; the receiver and the notifier's
  -- address are returned.
  unfoldable pub subscribe_notifier :
      NkvCore S Q → Text → Text → NkvCore S Q × Result (ℕ × ℕ) NotifyKeyValueError
  subscribe_notifier s key uuid = elim (Trie.get_mut s.notifiers key).1 [
    | [] ↦ enter_new s key (subscribe_uuid Q Notifications.new uuid s.channels)
    | n ∷ more ↦ elim more [
      | [] ↦
          let (notification, subscribed, c) = subscribe_uuid Q (s.heap.cell n) uuid s.channels in
          let s' = record s { heap = write s.heap n notification; channels = c } in
          elim subscribed [ err e ↦ (s', err (notification_error e)) | ok rx ↦ (s', ok (rx, n)) ]
      | _ ∷ _ ↦ (s, err NotifyKeyValueError.not_found)
    ]
  ]

module _ (Q : Mpsc Message) where
  -- The loop of `subscribe` that sends the values that are there.
  unfoldable pub send_values :
      Notification
      → Text
      → Dict Text Bytes
      → Q.State
      → Result (Unit {0}) NotifyKeyValueError × Q.State
  send_values n uuid [] c = (ok tt, c)
  send_values n uuid ((k, v) ∷ kvs) c =
      let (sent, c') = send_update_to_subscription Q n uuid k v c in
      let rest = send_values n uuid kvs c' in
      elim sent [ err e ↦ (err (notification_error e), c') | ok _ ↦ rest ]

module _ (S : StorageEngine) (Q : Mpsc Message) where
  -- The part of `subscribe` behind the notifier: the values that are there are sent.
  unfoldable pub send_present :
      NkvCore S Q
      → Text
      → Text
      → Result (ℕ × ℕ) NotifyKeyValueError
      → NkvCore S Q × Result ℕ NotifyKeyValueError
  send_present s key uuid (err e) = (s, err e)
  send_present s key uuid (ok (rx, n)) =
      let (sent, c) = send_values Q (s.heap.cell n) uuid (get S Q s key) s.channels in
      let s' = record s { channels = c } in elim sent [ err e ↦ (s', err e) | ok _ ↦ (s', ok rx) ]

  unfoldable pub subscribe : NkvCore S Q → Text → Text → NkvCore S Q × Result ℕ NotifyKeyValueError
  unfolding subscribe_notifier send_values send_present
  subscribe s key uuid =
      let (s', subscribed) = subscribe_notifier S Q s key uuid in
      send_present s' key uuid subscribed

  unfoldable pub unsubscribe :
      NkvCore S Q → Text → Text → NkvCore S Q × Result (Unit {0}) NotifyKeyValueError
  unsubscribe s key uuid = elim (Trie.get_mut s.notifiers key).1 [
    | [] ↦ (s, err NotifyKeyValueError.not_found)
    | n ∷ more ↦ elim more [
      | [] ↦
          let (notification, closed, c) = unsubscribe_uuid Q (s.heap.cell n) key uuid s.channels in
          let s' = record s { heap = write s.heap n notification; channels = c } in
          elim closed [ err e ↦ (s', err (notification_error e)) | ok _ ↦ (s', ok tt) ]
      | _ ∷ _ ↦ (s, err NotifyKeyValueError.not_found)
    ]
  ]

-- The clients of these notifiers, in the order of the list.
unfoldable pub clients : Heap → List ℕ → List Text
clients heap [] = []
clients heap (n ∷ ns) = Dict.keys (heap.cell n).subscriptions ++ clients heap ns

module _ (S : StorageEngine) (Q : Mpsc Message) where
  -- The source returns a `Result`, always `Ok`.
  unfoldable pub trace : NkvCore S Q → Text → List Text
  unfolding clients captured
  trace s key =
      let (visited, notifiers) = Trie.get_mut s.notifiers key in
      clients s.heap notifiers ++ clients s.heap (captured visited)
