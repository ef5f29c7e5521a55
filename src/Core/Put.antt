-- ===== src/Core/Put.antt =====
-- `NkvCore::put` of src/nkv.rs. The crate `regex` is an argument: `is_match pattern text`.
use nkv.Base.{ℕ, Text, literal, Bool, not, List, [], ◌∷◌, ◌++◌, if◌then◌else◌, number_eq, list_eq}
use nkv.Errors.{Result, ok, err, NotifyKeyValueError, wrong_key, io_error, notification_error}
use nkv.Message.{Message}
use nkv.Storage.{Bytes, StorageEngine}
use nkv.Channels.{Mpsc}
use nkv.Trie
use nkv.Trie.{has_wildcard}
use nkv.Core.{Heap, captured, NkvCore}
use nkv.Core.Notifications.{send_update}

-- The pattern of `is_key_correct`.
abbrev pub key_pattern : Text
key_pattern = literal "^(\\*|.+(\\..+)*(\\.\\*)?)$"

module _ (Q : Mpsc Message) where
  -- The notifier of the key itself: an error is only logged, and so is more than one notifier.
  unfoldable pub notify_target : Heap → List ℕ → Text → Bytes → Q.State → Q.State
  notify_target heap [] key v c = c
  notify_target heap (n ∷ []) key v c = (send_update Q (heap.cell n) key v c).1
  notify_target heap (_ ∷ _ ∷ _) key v c = c

  -- The loop over the captured notifiers; an error ends it.
  unfoldable pub notify_captured :
      Heap → List ℕ → Text → Bytes → Q.State → Result (Unit {0}) NotifyKeyValueError × Q.State
  notify_captured heap [] key v c = (ok tt, c)
  notify_captured heap (n ∷ ns) key v c =
      let (sent, c') = send_update Q (heap.cell n) key v c in
      let rest = notify_captured heap ns key v c' in
      elim sent [ err e ↦ (err (notification_error e), c') | ok _ ↦ rest ]

module _ (S : StorageEngine) (Q : Mpsc Message) where
  unfoldable pub notify_put :
      NkvCore S Q → Text → Bytes → NkvCore S Q × Result (Unit {0}) NotifyKeyValueError
  unfolding notify_target notify_captured captured
  notify_put s key v =
      let (visited, notifiers) = Trie.get_mut s.notifiers key in
      let c = notify_target Q s.heap notifiers key v s.channels in
      let (result, c') = notify_captured Q s.heap (captured visited) key v c in
      (record s { channels = c' }, result)

  -- `put` behind its two checks: the key is entered, the value stored, the subscribers notified.
  unfoldable pub put_checked :
      NkvCore S Q → Text → Bytes → NkvCore S Q × Result (Unit {0}) NotifyKeyValueError
  unfolding notify_put
  put_checked s key v =
      let (storage, stored) = S.put s.storage key v in
      let s' = record s { objects = (Trie.insert s.objects key key).0; storage = storage } in
      elim stored [ err e ↦ (s', err (io_error e)) | ok _ ↦ notify_put s' key v ]

unfoldable pub is_key_correct : (Text → Text → Bool) → Text → Bool
is_key_correct is_match key = is_match key_pattern key

module _ (S : StorageEngine) (Q : Mpsc Message) (is_match : Text → Text → Bool) where
  unfoldable pub put :
      NkvCore S Q → Text → Bytes → NkvCore S Q × Result (Unit {0}) NotifyKeyValueError
  unfolding is_key_correct put_checked
  put s key v =
      if has_wildcard key
      then (s, err (wrong_key (literal "put does not support wildcards")))
      else if not (is_key_correct is_match key)
      then (s, err (wrong_key (literal "key " ++ (key ++ literal " is invalid"))))
      else put_checked S Q s key v
