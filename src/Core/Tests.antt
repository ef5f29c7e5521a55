-- ===== src/Core/Tests.antt =====
-- Runs of `NkvCore` over the map in memory and the list of channels, after the unit tests of
-- src/nkv.rs, and its theorems at concrete data.
use nkv.Base.{
  Text, literal, Bool, true, false, not, ◌&&◌, ◌≡◌, ◌≢◌, ◌↔◌, refl, none, some, [], ◌∷◌, split,
  contains_char, list_beq, list_eq, number_eq, ◌==◌, if◌then◌else◌,
}
use nkv.Base.Dict
use nkv.Errors.{ErrorKind, ok, err, IoError, wrong_key, io_error}
use nkv.Message.{Message, hello, update, close}
use nkv.Storage.{Bytes, StorageEngine, View, IsStore}
use nkv.Storage.Memory
use nkv.Storage.Memory.{
  MemoryStorage, memory_storage, memory_view, memory_storage-IsStore, memory_storage-IsLawful,
  new-IsValid,
}
use nkv.Channels.{Mpsc, list_channels}
use nkv.Trie
use nkv.Trie.{Trie, has_wildcard, parts_of}
use nkv.Trie.Nodes.{child_get, child_set, is_empty, remove_children}
use nkv.Trie.Select.{selects}
use nkv.Core.{NkvCore, Heap, new, get}
use nkv.Core.Notifications
use nkv.Core.Notifications.{
  subscribe_uuid, unsubscribe_uuid, unsubscribe_all, send_update, send_close,
  send_update_to_subscription,
}
use nkv.Core.Put.{put, is_key_correct}
use nkv.Core.Delete.{delete}
use nkv.Core.Subscribe.{subscribe, unsubscribe, trace}
use nkv.Core.Consistent.{IsConsistent, lookup-get}
use nkv.Core.PutLaws.{
  accepts, put_rejected_iff, put-IsConsistent, lookup-get-put, get_after_failed_put,
}
use nkv.Core.Restart.{new-IsConsistent, get_after_restart}

unfoldable pub code : Unit {0}
unfolding put get delete subscribe unsubscribe trace new Memory.put Memory.get Memory.delete
    Memory.keys Memory.new subscribe_uuid unsubscribe_uuid unsubscribe_all send_update send_close
    send_update_to_subscription Trie.insert Trie.get Trie.get_mut Trie.remove Trie.delete_wildcard
    Trie.delete_child Trie.visit_children Trie.is_nil Trie.new contains_char split list_beq
    child_get child_set is_empty remove_children Dict.lookup Dict.insert Dict.remove Dict.keys
code = tt

abbrev pub Q : Mpsc Message
Q = list_channels Message

abbrev pub Core : Type 0
Core = NkvCore memory_storage Q

-- Every text but the empty one fits the pattern, as `.+` has it for texts without line breaks.
abbrev pub is_match : Text → Text → Bool
is_match pattern text = not (text == [])

abbrev pub heap : Heap
heap = record { next = 0; cell = λ n. Notifications.new }

abbrev pub fresh : Core
fresh = record {
  notifiers = Trie.new;
  objects = Trie.new;
  storage = Memory.new;
  heap = heap;
  channels = [];
}

abbrev pub store : Core → Text → Bytes → Core
store s key v = (put memory_storage Q is_match s key v).0

abbrev pub filled : Core
filled = store (store fresh (literal "a.b") (1 ∷ [])) (literal "a.c") (2 ∷ [])

pub fresh_made : new memory_storage Q Memory.new heap [] ≡ ok fresh
unfolding code
fresh_made = refl

get_wildcard :
    (get memory_storage Q filled (literal "a.*")
      ≡ (literal "a.b", 1 ∷ []) ∷ (literal "a.c", 2 ∷ []) ∷ [])
    × (get memory_storage Q filled (literal "a") ≡ [])
unfolding code
get_wildcard = (refl, refl)

-- A subscriber to "a" hears of "a.b", and a deletion closes the subscription to "a.b".
abbrev pub watched : Core
watched =
    (subscribe memory_storage Q (subscribe memory_storage Q filled (literal "a") (literal "u1")).0
      (literal "a.b") (literal "u2")).0

notified :
    (store watched (literal "a.b") (3 ∷ [])).channels
    ≡ (true, hello ∷ update (literal "a.b") (3 ∷ []) ∷ [])
      ∷ (true, hello ∷ update (literal "a.b") (1 ∷ []) ∷ update (literal "a.b") (3 ∷ []) ∷ [])
      ∷ []
unfolding code
notified = refl

deleted :
    (delete memory_storage Q watched (literal "a.b")).0.channels
    ≡ (true, hello ∷ close (literal "a.b") ∷ [])
      ∷ (true, hello ∷ update (literal "a.b") (1 ∷ []) ∷ close (literal "a.b") ∷ [])
      ∷ []
unfolding code
deleted = refl

traced : trace memory_storage Q watched (literal "a.b") ≡ literal "u2" ∷ literal "u1" ∷ []
unfolding code
traced = refl

unsubscribed : (unsubscribe memory_storage Q watched (literal "a.b") (literal "u2")).1 ≡ ok tt
unfolding code
unsubscribed = refl

pub fresh-IsConsistent : IsConsistent memory_view fresh
fresh-IsConsistent =
    new-IsConsistent memory_storage-IsLawful Memory.new heap [] fresh new-IsValid fresh_made

taken : (put memory_storage Q is_match fresh (literal "a.b") (1 ∷ [])).1 ≡ ok tt
unfolding code
taken = refl

taken_quiet :
    (e : IoError)
    → (put memory_storage Q is_match fresh (literal "a.b") (1 ∷ [])).1 ≢ err (io_error e)
taken_quiet e failed = cc taken

pub stored_ok : (Memory.put Memory.new (literal "a.b") (1 ∷ [])).1 ≡ ok tt
unfolding code
stored_ok = refl

-- The core that holds "a.b".
abbrev pub stored : Core
stored = store fresh (literal "a.b") (1 ∷ [])

pub stored-IsConsistent : IsConsistent memory_view stored
stored-IsConsistent =
    put-IsConsistent memory_storage-IsStore is_match fresh (literal "a.b") (1 ∷ [])
      fresh-IsConsistent refl taken_quiet

pub accepts_ab : accepts is_match (literal "a.b") ≡ true
unfolding code has_wildcard is_key_correct
accepts_ab = refl

new-IsConsistent_example : IsConsistent memory_view fresh
new-IsConsistent_example =
    new-IsConsistent memory_storage-IsLawful Memory.new heap [] fresh new-IsValid fresh_made

put-IsConsistent_example : IsConsistent memory_view (store fresh (literal "a.b") (1 ∷ []))
put-IsConsistent_example =
    put-IsConsistent memory_storage-IsStore is_match fresh (literal "a.b") (1 ∷ [])
      fresh-IsConsistent refl taken_quiet

lookup-get_example :
    Dict.lookup
      (literal "a.b")
      (get memory_storage Q (store fresh (literal "a.b") (1 ∷ [])) (literal "a.*"))
    ≡ (if selects
          (has_wildcard (literal "a.*"))
          (parts_of (literal "a.*"))
          (parts_of (literal "a.b"))
        then memory_view.contents (store fresh (literal "a.b") (1 ∷ [])).storage (literal "a.b")
        else none)
lookup-get_example =
    lookup-get memory_storage-IsStore (store fresh (literal "a.b") (1 ∷ [])) (literal "a.*")
      (literal "a.b") stored-IsConsistent

lookup-get-put_example :
    Dict.lookup
      (literal "a.b")
      (get memory_storage Q (store fresh (literal "a.b") (1 ∷ [])) (literal "a.*"))
    ≡ (if selects
            (has_wildcard (literal "a.*"))
            (parts_of (literal "a.*"))
            (parts_of (literal "a.b"))
          && literal "a.b" == literal "a.b"
        then some (1 ∷ [])
        else Dict.lookup (literal "a.b") (get memory_storage Q fresh (literal "a.*")))
lookup-get-put_example =
    lookup-get-put memory_storage-IsStore is_match fresh (literal "a.b") (literal "a.*")
      (literal "a.b") (1 ∷ []) fresh-IsConsistent accepts_ab refl stored_ok

put_rejected_iff_example : (accepts is_match (literal "a.*") ≡ false) ↔ (
    (m : Text) × (put memory_storage Q is_match fresh (literal "a.*") (1 ∷ [])
      ≡ (fresh, err (wrong_key m))))
put_rejected_iff_example = put_rejected_iff is_match fresh (literal "a.*") (1 ∷ [])

abbrev one : Core
one = store fresh (literal "a.b") (1 ∷ [])

get_after_restart_example :
    (s' : Core) × (new memory_storage Q one.storage heap [] ≡ ok s')
    × ((q k : Text)
        → Dict.lookup k (get memory_storage Q s' q) ≡ Dict.lookup k (get memory_storage Q one q))
get_after_restart_example =
    get_after_restart memory_storage-IsLawful one heap [] stored-IsConsistent

-- A storage that takes nothing.
abbrev full : IoError
full = record { kind = ErrorKind.other; message = literal "no space left" }

abbrev full_storage : StorageEngine
full_storage = record {
  State = Unit;
  put = λ s k v. (s, err full);
  get = λ s k. [];
  delete = λ s k. (s, err full);
  keys = λ s. [];
}

abbrev full_view : View full_storage
full_view = record { contents = λ s k. none; admits = λ k. true; IsValid = λ s. Unit }

full_storage-IsStore : IsStore full_storage full_view
full_storage-IsStore = record {
  admitted = λ s k h. refl;
  get_lem = λ s k a. refl;
  put_ok = λ s k j v a h. cc;
  put_err = λ s k j v e a h. refl;
  delete_ok = λ s k j a h. cc;
  delete_err = λ s k j e a h. refl;
  put-IsValid = λ s k v h. tt;
  delete-IsValid = λ s k h. tt;
}

abbrev fresh_full : NkvCore full_storage Q
fresh_full = record {
  notifiers = Trie.new;
  objects = Trie.new;
  storage = tt;
  heap = heap;
  channels = [];
}

no_contents : full_view.contents tt (literal "a.b") ≡ none
no_contents = refl

get_after_failed_put_example :
    get full_storage Q
      (put full_storage Q is_match fresh_full (literal "a.b") (1 ∷ [])).0
      (literal "a.b")
    ≡ (literal "a.b", []) ∷ []
get_after_failed_put_example =
    get_after_failed_put full_storage-IsStore is_match fresh_full (literal "a.b") (1 ∷ []) full
      accepts_ab refl no_contents refl
