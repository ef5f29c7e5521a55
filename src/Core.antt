-- ===== src/Core.antt =====
-- src/nkv.rs: `NkvCore`, over any storage engine and any implementation of channels. An
-- `Arc<Mutex<Notification>>` is a number, the address of a cell of the heap, so that clones of it
-- share one `Notification`.
pub mod Notifications
pub mod Put
pub mod Delete
pub mod Subscribe
pub mod Addresses
mod Listing
pub mod Consistent
pub mod PutLaws
pub mod Restart
pub mod DeleteLaws
pub mod Delivery
pub mod PutDelivery
pub mod Greeting
pub mod SubscribePut
pub mod Tests
pub mod DeleteTests
pub mod DeliveryTests
use nkv.Base.{
  ℕ, Text, literal, Option, none, some, List, [], ◌∷◌, ◌++◌, map, if◌then◌else◌, ◌==◌, number_eq,
  list_eq,
}
use nkv.Base.Dict
use nkv.Base.Dict.{Dict}
use nkv.Errors.{Result, ok, err, IoError, ErrorKind}
use nkv.Message.{Message}
use nkv.Storage.{Bytes, StorageEngine}
use nkv.Channels.{Mpsc}
use nkv.Trie
use nkv.Trie.{Trie, value_list}
use nkv.Trie.Nodes.{TrieNode, value}
use Notifications.{Notification}

-- The cells of the notifications, and the next address.
pub record Heap : Type 0 where
  pub next : ℕ
  pub cell : ℕ → Notification

abbrev pub write : Heap → ℕ → Notification → Heap
write h n x = record h { cell = λ m. if n == m then x else h.cell m }

-- What `put`, `delete` and `trace` capture on the way: the values of the visited nodes.
unfoldable pub captured : List (TrieNode ℕ) → List ℕ
captured [] = []
captured (n ∷ ns) = value_list (value n) ++ captured ns

module _ (S : StorageEngine) (Q : Mpsc Message) where
  pub record NkvCore : Type 0 where
    pub notifiers : Trie ℕ
    pub objects : Trie Text
    pub storage : S.State
    pub heap : Heap
    pub channels : Q.State

-- The loop of `new` over the keys of the storage.
unfoldable pub load_keys : List Text → Trie Text → Result (Trie Text) IoError
load_keys [] objects = ok objects
load_keys (k ∷ ks) objects =
    let (objects', failed) = Trie.insert objects k k in
    let rest = load_keys ks objects' in
    elim failed [
      | some _ ↦ err (record {
        kind = ErrorKind.other;
        message = literal "Trie insert " ++ (k ++ literal " failed: Key contains wildcard");
      })
      | none ↦ rest
    ]

module _ (S : StorageEngine) (Q : Mpsc Message) where
  unfoldable pub new : S.State → Heap → Q.State → Result (NkvCore S Q) IoError
  unfolding load_keys
  new storage heap channels = elim (load_keys (S.keys storage) Trie.new) [
    | err e ↦ err e
    | ok objects ↦ ok (record {
      notifiers = Trie.new;
      objects = objects;
      storage = storage;
      heap = heap;
      channels = channels;
    })
  ]

-- `collect()` into a `HashMap`.
unfoldable pub collect : List (Text × Bytes) → Dict Text Bytes → Dict Text Bytes
collect [] d = d
collect ((k, v) ∷ kvs) d = collect kvs (Dict.insert k v d)

module _ (S : StorageEngine) (Q : Mpsc Message) where
  unfoldable pub get : NkvCore S Q → Text → Dict Text Bytes
  unfolding collect
  get s key = collect (map (λ k. (k, S.get s.storage k)) (Trie.get s.objects key)) []
