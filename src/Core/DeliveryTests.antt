-- ===== src/Core/DeliveryTests.antt =====
-- The delivery theorems of Core/PutDelivery.antt at concrete data.
use nkv.Base.{none, false, ◌++◌, literal, ◌≡◌, refl, [], ◌∷◌}
use nkv.Errors.{ok}
use nkv.Message.{Message, hello, update}
use nkv.Storage.Memory
use nkv.Storage.Memory.{memory_storage}
use nkv.Channels.{list_view, list_channels-IsLawful}
use nkv.Trie.Lookup.{value_at}
use nkv.Core.Delivery.{Sent, AreOpen, senders, senders_at}
use nkv.Core.PutDelivery.{listeners, above, values_at, put-Sent}
use nkv.Trie.{has_wildcard, parts_of}
use nkv.Trie.Lookup.{value_at-new}
use nkv.Core.{get}
use nkv.Core.Subscribe
use nkv.Core.Greeting.{updates}
use nkv.Core.SubscribePut.{AreAllocated, subscribe-put}
use nkv.Core.Put.{put}
use nkv.Core.Tests
use nkv.Core.Tests.{Q, is_match, store, watched, filled, accepts_ab}

listeners-watched : listeners watched (literal "a.b") ≡ 1 ∷ 0 ∷ []
unfolding Tests.code listeners senders senders_at above values_at value_at
listeners-watched = refl

watched_open : AreOpen (list_view Message) watched.channels (listeners watched (literal "a.b"))
unfolding Tests.code
watched_open = rw listeners-watched (refl, (refl, tt))

watched_stored : (Memory.put watched.storage (literal "a.b") (3 ∷ [])).1 ≡ ok tt
unfolding Tests.code
watched_stored = refl

put-Sent_example :
    ((put memory_storage Q is_match watched (literal "a.b") (3 ∷ [])).1 ≡ ok tt)
    × Sent
        (list_view Message)
        (update (literal "a.b") (3 ∷ []))
        (listeners watched (literal "a.b"))
        watched.channels
        (store watched (literal "a.b") (3 ∷ [])).channels
put-Sent_example =
    put-Sent (list_channels-IsLawful Message) is_match watched (literal "a.b") (3 ∷ []) accepts_ab
      watched_stored watched_open

-- The tree of notifiers is empty there.
filled-AreAllocated : AreAllocated filled
unfolding Tests.code
filled-AreAllocated path n found = absurd (cc (value_at-new path, found))

pub filled_stored : (Memory.put filled.storage (literal "a.b") (3 ∷ [])).1 ≡ ok tt
unfolding Tests.code
filled_stored = refl

pub filled_absent : value_at (parts_of (literal "a.b")) filled.notifiers.root ≡ none
unfolding Tests.code value_at
filled_absent = refl

pub filled_plain : has_wildcard (literal "a.b") ≡ false
unfolding Tests.code has_wildcard
filled_plain = refl

pub filled_open : AreOpen (list_view Message) filled.channels (listeners filled (literal "a.b"))
unfolding Tests.code listeners senders senders_at above values_at value_at
filled_open = tt

pub same_path : parts_of (literal "a.b") ≡ parts_of (literal "a.b") ++ []
unfolding Tests.code
same_path = refl

subscribe-put_example :
    (let s = filled in
      let tx = (Q.unbounded_channel s.channels).0 in
      let (s', subscribed) =
        Subscribe.subscribe memory_storage Q s (literal "a.b") (literal "u1") in
      let (s'', stored) = put memory_storage Q is_match s' (literal "a.b") (3 ∷ []) in
      (subscribed ≡ ok tx)
      × (stored ≡ ok tt)
      × ((list_view Message).queued s''.channels tx
          ≡ hello
            ∷ (updates (get memory_storage Q s (literal "a.b"))
                ++ update (literal "a.b") (3 ∷ []) ∷ [])))
subscribe-put_example =
    subscribe-put (list_channels-IsLawful Message) is_match filled (literal "a.b") (literal "a.b")
      (literal "u1") [] (3 ∷ []) filled_plain filled_absent filled-AreAllocated same_path accepts_ab
      filled_stored filled_open
