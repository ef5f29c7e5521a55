-- ===== src/Core/Greeting.antt =====
-- What the first subscriber to a key of src/nkv.rs is sent at its subscription.
use mathlib.Core.Path.{subst}
use nkv.Base.{
  ℕ, suc, Text, Bool, true, false, ◌≡◌, refl, sym, ap, ◌∙◌, none, some, List, [], ◌∷◌, ◌++◌,
  if◌then◌else◌, ◌==◌, eq_refl, list_eq, number_eq, append-nil, append_assoc,
}
use nkv.Base.Dict
use nkv.Base.Dict.{Dict}
use nkv.Errors.{ok}
use nkv.Message.{Message, hello, update}
use nkv.Storage.{Bytes, StorageEngine}
use nkv.Channels.{Mpsc, View, IsLawful}
use nkv.Trie
use nkv.Trie.{has_wildcard, parts_of}
use nkv.Trie.Lookup.{value_at, parts_of-IsPlain}
use nkv.Core.{NkvCore, write, get}
use nkv.Core.Notifications
use nkv.Core.Notifications.{Notification, subscribe_uuid, send_update_to_subscription, try_send}
use nkv.Core.Subscribe
use nkv.Core.Subscribe.{subscribe_notifier, enter_new, send_values, send_present}
use nkv.Core.PutDelivery.{get_mut_node-values}

-- The messages that tell what is there.
unfoldable pub updates : Dict Text Bytes → List Message
updates [] = []
updates ((k, v) ∷ kvs) = update k v ∷ updates kvs

-- The channels `c'` are `c` after these messages were sent to one sender.
pub record Told {Q : Mpsc Message} (V : View Q) (tx : ℕ) (ms : List Message) (c c' : Q.State)
    : Type 0 where
  pub still_open : (ty : ℕ) → V.is_open c' ty ≡ V.is_open c ty
  pub queue : (ty : ℕ) → V.queued c' ty ≡ (if tx == ty then V.queued c ty ++ ms else V.queued c ty)

-- A notification with one subscriber.
abbrev pub single : Text → ℕ → Notification
single uuid tx = record { subscriptions = (uuid, tx) ∷ [] }

module _ {Q : Mpsc Message} {V : View Q} (L : IsLawful Q V) where
  Told-nil : (tx : ℕ) (c : Q.State) → Told V tx [] c c
  Told-nil tx c = record { still_open = λ ty. refl; queue = λ ty. same (tx == ty) (V.queued c ty) }
    where
      same : (b : Bool) (q : List Message) → q ≡ (if b then q ++ [] else q)
      same true q = sym (append-nil q)
      same false q = refl

  Told-cons :
      (tx : ℕ) (m : Message) (ms : List Message) (c c' : Q.State)
      → V.is_open c tx ≡ true
      → Told V tx ms (Q.send tx m c).0 c'
      → Told V tx (m ∷ ms) c c'
  Told-cons tx m ms c c' alive later = record {
    still_open = λ ty. later.still_open ty ∙ L.is_open-send c tx ty m;
    queue = λ ty.
        later.queue ty ∙ rw (L.queued-send c tx ty m, alive) (joined (tx == ty) (V.queued c ty));
  }
    where
      joined :
          (b : Bool) (q : List Message)
          → (if b then (if b then q ++ (m ∷ []) else q) ++ ms else (if b then q ++ (m ∷ []) else q))
            ≡ (if b then q ++ m ∷ ms else q)
      joined true q = append_assoc q (m ∷ []) ms
      joined false q = refl

  lookup-single : (uuid : Text) (tx : ℕ) → Dict.lookup uuid ((uuid, tx) ∷ []) ≡ some tx
  unfolding Dict.lookup
  lookup-single uuid tx = rw (eq_refl uuid) refl

  try_send_alive :
      (tx : ℕ) (m : Message) (c : Q.State)
      → V.is_open c tx ≡ true
      → try_send Q tx m c ≡ (ok tt, (Q.send tx m c).0)
  unfolding try_send
  try_send_alive tx m c alive = let sent = L.send_result c tx m ∙ alive in rw sent refl

  send_update-single :
      (uuid : Text) (tx : ℕ) (k : Text) (v : Bytes) (c : Q.State)
      → V.is_open c tx ≡ true
      → send_update_to_subscription Q (single uuid tx) uuid k v c
        ≡ (ok tt, (Q.send tx (update k v) c).0)
  unfolding send_update_to_subscription
  send_update-single uuid tx k v c alive =
      rw (send_update_to_subscription, lookup-single uuid tx)
        (try_send_alive tx (update k v) c alive)

  send_values_step :
      (uuid : Text) (tx : ℕ) (k : Text) (v : Bytes) (kvs : Dict Text Bytes) (c : Q.State)
      → V.is_open c tx ≡ true
      → send_values Q (single uuid tx) uuid ((k, v) ∷ kvs) c
        ≡ send_values Q (single uuid tx) uuid kvs (Q.send tx (update k v) c).0
  unfolding send_values
  send_values_step uuid tx k v kvs c alive =
      let sent = send_update-single uuid tx k v c alive in
      rw (ap (λ r. r.0) sent, ap (λ r. r.1) sent, send_values) refl

  send_values-Told :
      (uuid : Text) (tx : ℕ) (kvs : Dict Text Bytes) (c : Q.State)
      → V.is_open c tx ≡ true
      → ((send_values Q (single uuid tx) uuid kvs c).0 ≡ ok tt)
        × Told V tx (updates kvs) c (send_values Q (single uuid tx) uuid kvs c).1
  unfolding updates
  send_values-Told uuid tx [] c alive = unfold send_values in (refl, Told-nil tx c)
  send_values-Told uuid tx ((k, v) ∷ kvs) c alive =
      let c' = (Q.send tx (update k v) c).0 in
      let (done, later) =
        send_values-Told uuid tx kvs c' (L.is_open-send c tx tx (update k v) ∙ alive) in
      rw (send_values_step uuid tx k v kvs c alive)
        (done, Told-cons tx (update k v) (updates kvs) c _ alive later)

module _ {S : StorageEngine} {Q : Mpsc Message} where
  -- The core with a notifier for a key that had none.
  abbrev pub with_notifier : NkvCore S Q → Text → Text → ℕ → Q.State → NkvCore S Q
  with_notifier s key uuid tx c = record s {
    notifiers = (Trie.insert s.notifiers key s.heap.next).0;
    heap = record (write s.heap s.heap.next (single uuid tx)) { next = suc s.heap.next };
    channels = c;
  }

  send_present_done :
      (s : NkvCore S Q) (key uuid : Text) (rx n : ℕ) (x : Notification)
      → s.heap.cell n ≡ x
      → (send_values Q x uuid (get S Q s key) s.channels).0 ≡ ok tt
      → send_present S Q s key uuid (ok (rx, n))
        ≡ (record s { channels = (send_values Q x uuid (get S Q s key) s.channels).1 }, ok rx)
  unfolding send_present
  send_present_done s key uuid rx n x here =
      subst
        (λ y.
          (send_values Q y uuid (get S Q s key) s.channels).0 ≡ ok tt
          → send_present S Q s key uuid (ok (rx, n))
            ≡ (record s { channels = (send_values Q y uuid (get S Q s key) s.channels).1 }, ok rx))
        here (λ done. rw (done, send_present) refl)

  no_notifier :
      (s : NkvCore S Q) (key : Text)
      → has_wildcard key ≡ false
      → value_at (parts_of key) s.notifiers.root ≡ none
      → (Trie.get_mut s.notifiers key).1 ≡ []
  unfolding Trie.get_mut
  no_notifier s key plain absent =
      rw absent at
        (get_mut_node-values (parts_of key) s.notifiers.root (parts_of-IsPlain key plain)).0

module _ {Q : Mpsc Message} {V : View Q} (L : IsLawful Q V) where
  subscribe_uuid_first :
      (uuid : Text) (c0 : Q.State)
      → subscribe_uuid Q Notifications.new uuid c0
        ≡ (let (tx, c) = Q.unbounded_channel c0 in (single uuid tx, ok tx, (Q.send tx hello c).0))
  unfolding subscribe_uuid Dict.lookup Dict.insert
  subscribe_uuid_first uuid c0 =
      let (tx, c) = Q.unbounded_channel c0 in
      let alive : V.is_open c tx ≡ true = rw (L.is_open-channel c0 tx, eq_refl tx) refl in
      let sent = try_send_alive L tx hello c alive in
      rw (ap (λ r. r.0) sent, ap (λ r. r.1) sent, subscribe_uuid) refl

module _ {S : StorageEngine} {Q : Mpsc Message} {V : View Q} (L : IsLawful Q V) where
  subscribe_notifier_first :
      (s : NkvCore S Q) (key uuid : Text)
      → has_wildcard key ≡ false
      → value_at (parts_of key) s.notifiers.root ≡ none
      → subscribe_notifier S Q s key uuid ≡ (
          let (tx, c) = Q.unbounded_channel s.channels in
          (with_notifier s key uuid tx (Q.send tx hello c).0, ok (tx, s.heap.next)))
  unfolding subscribe_notifier
  subscribe_notifier_first s key uuid plain absent =
      rw (no_notifier s key plain absent, subscribe_notifier)
        (ap (enter_new S Q s key) (subscribe_uuid_first L uuid s.channels))

  pub subscribe_first :
      (s : NkvCore S Q) (key uuid : Text)
      → has_wildcard key ≡ false
      → value_at (parts_of key) s.notifiers.root ≡ none
      → (let (tx, c) = Q.unbounded_channel s.channels in
          (c' : Q.State) × (Subscribe.subscribe S Q s key uuid
            ≡ (with_notifier s key uuid tx c', ok tx))
          × Told V tx (hello ∷ updates (get S Q s key)) c c')
  unfolding Subscribe.subscribe send_present get
  subscribe_first s key uuid plain absent =
      let (tx, c) = Q.unbounded_channel s.channels in
      let alive : V.is_open c tx ≡ true = rw (L.is_open-channel s.channels tx, eq_refl tx) refl in
      let c1 = (Q.send tx hello c).0 in
      let (done, told) =
        send_values-Told L uuid tx (get S Q s key) c1 (L.is_open-send c tx tx hello ∙ alive) in
      let made = subscribe_notifier_first s key uuid plain absent in
      (
        _,
        ap (λ r. send_present S Q r.0 key uuid r.1) made
            ∙ send_present_done (with_notifier s key uuid tx c1) key uuid tx s.heap.next
                (single uuid tx) (rw (eq_refl s.heap.next) refl) done,
        Told-cons L tx hello (updates (get S Q s key)) c _ alive told,
      )
