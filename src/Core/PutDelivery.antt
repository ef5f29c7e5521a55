-- ===== src/Core/PutDelivery.antt =====
-- The messages that `put` of src/nkv.rs sends to the subscribers of the key and of the keys above it.
use nkv.Base.{
  ℕ, Text, Bool, true, false, ◌≡◌, refl, ap, Option, none, some, List, [], ◌∷◌, ◌++◌, map, arith,
  ◌==◌, number_eq, list_eq, append-nil, eq_iff, Option-cases, inl, inr,
}
use nkv.Errors.{ok}
use nkv.Message.{Message, update}
use nkv.Storage.{Bytes, StorageEngine}
use nkv.Channels.{Mpsc, View, IsLawful}
use nkv.Trie
use nkv.Trie.{wildcard, has_wildcard, parts_of, value_list, get_mut_node}
use nkv.Trie.Nodes.{TrieNode, node, child_get, children}
use nkv.Trie.Lookup.{value_at, IsPlain, parts_of-IsPlain}
use nkv.Core.{NkvCore, Heap, captured}
use nkv.Core.Notifications.{send_update}
use nkv.Core.Put.{put, put_checked, notify_put, notify_target, notify_captured}
use nkv.Core.PutLaws.{accepts, plain_of_accepts, put_of_accepts}
use nkv.Core.Delivery.{
  senders, senders_at, AreOpen, AreOpen-append, Sent, Sent-nil, Sent-append, Sent-AreOpen,
  send_each-Sent, senders_at-append,
}

-- The paths above a path, from the root down.
unfoldable pub above : List Text → List (List Text)
above [] = []
above (part ∷ parts) = [] ∷ map (λ q. part ∷ q) (above parts)

-- The values at these paths.
unfoldable pub values_at : List (List Text) → TrieNode ℕ → List ℕ
unfolding value_at
values_at [] n = []
values_at (q ∷ qs) n = value_list (value_at q n) ++ values_at qs n

values_at-map :
    (part : Text) (qs : List (List Text)) (n : TrieNode ℕ)
    → values_at (map (λ q. part ∷ q) qs) n
      ≡ elim (child_get part (children n)) [ none ↦ [] | some child ↦ values_at qs child ]
unfolding values_at
values_at-map part [] n = ground arith
values_at-map part (q ∷ qs) n = ground (arith, values_at-map part qs n)

-- What `get_mut` leads to for a key without a wildcard.
pub get_mut_node-values :
    (parts : List Text) (n : TrieNode ℕ)
    → IsPlain parts
    → ((get_mut_node parts n).1 ≡ value_list (value_at parts n))
      × (captured (get_mut_node parts n).0 ≡ values_at (above parts) n)
unfolding get_mut_node captured value_at values_at above
get_mut_node-values [] n h = (refl, refl)
get_mut_node-values (part ∷ parts) (node cs v) (h, hs) =
    let plain : (part == wildcard) ≡ false = ground (arith, eq_iff part wildcard) in
    elim (Option-cases (child_get part cs)) [
      | inl missing ↦
          rw (plain, missing, values_at-map part (above parts) (node cs v), missing) (refl, refl)
      | inr (child, found) ↦
          let (target, way) = get_mut_node-values parts child hs in
          rw (plain, found, values_at-map part (above parts) (node cs v), found)
            (target, ap (λ ns. value_list v ++ ns) way)
    ]

-- The senders that hear of the key: those at its path, then those above it.
unfoldable pub listeners : {S : StorageEngine} {Q : Mpsc Message} → NkvCore S Q → Text → List ℕ
unfolding senders_at values_at above value_at
listeners s key = senders_at s.heap (
    value_list (value_at (parts_of key) s.notifiers.root)
    ++ values_at (above (parts_of key)) s.notifiers.root)

module _ {Q : Mpsc Message} {V : View Q} (L : IsLawful Q V) (heap : Heap) (key : Text)
    (v : Bytes) where
  notify_target-Sent :
      (o : Option ℕ) (c : Q.State)
      → AreOpen V c (senders_at heap (value_list o))
      → Sent V
          (update key v)
          (senders_at heap (value_list o))
          c
          (notify_target Q heap (value_list o) key v c)
  unfolding notify_target send_update senders_at
  notify_target-Sent none c h = Sent-nil (update key v) c
  notify_target-Sent (some n) c h =
      rw (append-nil (senders (heap.cell n).subscriptions))
        (send_each-Sent L (update key v) (heap.cell n).subscriptions c
          (rw (append-nil (senders (heap.cell n).subscriptions)) at h)).1

  notify_captured_step :
      (n : ℕ) (ns : List ℕ) (c : Q.State)
      → (send_update Q (heap.cell n) key v c).0 ≡ ok tt
      → notify_captured Q heap (n ∷ ns) key v c
        ≡ notify_captured Q heap ns key v (send_update Q (heap.cell n) key v c).1
  unfolding notify_captured
  notify_captured_step n ns c done = rw (done, notify_captured) refl

  notify_captured-Sent :
      (ns : List ℕ) (c : Q.State)
      → AreOpen V c (senders_at heap ns)
      → ((notify_captured Q heap ns key v c).0 ≡ ok tt)
        × Sent V (update key v) (senders_at heap ns) c (notify_captured Q heap ns key v c).1
  unfolding notify_captured send_update senders_at
  notify_captured-Sent [] c h = (refl, Sent-nil (update key v) c)
  notify_captured-Sent (n ∷ ns) c h =
      let m = update key v in
      let here = senders (heap.cell n).subscriptions in
      let (open_here, open_later) = AreOpen-append V c here (senders_at heap ns) h in
      let (done, first) = send_each-Sent L m (heap.cell n).subscriptions c open_here in
      let c' = (send_update Q (heap.cell n) key v c).1 in
      let (rest_done, rest) =
        notify_captured-Sent ns c'
          (Sent-AreOpen m here (senders_at heap ns) c c' first open_later) in
      rw (notify_captured_step n ns c done) (
        rest_done,
        Sent-append m here (senders_at heap ns) c c' (notify_captured Q heap ns key v c').1 first
            rest,
      )

module _ {S : StorageEngine} {Q : Mpsc Message} {V : View Q} (L : IsLawful Q V) where
  notify_put-Sent :
      (s : NkvCore S Q) (key : Text) (v : Bytes)
      → has_wildcard key ≡ false
      → AreOpen V s.channels (listeners s key)
      → ((notify_put S Q s key v).1 ≡ ok tt)
        × Sent V (update key v) (listeners s key) s.channels (notify_put S Q s key v).0.channels
  unfolding notify_put listeners Trie.get_mut
  notify_put-Sent s key v plain h =
      let m = update key v in
      let root = s.notifiers.root in
      let (target_eq, way_eq) =
        get_mut_node-values (parts_of key) root (parts_of-IsPlain key plain) in
      let target = value_list (value_at (parts_of key) root) in
      let way = values_at (above (parts_of key)) root in
      let split = senders_at-append s.heap target way in
      let (open_target, open_way) =
        AreOpen-append V s.channels (senders_at s.heap target) (senders_at s.heap way)
          (rw split at h) in
      let first =
        notify_target-Sent L s.heap key v (value_at (parts_of key) root) s.channels open_target in
      let c' = notify_target Q s.heap target key v s.channels in
      let (done, rest) = notify_captured-Sent L s.heap key v way c' (
        Sent-AreOpen m (senders_at s.heap target) (senders_at s.heap way) s.channels c' first
          open_way) in
      rw (target_eq, way_eq, split)
        (
          done,
          Sent-append m (senders_at s.heap target) (senders_at s.heap way) s.channels c'
              (notify_captured Q s.heap way key v c').1 first rest,
        )

  -- A put that the key checks and the storage took succeeds, and sends the new value once to each
  -- sender of the notifiers at the key and above it and nothing to another one, if the receivers
  -- of these senders are there.
  pub put-Sent :
      (is_match : Text → Text → Bool) (s : NkvCore S Q) (key : Text) (v : Bytes)
      → accepts is_match key ≡ true
      → (S.put s.storage key v).1 ≡ ok tt
      → AreOpen V s.channels (listeners s key)
      → ((put S Q is_match s key v).1 ≡ ok tt)
        × Sent V (update key v) (listeners s key) s.channels (put S Q is_match s key v).0.channels
  unfolding put_checked listeners
  put-Sent is_match s key v a stored h =
      rw (put_of_accepts is_match s key v a, put_checked, stored)
        (notify_put-Sent
          (record s {
            objects = (Trie.insert s.objects key key).0;
            storage = (S.put s.storage key v).0;
          })
          key v (plain_of_accepts is_match key a) h)
