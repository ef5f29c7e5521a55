-- ===== src/Core/SubscribePut.antt =====
-- A subscription to a key of src/nkv.rs and a `put` of a key at it or below it.
use nkv.Base.{
  ℕ, suc, ◌<◌, Text, Bool, true, false, ◌≡◌, refl, ap, ◌∙◌, none, some, List, [], ◌∷◌, ◌++◌, map,
  arith, if◌then◌else◌, ◌==◌, eq_iff, eq_refl, list_eq, number_eq, list_beq, Bool-cases,
  Option-cases, inl, inr,
}
use nkv.Errors.{ok}
use nkv.Message.{Message, hello, update}
use nkv.Storage.{Bytes, StorageEngine}
use nkv.Channels.{Mpsc, View, IsLawful}
use nkv.Trie
use nkv.Trie.{has_wildcard, parts_of, value_list, insert_node}
use nkv.Trie.Nodes.{TrieNode}
use nkv.Trie.Lookup.{value_at, value_at-insert_node}
use nkv.Core.{NkvCore, Heap, write, get}
use nkv.Core.Put.{put}
use nkv.Core.Subscribe
use nkv.Core.PutLaws.{accepts}
use nkv.Core.Delivery.{
  mail, senders, senders_at, senders_at-append, AreOpen, AreOpen-append, mail-append,
}
use nkv.Core.PutDelivery.{above, values_at, listeners, put-Sent}
use nkv.Core.Greeting.{updates, single, with_notifier, subscribe_first}

-- The message, once for each time the path is listed.
unfoldable hits : Message → List Text → List (List Text) → List Message
hits m p [] = []
hits m p (q ∷ qs) = let later = hits m p qs in if p == q then m ∷ later else later

hits-map :
    (m : Message) (a b : Text) (p : List Text) (qs : List (List Text))
    → hits m (a ∷ p) (map (λ q. b ∷ q) qs) ≡ (if a == b then hits m p qs else [])
unfolding hits list_beq
hits-map m a b p [] = ground arith
hits-map m a b p (q ∷ qs) = ground (arith, hits-map m a b p qs)

hits-map_nil :
    (m : Message) (b : Text) (qs : List (List Text)) → hits m [] (map (λ q. b ∷ q) qs) ≡ []
unfolding hits list_beq
hits-map_nil m b [] = refl
hits-map_nil m b (q ∷ qs) = hits-map_nil m b qs

-- A path stands once among an extension of it and the paths above that.
hits-above :
    (m : Message) (p rest : List Text) → hits m p ((p ++ rest) ∷ above (p ++ rest)) ≡ m ∷ []
unfolding hits list_beq above
hits-above m [] [] = refl
hits-above m [] (r ∷ rest) = rw (hits-map_nil m r (above rest)) refl
hits-above m (a ∷ p) rest =
    rw (eq_refl a, hits-map m a a p (above (p ++ rest)), eq_refl a) (hits-above m p rest)

-- A sender whose receiver is gone is none of the open ones.
mail_of_AreOpen :
    {Q : Mpsc Message} (V : View Q) (c : Q.State) (m : Message) (tx : ℕ) (xs : List ℕ)
    → V.is_open c tx ≡ false
    → AreOpen V c xs
    → mail m tx xs ≡ []
unfolding mail
mail_of_AreOpen V c m tx [] shut h = refl
mail_of_AreOpen V c m tx (x ∷ xs) shut (alive, h) =
    ground
      (arith, mail_of_AreOpen V c m tx xs shut h, eq_iff x tx, λ (e : x ≡ tx). ap (V.is_open c) e)

mail_if :
    (m : Message) (tx : ℕ) (b : Bool) (xs : List ℕ)
    → mail m tx xs ≡ []
    → mail m tx (if b then tx ∷ [] else xs) ≡ (if b then m ∷ [] else [])
unfolding mail
mail_if m tx true xs h = rw (eq_refl tx) refl
mail_if m tx false xs h = h

module _ {Q : Mpsc Message} (V : View Q) where
  all_open_both :
      (c : Q.State) (xs ys : List ℕ) → AreOpen V c xs → AreOpen V c ys → AreOpen V c (xs ++ ys)
  all_open_both c [] ys h k = k
  all_open_both c (x ∷ xs) ys (alive, h) k = (alive, all_open_both c xs ys h k)

  all_open_still :
      (c c' : Q.State) (xs : List ℕ)
      → ((ty : ℕ) → V.is_open c ty ≡ true → V.is_open c' ty ≡ true)
      → AreOpen V c xs
      → AreOpen V c' xs
  all_open_still c c' [] kept h = tt
  all_open_still c c' (x ∷ xs) kept (alive, h) = (kept x alive, all_open_still c c' xs kept h)

  all_open_cond :
      (c : Q.State) (tx : ℕ) (b : Bool) (xs : List ℕ)
      → V.is_open c tx ≡ true
      → AreOpen V c xs
      → AreOpen V c (if b then tx ∷ [] else xs)
  all_open_cond c tx true xs new h = (new, tt)
  all_open_cond c tx false xs new h = h

-- Every notifier of the tree has an address that was given out.
abbrev pub AreAllocated : {S : StorageEngine} {Q : Mpsc Message} → NkvCore S Q → Type 0
AreAllocated s =
    (path : List Text) (n : ℕ) → value_at path s.notifiers.root ≡ some n → n < s.heap.next

abbrev add_cell : Heap → Text → ℕ → Heap
add_cell h uuid tx = record (write h h.next (single uuid tx)) { next = suc h.next }

-- A heap and a tree of notifiers, and both after a notifier with one sender was added.
module _ (h : Heap) (r : TrieNode ℕ) (p : List Text) (uuid : Text) (tx : ℕ)
    (allocated : (path : List Text) (n : ℕ) → value_at path r ≡ some n → n < h.next) where
  senders_at_one :
      (q : List Text)
      → senders_at (add_cell h uuid tx) (value_list (value_at q (insert_node p h.next r)))
        ≡ (if p == q then tx ∷ [] else senders_at h (value_list (value_at q r)))
  unfolding senders_at senders
  senders_at_one q = elim (Bool-cases (p == q)) [
    | inl same ↦ rw (value_at-insert_node p q h.next r, same, eq_refl h.next) refl
    | inr other ↦ elim (Option-cases (value_at q r)) [
      | inl missing ↦ rw (value_at-insert_node p q h.next r, other, missing) refl
      | inr (n, found) ↦
          let old : (h.next == n) ≡ false = ground (arith, eq_iff h.next n, allocated q n found) in
          rw (value_at-insert_node p q h.next r, other, found, old) refl
    ]
  ]

  senders_at_cons :
      (q : List Text) (qs : List (List Text))
      → senders_at (add_cell h uuid tx) (values_at (q ∷ qs) (insert_node p h.next r))
        ≡ (if p == q then tx ∷ [] else senders_at h (value_list (value_at q r)))
          ++ senders_at (add_cell h uuid tx) (values_at qs (insert_node p h.next r))
  unfolding values_at
  senders_at_cons q qs =
      senders_at-append (add_cell h uuid tx) (value_list (value_at q (insert_node p h.next r)))
        (values_at qs (insert_node p h.next r))
      ∙ ap (λ xs. xs ++ senders_at (add_cell h uuid tx) (values_at qs (insert_node p h.next r)))
          (senders_at_one q)

  module _ {Q : Mpsc Message} (V : View Q) (c : Q.State) where
    mail-hits :
        (m : Message) (ps : List (List Text))
        → V.is_open c tx ≡ false
        → AreOpen V c (senders_at h (values_at ps r))
        → mail m tx (senders_at (add_cell h uuid tx) (values_at ps (insert_node p h.next r)))
          ≡ hits m p ps
    unfolding values_at hits senders_at mail
    mail-hits m [] shut alive = refl
    mail-hits m (q ∷ qs) shut alive =
        let (here, later) =
          AreOpen-append V c (senders_at h (value_list (value_at q r)))
            (senders_at h (values_at qs r))
            (rw (senders_at-append h (value_list (value_at q r)) (values_at qs r)) at alive) in
        let rest = senders_at (add_cell h uuid tx) (values_at qs (insert_node p h.next r)) in
        let old = senders_at h (value_list (value_at q r)) in
        ap (mail m tx) (senders_at_cons q qs)
        ∙ mail-append m tx (if p == q then tx ∷ [] else old) rest
        ∙ rw
            (
              mail_if m tx (p == q) old (mail_of_AreOpen V c m tx old shut here),
              mail-hits m qs shut later,
            )
            (joined (p == q) (hits m p qs))
      where
        joined :
            (b : Bool) (ms : List Message)
            → (if b then m ∷ [] else []) ++ ms ≡ (if b then m ∷ ms else ms)
        joined true ms = refl
        joined false ms = refl

    all_open_later :
        (c' : Q.State) (ps : List (List Text))
        → ((ty : ℕ) → V.is_open c ty ≡ true → V.is_open c' ty ≡ true)
        → V.is_open c' tx ≡ true
        → AreOpen V c (senders_at h (values_at ps r))
        → AreOpen V c' (senders_at (add_cell h uuid tx) (values_at ps (insert_node p h.next r)))
    unfolding values_at senders_at senders
    all_open_later c' [] kept new alive = tt
    all_open_later c' (q ∷ qs) kept new alive =
        let (here, later) =
          AreOpen-append V c (senders_at h (value_list (value_at q r)))
            (senders_at h (values_at qs r))
            (rw (senders_at-append h (value_list (value_at q r)) (values_at qs r)) at alive) in
        rw (senders_at_cons q qs) (
          all_open_both V c' (if p == q then tx ∷ [] else senders_at h (value_list (value_at q r)))
            (senders_at (add_cell h uuid tx) (values_at qs (insert_node p h.next r)))
            (all_open_cond V c' tx (p == q) _ new
              (all_open_still V c c' (senders_at h (value_list (value_at q r))) kept here))
            (all_open_later c' qs kept new later))

module _ {S : StorageEngine} {Q : Mpsc Message} {V : View Q} (L : IsLawful Q V)
    (is_match : Text → Text → Bool) where
  listeners_after :
      (s : NkvCore S Q) (key j uuid : Text) (tx : ℕ) (c : Q.State)
      → has_wildcard key ≡ false
      → listeners (with_notifier s key uuid tx c) j
        ≡ senders_at (add_cell s.heap uuid tx) (
            values_at
              (parts_of j ∷ above (parts_of j))
              (insert_node (parts_of key) s.heap.next s.notifiers.root))
  unfolding listeners values_at Trie.insert
  listeners_after s key j uuid tx c plain = rw plain refl

  -- The first subscriber to a key without a wildcard and without a notifier is sent HELLO and the
  -- stored values that the key selects; a put of that key or of one below it that passes the
  -- checks and that the storage takes then sends it the new value exactly once, if the notifiers
  -- of the heap are allocated and the receivers at the key of the put are there.
  pub subscribe-put :
      (s : NkvCore S Q) (key j uuid : Text) (rest : List Text) (v : Bytes)
      → has_wildcard key ≡ false
      → value_at (parts_of key) s.notifiers.root ≡ none
      → AreAllocated s
      → parts_of j ≡ parts_of key ++ rest
      → accepts is_match j ≡ true
      → (S.put s.storage j v).1 ≡ ok tt
      → AreOpen V s.channels (listeners s j)
      → (let tx = (Q.unbounded_channel s.channels).0 in
          let (s', subscribed) = Subscribe.subscribe S Q s key uuid in
          let (s'', stored) = put S Q is_match s' j v in
          (subscribed ≡ ok tx)
          × (stored ≡ ok tt)
          × (V.queued s''.channels tx ≡ hello ∷ (updates (get S Q s key) ++ update j v ∷ [])))
  unfolding senders_at listeners
  subscribe-put s key j uuid rest v plain absent allocated below accepted stored alive =
      let (tx, c) = Q.unbounded_channel s.channels in
      let (c', made, told) = subscribe_first L s key uuid plain absent in
      let s1 = with_notifier s key uuid tx c' in
      let ps = parts_of j ∷ above (parts_of j) in
      let kept : (ty : ℕ) → V.is_open s.channels ty ≡ true → V.is_open c' ty ≡ true =
        λ ty h. told.still_open ty ∙ L.is_open-channel s.channels ty ∙ open_if (tx == ty) h in
      let new : V.is_open c' tx ≡ true =
        told.still_open tx ∙ L.is_open-channel s.channels tx ∙ rw (eq_refl tx) refl in
      let hear = listeners_after s key j uuid tx c' plain in
      let heard : AreOpen V s1.channels (listeners s1 j) = rw hear (
        all_open_later s.heap s.notifiers.root (parts_of key) uuid tx allocated V s.channels c' ps
          kept new alive) in
      let (done, sent) = put-Sent L is_match s1 j v accepted stored heard in
      let one : mail (update j v) tx (listeners s1 j) ≡ update j v ∷ [] =
        ap (mail (update j v) tx) hear
        ∙ mail-hits s.heap s.notifiers.root (parts_of key) uuid tx allocated V s.channels
            (update j v) ps (L.channel_fresh s.channels) alive
        ∙ rw below (hits-above (update j v) (parts_of key) rest) in
      let begun : V.queued c' tx ≡ hello ∷ updates (get S Q s key) =
        told.queue tx ∙ rw (eq_refl tx, L.queued-channel s.channels tx, eq_refl tx) refl in
      rw (ap (λ r. r.0) made, ap (λ r. r.1) made) (refl, done, sent.queue tx ∙ rw (begun, one) refl)
    where
      open_if : {o : Bool} (b : Bool) → o ≡ true → (if b then true else o) ≡ true
      open_if true h = refl
      open_if false h = h
