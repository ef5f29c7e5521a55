-- ===== src/Trie/Lookup.antt =====
-- What a trie of src/trie.rs stands for: a partial map from paths to values. `insert` is the
-- update of that map, and `get` of a key without a wildcard reads it.
use nkv.Base.{
  Text, ℕ, false, ◌≡◌, ◌≢◌, refl, ◌∙◌, ap, sym, Option, none, some, List, [], ◌∷◌, arith, split,
  contains_char, if◌then◌else◌, ◌==◌, eq_iff, list_eq, number_eq, All, list_beq, join-split, join,
  Option-cases, inl, inr,
}
use nkv.Trie.Nodes.{
  TrieNode, node, Children, new_node, child_get, children, value, child_get-child_set,
}
use nkv.Trie.{
  Trie, has_wildcard, wildcard, parts_of, insert_node, insert, or_new, value_list, get_node, get,
}

module _ {ℓ} {T : Type ℓ} where
  abbrev pub at_child : (TrieNode T → Option T) → Option (TrieNode T) → Option T
  at_child f none = none
  at_child f (some child) = f child

  unfoldable pub value_at : List Text → TrieNode T → Option T
  value_at [] n = value n
  value_at (part ∷ parts) n = at_child (value_at parts) (child_get part (children n))

  pub value_at-new : (parts : List Text) → value_at parts new_node ≡ none
  unfolding value_at child_get
  value_at-new [] = refl
  value_at-new (part ∷ parts) = refl

  value_at-or_new :
      (part : Text) (parts : List Text) (cs : Children T) (v : Option T)
      → value_at parts (or_new (child_get part cs)) ≡ value_at (part ∷ parts) (node cs v)
  unfolding value_at
  value_at-or_new part parts cs v = ground (arith, value_at-new parts)

  pub value_at-insert_node :
      (p q : List Text) (v : T) (n : TrieNode T)
      → value_at q (insert_node p v n) ≡ (if p == q then some v else value_at q n)
  unfolding value_at insert_node list_beq
  value_at-insert_node [] [] v (node cs w) = refl
  value_at-insert_node [] (j ∷ q) v (node cs w) = refl
  value_at-insert_node (k ∷ p) [] v (node cs w) = refl
  value_at-insert_node (k ∷ p) (j ∷ q) v (node cs w) =
      let child = or_new (child_get k cs) in
      ground (
        arith,
        child_get-child_set k j (insert_node p v child) cs,
        eq_iff k j,
        value_at-insert_node p q v child,
        value_at-or_new j q cs w,
      )

-- A key without a wildcard has no wildcard among its parts.
abbrev pub IsPlain : List Text → Type 0
IsPlain = All (λ part. part ≢ wildcard)

split-avoids :
    (c d : ℕ) (s : Text)
    → contains_char c s ≡ false
    → All (λ part. contains_char c part ≡ false) (split d s)
unfolding split contains_char
split-avoids c d [] h = (refl, tt)
split-avoids c d (x ∷ s) h = ground (arith, split-avoids c d s)

avoids-IsPlain :
    (parts : List Text) → All (λ part. contains_char b'*' part ≡ false) parts → IsPlain parts
unfolding contains_char
avoids-IsPlain [] h = tt
avoids-IsPlain (part ∷ parts) (h, hs) = (λ e. cc (e), avoids-IsPlain parts hs)

pub parts_of-IsPlain : (key : Text) → has_wildcard key ≡ false → IsPlain (parts_of key)
unfolding has_wildcard
parts_of-IsPlain key h = avoids-IsPlain (parts_of key) (split-avoids b'*' b'.' key h)

pub parts_of-injective : (k j : Text) → parts_of k ≡ parts_of j → k ≡ j
parts_of-injective k j e = sym (join-split b'.' k) ∙ ap (join b'.') e ∙ join-split b'.' j

pub parts_of-beq : (k j : Text) → (parts_of k == parts_of j) ≡ (k == j)
parts_of-beq k j =
    ground (arith, eq_iff (parts_of k) (parts_of j), eq_iff k j, parts_of-injective k j)

module _ {ℓ} {T : Type ℓ} where
  get_node_of_IsPlain :
      (parts : List Text) (n : TrieNode T)
      → IsPlain parts
      → get_node false parts n ≡ value_list (value_at parts n)
  unfolding get_node value_at
  get_node_of_IsPlain [] n h = refl
  get_node_of_IsPlain (part ∷ parts) n (h, hs) = elim (Option-cases (child_get part (children n))) [
    | inl missing ↦ ground (arith, eq_iff part wildcard)
    | inr (child, found) ↦ ground (arith, eq_iff part wildcard, get_node_of_IsPlain parts child hs)
  ]

  -- `get` of a key without a wildcard returns the value at the key's path, if there is one.
  pub get-value_at :
      (t : Trie T) (key : Text)
      → has_wildcard key ≡ false
      → get t key ≡ value_list (value_at (parts_of key) t.root)
  unfolding get
  get-value_at t key h = rw h (get_node_of_IsPlain _ t.root (parts_of-IsPlain key h))

  -- After insert of a key without a wildcard, get of that key returns the new value alone, and get
  -- of every other key without a wildcard returns what it returned before.
  pub get-insert :
      (t : Trie T) (key j : Text) (v : T)
      → has_wildcard key ≡ false
      → has_wildcard j ≡ false
      → get (insert t key v).0 j ≡ (if key == j then v ∷ [] else get t j)
  unfolding insert
  get-insert t key j v h hj =
      rw (get-value_at _ j hj, get-value_at t j hj, h, value_at-insert_node, parts_of-beq)
        (ground arith)
