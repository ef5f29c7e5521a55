-- ===== src/Trie/IterKeys.antt =====
-- Which pairs `TrieIter` of src/trie.rs yields.
use mathlib.Core.Path.{subst}
use mathlib.Core.Option.{some-injective}
use mathlib.Core.List.Memᴰ
use mathlib.Core.List.{Memᴰ}
use nkv.Base.{
  ℕ, ◌<◌, Text, ◌≡◌, ◌≢◌, ◌↔◌, refl, ap, sym, ◌∙◌, Option, none, some, List, [], ◌∷◌, ◌++◌, map,
  arith, ◌==◌, eq_iff, eq_refl, list_eq, number_eq, Option-cases, Bool-cases, inl, inr, join,
  append_assoc, list_beq,
}
use nkv.Trie.{Trie, value_list}
use nkv.Trie.Nodes.{TrieNode, node, Children, nil, cons, child_get}
use nkv.Trie.Lookup.{value_at}
use nkv.Trie.Shape.{IsWellFormed, AreWellFormed}
use nkv.Trie.Iter.{new_path, collect, iter}
use nkv.Trie.IterLaws.{size, node_pairs, children_pairs, collect-iter}

-- The key that belongs to a path below a node whose key is `key`.
unfoldable key_of : Text → List Text → Text
key_of key [] = key
key_of key (name ∷ path) = key_of (new_path key name) path

join_extend :
    (c : ℕ) (part name : Text) (path : List Text)
    → join c (((part ++ c ∷ []) ++ name) ∷ path) ≡ part ++ c ∷ join c (name ∷ path)
unfolding join
join_extend c part name [] = append_assoc part (c ∷ []) name
join_extend c part name (next ∷ path) =
    append_assoc (part ++ c ∷ []) name (c ∷ join c (next ∷ path))
    ∙ append_assoc part (c ∷ []) (name ++ c ∷ join c (next ∷ path))

-- Below a key that is not empty, the names of a path are joined to it.
key_of-join : (key : Text) (path : List Text) → key ≢ [] → key_of key path ≡ join b'.' (key ∷ path)
unfolding key_of join new_path list_beq
key_of-join key [] full = refl
key_of-join [] (name ∷ path) full = absurd (full refl)
key_of-join (x ∷ key) (name ∷ path) full =
    key_of-join (new_path (x ∷ key) name) path (λ e. cc) ∙ join_extend b'.' (x ∷ key) name path

module _ {ℓ} {T : Type ℓ} where
  -- No child has the empty text as its name.
  abbrev mutual
    pub IsNamed : TrieNode T → Type ℓ
    IsNamed (node cs _) = AreNamed cs

    pub AreNamed : Children T → Type ℓ
    AreNamed nil = Unit
    AreNamed (cons name child cs) = (name ≢ []) × IsNamed child × AreNamed cs

  -- The pair belongs to a path below the node with this key.
  abbrev Lists : Text → TrieNode T → Text → T → Type ℓ
  Lists key n k v = (path : List Text) × (k ≡ key_of key path) × (value_at path n ≡ some v)

  abbrev ListsBelow : Text → Children T → Text → T → Type ℓ
  ListsBelow key cs k v =
      (name : Text) × (c : TrieNode T) × (child_get name cs ≡ some c)
      × Lists (new_path key name) c k v

  pairs-here :
      (key k : Text) (o : Option T) {v : T}
      → Memᴰ {A = Text × T} (k, v) (map (λ w. (key, w)) (value_list o))
      → (k ≡ key) × (o ≡ some v)
  pairs-here key k none m = elim m [ ]
  pairs-here key k (some w) m =
      let e = Memᴰ.eq_of_singleton m in
      (ap (λ (p : Text × T). p.0) e, ap (λ (p : Text × T). some p.1) (sym e))

  ListsBelow-tail :
      (key name k : Text) (c : TrieNode T) (cs : Children T) {v : T}
      → child_get name cs ≡ none
      → ListsBelow key cs k v
      → ListsBelow key (cons name c cs) k v
  unfolding child_get
  ListsBelow-tail key name k c cs fresh (name', c', found, listed) =
      (name', c', ground (arith, eq_iff name name'), listed)

  mutual
    unfolding node_pairs value_at child_get key_of

    node_pairs-Lists :
        (key k : Text) (n : TrieNode T) {v : T}
        → IsWellFormed n
        → Memᴰ {A = Text × T} (k, v) (node_pairs key n)
        → Lists key n k v
    node_pairs-Lists key k (node cs w) h m =
        elim (Memᴰ.append_cases (map (λ x. (key, x)) (value_list w)) m) [
          | inl here ↦ let (same, at) = pairs-here key k w here in ([], same, at)
          | inr deeper ↦
              let (name, c, found, (path, same, at)) =
                children_pairs-ListsBelow key k cs h deeper in
              (name ∷ path, same, rw found at)
        ]

    children_pairs-ListsBelow :
        (key k : Text) (cs : Children T) {v : T}
        → AreWellFormed cs
        → Memᴰ {A = Text × T} (k, v) (children_pairs key cs)
        → ListsBelow key cs k v
    children_pairs-ListsBelow key k nil h m = elim m [ ]
    children_pairs-ListsBelow key k (cons name c cs) h m =
        elim (Memᴰ.append_cases (node_pairs (new_path key name) c) m) [
          | inl here ↦
              (name, c, rw (eq_refl name) refl, node_pairs-Lists (new_path key name) k c h.2 here)
          | inr later ↦
              ListsBelow-tail key name k c cs h.0 (children_pairs-ListsBelow key k cs h.3 later)
        ]

  value_list-pairs :
      (key : Text) (o : Option T) {v : T}
      → o ≡ some v
      → Memᴰ {A = Text × T} (key, v) (map (λ w. (key, w)) (value_list o))
  value_list-pairs key none e = cc
  value_list-pairs key (some w) {v} e = Memᴰ.head (ap (λ x. (key, x)) (some-injective v w (sym e)))

  children_pairs_of_child :
      (key k name : Text) (cs : Children T) {c : TrieNode T} {v : T}
      → child_get name cs ≡ some c
      → Memᴰ {A = Text × T} (k, v) (node_pairs (new_path key name) c)
      → Memᴰ {A = Text × T} (k, v) (children_pairs key cs)
  unfolding node_pairs child_get
  children_pairs_of_child key k name nil e m = cc
  children_pairs_of_child key k name (cons j c' cs) {c} {v} e m = elim (Bool-cases (j == name)) [
    | inl same ↦ Memᴰ.append_left (children_pairs key cs) (
        subst (λ (i : Text). Memᴰ {A = Text × T} (k, v) (node_pairs (new_path key i) c'))
          (sym ((eq_iff j name).0 same))
          (subst (λ x. Memᴰ {A = Text × T} (k, v) (node_pairs (new_path key name) x))
            (some-injective c c' (sym (rw same at e))) m))
    | inr other ↦
        Memᴰ.append_right (node_pairs (new_path key j) c')
          (children_pairs_of_child key k name cs (rw other at e) m)
  ]

  Lists-node_pairs :
      (path : List Text) (key : Text) (n : TrieNode T) {v : T}
      → value_at path n ≡ some v
      → Memᴰ {A = Text × T} (key_of key path, v) (node_pairs key n)
  unfolding node_pairs value_at key_of
  Lists-node_pairs [] key (node cs w) e =
      Memᴰ.append_left (children_pairs key cs) (value_list-pairs key w e)
  Lists-node_pairs (name ∷ path) key (node cs w) e = elim (Option-cases (child_get name cs)) [
    | inl missing ↦ absurd (ground arith)
    | inr (c, found) ↦ Memᴰ.append_right (map (λ x. (key, x)) (value_list w)) (
        children_pairs_of_child key (key_of (new_path key name) path) name cs found
          (Lists-node_pairs path (new_path key name) c (rw found at e)))
  ]

  child_get-IsNamed :
      (name : Text) (cs : Children T) {c : TrieNode T}
      → AreNamed cs
      → child_get name cs ≡ some c
      → (name ≢ []) × IsNamed c
  unfolding child_get
  child_get-IsNamed name nil h e = cc
  child_get-IsNamed name (cons j c' cs) {c} (full, hc, hs) e = elim (Bool-cases (j == name)) [
    | inl same ↦ (
      (λ empty. full ((eq_iff j name).0 same ∙ empty)),
      subst IsNamed (some-injective c' c (rw same at e)) hc,
    )
    | inr other ↦ child_get-IsNamed name cs hs (rw other at e)
  ]

  key_of_named :
      (path : List Text) (n : TrieNode T) {v : T}
      → IsNamed n
      → value_at path n ≡ some v
      → key_of [] path ≡ join b'.' path
  unfolding key_of value_at join new_path list_beq
  key_of_named [] n h e = refl
  key_of_named (name ∷ path) (node cs w) h e = elim (Option-cases (child_get name cs)) [
    | inl missing ↦ absurd (ground arith)
    | inr (c, found) ↦ key_of-join name path (child_get-IsNamed name cs h found).0
  ]

  -- Iteration over a well-formed trie without an empty name ends, with fuel for more than its
  -- nodes, and yields exactly the values of the trie, each with the names on its path joined by
  -- dots.
  pub collect-iter_iff :
      (t : Trie T) (fuel : ℕ)
      → IsWellFormed t.root
      → IsNamed t.root
      → size t.root < fuel
      → (pairs : List (Text × T)) × (collect fuel fuel (iter t) ≡ some pairs)
        × ((k : Text) (v : T)
            → Memᴰ {A = Text × T} (k, v) pairs
              ↔ ((path : List Text) × (k ≡ join b'.' path) × (value_at path t.root ≡ some v)))
  collect-iter_iff t fuel h named enough = (
    node_pairs [] t.root,
    collect-iter t fuel enough,
    λ k v. (
      (λ m.
          let (path, same, at) = node_pairs-Lists [] k t.root h m in
          (path, same ∙ key_of_named path t.root named at, at)),
      λ found.
          let (path, same, at) = found in
          subst (λ x. Memᴰ {A = Text × T} (x, v) (node_pairs [] t.root))
            (key_of_named path t.root named at ∙ sym same) (Lists-node_pairs path [] t.root at),
    ),
  )
