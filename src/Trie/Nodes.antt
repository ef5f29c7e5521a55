-- ===== src/Trie/Nodes.antt =====
-- The nodes of src/trie.rs, and the `HashMap` of a node's children. The map is an association
-- list of its own, since a data type cannot hold a list of itself.
use nkv.Base.{
  Text, Bool, true, false, ◌≡◌, refl, Option, none, some, List, [], ◌∷◌, arith, if◌then◌else◌, ◌==◌,
  eq_iff, list_eq, number_eq,
}

mutual
  pub data TrieNode {ℓ} (T : Type ℓ) : Type ℓ where
    node : Children T → Option T → TrieNode T

  pub data Children {ℓ} (T : Type ℓ) : Type ℓ where
    nil : Children T
    cons : Text → TrieNode T → Children T → Children T

module _ {ℓ} {T : Type ℓ} where
  abbrev pub children : TrieNode T → Children T
  children (node cs v) = cs

  abbrev pub value : TrieNode T → Option T
  value (node cs v) = v

  -- `TrieNode::new`
  abbrev pub new_node : TrieNode T
  new_node = node nil none

  unfoldable pub is_empty : TrieNode T → Bool
  is_empty (node nil none) = true
  is_empty (node nil (some _)) = false
  is_empty (node (cons _ _ _) _) = false

  -- `children.get(part)`
  unfoldable pub child_get : Text → Children T → Option (TrieNode T)
  child_get part nil = none
  child_get part (cons key child cs) = if key == part then some child else child_get part cs

  -- The map after the value at `part` became `child`; a new key is added.
  unfoldable pub child_set : Text → TrieNode T → Children T → Children T
  child_set part child nil = cons part child nil
  child_set part child (cons key old cs) =
      if key == part then cons key child cs else cons key old (child_set part child cs)

  -- `children.remove(part)`
  unfoldable pub child_remove : Text → Children T → Children T
  child_remove part nil = nil
  child_remove part (cons key child cs) =
      let rest = child_remove part cs in if key == part then rest else cons key child rest

  -- `for key in children_to_remove { node.children.remove(&key); }`
  unfoldable pub remove_children : List Text → Children T → Children T
  unfolding child_remove
  remove_children [] cs = cs
  remove_children (key ∷ to_remove) cs = remove_children to_remove (child_remove key cs)

  pub child_get-child_set :
      (k j : Text) (child : TrieNode T) (cs : Children T)
      → child_get j (child_set k child cs) ≡ (if k == j then some child else child_get j cs)
  unfolding child_get child_set
  child_get-child_set k j child nil = refl
  child_get-child_set k j child (cons i old cs) =
      ground (arith, eq_iff k j, eq_iff i k, eq_iff i j, child_get-child_set k j child cs)

  pub child_get-child_remove :
      (k j : Text) (cs : Children T)
      → child_get j (child_remove k cs) ≡ (if k == j then none else child_get j cs)
  unfolding child_get child_remove
  child_get-child_remove k j nil = ground arith
  child_get-child_remove k j (cons i child cs) =
      ground (arith, eq_iff k j, eq_iff i k, eq_iff i j, child_get-child_remove k j cs)

  -- The keys of the map are distinct.
  abbrev pub NodupChildren : Children T → Type ℓ
  NodupChildren nil = Unit
  NodupChildren (cons key _ cs) = (child_get key cs ≡ none) × NodupChildren cs

  pub child_set-NodupChildren :
      (k : Text) (child : TrieNode T) (cs : Children T)
      → NodupChildren cs
      → NodupChildren (child_set k child cs)
  unfolding child_get child_set
  child_set-NodupChildren k child nil _ = (refl, tt)
  child_set-NodupChildren k child (cons j old cs) (fresh, u) = ground (
    arith,
    child_set-NodupChildren k child cs u,
    child_get-child_set k j child cs,
    eq_iff j k,
    eq_iff k j,
  )

  pub child_remove-NodupChildren :
      (k : Text) (cs : Children T) → NodupChildren cs → NodupChildren (child_remove k cs)
  unfolding child_remove
  child_remove-NodupChildren k nil _ = tt
  child_remove-NodupChildren k (cons j child cs) (fresh, u) =
      ground (arith, child_remove-NodupChildren k cs u, child_get-child_remove k j cs)
