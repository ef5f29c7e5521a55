-- ===== src/Trie.antt =====
-- src/trie.rs: the prefix tree behind both trees of `NkvCore`.
pub mod Nodes
pub mod Tests
pub mod Lookup
pub mod Shape
pub mod Sweep
pub mod Remove
pub mod Outcome
pub mod Flag
pub mod Select
pub mod Display
pub mod Iter
pub mod IterLaws
pub mod IterKeys
pub mod IterTests
use nkv.Base.{
  Text, literal, Bool, true, false, not, ◌||◌, ◌&&◌, Option, none, some, List, [], ◌∷◌, ◌++◌, split,
  contains_char, is_some, if◌then◌else◌, ◌==◌, list_eq, number_eq, ℕ, zero, suc,
}
use Nodes.{
  TrieNode, node, Children, nil, cons, is_empty, new_node, child_get, child_set, child_remove,
  remove_children, children, value,
}

pub data TrieError : Type 0 where
  key_contains_wildcard : TrieError

pub record Trie {ℓ} (T : Type ℓ) : Type ℓ where
  pub root : TrieNode T

-- `Trie::WILDCARD`, the text "*".
abbrev pub wildcard : Text
wildcard = b'*' ∷ []

unfoldable pub has_wildcard : Text → Bool
unfolding contains_char
has_wildcard key = contains_char b'*' key

-- `key.split('.').collect()`
abbrev pub parts_of : Text → List Text
parts_of key = split b'.' key

module _ {ℓ} {T : Type ℓ} where
  unfoldable pub new : Trie T
  new = record { root = new_node }

  -- The walk of `insert`: `entry(part).or_insert_with(new)` at each part, then the value.
  abbrev or_new : Option (TrieNode T) → TrieNode T
  or_new none = new_node
  or_new (some child) = child

  unfoldable pub insert_node : List Text → T → TrieNode T → TrieNode T
  insert_node [] v (node cs _) = node cs (some v)
  insert_node (part ∷ parts) v (node cs w) =
      node (child_set part (insert_node parts v (or_new (child_get part cs))) cs) w

  unfoldable pub insert : Trie T → Text → T → Trie T × Option TrieError
  unfolding has_wildcard insert_node
  insert t key v =
      if has_wildcard key
      then (t, some key_contains_wildcard)
      else (record { root = insert_node (parts_of key) v t.root }, none)

  -- `node.value.as_ref().map_or(vec![], |v| vec![v])`
  abbrev pub value_list : Option T → List T
  value_list none = []
  value_list (some v) = v ∷ []

  -- The value of a node first, then those of its children in the order of the map.
  unfoldable mutual
    pub collect_values : TrieNode T → List T
    collect_values (node cs v) = value_list v ++ collect_children cs

    pub collect_children : Children T → List T
    collect_children nil = []
    collect_children (cons _ child cs) = collect_values child ++ collect_children cs

  -- The loop of `get`: it collects at the first wildcard part, whatever parts follow.
  unfoldable pub get_node : Bool → List Text → TrieNode T → List T
  unfolding collect_values
  get_node wild [] n = if wild then collect_values n else value_list (value n)
  get_node wild (part ∷ parts) n =
      if part == wildcard
      then collect_values n
      else elim (child_get part (children n)) [ some child ↦ get_node wild parts child | none ↦ [] ]

  unfoldable pub get : Trie T → Text → List T
  unfolding has_wildcard get_node
  get t prefix = get_node (has_wildcard prefix) (parts_of prefix) t.root

  -- The loop of `get_mut`. The nodes that `op` is called on come first; after the last part
  -- there is no wildcard test.
  unfoldable pub get_mut_node : List Text → TrieNode T → List (TrieNode T) × List T
  unfolding collect_values
  get_mut_node [] n = ([], value_list (value n))
  get_mut_node (part ∷ parts) n =
      if part == wildcard then (n ∷ [], collect_values n) else elim (child_get part (children n)) [
        | some child ↦ let (visited, found) = get_mut_node parts child in (n ∷ visited, found)
        | none ↦ (n ∷ [], [])
      ]

  unfoldable pub get_mut : Trie T → Text → List (TrieNode T) × List T
  unfolding get_mut_node
  get_mut t key = get_mut_node (parts_of key) t.root

  -- A wildcard in the middle: every child is visited, and the keys of those that something was
  -- removed from and that are empty now are listed.
  unfoldable pub visit_children :
      (TrieNode T → TrieNode T × Bool) → Children T → Children T × List Text × Bool
  visit_children f nil = (nil, [], false)
  visit_children f (cons key child cs) =
      let (child', removed) = f child in
      let (cs', to_remove, others) = visit_children f cs in
      (
        cons key child' cs',
        (if removed && is_empty child' then key ∷ to_remove else to_remove),
        removed || others,
      )

  unfoldable pub is_nil : Children T → Bool
  is_nil nil = true
  is_nil (cons _ _ _) = false

  -- What `delete_recursive` does at a wildcard; `rest` are the parts after it.
  unfoldable pub delete_wildcard :
      (TrieNode T → TrieNode T × Bool) → List Text → Children T → Option T → TrieNode T × Bool
  delete_wildcard f [] cs v = (node nil none, not (is_nil cs) || is_some v)
  delete_wildcard f (_ ∷ _) cs v =
      let (cs', to_remove, removed) = visit_children f cs in
      (node (remove_children to_remove cs') v, removed)

  -- What it does at a plain part.
  unfoldable pub delete_child :
      (TrieNode T → TrieNode T × Bool) → Text → Children T → Option T → TrieNode T × Bool
  delete_child f part cs v = elim (child_get part cs) [
    | none ↦ (node cs v, false)
    | some child ↦
        let (child', removed) = f child in
        if removed && is_empty child'
        then (node (child_remove part cs) v, true)
        else (node (child_set part child' cs) v, removed)
  ]

  unfoldable pub delete_recursive : List Text → TrieNode T → TrieNode T × Bool
  delete_recursive [] (node cs v) = (node cs none, is_some v)
  delete_recursive (part ∷ rest) (node cs v) =
      let f = delete_recursive rest in
      if part == wildcard then delete_wildcard f rest cs v else delete_child f part cs v

  unfoldable pub remove : Trie T → Text → Trie T × Bool
  unfolding delete_recursive
  remove t key =
      let (root, removed) = delete_recursive (parts_of key) t.root in
      (record { root = root }, removed)
