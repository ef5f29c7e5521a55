-- ===== src/Trie/Iter.antt =====
-- `TrieIter` of src/trie.rs: an iterator over the pairs of a key and its value. Its loop runs on
-- fuel for the nodes on its stack.
use nkv.Base.{
  ℕ, zero, suc, Text, List, [], ◌∷◌, ◌++◌, Option, none, some, if◌then◌else◌, ◌==◌, list_eq,
  number_eq,
}
use nkv.Trie.Nodes.{TrieNode, Children, nil, cons, value, children}
use nkv.Trie.{Trie}

-- The key of a child.
unfoldable pub new_path : Text → Text → Text
new_path path ch = (if path == [] then path else path ++ b'.' ∷ []) ++ ch

module _ {ℓ} (T : Type ℓ) where
  -- The top of the stack comes first.
  abbrev pub Stack : Type ℓ
  Stack = List (TrieNode T × Text)

  -- What a call of `next` ends with: a pair and the stack that is left, or the end.
  pub data Next : Type ℓ where
    out_of_fuel finished : Next
    item : Text → T → Stack → Next

module _ {ℓ} {T : Type ℓ} where
  -- `node.children.iter()`, and the same backwards.
  abbrev pub iter_children : Children T → List (Text × TrieNode T)
  iter_children nil = []
  iter_children (cons ch child cs) = (ch, child) ∷ iter_children cs

  abbrev pub rev_append :
      List (Text × TrieNode T) → List (Text × TrieNode T) → List (Text × TrieNode T)
  rev_append [] done = done
  rev_append (e ∷ es) done = rev_append es (e ∷ done)

  -- The loop that pushes the children.
  unfoldable pub push_children : Text → List (Text × TrieNode T) → Stack T → Stack T
  unfolding new_path
  push_children path [] stack = stack
  push_children path ((ch, child) ∷ es) stack =
      push_children path es ((child, new_path path ch) ∷ stack)

  unfoldable pub next : ℕ → Stack T → Next T
  unfolding push_children
  next zero stack = out_of_fuel
  next (suc fuel) [] = finished
  next (suc fuel) ((n, path) ∷ stack) =
      let stack' = push_children path (rev_append (iter_children (children n)) []) stack in
      elim (value n) [ some v ↦ item path v stack' | none ↦ next fuel stack' ]

  -- `Trie::iter`
  unfoldable pub iter : Trie T → Stack T
  iter t = (t.root, []) ∷ []

  -- `for (key, value) in iter`; `none` if the fuel of this loop or of a call of `next` ran out.
  unfoldable pub collect : ℕ → ℕ → Stack T → Option (List (Text × T))
  unfolding next
  collect fuel zero stack = none
  collect fuel (suc rounds) stack = elim (next fuel stack) [
    | out_of_fuel ↦ none
    | finished ↦ some []
    | item key v stack' ↦ elim (collect fuel rounds stack') [
      | none ↦ none
      | some pairs ↦ some ((key, v) ∷ pairs)
    ]
  ]
