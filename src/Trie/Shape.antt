-- ===== src/Trie/Shape.antt =====
-- The shape of the tries of src/trie.rs: the names of a node's children are distinct, since they
-- are the keys of a `HashMap`; and there is no dead branch, a node below the root that has
-- neither a value nor children.
use mathlib.Core.Path.{subst}
use mathlib.Core.Option.{some-injective}
use nkv.Base.{
  Text, ◌≡◌, refl, false, Option, none, some, List, [], ◌∷◌, arith, ◌==◌, eq_iff, list_eq,
  number_eq, Option-cases, Bool-cases, inl, inr,
}
use nkv.Trie.Nodes.{
  TrieNode, node, Children, nil, cons, child_get, child_set, child_remove, is_empty,
  child_get-child_set, child_get-child_remove,
}
use nkv.Trie.{Trie, insert_node, insert, or_new, parts_of, new}

module _ {ℓ} {T : Type ℓ} where
  abbrev mutual
    pub IsWellFormed : TrieNode T → Type ℓ
    IsWellFormed (node cs _) = AreWellFormed cs

    pub AreWellFormed : Children T → Type ℓ
    AreWellFormed nil = Unit
    AreWellFormed (cons key child cs) =
        (child_get key cs ≡ none) × (is_empty child ≡ false) × IsWellFormed child × AreWellFormed cs

  -- A node that may stand below another.
  abbrev pub IsLive : TrieNode T → Type ℓ
  IsLive child = (is_empty child ≡ false) × IsWellFormed child

  pub child_get-AreWellFormed :
      (key : Text) (cs : Children T) {child : TrieNode T}
      → AreWellFormed cs
      → child_get key cs ≡ some child
      → IsLive child
  unfolding child_get
  child_get-AreWellFormed key nil h e = cc
  child_get-AreWellFormed key (cons k c cs) {child} (fresh, full, hc, hs) e =
      elim (Bool-cases (k == key)) [
        | inl same ↦ subst IsLive (some-injective c child (rw same at e)) (full, hc)
        | inr other ↦ child_get-AreWellFormed key cs hs (rw other at e)
      ]

  pub child_set-AreWellFormed :
      (key : Text) (child : TrieNode T) (cs : Children T)
      → is_empty child ≡ false
      → IsWellFormed child
      → AreWellFormed cs
      → AreWellFormed (child_set key child cs)
  unfolding child_set child_get
  child_set-AreWellFormed key child nil full hc h = (refl, full, hc, tt)
  child_set-AreWellFormed key child (cons k c cs) full hc (fresh, full', hc', hs) = ground (
    arith,
    child_set-AreWellFormed key child cs full hc hs,
    child_get-child_set key k child cs,
    eq_iff k key,
    eq_iff key k,
  )

  pub child_remove-AreWellFormed :
      (key : Text) (cs : Children T) → AreWellFormed cs → AreWellFormed (child_remove key cs)
  unfolding child_remove
  child_remove-AreWellFormed key nil h = tt
  child_remove-AreWellFormed key (cons k c cs) (fresh, full, hc, hs) =
      ground (arith, child_remove-AreWellFormed key cs hs, child_get-child_remove key k cs)

  child_set-ne-nil :
      (key : Text) (child : TrieNode T) (cs : Children T) (v : Option T)
      → is_empty (node (child_set key child cs) v) ≡ false
  unfolding child_set is_empty
  child_set-ne-nil key child nil v = refl
  child_set-ne-nil key child (cons k c cs) v = ground arith

  insert_node-is_empty :
      (p : List Text) (v : T) (n : TrieNode T) → is_empty (insert_node p v n) ≡ false
  unfolding insert_node is_empty
  insert_node-is_empty [] v (node nil w) = refl
  insert_node-is_empty [] v (node (cons k c cs) w) = refl
  insert_node-is_empty (part ∷ p) v (node cs w) = child_set-ne-nil part _ cs w

  or_new-IsWellFormed :
      (key : Text) (cs : Children T) → AreWellFormed cs → IsWellFormed (or_new (child_get key cs))
  or_new-IsWellFormed key cs h = elim (Option-cases (child_get key cs)) [
    | inl missing ↦ rw missing tt
    | inr (child, found) ↦ rw found (child_get-AreWellFormed key cs h found).1
  ]

  insert_node-IsWellFormed :
      (p : List Text) (v : T) (n : TrieNode T) → IsWellFormed n → IsWellFormed (insert_node p v n)
  unfolding insert_node
  insert_node-IsWellFormed [] v (node cs w) h = h
  insert_node-IsWellFormed (part ∷ p) v (node cs w) h =
      let child = or_new (child_get part cs) in
      child_set-AreWellFormed part (insert_node p v child) cs (insert_node-is_empty p v child)
        (insert_node-IsWellFormed p v child (or_new-IsWellFormed part cs h)) h

  -- insert keeps the names of the children distinct and leaves no dead branch.
  pub insert-IsWellFormed :
      (t : Trie T) (key : Text) (v : T) → IsWellFormed t.root → IsWellFormed (insert t key v).0.root
  unfolding insert
  insert-IsWellFormed t key v h = ground (arith, insert_node-IsWellFormed (parts_of key) v t.root h)

-- The new trie is well formed.
pub new-IsWellFormed {ℓ} : (T : Type ℓ) → IsWellFormed (new {T = T}).root
unfolding new
new-IsWellFormed T = tt
