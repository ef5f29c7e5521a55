-- ===== src/Trie/Remove.antt =====
-- What `remove` of src/trie.rs does to the map from paths to values: it erases exactly the paths
-- that match the key, where a wildcard at the end stands for any path and a wildcard before the
-- end for one part.
use nkv.Base.{
  Text, Bool, true, false, ◌&&◌, ◌||◌, ◌≡◌, ◌≢◌, refl, Option, none, some, List, [], ◌∷◌, arith,
  if◌then◌else◌, ◌==◌, eq_iff, list_eq, number_eq, Option-cases, Bool-cases, inl, inr,
}
use nkv.Trie.Nodes.{
  TrieNode, node, Children, nil, cons, child_get, is_empty, child_get-child_set,
  child_get-child_remove,
}
use nkv.Trie.{Trie, wildcard, parts_of, delete_wildcard, delete_child, delete_recursive, remove}
use nkv.Trie.Lookup.{at_child, value_at}
use nkv.Trie.Shape.{IsWellFormed, AreWellFormed, child_get-AreWellFormed}
use nkv.Trie.Sweep.{sweep, child_get-sweep_absent, visit_children-sweep}

abbrev pub is_last : List Text → Bool
is_last [] = true
is_last (_ ∷ _) = false

-- Does the path match the parts of a key?
unfoldable pub matches : List Text → List Text → Bool
matches [] [] = true
matches [] (_ ∷ _) = false
matches (part ∷ rest) [] = part == wildcard && is_last rest
matches (part ∷ rest) (name ∷ path) =
    let deeper = (part == wildcard || part == name) && matches rest path in
    if part == wildcard && is_last rest then true else deeper

module _ {ℓ} {T : Type ℓ} where
  pub value_at_of_is_empty :
      (path : List Text) (n : TrieNode T) → is_empty n ≡ true → value_at path n ≡ none
  unfolding value_at is_empty child_get
  value_at_of_is_empty [] (node nil none) h = refl
  value_at_of_is_empty (name ∷ path) (node nil none) h = refl
  value_at_of_is_empty path (node nil (some v)) h = cc
  value_at_of_is_empty path (node (cons k c cs) v) h = cc

  module _ (f : TrieNode T → TrieNode T × Bool) (name : Text) (path : List Text) where
    abbrev below : Option (TrieNode T) → Option T
    below = at_child (λ child. value_at path (f child).0)

    value_at-sweep :
        (cs : Children T)
        → AreWellFormed cs
        → at_child (value_at path) (child_get name (sweep f cs)) ≡ below (child_get name cs)
    unfolding sweep child_get
    value_at-sweep nil h = refl
    value_at-sweep (cons k c cs) (fresh, full, hc, hs) = ground (
      arith,
      eq_iff k name,
      value_at-sweep cs hs,
      child_get-sweep_absent f name cs,
      value_at_of_is_empty path (f c).0,
    )

    value_at-delete_child :
        (part : Text) (cs : Children T) (v : Option T)
        → value_at (name ∷ path) (delete_child f part cs v).0 ≡ (
            if part == name
            then below (child_get name cs)
            else at_child (value_at path) (child_get name cs))
    unfolding value_at delete_child
    value_at-delete_child part cs v = elim (Option-cases (child_get part cs)) [
      | inl missing ↦ ground (arith, eq_iff part name)
      | inr (c, found) ↦ ground (
        arith,
        eq_iff part name,
        child_get-child_set part name (f c).0 cs,
        child_get-child_remove part name cs,
        value_at_of_is_empty path (f c).0,
      )
    ]

  -- The value at a path that begins with a name, after the part `part` with `rest` behind it.
  value_at-delete_child_step :
      (f : TrieNode T → TrieNode T × Bool) (part name : Text) (rest path : List Text)
      (cs : Children T) (v : Option T)
      → part ≢ wildcard
      → ((child : TrieNode T)
          → child_get name cs ≡ some child
          → value_at path (f child).0 ≡ (if matches rest path then none else value_at path child))
      → value_at (name ∷ path) (delete_child f part cs v).0
        ≡ (if matches (part ∷ rest) (name ∷ path) then none else value_at (name ∷ path) (node cs v))
  unfolding value_at matches
  value_at-delete_child_step f part name rest path cs v plain ih =
      rw (value_at-delete_child f name path part cs v) (elim (Option-cases (child_get name cs)) [
        | inl missing ↦ ground (arith, eq_iff part name, eq_iff part wildcard)
        | inr (c, found) ↦ ground (arith, eq_iff part name, eq_iff part wildcard, ih c found)
      ])

  value_at_nil-delete_child :
      (f : TrieNode T → TrieNode T × Bool) (part : Text) (cs : Children T) (v : Option T)
      → value_at [] (delete_child f part cs v).0 ≡ v
  unfolding value_at delete_child
  value_at_nil-delete_child f part cs v = ground arith

  value_at-sweep_step :
      (f : TrieNode T → TrieNode T × Bool) (part name next : Text) (rest path : List Text)
      (cs : Children T) (v : Option T)
      → part ≡ wildcard
      → AreWellFormed cs
      → ((child : TrieNode T)
          → child_get name cs ≡ some child
          → value_at path (f child).0
            ≡ (if matches (next ∷ rest) path then none else value_at path child))
      → value_at (name ∷ path) (delete_wildcard f (next ∷ rest) cs v).0 ≡ (
          if matches (part ∷ next ∷ rest) (name ∷ path)
          then none
          else value_at (name ∷ path) (node cs v))
  unfolding value_at matches delete_wildcard
  value_at-sweep_step f part name next rest path cs v star h ih =
      rw (visit_children-sweep f cs h, value_at-sweep f name path cs h)
        (elim (Option-cases (child_get name cs)) [
          | inl missing ↦ ground (arith, eq_iff part wildcard)
          | inr (c, found) ↦ ground (arith, eq_iff part wildcard, ih c found)
        ])

  -- What the recursive call does, below a node that is well formed.
  abbrev Erases : List Text → (TrieNode T → TrieNode T × Bool) → Type ℓ
  Erases rest f =
      (path : List Text) (n : TrieNode T)
      → IsWellFormed n
      → value_at path (f n).0 ≡ (if matches rest path then none else value_at path n)

  value_at_nil :
      (path : List Text) (cs : Children T) (v : Option T)
      → value_at path (node cs none) ≡ (if matches [] path then none else value_at path (node cs v))
  unfolding value_at matches
  value_at_nil [] cs v = refl
  value_at_nil (name ∷ path) cs v = refl

  value_at-wildcard :
      (part : Text) (rest path : List Text) (cs : Children T) (v : Option T)
      (f : TrieNode T → TrieNode T × Bool)
      → (part == wildcard) ≡ true
      → AreWellFormed cs
      → Erases rest f
      → value_at path (delete_wildcard f rest cs v).0
        ≡ (if matches (part ∷ rest) path then none else value_at path (node cs v))
  value_at-wildcard part [] [] cs v f star h erases =
      unfold delete_wildcard value_at matches in rw star
  value_at-wildcard part [] (name ∷ path) cs v f star h erases =
      unfold delete_wildcard value_at matches child_get in rw star
  value_at-wildcard part (next ∷ rest) [] cs v f star h erases =
      unfold delete_wildcard value_at matches in rw star
  value_at-wildcard part (next ∷ rest) (name ∷ path) cs v f star h erases =
      value_at-sweep_step f part name next rest path cs v ((eq_iff part wildcard).0 star) h
        λ child found. erases path child (child_get-AreWellFormed name cs h found).1

  value_at-plain :
      (part : Text) (rest path : List Text) (cs : Children T) (v : Option T)
      (f : TrieNode T → TrieNode T × Bool)
      → (part == wildcard) ≡ false
      → AreWellFormed cs
      → Erases rest f
      → value_at path (delete_child f part cs v).0
        ≡ (if matches (part ∷ rest) path then none else value_at path (node cs v))
  value_at-plain part rest [] cs v f plain h erases =
      rw (value_at_nil-delete_child f part cs v) (unfold value_at matches in rw plain)
  value_at-plain part rest (name ∷ path) cs v f plain h erases =
      value_at-delete_child_step f part name rest path cs v (λ e. cc ((eq_iff part wildcard).1 e))
        λ child found. erases path child (child_get-AreWellFormed name cs h found).1

  pub delete_recursive-wildcard :
      (part : Text) (rest : List Text) (cs : Children T) (v : Option T)
      → (part == wildcard) ≡ true
      → delete_recursive (part ∷ rest) (node cs v)
        ≡ delete_wildcard (delete_recursive rest) rest cs v
  unfolding delete_recursive
  delete_recursive-wildcard part rest cs v star = rw star

  pub delete_recursive-plain :
      (part : Text) (rest : List Text) (cs : Children T) (v : Option T)
      → (part == wildcard) ≡ false
      → delete_recursive (part ∷ rest) (node cs v) ≡ delete_child (delete_recursive rest) part cs v
  unfolding delete_recursive
  delete_recursive-plain part rest cs v plain = rw plain

  pub value_at-delete_recursive :
      (pattern path : List Text) (n : TrieNode T)
      → IsWellFormed n
      → value_at path (delete_recursive pattern n).0
        ≡ (if matches pattern path then none else value_at path n)
  value_at-delete_recursive [] path (node cs v) h =
      unfold delete_recursive in value_at_nil path cs v
  value_at-delete_recursive (part ∷ rest) path (node cs v) h =
      elim (Bool-cases (part == wildcard)) [
        | inl star ↦ rw (delete_recursive-wildcard part rest cs v star) (
            value_at-wildcard part rest path cs v (delete_recursive rest) star h
              (value_at-delete_recursive rest))
        | inr plain ↦ rw (delete_recursive-plain part rest cs v plain) (
            value_at-plain part rest path cs v (delete_recursive rest) plain h
              (value_at-delete_recursive rest))
      ]

  -- On a well-formed trie, remove erases the values at the paths that match the key, and keeps all
  -- other values.
  pub value_at-remove :
      (t : Trie T) (key : Text) (path : List Text)
      → IsWellFormed t.root
      → value_at path (remove t key).0.root
        ≡ (if matches (parts_of key) path then none else value_at path t.root)
  unfolding remove
  value_at-remove t key path h = value_at-delete_recursive (parts_of key) path t.root h
