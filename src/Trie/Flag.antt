-- ===== src/Trie/Flag.antt =====
-- The flag that `remove` of src/trie.rs returns: did the trie hold a value that matches the key?
use nkv.Base.{
  Text, Bool, true, false, ◌||◌, ◌≡◌, ◌↔◌, refl, ap, Option, none, some, List, [], ◌∷◌, arith,
  if◌then◌else◌, ◌==◌, eq_iff, eq_refl, list_eq, number_eq, Option-cases, Bool-cases, inl, inr,
}
use nkv.Trie.Nodes.{TrieNode, node, Children, nil, cons, child_get, is_empty}
use nkv.Trie.{
  Trie, wildcard, parts_of, delete_wildcard, delete_child, delete_recursive, remove, is_nil,
  has_wildcard, get,
}
use nkv.Trie.Lookup.{value_at, get-value_at}
use nkv.Trie.Shape.{IsWellFormed, AreWellFormed, child_get-AreWellFormed}
use nkv.Trie.Sweep.{removed_any, visit_children-removed}
use nkv.Trie.Remove.{matches, value_at-remove, delete_recursive-wildcard, delete_recursive-plain}
use nkv.Trie.Outcome.{remove_unchanged, valued_path}

Matched-last :
    (part : Text) (path : List Text) → (part == wildcard) ≡ true → matches (part ∷ []) path ≡ true
unfolding matches
Matched-last part [] star = rw star
Matched-last part (name ∷ path) star = rw star

module _ {ℓ} {T : Type ℓ} where
  -- A path of the node that matches, with its value.
  abbrev pub Matched : List Text → TrieNode T → Type ℓ
  Matched pattern n =
      (path : List Text) × (v : T) × (matches pattern path ≡ true) × (value_at path n ≡ some v)

  abbrev FindsMatch : List Text → (TrieNode T → TrieNode T × Bool) → Type ℓ
  FindsMatch rest f = (n : TrieNode T) → IsWellFormed n → (f n).1 ≡ true → Matched rest n

  -- A matching path below a child is one of the node.
  Matched-child :
      (part name : Text) (rest : List Text) (cs : Children T) (v : Option T) {c : TrieNode T}
      → ((part == wildcard || part == name) ≡ true)
      → child_get name cs ≡ some c
      → Matched rest c
      → Matched (part ∷ rest) (node cs v)
  unfolding value_at matches
  Matched-child part name rest cs v e found (path, w, m, at_path) =
      (name ∷ path, w, ground arith, rw found at_path)

  removed_any_child :
      (f : TrieNode T → TrieNode T × Bool) (cs : Children T)
      → AreWellFormed cs
      → removed_any f cs ≡ true
      → (name : Text) × (c : TrieNode T) × (child_get name cs ≡ some c) × ((f c).1 ≡ true)
  unfolding removed_any child_get
  removed_any_child f nil h e = cc
  removed_any_child f (cons k c cs) (fresh, full, hc, hs) e = elim (Bool-cases (f c).1) [
    | inl here ↦ (k, c, rw (eq_refl k), here)
    | inr later ↦
        let (name, c', found, e') = removed_any_child f cs hs (rw later at e) in
        (name, c', ground (arith, eq_iff k name), e')
  ]

  wildcard_finds :
      (part : Text) (rest : List Text) (cs : Children T) (v : Option T)
      (f : TrieNode T → TrieNode T × Bool)
      → FindsMatch rest f
      → (part == wildcard) ≡ true
      → AreWellFormed cs
      → (delete_wildcard f rest cs v).1 ≡ true
      → Matched (part ∷ rest) (node cs v)
  unfolding delete_wildcard is_nil is_empty
  wildcard_finds part [] cs v f finds star h e =
      let (path, w, at_path) = valued_path (node cs v) h (not_empty cs v e) in
      (path, w, Matched-last part path star, at_path)
    where
      not_empty :
          (cs : Children T) (v : Option T)
          → (delete_wildcard f [] cs v).1 ≡ true
          → is_empty (node cs v) ≡ false
      not_empty nil none e = cc
      not_empty nil (some w) e = refl
      not_empty (cons k c cs) v e = refl
  wildcard_finds part (next ∷ rest) cs v f finds star h e =
      let (name, c, found, removed) = removed_any_child f cs h (rw visit_children-removed at e) in
      Matched-child part name (next ∷ rest) cs v (rw star) found
        (finds c (child_get-AreWellFormed name cs h found).1 removed)

  child_finds :
      (part : Text) (rest : List Text) (cs : Children T) (v : Option T)
      (f : TrieNode T → TrieNode T × Bool)
      → FindsMatch rest f
      → AreWellFormed cs
      → (delete_child f part cs v).1 ≡ true
      → Matched (part ∷ rest) (node cs v)
  unfolding delete_child
  child_finds part rest cs v f finds h e = elim (Option-cases (child_get part cs)) [
    | inl missing ↦ absurd (ground arith)
    | inr (c, found) ↦
        Matched-child part part rest cs v (ground (arith, eq_refl part)) found
          (finds c (child_get-AreWellFormed part cs h found).1 (ground arith))
  ]

  delete_recursive_finds : (pattern : List Text) → FindsMatch pattern (delete_recursive pattern)
  delete_recursive_finds [] (node cs none) h e = absurd (unfold delete_recursive in cc)
  delete_recursive_finds [] (node cs (some v)) h e =
      ([], v, unfold matches in refl, unfold value_at in refl)
  delete_recursive_finds (part ∷ rest) (node cs v) h e = elim (Bool-cases (part == wildcard)) [
    | inl star ↦
        wildcard_finds part rest cs v (delete_recursive rest) (delete_recursive_finds rest) star h
          (rw (delete_recursive-wildcard part rest cs v star) at e)
    | inr plain ↦
        child_finds part rest cs v (delete_recursive rest) (delete_recursive_finds rest) h
          (rw (delete_recursive-plain part rest cs v plain) at e)
  ]

  -- On a well-formed trie, remove returns true exactly if the trie held a value at a path that
  -- matches the key.
  pub remove-eq-true_iff :
      (t : Trie T) (key : Text)
      → IsWellFormed t.root
      → ((remove t key).1 ≡ true) ↔ Matched (parts_of key) t.root
  remove-eq-true_iff t key h = (
    λ e. delete_recursive_finds (parts_of key) t.root h (unfold remove in e),
    λ (path, v, m, at_path). elim (Bool-cases (remove t key).1) [
      | inl done ↦ done
      | inr nothing ↦
          let same = ap (λ (u : Trie T). value_at path u.root) (remove_unchanged t key h nothing) in
          let gone = value_at-remove t key path h in ground arith
    ],
  )

  -- After remove on a well-formed trie, get of a key without a wildcard returns nothing if its
  -- path matches the removed key, and what it returned before if it does not.
  pub get-remove :
      (t : Trie T) (key j : Text)
      → IsWellFormed t.root
      → has_wildcard j ≡ false
      → get (remove t key).0 j ≡ (if matches (parts_of key) (parts_of j) then [] else get t j)
  get-remove t key j h plain =
      let after = get-value_at (remove t key).0 j plain in
      let before = get-value_at t j plain in
      let change = value_at-remove t key (parts_of j) h in ground arith
