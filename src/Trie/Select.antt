-- ===== src/Trie/Select.antt =====
-- What `get` of src/trie.rs returns for a key with a wildcard: the values at the paths that the
-- key selects. The walk stops at the first wildcard, so the parts behind it do not count.
use mathlib.Core.Path.{subst}
use mathlib.Core.Option.{some-injective}
use mathlib.Core.List.Memᴰ
use mathlib.Core.List.{Memᴰ}
use nkv.Base.{
  Text, Bool, true, false, ◌&&◌, ◌≡◌, ◌↔◌, refl, ap, sym, Option, none, some, List, [], ◌∷◌, arith,
  if◌then◌else◌, ◌==◌, eq_iff, eq_refl, list_eq, number_eq, Option-cases, Bool-cases, inl, inr,
}
use nkv.Trie.Nodes.{TrieNode, node, Children, nil, cons, child_get, value}
use nkv.Trie.{
  Trie, wildcard, parts_of, has_wildcard, get, get_node, value_list, collect_values,
  collect_children,
}
use nkv.Trie.Lookup.{value_at}
use nkv.Trie.Shape.{IsWellFormed, AreWellFormed, child_get-AreWellFormed}

-- Does a key with these parts select the path? `wild` tells whether the key contains a `*`.
unfoldable pub selects : Bool → List Text → List Text → Bool
selects wild [] [] = true
selects wild [] (_ ∷ _) = wild
selects wild (part ∷ parts) [] = part == wildcard
selects wild (part ∷ parts) (name ∷ path) =
    let deeper = part == name && selects wild parts path in
    if part == wildcard then true else deeper

module _ {ℓ} {T : Type ℓ} where
  -- The node has the value `v` at some path.
  abbrev Holds : T → TrieNode T → Type ℓ
  Holds v n = (path : List Text) × (value_at path n ≡ some v)

  abbrev HoldsBelow : T → Children T → Type ℓ
  HoldsBelow v cs =
      (name : Text) × (path : List Text) × (c : TrieNode T) × (child_get name cs ≡ some c)
      × (value_at path c ≡ some v)

  value_list-Memᴰ : (o : Option T) {v : T} → Memᴰ v (value_list o) → o ≡ some v
  value_list-Memᴰ none m = elim m [ ]
  value_list-Memᴰ (some w) m = ap some (sym (Memᴰ.eq_of_singleton m))

  Memᴰ-value_list : (o : Option T) {v : T} → o ≡ some v → Memᴰ v (value_list o)
  Memᴰ-value_list none e = cc
  Memᴰ-value_list (some w) {v} e = Memᴰ.head (some-injective v w (sym e))

  HoldsBelow-tail :
      (key : Text) (c : TrieNode T) (cs : Children T) {v : T}
      → child_get key cs ≡ none
      → HoldsBelow v cs
      → HoldsBelow v (cons key c cs)
  unfolding child_get
  HoldsBelow-tail key c cs fresh (name, path, c', found, at_path) =
      (name, path, c', ground (arith, eq_iff key name), at_path)

  mutual
    unfolding collect_values value_at child_get

    collect_values-Holds :
        (n : TrieNode T) {v : T} → IsWellFormed n → Memᴰ v (collect_values n) → Holds v n
    collect_values-Holds (node cs w) h m = elim (Memᴰ.append_cases (value_list w) m) [
      | inl here ↦ ([], value_list-Memᴰ w here)
      | inr deeper ↦
          let (name, path, c, found, at_path) = collect_children-HoldsBelow cs h deeper in
          (name ∷ path, rw found at_path)
    ]

    collect_children-HoldsBelow :
        (cs : Children T) {v : T}
        → AreWellFormed cs
        → Memᴰ v (collect_children cs)
        → HoldsBelow v cs
    collect_children-HoldsBelow nil h m = elim m [ ]
    collect_children-HoldsBelow (cons key c cs) h m =
        elim (Memᴰ.append_cases (collect_values c) m) [
          | inl here ↦
              let (path, at_path) = collect_values-Holds c h.2 here in
              (key, path, c, rw (eq_refl key), at_path)
          | inr later ↦ HoldsBelow-tail key c cs h.0 (collect_children-HoldsBelow cs h.3 later)
        ]

  collect_children-Memᴰ :
      (name : Text) (cs : Children T) {c : TrieNode T} {v : T}
      → child_get name cs ≡ some c
      → Memᴰ v (collect_values c)
      → Memᴰ v (collect_children cs)
  unfolding collect_values child_get
  collect_children-Memᴰ name nil e m = cc
  collect_children-Memᴰ name (cons key c' cs) {c} {v} e m = elim (Bool-cases (key == name)) [
    | inl same ↦
        Memᴰ.append_left (collect_children cs)
          (subst (λ x. Memᴰ v (collect_values x)) (sym (some-injective c' c (rw same at e))) m)
    | inr other ↦
        Memᴰ.append_right (collect_values c') (collect_children-Memᴰ name cs (rw other at e) m)
  ]

  collect_values-Memᴰ :
      (path : List Text) (n : TrieNode T) {v : T}
      → value_at path n ≡ some v
      → Memᴰ v (collect_values n)
  unfolding collect_values value_at
  collect_values-Memᴰ [] (node cs w) e =
      Memᴰ.append_left (collect_children cs) (Memᴰ-value_list w e)
  collect_values-Memᴰ (name ∷ path) (node cs w) e = elim (Option-cases (child_get name cs)) [
    | inl missing ↦ absurd (ground arith)
    | inr (c, found) ↦
        Memᴰ.append_right (value_list w)
          (collect_children-Memᴰ name cs found (collect_values-Memᴰ path c (rw found at e)))
  ]

  abbrev pub Selected : T → Bool → List Text → TrieNode T → Type ℓ
  Selected v wild parts n =
      (path : List Text) × (selects wild parts path ≡ true) × (value_at path n ≡ some v)

  get_node-Selected :
      (wild : Bool) (parts : List Text) (n : TrieNode T) {v : T}
      → IsWellFormed n
      → Memᴰ v (get_node wild parts n)
      → Selected v wild parts n
  unfolding get_node selects value_at
  get_node-Selected true [] n h m =
      let (path, at_path) = collect_values-Holds n h m in (path, all_selected path, at_path)
    where
      all_selected : (path : List Text) → selects true [] path ≡ true
      all_selected [] = refl
      all_selected (name ∷ path) = refl
  get_node-Selected false [] n h m = ([], refl, value_list-Memᴰ (value n) m)
  get_node-Selected wild (part ∷ parts) (node cs w) {v} h m = elim (Bool-cases (part == wildcard)) [
    | inl star ↦
        let (path, at_path) = collect_values-Holds (node cs w) h (rw (star, get_node) at m) in
        (path, star_selected path star, at_path)
    | inr plain ↦ elim (Option-cases (child_get part cs)) [
      | inl missing ↦ elim (rw (plain, missing, get_node) at m) [ ]
      | inr (c, found) ↦
          let (path, chosen, at_path) =
            get_node-Selected wild parts c (child_get-AreWellFormed part cs h found).1
              (rw (plain, found, get_node) at m) in
          (part ∷ path, ground (arith, eq_refl part), rw found at_path)
    ]
  ]
    where
      star_selected :
          (path : List Text) → (part == wildcard) ≡ true → selects wild (part ∷ parts) path ≡ true
      star_selected [] star = star
      star_selected (name ∷ path) star = rw star

  Memᴰ-get_node :
      (wild : Bool) (parts path : List Text) (n : TrieNode T) {v : T}
      → selects wild parts path ≡ true
      → value_at path n ≡ some v
      → Memᴰ v (get_node wild parts n)
  unfolding get_node selects value_at
  Memᴰ-get_node true [] path n s e = collect_values-Memᴰ path n e
  Memᴰ-get_node false [] [] n s e = Memᴰ-value_list (value n) e
  Memᴰ-get_node false [] (name ∷ path) n s e = cc
  Memᴰ-get_node wild (part ∷ parts) [] (node cs w) s e =
      rw (s, get_node) (collect_values-Memᴰ [] (node cs w) e)
  Memᴰ-get_node wild (part ∷ parts) (name ∷ path) (node cs w) {v} s e =
      elim (Bool-cases (part == wildcard)) [
        | inl star ↦ rw (star, get_node) (collect_values-Memᴰ (name ∷ path) (node cs w) e)
        | inr plain ↦
            let same : part ≡ name = ground (arith, eq_iff part name) in
            elim (Option-cases (child_get name cs)) [
              | inl missing ↦ absurd (ground arith)
              | inr (c, found) ↦
                  rw (plain, same, found, get_node)
                    (Memᴰ-get_node wild parts path c (ground arith) (rw found at e))
            ]
      ]

  -- On a well-formed trie, the values that get returns are those at the paths that the key
  -- selects.
  pub get-Selected_iff :
      (t : Trie T) (key : Text) (v : T)
      → IsWellFormed t.root
      → Memᴰ v (get t key) ↔ Selected v (has_wildcard key) (parts_of key) t.root
  unfolding get
  get-Selected_iff t key v h = (
    get_node-Selected (has_wildcard key) (parts_of key) t.root h,
    λ (path, chosen, at_path).
        Memᴰ-get_node (has_wildcard key) (parts_of key) path t.root chosen at_path,
  )
