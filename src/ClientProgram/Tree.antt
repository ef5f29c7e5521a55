-- ===== src/ClientProgram/Tree.antt =====
-- The command TREE of src/client/main.rs: the trie that it prints.
use nkv.Base.{
  Text, false, Option, none, some, List, [], ◌∷◌, ◌≡◌, refl, arith, Bool-cases, inl, inr, ap, ◌∙◌,
  sym, if◌then◌else◌, ◌==◌, list_eq, number_eq, eq_iff,
}
use nkv.Base.Dict
use nkv.Base.Dict.{Dict, NodupKeys}
use nkv.Storage.{Bytes}
use nkv.Trie
use nkv.Trie.{Trie, has_wildcard, value_list, parts_of}
use nkv.Trie.Lookup.{get-insert, get-value_at, value_at-new}
use nkv.ClientProgram.{tree_of}

-- What is found beside a default.
abbrev found_or : Option Bytes → List Bytes → List Bytes
found_or none other = other
found_or (some v) other = v ∷ []

-- An entry whose key has a wildcard is left out.
get-entered :
    (t : Trie Bytes) (k j : Text) (v : Bytes)
    → has_wildcard j ≡ false
    → Trie.get (Trie.insert t k v).0 j ≡ (if k == j then v ∷ [] else Trie.get t j)
get-entered t k j v hj = elim (Bool-cases (has_wildcard k)) [
  | inr h ↦ get-insert t k j v h hj
  | inl h ↦
      let kept : (Trie.insert t k v).0 ≡ t = unfold Trie.insert in rw h refl in
      let other : (k == j) ≡ false = ground (arith, eq_iff k j, ap has_wildcard {x = k} {y = j}) in
      rw (kept, other) refl
]

get_of_entries :
    (d : Dict Text Bytes) (t : Trie Bytes) (j : Text)
    → NodupKeys d
    → has_wildcard j ≡ false
    → Trie.get (tree_of d t) j ≡ found_or (Dict.lookup j d) (Trie.get t j)
unfolding tree_of Dict.lookup
get_of_entries [] t j distinct hj = refl
get_of_entries ((k, v) ∷ d) t j distinct hj =
    get_of_entries d (Trie.insert t k v).0 j distinct.1 hj
    ∙ ap (found_or (Dict.lookup j d)) (get-entered t k j v hj)
    ∙ elim (Bool-cases (k == j)) [
      | inr h ↦ rw h refl
      | inl h ↦
          let absent : Dict.lookup j d ≡ none =
            ap (λ key. Dict.lookup key d) (sym ((eq_iff k j).0 h)) ∙ distinct.0 in
          rw (h, absent) refl
    ]

found_or_nil : (o : Option Bytes) → found_or o [] ≡ value_list o
found_or_nil none = refl
found_or_nil (some v) = refl

get-new : (j : Text) → has_wildcard j ≡ false → Trie.get (Trie.new {T = Bytes}) j ≡ []
unfolding Trie.new
get-new j hj = get-value_at (Trie.new {T = Bytes}) j hj ∙ ap value_list (value_at-new (parts_of j))

-- The trie that TREE prints for the entries of a response, whose keys are distinct, holds exactly
-- these: get of a key without a wildcard returns its data, and nothing for another key.
pub get-tree_of :
    (d : Dict Text Bytes) (j : Text)
    → NodupKeys d
    → has_wildcard j ≡ false
    → Trie.get (tree_of d (Trie.new {T = Bytes})) j ≡ value_list (Dict.lookup j d)
get-tree_of d j distinct hj =
    get_of_entries d (Trie.new {T = Bytes}) j distinct hj
    ∙ ap (found_or (Dict.lookup j d)) (get-new j hj)
    ∙ found_or_nil (Dict.lookup j d)
