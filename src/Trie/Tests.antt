-- ===== src/Trie/Tests.antt =====
-- Runs of the trie, after the unit tests of src/trie.rs.
use nkv.Base.{
  ℕ, literal, ◌≡◌, refl, true, false, some, [], ◌∷◌, contains_char, split, list_beq, ◌↔◌,
  if◌then◌else◌, ◌==◌, list_eq, number_eq, none,
}
use nkv.Trie.{
  Trie, insert, get, get_mut, remove, delete_wildcard, delete_child, visit_children, is_nil, new,
  key_contains_wildcard, has_wildcard, parts_of,
}
use mathlib.Core.List.{Memᴰ}
use nkv.Trie.Lookup.{value_at, get-insert}
use nkv.Trie.Shape.{IsWellFormed, new-IsWellFormed, insert-IsWellFormed}
use nkv.Trie.Remove.{matches, value_at-remove}
use nkv.Trie.Outcome.{remove-IsWellFormed, remove_unchanged}
use nkv.Trie.Flag.{Matched, remove-eq-true_iff, get-remove}
use nkv.Trie.Select.{Selected, get-Selected_iff}
use nkv.Trie.Nodes.{child_get, child_set, is_empty, remove_children}

unfoldable pub trie_code : Unit {0}
unfolding insert get get_mut remove delete_wildcard delete_child visit_children is_nil contains_char
    split list_beq child_get child_set is_empty remove_children new
trie_code = tt

abbrev pub services : Trie ℕ
services =
    let t1 : Trie ℕ = (insert new (literal "service.functionA.key1") 1).0 in
    let t2 : Trie ℕ = (insert t1 (literal "service.functionA.key2") 2).0 in
    let t3 : Trie ℕ = (insert t2 (literal "service.functionA.nested.deep") 3).0 in
    let t4 : Trie ℕ = (insert t3 (literal "service.functionB.key1") 4).0 in
    (insert t4 (literal "service.functionA") 5).0

get_with_wildcard :
    (get services (literal "service.functionA.*") ≡ 5 ∷ 1 ∷ 2 ∷ 3 ∷ [])
    × (get services (literal "service.functionB.key1") ≡ 4 ∷ [])
    × (get services (literal "service") ≡ [])
    × (get services (literal "service.*.key1") ≡ 5 ∷ 1 ∷ 2 ∷ 3 ∷ 4 ∷ [])
unfolding trie_code
get_with_wildcard = (refl, refl, refl, refl)

remove_with_leaf_wildcard :
    let r = remove services (literal "service.functionA.*") in
    (r.1 ≡ true)
    × (get r.0 (literal "service.functionA.*") ≡ [])
    × (get r.0 (literal "service.functionA") ≡ [])
    × (get r.0 (literal "service.functionB.key1") ≡ 4 ∷ [])
    × ((remove r.0 (literal "service.functionA.*")).1 ≡ false)
unfolding trie_code
remove_with_leaf_wildcard = (refl, refl, refl, refl, refl)

remove_with_mid_path_wildcard :
    let r = remove services (literal "service.*.key1") in
    (r.1 ≡ true)
    × (get r.0 (literal "service.functionA.key1") ≡ [])
    × (get r.0 (literal "service.functionB.key1") ≡ [])
    × (get r.0 (literal "service.functionA.key2") ≡ 2 ∷ [])
unfolding trie_code
remove_with_mid_path_wildcard = (refl, refl, refl, refl)

insert_wildcard : insert services (literal "service.*") 6 ≡ (services, some key_contains_wildcard)
unfolding trie_code
insert_wildcard = refl

get_mut_path : (get_mut services (literal "service.functionA.key1")).1 ≡ 1 ∷ []
unfolding trie_code
get_mut_path = refl

pub services-IsWellFormed : IsWellFormed services.root
services-IsWellFormed = insert-IsWellFormed _ (literal "service.functionA") 5 (
    insert-IsWellFormed _ (literal "service.functionB.key1") 4 (
      insert-IsWellFormed _ (literal "service.functionA.nested.deep") 3 (
        insert-IsWellFormed _ (literal "service.functionA.key2") 2
          (insert-IsWellFormed _ (literal "service.functionA.key1") 1 (new-IsWellFormed ℕ)))))

insert-IsWellFormed_example : IsWellFormed (insert services (literal "a.b") 7).0.root
insert-IsWellFormed_example = insert-IsWellFormed services (literal "a.b") 7 services-IsWellFormed

plain_key : has_wildcard (literal "service.functionA.key1") ≡ false
unfolding has_wildcard
plain_key = refl

get-insert_example :
    get (insert services (literal "service.functionA.key1") 9).0 (literal "service.functionA.key1")
    ≡ (if literal "service.functionA.key1" == literal "service.functionA.key1"
        then 9 ∷ []
        else get services (literal "service.functionA.key1"))
get-insert_example =
    get-insert services (literal "service.functionA.key1") (literal "service.functionA.key1") 9
      plain_key plain_key

value_at-remove_example :
    value_at
      (parts_of (literal "service.functionA.key1"))
      (remove services (literal "service.*.key1")).0.root
    ≡ (if matches
          (parts_of (literal "service.*.key1"))
          (parts_of (literal "service.functionA.key1"))
        then none
        else value_at (parts_of (literal "service.functionA.key1")) services.root)
value_at-remove_example =
    value_at-remove services (literal "service.*.key1")
      (parts_of (literal "service.functionA.key1")) services-IsWellFormed

remove-eq-true_iff_example :
    ((remove services (literal "service.*.key1")).1 ≡ true)
    ↔ Matched (parts_of (literal "service.*.key1")) services.root
remove-eq-true_iff_example =
    remove-eq-true_iff services (literal "service.*.key1") services-IsWellFormed

get-remove_example :
    get (remove services (literal "service.*.key1")).0 (literal "service.functionA.key1") ≡ (
      if matches (parts_of (literal "service.*.key1")) (parts_of (literal "service.functionA.key1"))
      then []
      else get services (literal "service.functionA.key1"))
get-remove_example =
    get-remove services (literal "service.*.key1") (literal "service.functionA.key1")
      services-IsWellFormed plain_key

remove-IsWellFormed_example : IsWellFormed (remove services (literal "service.*.key1")).0.root
remove-IsWellFormed_example =
    remove-IsWellFormed services (literal "service.*.key1") services-IsWellFormed

nothing_removed : (remove services (literal "service.nonexistent")).1 ≡ false
unfolding trie_code
nothing_removed = refl

remove_unchanged_example : (remove services (literal "service.nonexistent")).0 ≡ services
remove_unchanged_example =
    remove_unchanged services (literal "service.nonexistent") services-IsWellFormed nothing_removed

get-Selected_iff_example :
    Memᴰ 4 (get services (literal "service.functionB.*"))
    ↔ Selected 4
        (has_wildcard (literal "service.functionB.*"))
        (parts_of (literal "service.functionB.*"))
        services.root
get-Selected_iff_example =
    get-Selected_iff services (literal "service.functionB.*") 4 services-IsWellFormed
