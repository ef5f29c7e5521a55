-- ===== src/Trie/IterTests.antt =====
-- Runs of the iterator and of the `Display` of src/trie.rs.
use mathlib.Core.List.{Memᴰ}
use nkv.Base.{
  ℕ, ◌<◌, Text, literal, ◌≡◌, ◌↔◌, refl, arith, List, [], ◌∷◌, ◌++◌, some, map, join, list_beq,
}
use nkv.Trie.{insert, new, collect_values}
use nkv.Trie.Lookup.{value_at}
use nkv.Trie.Display.{fmt}
use nkv.Trie.Iter.{iter, collect}
use nkv.Trie.IterLaws.{size, second, values-collect-iter}
use nkv.Trie.IterKeys.{IsNamed, collect-iter_iff}
use nkv.Trie.Tests.{trie_code, services, services-IsWellFormed}

services_size : size services.root ≡ 9
unfolding trie_code size
services_size = refl

services_fits : size services.root < 10
services_fits = omega (arith, services_size)

services-IsNamed : IsNamed services.root
unfolding trie_code
services-IsNamed =
    (cc, (cc, (cc, tt, (cc, tt, (cc, (cc, tt, tt), tt))), (cc, (cc, tt, tt), tt)), tt)

collected :
    collect 10 10 (iter services)
    ≡ some (
        (literal "service.functionA", 5)
        ∷ (literal "service.functionA.key1", 1)
        ∷ (literal "service.functionA.key2", 2)
        ∷ (literal "service.functionA.nested.deep", 3)
        ∷ (literal "service.functionB.key1", 4)
        ∷ [])
unfolding trie_code collect iter list_beq
collected = refl

-- A key that starts with a dot loses it.
first_name_empty :
    collect 4 4 (iter (insert (new {T = ℕ}) (literal ".b") 1).0) ≡ some ((literal "b", 1) ∷ [])
unfolding trie_code collect iter list_beq
first_name_empty = refl

displayed :
    fmt (insert (new {T = ℕ}) (literal "a.b") 1).0
    ≡ literal "-> *\n" ++ literal "|--> a\n" ++ literal "-|---> b\n"
unfolding trie_code fmt
displayed = refl

values-collect-iter_example :
    (pairs : List (Text × ℕ)) × (collect 10 10 (iter services) ≡ some pairs)
    × (map second pairs ≡ collect_values services.root)
values-collect-iter_example = values-collect-iter services 10 services_fits

collect-iter_iff_example :
    (pairs : List (Text × ℕ)) × (collect 10 10 (iter services) ≡ some pairs)
    × ((k : Text) (v : ℕ)
        → Memᴰ {A = Text × ℕ} (k, v) pairs
          ↔ ((path : List Text) × (k ≡ join b'.' path) × (value_at path services.root ≡ some v)))
collect-iter_iff_example =
    collect-iter_iff services 10 services-IsWellFormed services-IsNamed services_fits
