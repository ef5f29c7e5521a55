-- ===== src/Trie/IterLaws.antt =====
-- What `TrieIter` of src/trie.rs yields, and the fuel that is enough for it.
use mathlib.Core.List.{map-append}
use nkv.Base.{
  ℕ, zero, suc, ◌+◌, ◌<◌, Text, ◌≡◌, refl, sym, ap, ◌∙◌, List, [], ◌∷◌, ◌++◌, Option, none, some,
  map, arith, append_assoc, append-nil,
}
use nkv.Trie.Nodes.{TrieNode, node, Children, nil, cons}
use nkv.Trie.{Trie, value_list, collect_values, collect_children}
use nkv.Trie.Iter.{
  new_path, Stack, Next, finished, item, iter_children, rev_append, push_children, next, iter,
  collect,
}

module _ {ℓ} {T : Type ℓ} where
  -- The number of nodes.
  unfoldable mutual
    pub size : TrieNode T → ℕ
    size (node cs _) = suc (sizes cs)

    pub sizes : Children T → ℕ
    sizes nil = 0
    sizes (cons _ child cs) = size child + sizes cs

  -- The pairs that belong to a node whose key is `path`, a node before its children.
  unfoldable mutual
    pub node_pairs : Text → TrieNode T → List (Text × T)
    node_pairs path (node cs v) = map (λ w. (path, w)) (value_list v) ++ children_pairs path cs

    pub children_pairs : Text → Children T → List (Text × T)
    children_pairs path nil = []
    children_pairs path (cons ch child cs) =
        node_pairs (new_path path ch) child ++ children_pairs path cs

  unfoldable stack_size : Stack T → ℕ
  unfolding size
  stack_size [] = 0
  stack_size ((n, _) ∷ stack) = size n + stack_size stack

  unfoldable stack_pairs : Stack T → List (Text × T)
  unfolding node_pairs
  stack_pairs [] = []
  stack_pairs ((n, path) ∷ stack) = node_pairs path n ++ stack_pairs stack

  -- The children on a stack, the first one on top.
  unfoldable entries : Text → List (Text × TrieNode T) → Stack T → Stack T
  entries path [] stack = stack
  entries path ((ch, child) ∷ es) stack = (child, new_path path ch) ∷ entries path es stack

  push_children-rev_append :
      (path : Text) (es done : List (Text × TrieNode T)) (stack : Stack T)
      → push_children path (rev_append es done) stack
        ≡ push_children path done (entries path es stack)
  unfolding push_children entries
  push_children-rev_append path [] done stack = refl
  push_children-rev_append path (e ∷ es) done stack =
      push_children-rev_append path es (e ∷ done) stack

  entries-size :
      (path : Text) (cs : Children T) (stack : Stack T)
      → stack_size (entries path (iter_children cs) stack) ≡ sizes cs + stack_size stack
  unfolding entries stack_size size
  entries-size path nil stack = omega arith
  entries-size path (cons ch child cs) stack = omega (arith, entries-size path cs stack)

  entries-pairs :
      (path : Text) (cs : Children T) (stack : Stack T)
      → stack_pairs (entries path (iter_children cs) stack)
        ≡ children_pairs path cs ++ stack_pairs stack
  unfolding entries stack_pairs node_pairs
  entries-pairs path nil stack = refl
  entries-pairs path (cons ch child cs) stack = rw (entries-pairs path cs stack) (
      sym (
        append_assoc (node_pairs (new_path path ch) child) (children_pairs path cs)
          (stack_pairs stack)))

  -- What a call of `next` promises of a stack.
  data IsNext (stack : Stack T) : Next T → Type ℓ where
    ends : stack_pairs stack ≡ [] → IsNext stack finished
    yields :
        {key : Text} {v : T} {stack' : Stack T}
        → stack_pairs stack ≡ (key, v) ∷ stack_pairs stack'
        → stack_size stack' < stack_size stack
        → IsNext stack (item key v stack')

  -- The stack after the top was taken off and its children were pushed.
  abbrev after : Text → Children T → Stack T → Stack T
  after path cs stack = push_children path (rev_append (iter_children cs) []) stack

  after-size :
      (path : Text) (cs : Children T) (stack : Stack T)
      → stack_size (after path cs stack) ≡ sizes cs + stack_size stack
  unfolding push_children
  after-size path cs stack =
      rw (push_children-rev_append path (iter_children cs) [] stack) (entries-size path cs stack)

  after-pairs :
      (path : Text) (cs : Children T) (stack : Stack T)
      → stack_pairs (after path cs stack) ≡ children_pairs path cs ++ stack_pairs stack
  unfolding push_children
  after-pairs path cs stack =
      rw (push_children-rev_append path (iter_children cs) [] stack) (entries-pairs path cs stack)

  IsNext-after :
      (path : Text) (cs : Children T) (stack : Stack T) (out : Next T)
      → IsNext (after path cs stack) out
      → IsNext ((node cs none, path) ∷ stack) out
  unfolding stack_size stack_pairs node_pairs size
  IsNext-after path cs stack _ (ends empty) = ends (sym (after-pairs path cs stack) ∙ empty)
  IsNext-after path cs stack _ (yields pairs smaller) =
      yields (sym (after-pairs path cs stack) ∙ pairs)
        (omega (arith, smaller, after-size path cs stack))

  -- With fuel for more than the nodes on the stack, `next` ends.
  next-IsNext :
      (fuel : ℕ) (stack : Stack T) → stack_size stack < fuel → IsNext stack (next fuel stack)
  unfolding next stack_size stack_pairs node_pairs size
  next-IsNext zero stack h = absurd (omega (arith, h))
  next-IsNext (suc fuel) [] h = ends refl
  next-IsNext (suc fuel) ((node cs (some v), path) ∷ stack) h =
      yields (ap (λ ps. (path, v) ∷ ps) (sym (after-pairs path cs stack)))
        (omega (arith, after-size path cs stack))
  next-IsNext (suc fuel) ((node cs none, path) ∷ stack) h =
      IsNext-after path cs stack (next fuel (after path cs stack))
        (next-IsNext fuel (after path cs stack) (omega (arith, h, after-size path cs stack)))

  collect_step :
      (fuel rounds : ℕ) (stack : Stack T) (out : Next T)
      → next fuel stack ≡ out
      → IsNext stack out
      → ((stack' : Stack T)
          → stack_size stack' < stack_size stack
          → collect fuel rounds stack' ≡ some (stack_pairs stack'))
      → collect fuel (suc rounds) stack ≡ some (stack_pairs stack)
  unfolding collect
  collect_step fuel rounds stack _ e (ends empty) later = rw (e, empty, collect) refl
  collect_step fuel rounds stack _ e (yields {stack'} pairs smaller) later =
      rw (e, later stack' smaller, pairs, collect) refl

  collect_enough :
      (fuel rounds : ℕ) (stack : Stack T)
      → stack_size stack < fuel
      → stack_size stack < rounds
      → collect fuel rounds stack ≡ some (stack_pairs stack)
  collect_enough fuel zero stack h r = absurd (omega (arith, r))
  collect_enough fuel (suc rounds) stack h r =
      collect_step fuel rounds stack (next fuel stack) refl (next-IsNext fuel stack h)
        (λ stack' smaller.
          collect_enough fuel rounds stack' (omega (arith, smaller, h)) (omega (arith, smaller, r)))

  -- The pairs that iteration yields.
  pub collect-iter :
      (t : Trie T) (fuel : ℕ)
      → size t.root < fuel
      → collect fuel fuel (iter t) ≡ some (node_pairs [] t.root)
  unfolding iter stack_size stack_pairs
  collect-iter t fuel h =
      collect_enough fuel fuel (iter t) (omega (arith, h)) (omega (arith, h))
      ∙ ap some (append-nil (node_pairs [] t.root))

  abbrev pub second : Text × T → T
  second (_, v) = v

  map_pair :
      (path : Text) (o : Option T) → map second (map (λ w. (path, w)) (value_list o)) ≡ value_list o
  map_pair path none = refl
  map_pair path (some v) = refl

  mutual
    unfolding node_pairs collect_values

    node_pairs_values :
        (path : Text) (n : TrieNode T) → map second (node_pairs path n) ≡ collect_values n
    node_pairs_values path (node cs v) =
        rw
          (
            map-append second (map (λ w. (path, w)) (value_list v)) (children_pairs path cs),
            map_pair path v,
            children_pairs_values path cs,
          )
          refl

    children_pairs_values :
        (path : Text) (cs : Children T) → map second (children_pairs path cs) ≡ collect_children cs
    children_pairs_values path nil = refl
    children_pairs_values path (cons ch child cs) =
        rw
          (
            map-append second (node_pairs (new_path path ch) child) (children_pairs path cs),
            node_pairs_values (new_path path ch) child,
            children_pairs_values path cs,
          )
          refl

  -- Iteration over a trie ends, with fuel for more than its nodes, and yields the values in the
  -- order in which collect_values lists them.
  pub values-collect-iter :
      (t : Trie T) (fuel : ℕ)
      → size t.root < fuel
      → (pairs : List (Text × T)) × (collect fuel fuel (iter t) ≡ some pairs)
        × (map second pairs ≡ collect_values t.root)
  values-collect-iter t fuel h =
      (node_pairs [] t.root, collect-iter t fuel h, node_pairs_values [] t.root)
