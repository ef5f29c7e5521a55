-- ===== src/Trie/Outcome.antt =====
-- The flag that `remove` of src/trie.rs returns, and the shape of the trie that it leaves.
use nkv.Base.{
  Text, Bool, true, false, ◌&&◌, ◌≡◌, refl, ap, Option, none, some, List, [], ◌∷◌, arith, ◌==◌,
  eq_refl, list_eq, number_eq, Option-cases, Bool-cases, inl, inr,
}
use nkv.Trie.Nodes.{TrieNode, node, Children, nil, cons, child_get, child_set, is_empty}
use nkv.Trie.{
  Trie, wildcard, parts_of, delete_wildcard, delete_child, delete_recursive, remove, is_nil,
}
use nkv.Trie.Lookup.{value_at}
use nkv.Trie.Shape.{
  IsWellFormed, AreWellFormed, IsLive, child_get-AreWellFormed, child_set-AreWellFormed,
  child_remove-AreWellFormed,
}
use nkv.Trie.Sweep.{
  sweep, removed_any, visit_children-sweep, visit_children-removed, child_get-sweep_absent,
}
use nkv.Trie.Remove.{matches, delete_recursive-wildcard, delete_recursive-plain}

module _ {ℓ} {T : Type ℓ} where
  child_set_of_same :
      (key : Text) (child : TrieNode T) (cs : Children T)
      → child_get key cs ≡ some child
      → child_set key child cs ≡ cs
  unfolding child_get child_set
  child_set_of_same key child nil h = cc
  child_set_of_same key child (cons k c cs) h = ground (arith, child_set_of_same key child cs)

  -- What is known of the recursive call.
  abbrev KeepsShape : (TrieNode T → TrieNode T × Bool) → Type ℓ
  KeepsShape f = (n : TrieNode T) → IsWellFormed n → IsWellFormed (f n).0

  abbrev TellsChange : (TrieNode T → TrieNode T × Bool) → Type ℓ
  TellsChange f = (n : TrieNode T) → IsWellFormed n → (f n).1 ≡ false → (f n).0 ≡ n

  module _ (f : TrieNode T → TrieNode T × Bool) (keeps : KeepsShape f) (tells : TellsChange f) where
    live_after :
        (c : TrieNode T)
        → IsLive c
        → ((f c).1 && is_empty (f c).0) ≡ false
        → is_empty (f c).0 ≡ false
    live_after c (full, hc) kept = ground (arith, tells c hc)

    sweep_unchanged :
        (cs : Children T) → AreWellFormed cs → removed_any f cs ≡ false → sweep f cs ≡ cs
    unfolding sweep removed_any
    sweep_unchanged nil h e = refl
    sweep_unchanged (cons k c cs) (fresh, full, hc, hs) e =
        ground (arith, tells c hc, sweep_unchanged cs hs)

    sweep-AreWellFormed : (cs : Children T) → AreWellFormed cs → AreWellFormed (sweep f cs)
    unfolding sweep
    sweep-AreWellFormed nil h = tt
    sweep-AreWellFormed (cons k c cs) (fresh, full, hc, hs) =
        elim (Bool-cases ((f c).1 && is_empty (f c).0)) [
          | inl gone ↦ rw gone (sweep-AreWellFormed cs hs)
          | inr kept ↦ rw kept (
            child_get-sweep_absent f k cs fresh,
            live_after c (full, hc) kept,
            keeps c hc,
            sweep-AreWellFormed cs hs,
          )
        ]

    delete_wildcard_unchanged :
        (rest : List Text) (cs : Children T) (v : Option T)
        → AreWellFormed cs
        → (delete_wildcard f rest cs v).1 ≡ false
        → (delete_wildcard f rest cs v).0 ≡ node cs v
    unfolding delete_wildcard is_nil
    delete_wildcard_unchanged [] nil none h e = refl
    delete_wildcard_unchanged [] nil (some v) h e = cc
    delete_wildcard_unchanged [] (cons k c cs) v h e = cc
    delete_wildcard_unchanged (next ∷ rest) cs v h e =
        rw (visit_children-sweep f cs h, sweep_unchanged cs h (rw visit_children-removed at e))

    delete_wildcard-IsWellFormed :
        (rest : List Text) (cs : Children T) (v : Option T)
        → AreWellFormed cs
        → IsWellFormed (delete_wildcard f rest cs v).0
    unfolding delete_wildcard
    delete_wildcard-IsWellFormed [] cs v h = tt
    delete_wildcard-IsWellFormed (next ∷ rest) cs v h =
        rw (visit_children-sweep f cs h) (sweep-AreWellFormed cs h)

    delete_child_unchanged :
        (part : Text) (cs : Children T) (v : Option T)
        → AreWellFormed cs
        → (delete_child f part cs v).1 ≡ false
        → (delete_child f part cs v).0 ≡ node cs v
    unfolding delete_child
    delete_child_unchanged part cs v h e = elim (Option-cases (child_get part cs)) [
      | inl missing ↦ ground arith
      | inr (c, found) ↦
          ground (
            arith,
            tells c (child_get-AreWellFormed part cs h found).1,
            child_set_of_same part c cs,
          )
    ]

    delete_child-IsWellFormed :
        (part : Text) (cs : Children T) (v : Option T)
        → AreWellFormed cs
        → IsWellFormed (delete_child f part cs v).0
    unfolding delete_child
    delete_child-IsWellFormed part cs v h = elim (Option-cases (child_get part cs)) [
      | inl missing ↦ rw (missing, delete_child) h
      | inr (c, found) ↦
          let live : IsLive c = child_get-AreWellFormed part cs h found in
          rw (found, delete_child)
            (elim (Bool-cases ((f c).1 && is_empty (f c).0)) [
              | inl gone ↦ rw gone (child_remove-AreWellFormed part cs h)
              | inr kept ↦ rw kept (
                  child_set-AreWellFormed part (f c).0 cs (live_after c live kept) (keeps c live.1)
                    h)
            ])
    ]

  step_keeps :
      (part : Text) (rest : List Text)
      → KeepsShape (delete_recursive rest)
      → TellsChange (delete_recursive rest)
      → KeepsShape (delete_recursive (part ∷ rest))
  step_keeps part rest keeps tells (node cs v) h = elim (Bool-cases (part == wildcard)) [
    | inl star ↦
        rw (delete_recursive-wildcard part rest cs v star)
          (delete_wildcard-IsWellFormed (delete_recursive rest) keeps tells rest cs v h)
    | inr plain ↦
        rw (delete_recursive-plain part rest cs v plain)
          (delete_child-IsWellFormed (delete_recursive rest) keeps tells part cs v h)
  ]

  step_tells :
      (part : Text) (rest : List Text)
      → KeepsShape (delete_recursive rest)
      → TellsChange (delete_recursive rest)
      → TellsChange (delete_recursive (part ∷ rest))
  step_tells part rest keeps tells (node cs v) h e = elim (Bool-cases (part == wildcard)) [
    | inl star ↦
        let eq = delete_recursive-wildcard part rest cs v star in
        rw eq
          (delete_wildcard_unchanged (delete_recursive rest) keeps tells rest cs v h (rw eq at e))
    | inr plain ↦
        let eq = delete_recursive-plain part rest cs v plain in
        rw eq (delete_child_unchanged (delete_recursive rest) keeps tells part cs v h (rw eq at e))
  ]

  nil_keeps : KeepsShape (delete_recursive [])
  unfolding delete_recursive
  nil_keeps (node cs v) h = h

  nil_tells : TellsChange (delete_recursive [])
  unfolding delete_recursive
  nil_tells (node cs none) h e = refl
  nil_tells (node cs (some v)) h e = cc

  delete_recursive_shape :
      (pattern : List Text)
      → KeepsShape (delete_recursive pattern) × TellsChange (delete_recursive pattern)
  delete_recursive_shape [] = (nil_keeps, nil_tells)
  delete_recursive_shape (part ∷ rest) =
      let (keeps, tells) = delete_recursive_shape rest in
      (step_keeps part rest keeps tells, step_tells part rest keeps tells)

  -- If remove on a well-formed trie returns false, it has changed nothing.
  pub remove_unchanged :
      (t : Trie T) (key : Text)
      → IsWellFormed t.root
      → (remove t key).1 ≡ false
      → (remove t key).0 ≡ t
  unfolding remove
  remove_unchanged t key h e =
      ap (λ r. record { root = r }) ((delete_recursive_shape (parts_of key)).1 t.root h e)

  -- remove keeps the names of the children distinct and leaves no dead branch.
  pub remove-IsWellFormed :
      (t : Trie T) (key : Text) → IsWellFormed t.root → IsWellFormed (remove t key).0.root
  unfolding remove
  remove-IsWellFormed t key h = (delete_recursive_shape (parts_of key)).0 t.root h

  -- A live node has a value at some path.
  pub valued_path :
      (n : TrieNode T)
      → IsWellFormed n
      → is_empty n ≡ false
      → (path : List Text) × (v : T) × (value_at path n ≡ some v)
  unfolding value_at is_empty child_get
  valued_path (node nil none) h e = cc
  valued_path (node cs (some v)) h e = ([], v, refl)
  valued_path (node (cons k c cs) none) (fresh, full, hc, hs) e =
      let (path, v, found) = valued_path c hc full in (k ∷ path, v, rw (eq_refl k) found)

  -- A path of the node that matches, with its value.
  abbrev Matched : List Text → TrieNode T → Type ℓ
  Matched pattern n =
      (path : List Text) × (v : T) × (matches pattern path ≡ true) × (value_at path n ≡ some v)
