-- ===== src/Trie/Sweep.antt =====
-- The loops of `delete_recursive` over the children at a wildcard in the middle of a key. The
-- code first visits all children, and then removes the listed ones; on distinct names that is one
-- sweep, which is what the other proofs follow.
use nkv.Base.{
  Text, Bool, false, ◌&&◌, ◌||◌, ◌≡◌, ◌≢◌, refl, none, List, [], ◌∷◌, arith, if◌then◌else◌, eq_iff,
  eq_refl, list_eq, number_eq, All,
}
use nkv.Trie.Nodes.{
  TrieNode, Children, nil, cons, child_get, child_remove, remove_children, is_empty,
}
use nkv.Trie.{visit_children}
use nkv.Trie.Shape.{AreWellFormed}

abbrev Lacks : Text → List Text → Type 0
Lacks key = All (λ k. k ≢ key)

module _ {ℓ} {T : Type ℓ} where
  child_remove_of_absent :
      (key : Text) (cs : Children T) → child_get key cs ≡ none → child_remove key cs ≡ cs
  unfolding child_get child_remove
  child_remove_of_absent key nil h = refl
  child_remove_of_absent key (cons k c cs) h = ground (arith, child_remove_of_absent key cs)

  remove_children-cons :
      (ks : List Text) (key : Text) (c : TrieNode T) (cs : Children T)
      → Lacks key ks
      → remove_children ks (cons key c cs) ≡ cons key c (remove_children ks cs)
  unfolding remove_children child_remove
  remove_children-cons [] key c cs h = refl
  remove_children-cons (k ∷ ks) key c cs (h, hs) =
      ground (arith, eq_iff key k, remove_children-cons ks key c (child_remove k cs) hs)

module _ {ℓ} {T : Type ℓ} (f : TrieNode T → TrieNode T × Bool) where
  unfoldable pub sweep : Children T → Children T
  sweep nil = nil
  sweep (cons key child cs) =
      let rest = sweep cs in
      if (f child).1 && is_empty (f child).0 then rest else cons key (f child).0 rest

  unfoldable pub removed_any : Children T → Bool
  removed_any nil = false
  removed_any (cons key child cs) = (f child).1 || removed_any cs

  pub child_get-sweep_absent :
      (name : Text) (cs : Children T) → child_get name cs ≡ none → child_get name (sweep cs) ≡ none
  unfolding sweep child_get
  child_get-sweep_absent name nil h = refl
  child_get-sweep_absent name (cons k c cs) h = ground (arith, child_get-sweep_absent name cs)

  pub visit_children-removed : (cs : Children T) → (visit_children f cs).2 ≡ removed_any cs
  unfolding visit_children removed_any
  visit_children-removed nil = refl
  visit_children-removed (cons key child cs) = rw (visit_children-removed cs)

  visit_children-Lacks :
      (key : Text) (cs : Children T)
      → child_get key cs ≡ none
      → (child_get key (visit_children f cs).0 ≡ none) × Lacks key (visit_children f cs).1
  unfolding visit_children child_get
  visit_children-Lacks key nil h = (refl, tt)
  visit_children-Lacks key (cons k c cs) h =
      ground (arith, eq_iff k key, visit_children-Lacks key cs)

  pub visit_children-sweep :
      (cs : Children T)
      → AreWellFormed cs
      → remove_children (visit_children f cs).1 (visit_children f cs).0 ≡ sweep cs
  unfolding visit_children sweep remove_children child_remove
  visit_children-sweep nil h = refl
  visit_children-sweep (cons k c cs) (fresh, full, hc, hs) =
      let cs' = (visit_children f cs).0 in
      let ks = (visit_children f cs).1 in
      let (gone, lacks) = visit_children-Lacks k cs fresh in
      ground (
        arith,
        eq_refl k,
        child_remove_of_absent k cs' gone,
        remove_children-cons ks k (f c).0 cs' lacks,
        visit_children-sweep cs hs,
      )
