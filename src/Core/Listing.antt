-- ===== src/Core/Listing.antt =====
-- The tree of objects of `NkvCore` (src/nkv.rs) after a key was entered.
use mathlib.Core.Option.{some-injective}
use nkv.Base.{
  Text, false, ◌≡◌, ◌↔◌, ◌⊎◌, sym, ap, some, List, arith, if◌then◌else◌, ◌==◌, eq_iff, list_eq,
  number_eq, Bool-cases, inl, inr,
}
use nkv.Trie
use nkv.Trie.{Trie, has_wildcard, parts_of}
use nkv.Trie.Lookup.{value_at, value_at-insert_node, parts_of-beq}

-- Every object stands at the path of its key, which has no wildcard.
abbrev pub IsListing : Trie Text → Type 0
IsListing objects =
    (path : List Text) (k : Text)
    → value_at path objects.root ≡ some k
    → (path ≡ parts_of k) × (has_wildcard k ≡ false)

module _ (objects : Trie Text) (key : Text) (plain : has_wildcard key ≡ false) where
  pub value_at-entered :
      (path : List Text)
      → value_at path (Trie.insert objects key key).0.root
        ≡ (if parts_of key == path then some key else value_at path objects.root)
  unfolding Trie.insert
  value_at-entered path =
      ground (arith, plain, value_at-insert_node (parts_of key) path key objects.root)

  pub entered-IsListing : IsListing objects → IsListing (Trie.insert objects key key).0
  entered-IsListing h path k e = elim (Bool-cases (parts_of key == path)) [
    | inl same ↦
        let is_key = some-injective key k (rw (value_at-entered path, same) at e) in
        rw (← is_key) (sym ((eq_iff (parts_of key) path).0 same), plain)
    | inr other ↦ h path k (rw (value_at-entered path, other) at e)
  ]

  -- The keys that are listed after `key` was entered.
  pub listed-entered :
      (k : Text)
      → (value_at (parts_of k) (Trie.insert objects key key).0.root ≡ some k)
        ↔ ((key ≡ k) ⊎ (value_at (parts_of k) objects.root ≡ some k))
  listed-entered k =
      rw (value_at-entered (parts_of k), parts_of-beq key k)
        (elim (Bool-cases (key == k)) [
          | inl same ↦
              let is_key = (eq_iff key k).0 same in rw same ((λ _. inl is_key), λ _. ap some is_key)
          | inr other ↦
              rw other (
                (λ e. inr e),
                λ e. elim e [ inl p ↦ cc ((eq_iff key k).1 p) | inr listed ↦ listed ],
              )
        ])
