-- ===== src/Trie/Display.antt =====
-- `Display` of the tries of src/trie.rs: one line for each node, indented by its depth.
use nkv.Base.{ℕ, zero, suc, Text, literal, [], ◌∷◌, ◌++◌}
use nkv.Trie.Nodes.{TrieNode, node, Children, nil, cons}
use nkv.Trie.{Trie}

-- `{:-<indent$}` of the empty text.
abbrev dashes : ℕ → Text
dashes zero = []
dashes (suc n) = b'-' ∷ dashes n

-- What stands before the dashes of a node below the root.
abbrev rail : ℕ → Text
rail zero = []
rail (suc n) = dashes n ++ literal "|"

module _ {ℓ} {T : Type ℓ} where
  unfoldable mutual
    pub fmt_with_indent : TrieNode T → Text → ℕ → Text
    fmt_with_indent (node cs _) key level =
        rail level
        ++ dashes level
        ++ literal "-> "
        ++ key
        ++ b'\n' ∷ []
        ++ fmt_children cs (suc level)

    pub fmt_children : Children T → ℕ → Text
    fmt_children nil level = []
    fmt_children (cons k v cs) level = fmt_with_indent v k level ++ fmt_children cs level

  unfoldable pub fmt : Trie T → Text
  unfolding fmt_with_indent
  fmt t = fmt_with_indent t.root (literal "*") 0
