-- ===== src/ClientProgram/Tests.antt =====
-- Runs of the commands of src/client/main.rs, and the theorems about them at concrete values.
use nkv.Base.{
  Text, literal, false, none, some, [], ◌∷◌, ◌≡◌, ◌≢◌, ◌++◌, refl, arith, list_beq, list_eq,
  number_eq, contains_char, ◌==◌, ◌&&◌, ◌+◌, leb, ltb, if◌then◌else◌,
}
use nkv.Base.Utf8.{as_bytes}
use nkv.Base.Format.{line, Unicode, quote, decimal}
use nkv.Base.Dict.{Dict, NodupKeys, lookup}
use nkv.Errors.{ok}
use nkv.Storage.{Bytes}
use nkv.Storage.Memory.{memory_storage, memory_storage-IsStore}
use nkv.Core.Tests.{Q, is_match, accepts_ab, code}
use nkv.Protocol.Tests.{shifted}
use nkv.Client.{uuid}
use nkv.Client.Wire.{served}
use nkv.Client.Tests.{start, client, a_b-IsWord}
use nkv.Trie
use nkv.Trie.Display.{fmt}
use nkv.Trie.Tests.{trie_code}
use nkv.Trie.{has_wildcard, value_list}
use nkv.ClientProgram.{Json, handle_command, tree_of}
use nkv.ClientProgram.Session.{handle_command-get-put}
use nkv.ClientProgram.Tree.{get-tree_of}
use nkv.Protocol.Words.{split_whitespace, split_blank, is_whitespace}
use nkv.ClientProgram.{run_command}
use nkv.ClientProgram.Start.{
  prompt, entered, interrupted, read_args, show_version, read_args-ne-show_version,
}

-- ASCII letters in lower case; ASCII is plain.
abbrev lower : Text → Text
lower [] = []
lower (c ∷ s) = (if leb 65 c && leb c 90 then c + 32 else c) ∷ lower s

abbrev ascii : Unicode
ascii = record { is_plain = λ c. leb 32 c && ltb c 127; to_lowercase = lower }

-- Only the text `{}` is JSON.
abbrev braces : Json
braces = record {
  Value = Unit;
  from_str = λ s. if s == literal "{}" then some tt else none;
  to_string_pretty = λ _. some (literal "{}");
}

abbrev value : Text
value = literal "v"

not_json : braces.from_str value ≡ none
unfolding list_beq
not_json = refl

stored_v : (memory_storage.put start.nkv.storage (literal "a.b") (as_bytes value)).1 ≡ ok tt
unfolding code as_bytes
stored_v = refl

handle_command-get-put_example :
    (let N = served memory_storage Q is_match shifted in
      let done =
        handle_command N shifted ascii braces client start []
          (literal "1ms")
          (literal "PUT" ∷ literal "a.b" ∷ value ∷ []) in
      let got =
        handle_command N shifted ascii braces done.client done.network []
          (literal "2ms")
          (literal "get" ∷ literal "a.b" ∷ []) in
      (got.quits ≡ some false)
      × (got.printed
          ≡ line (literal "Request took: 2ms")
            ++ (line (uuid [] ++ literal " OK") ++ line (literal "a.b v\n"))))
handle_command-get-put_example =
    handle_command-get-put memory_storage-IsStore is_match shifted ascii braces client start
      (literal "PUT") (literal "get") (literal "a.b") value [] [] (literal "1ms") (literal "2ms")
      refl refl accepts_ab refl stored_v (λ e. cc) (refl, tt) not_json a_b-IsWord (ground arith) tt
      tt

abbrev entries : Dict Text Bytes
entries = (literal "a.b", 1 ∷ []) ∷ (literal "a", 2 ∷ []) ∷ []

distinct : NodupKeys entries
unfolding lookup list_beq
distinct = (refl, (refl, tt))

plain : has_wildcard (literal "a.b") ≡ false
unfolding has_wildcard contains_char
plain = refl

get-tree_of_example :
    Trie.get (tree_of entries (Trie.new {T = Bytes})) (literal "a.b")
    ≡ value_list (lookup (literal "a.b") entries)
get-tree_of_example = get-tree_of entries (literal "a.b") distinct plain

-- TREE prints one line for each part.
tree_printed : fmt (tree_of entries (Trie.new {T = Bytes})) ≡ literal "-> *\n|--> a\n-|---> b\n"
unfolding trie_code fmt tree_of
tree_printed = refl

-- A control character and a quote are escaped, and a letter beyond the table is a number.
quoted : quote ascii (b'a' ∷ b'\n' ∷ 34 ∷ 233 ∷ []) ≡ literal "\"a\\n\\\"\\u{e9}\""
unfolding quote
quoted = refl

counted : decimal 1024 ≡ literal "1024"
unfolding decimal
counted = refl

-- The flag is refused.
read_args-ne-show_version_example :
    read_args (literal "nkv" ∷ literal "--version" ∷ []) ≢ show_version
read_args-ne-show_version_example =
    read_args-ne-show_version (literal "nkv" ∷ literal "--version" ∷ [])

-- The prompt ends with quit, and what comes behind it is not run.
prompt_quits :
    (prompt (served memory_storage Q is_match shifted) shifted ascii braces client start (
      entered (literal " nope ") [] []
      ∷ interrupted
      ∷ entered (literal "QUIT") [] []
      ∷ entered (literal "help") [] []
      ∷ [])).printed
    ≡ line (literal "Unknown command")
unfolding prompt handle_command run_command list_beq split_whitespace split_blank is_whitespace
prompt_quits = refl
