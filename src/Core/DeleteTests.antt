-- ===== src/Core/DeleteTests.antt =====
-- The theorems about `delete` of src/nkv.rs at concrete data.
use nkv.Base.{
  Text, literal, true, false, ◌≡◌, ◌≢◌, refl, none, [], ◌∷◌, if◌then◌else◌, list_eq, number_eq,
}
use nkv.Base.Dict
use nkv.Errors.{ok}
use nkv.Storage.Memory.{memory_storage, memory_view, memory_storage-IsStore}
use nkv.Trie.{has_wildcard, parts_of}
use nkv.Trie.Remove.{matches}
use nkv.Trie.Select.{selects}
use nkv.Core.{get}
use nkv.Core.Delete.{delete}
use nkv.Core.Consistent.{IsConsistent}
use nkv.Core.DeleteLaws.{
  is_trailing, contents-delete, delete-IsConsistent, lookup-get-delete, lookup-get-delete_middle,
}
use nkv.Core.Tests.{code, Q, stored, stored-IsConsistent}

abbrev all_a : Text
all_a = literal "a.*"

abbrev ab : Text
ab = literal "a.b"

deleted_all : (delete memory_storage Q stored all_a).1 ≡ ok tt
unfolding code
deleted_all = refl

trailing_all : is_trailing (has_wildcard all_a) (parts_of all_a) ≡ true
unfolding code has_wildcard is_trailing
trailing_all = refl

contents-delete_example :
    memory_view.contents (delete memory_storage Q stored all_a).0.storage ab ≡ (
      if selects (has_wildcard all_a) (parts_of all_a) (parts_of ab)
      then none
      else memory_view.contents stored.storage ab)
contents-delete_example =
    contents-delete memory_storage-IsStore stored all_a ab stored-IsConsistent deleted_all

delete-IsConsistent_example : IsConsistent memory_view (delete memory_storage Q stored all_a).0
delete-IsConsistent_example =
    delete-IsConsistent memory_storage-IsStore stored all_a stored-IsConsistent trailing_all
      deleted_all

lookup-get-delete_example :
    Dict.lookup ab (get memory_storage Q (delete memory_storage Q stored all_a).0 ab) ≡ (
      if selects (has_wildcard all_a) (parts_of all_a) (parts_of ab)
      then none
      else Dict.lookup ab (get memory_storage Q stored ab))
lookup-get-delete_example =
    lookup-get-delete memory_storage-IsStore stored all_a ab ab stored-IsConsistent trailing_all
      deleted_all

-- "a.*.c" selects "a.b" and does not match its path.
abbrev middle : Text
middle = literal "a.*.c"

deleted_middle : (delete memory_storage Q stored middle).1 ≡ ok tt
unfolding code
deleted_middle = refl

stored_ab : memory_view.contents stored.storage ab ≢ none
unfolding code
stored_ab = λ e. cc

middle_chosen : selects (has_wildcard middle) (parts_of middle) (parts_of ab) ≡ true
unfolding code selects has_wildcard
middle_chosen = refl

middle_mismatch : matches (parts_of middle) (parts_of ab) ≡ false
unfolding code matches
middle_mismatch = refl

lookup-get-delete_middle_example :
    get memory_storage Q (delete memory_storage Q stored middle).0 ab ≡ (ab, []) ∷ []
lookup-get-delete_middle_example =
    lookup-get-delete_middle memory_storage-IsStore stored middle ab stored-IsConsistent
      deleted_middle stored_ab middle_chosen middle_mismatch
