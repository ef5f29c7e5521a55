-- ===== src/Protocol/Marshal.antt =====
-- The texts of `Marshalable` in src/request_msg.rs as sequences of words, and what `unmarshal`
-- makes of the words.
use nkv.Base.{
  Text, true, ◌≡◌, ◌≢◌, refl, ap, sym, ◌∙◌, List, [], ◌∷◌, ◌++◌, All, join, list_eq, number_eq,
  append-nil, append_assoc,
}
use nkv.Base.Dict
use nkv.Errors.{ok}
use nkv.Storage.{Bytes}
use nkv.Protocol.Words.{
  split_whitespace, split_blank, IsWord, split_whitespace-append, split_whitespace_of_IsWord,
}
use nkv.Protocol.Base64.{Base64}
use nkv.Protocol.Response.{marshal_names, marshal_map, insert_pairs, is_even, unmarshal_map}
use nkv.Protocol.NoticeLaws.{encode-IsWord}

pub split_whitespace-marshal_names :
    (word : Text) (words : List Text)
    → IsWord word
    → All IsWord words
    → split_whitespace (word ++ marshal_names words) ≡ word ∷ words
unfolding marshal_names
split_whitespace-marshal_names word [] h hs =
    rw (append-nil word) (split_whitespace_of_IsWord word h)
split_whitespace-marshal_names word (next ∷ words) h hs =
    rw
      (
        split_whitespace-append word (next ++ marshal_names words) h,
        split_whitespace-marshal_names next words hs.0 hs.1,
      )
      refl

join-marshal_names :
    (word : Text) (words : List Text) → join b' ' (word ∷ words) ≡ word ++ marshal_names words
unfolding join marshal_names
join-marshal_names word [] = sym (append-nil word)
join-marshal_names word (next ∷ words) = rw (join-marshal_names next words) refl

pub split_whitespace-join :
    (words : List Text) → All IsWord words → split_whitespace (join b' ' words) ≡ words
split_whitespace-join [] h = unfold split_whitespace split_blank join in refl
split_whitespace-join (word ∷ words) h =
    rw (join-marshal_names word words) (split_whitespace-marshal_names word words h.0 h.1)

-- Every key is one word, and every value has data.
abbrev pub IsSendableEntry : Text × Bytes → Type 0
IsSendableEntry entry = IsWord entry.0 × (entry.1 ≢ [])

module _ (B : Base64) where
  unfoldable pub entry_words : Dict.Dict Text Bytes → List Text
  entry_words [] = []
  entry_words ((key, val) ∷ entries) = key ∷ B.encode val ∷ entry_words entries

  pub marshal_map-entry_words :
      (entries : Dict.Dict Text Bytes) → marshal_map B entries ≡ marshal_names (entry_words entries)
  unfolding marshal_map marshal_names entry_words
  marshal_map-entry_words [] = refl
  marshal_map-entry_words ((key, val) ∷ entries) = rw (marshal_map-entry_words entries) refl

  pub entry_words-All :
      (entries : Dict.Dict Text Bytes)
      → All IsSendableEntry entries
      → All IsWord (entry_words entries)
  unfolding entry_words
  entry_words-All [] h = tt
  entry_words-All ((key, val) ∷ entries) ((word, given), hs) =
      (word, (encode-IsWord B val given, entry_words-All entries hs))

  is_even-entry_words : (entries : Dict.Dict Text Bytes) → is_even (entry_words entries) ≡ true
  unfolding is_even entry_words
  is_even-entry_words [] = refl
  is_even-entry_words ((key, val) ∷ entries) = is_even-entry_words entries

  insert_pairs-pair :
      (key : Text) (val : Bytes) (words : List Text) (found : Dict.Dict Text Bytes)
      → insert_pairs B (key ∷ B.encode val ∷ words) found
        ≡ insert_pairs B words (Dict.insert key val found)
  unfolding insert_pairs
  insert_pairs-pair key val words found = rw (B.decode-encode val, insert_pairs) refl

  insert_pairs-entry_words :
      (entries found : Dict.Dict Text Bytes)
      → Dict.NodupKeys (found ++ entries)
      → insert_pairs B (entry_words entries) found ≡ ok (found ++ entries)
  unfolding insert_pairs entry_words
  insert_pairs-entry_words [] found h = ap ok (sym (append-nil found))
  insert_pairs-entry_words ((key, val) ∷ entries) found h =
      let later = append_assoc found ((key, val) ∷ []) entries in
      insert_pairs-pair key val (entry_words entries) found
      ∙ ap (insert_pairs B (entry_words entries)) (Dict.insert-append found entries key val h)
      ∙ insert_pairs-entry_words entries (found ++ (key, val) ∷ []) (rw later h)
      ∙ ap ok later

  -- The words of the entries give the map back.
  pub unmarshal_map-entry_words :
      (entries : Dict.Dict Text Bytes)
      → Dict.NodupKeys entries
      → All IsSendableEntry entries
      → unmarshal_map B (join b' ' (entry_words entries)) ≡ ok entries
  unfolding unmarshal_map
  unmarshal_map-entry_words entries h hs =
      rw
        (
          split_whitespace-join (entry_words entries) (entry_words-All entries hs),
          is_even-entry_words entries,
        )
        (insert_pairs-entry_words entries [] h)
