-- ===== src/Protocol/ResponseLine.antt =====
-- The line of a response as the client of src/lib.rs reads it: `trim_end` cuts the newline only.
use nkv.Base.{Text, literal, ◌≡◌, refl, ap, sym, List, [], ◌∷◌, ◌++◌, All, append-nil}
use nkv.Errors.{ok}
use nkv.Protocol.Words.{IsWord}
use nkv.Protocol.Trim.{
  newline, trim_end, trim_end-newline, IsTrimmed, word-IsTrimmed, append-IsTrimmed,
}
use nkv.Protocol.Base64.{Base64}
use nkv.Protocol.Response.{
  print_base, Marshalable, map_data, marshal_names, names_data, text_data, DataResp, print_data,
  ServerResponse, base, map_response, trace, version, print_response, parse_response,
}
use nkv.Protocol.Marshal.{entry_words, marshal_map-entry_words, entry_words-All}
use nkv.Protocol.ResponseLaws.{
  status_text, status_text-IsWord, print_data-marshal_names, IsSendableResponse,
  parse_response-print_response,
}

marshal_names-IsTrimmed :
    (word : Text) (words : List Text)
    → IsWord word
    → All IsWord words
    → IsTrimmed newline (marshal_names (word ∷ words))
unfolding marshal_names
marshal_names-IsTrimmed word [] h hs =
    rw (append-nil word)
      (append-IsTrimmed newline (b' ' ∷ []) word (word-IsTrimmed newline trim_end-newline word h))
marshal_names-IsTrimmed word (next ∷ words) h hs =
    append-IsTrimmed newline (b' ' ∷ word) (marshal_names (next ∷ words))
      (marshal_names-IsTrimmed next words hs.0 hs.1)

print_data-IsTrimmed :
    {T : Type 0} (M : Marshalable T) (r : DataResp T) (words : List Text)
    → All IsWord words
    → M.marshal r.content ≡ marshal_names words
    → IsTrimmed newline (print_data M r)
print_data-IsTrimmed M r words all spaced = rw (print_data-marshal_names M r words spaced) (
    append-IsTrimmed newline r.base.id (marshal_names (status_text r.base.status ∷ words)) (
      marshal_names-IsTrimmed (status_text r.base.status) words (status_text-IsWord r.base.status)
        all))

module _ (B : Base64) where
  print_response-IsTrimmed :
      (r : ServerResponse) → IsSendableResponse r → IsTrimmed newline (print_response B r)
  unfolding print_response print_base marshal_names
  print_response-IsTrimmed (base r) h =
      let status = status_text r.status in
      append-IsTrimmed newline (literal "base ") (print_base r) (
        append-IsTrimmed newline r.id (b' ' ∷ status) (
          append-IsTrimmed newline (b' ' ∷ []) status
            (word-IsTrimmed newline trim_end-newline status (status_text-IsWord r.status))))
  print_response-IsTrimmed (map_response r) (_, _, entries) =
      append-IsTrimmed newline (literal "data ") (print_data (map_data B) r) (
        print_data-IsTrimmed (map_data B) r (entry_words B r.content)
          (entry_words-All B r.content entries) (marshal_map-entry_words B r.content))
  print_response-IsTrimmed (trace r) (_, names) =
      append-IsTrimmed newline (literal "trace ") (print_data names_data r)
        (print_data-IsTrimmed names_data r r.content names refl)
  print_response-IsTrimmed (version r) (_, text) =
      append-IsTrimmed newline (literal "version ") (print_data text_data r) (
        print_data-IsTrimmed text_data r (r.content ∷ []) (text, tt)
          (ap (λ s. b' ' ∷ s) (sym (append-nil r.content))))

  -- The client reads the response that the server prints.
  pub parse_response-line :
      (r : ServerResponse)
      → IsSendableResponse r
      → parse_response B (trim_end (print_response B r ++ newline)) ≡ ok r
  parse_response-line r h =
      rw (print_response-IsTrimmed r h).0 (parse_response-print_response B r h)
