-- ===== src/Protocol/EmptyValue.antt =====
-- A GET response that carries a key with empty data (src/request_msg.rs): the text has a word for
-- the key and none for the data.
use nkv.Base.{
  Text, literal, ◌≡◌, refl, ap, ◌∙◌, [], ◌∷◌, ◌++◌, arith, join, list_beq, append_assoc, list_eq,
  number_eq,
}
use nkv.Base.Dict
use nkv.Errors.{ok, err, invalid_input, ◌>>=◌}
use nkv.Storage.{Bytes}
use nkv.Protocol.{failed}
use nkv.Protocol.Words.{
  IsWord, is_whitespace, split_whitespace, split_blank, split_whitespace-append,
  split_whitespace_of_IsWord,
}
use nkv.Protocol.Base64.{Base64}
use nkv.Protocol.Response.{
  BaseResp, map_data, marshal_map, DataResp, print_base, print_data, parse_data, map_response,
  print_response, parse_kind, parse_response, unmarshal_map, is_even,
}
use nkv.Protocol.ResponseLaws.{
  status_text, status_text-IsWord, parse_head-status_text, parse_kind_of_text,
}

-- The response that holds one key, with empty data.
abbrev pub empty_value : BaseResp → Text → DataResp (Dict.Dict Text Bytes)
empty_value r key = record { base = r; content = (key, []) ∷ [] }

module _ (B : Base64) where
  print_data-empty_value :
      (r : BaseResp) (key : Text)
      → print_data (map_data B) (empty_value r key)
        ≡ r.id ++ b' ' ∷ (status_text r.status ++ b' ' ∷ (key ++ b' ' ∷ []))
  unfolding print_data print_base marshal_map
  print_data-empty_value r key =
      rw B.encode_nil (append_assoc r.id (b' ' ∷ status_text r.status) (b' ' ∷ (key ++ b' ' ∷ [])))

  unmarshal_map-lone : (key : Text) → IsWord key → unmarshal_map B key ≡ err (failed invalid_input)
  unfolding unmarshal_map is_even
  unmarshal_map-lone key word = rw (unmarshal_map, split_whitespace_of_IsWord key word) refl

  parse_data-empty_value :
      (r : BaseResp) (key : Text)
      → IsWord r.id
      → IsWord key
      → parse_data (map_data B) (print_data (map_data B) (empty_value r key))
        ≡ err (failed invalid_input)
  unfolding parse_data
  parse_data-empty_value r key id word =
      ap (parse_data (map_data B)) (print_data-empty_value r key)
      ∙ rw
          (
            parse_data,
            split_whitespace-append r.id (status_text r.status ++ b' ' ∷ (key ++ b' ' ∷ [])) id,
            split_whitespace-append (status_text r.status) (key ++ b' ' ∷ [])
                (status_text-IsWord r.status),
            split_whitespace-append key [] word,
            parse_head-status_text r (key ∷ split_whitespace []),
          )
          (unfold join split_whitespace split_blank in rw (unmarshal_map-lone key word) refl)

  -- The parser refuses the text of a GET response that holds one key with empty data, if the id
  -- and the key are words.
  pub parse_response-empty_value :
      (r : BaseResp) (key : Text)
      → IsWord r.id
      → IsWord key
      → parse_response B (print_response B (map_response (empty_value r key)))
        ≡ err (failed invalid_input)
  unfolding print_response parse_kind list_beq is_whitespace
  parse_response-empty_value r key id word =
      parse_kind_of_text B (literal "data") r.id
        (b' ' ∷ (status_text r.status ++ b' ' ∷ (key ++ b' ' ∷ [])))
        (print_data (map_data B) (empty_value r key)) (ground arith) id
        (print_data-empty_value r key)
      ∙ ap (λ p. p >>= (λ read. ok (map_response read))) (parse_data-empty_value r key id word)
