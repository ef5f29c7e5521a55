-- ===== src/Protocol/Tests.antt =====
-- Runs of the printers and parsers of src/request_msg.rs over a small encoding of bytes, and the
-- theorems about them at concrete inputs.
use nkv.Base.{
  ◌+◌, ◌-◌, Text, literal, true, ◌≡◌, ◌↔◌, refl, Option, none, some, [], ◌∷◌, arith, ltb,
  if◌then◌else◌, list_beq, join,
}
use nkv.Base.Dict
use nkv.Errors.{ok, err, missing, unknown_command, invalid_input}
use nkv.Storage.{Bytes}
use nkv.Message.{update}
use nkv.Protocol.{failed, panic}
use nkv.Protocol.Words.{IsWord, IsSolid, is_whitespace, splitn}
use nkv.Protocol.Base64.{Base64}
use nkv.Protocol.Request
use nkv.Protocol.RequestLaws.{
  parse_request-print_request, parse_request-panic_iff, IsPlainRequest, received, IsBadPut,
}
use nkv.Protocol.Response
use nkv.Protocol.Response.{BaseResp, base, map_response, print_response, parse_response}
use nkv.Protocol.ResponseLaws.{IsSendableResponse, parse_response-print_response}
use nkv.Protocol.EmptyValue.{empty_value, parse_response-empty_value}
use nkv.Protocol.Notice.{print_message, parse_message}
use nkv.Protocol.NoticeLaws.{IsSendable, parse_message-print_message}

-- Every byte as one character behind the last whitespace character of Unicode.
unfoldable pub shift : Bytes → Text
shift [] = []
shift (b ∷ bytes) = (b + 12289) ∷ shift bytes

unfoldable pub unshift : Text → Option Bytes
unshift [] = some []
unshift (x ∷ s) = elim (unshift s) [
  | none ↦ none
  | some bytes ↦ if ltb x 12289 then none else some ((x - 12289) ∷ bytes)
]

pub unshift-shift : (bytes : Bytes) → unshift (shift bytes) ≡ some bytes
unfolding shift unshift
unshift-shift [] = refl
unshift-shift (b ∷ bytes) = ground (arith, unshift-shift bytes)

pub shift-IsSolid : (bytes : Bytes) → IsSolid (shift bytes)
unfolding shift is_whitespace
shift-IsSolid [] = tt
shift-IsSolid (b ∷ bytes) = (ground arith, shift-IsSolid bytes)

pub shift_nil : shift [] ≡ []
unfolding shift
shift_nil = refl

abbrev pub shifted : Base64
shifted = record {
  encode = shift;
  decode = unshift;
  decode-encode = unshift-shift;
  encode_nil = shift_nil;
  encode-IsSolid = shift-IsSolid;
}

abbrev plain : Request.BaseMessage
plain = record { id = literal "7"; key = literal "a.b"; client_uuid = literal "uuid" }

abbrev put_ab : Request.ServerRequest
put_ab = Request.put (record { base = plain; value = 1 ∷ 2 ∷ [] })

put_ab_text : Request.print_request shifted put_ab ≡ literal "PUT 7 uuid a.b 。〃"
unfolding Request.print_request shift join
put_ab_text = refl

get_short :
    Request.parse_request shifted (literal "GET 7") ≡ err (failed (missing (literal "client-uuid")))
unfolding Request.parse_request Request.parse_parts splitn
get_short = refl

get_unknown : Request.parse_request shifted (literal "PING 7 u k") ≡ err (failed unknown_command)
unfolding Request.parse_request Request.parse_parts Request.parse_command splitn list_beq
get_unknown = refl

-- A blank in a key cuts it.
get_blank_key :
    Request.parse_request shifted (literal "GET 7 uuid a b")
    ≡ ok (Request.get (record plain { key = literal "a" }))
unfolding Request.parse_request Request.parse_parts Request.parse_command splitn list_beq
get_blank_key = refl

put_ab-IsPlainRequest : IsPlainRequest put_ab
put_ab-IsPlainRequest = ground arith

parse_request-print_request_example :
    Request.parse_request shifted (Request.print_request shifted put_ab) ≡ ok (received put_ab)
parse_request-print_request_example =
    parse_request-print_request shifted put_ab put_ab-IsPlainRequest

parse_request-panic_iff_example :
    (Request.parse_request shifted (literal "PUT 7 uuid a !") ≡ err panic)
    ↔ IsBadPut shifted (splitn 5 b' ' (literal "PUT 7 uuid a !"))
parse_request-panic_iff_example = parse_request-panic_iff shifted (literal "PUT 7 uuid a !")

bad_put_panics : Request.parse_request shifted (literal "PUT 7 uuid a !") ≡ err panic
unfolding Request.parse_request Request.parse_parts Request.parse_command Request.parse_put
    Request.decode_value splitn list_beq unshift
bad_put_panics = refl

abbrev head : BaseResp
head = record { id = literal "7"; status = true }

abbrev two_values : Response.ServerResponse
two_values =
    map_response
      (record { base = head; content = (literal "a", 1 ∷ []) ∷ (literal "b", 2 ∷ 3 ∷ []) ∷ [] })

two_values-IsSendableResponse : IsSendableResponse two_values
unfolding is_whitespace Dict.lookup list_beq
two_values-IsSendableResponse = ground arith

parse_response-print_response_example :
    parse_response shifted (print_response shifted two_values) ≡ ok two_values
parse_response-print_response_example =
    parse_response-print_response shifted two_values two_values-IsSendableResponse

seven-IsWord : IsWord (literal "7")
unfolding is_whitespace
seven-IsWord = ground arith

a-IsWord : IsWord (literal "a")
unfolding is_whitespace
a-IsWord = ground arith

parse_response-empty_value_example :
    parse_response shifted (print_response shifted (map_response (empty_value head (literal "a"))))
    ≡ err (failed invalid_input)
parse_response-empty_value_example =
    parse_response-empty_value shifted head (literal "a") seven-IsWord a-IsWord

update_a-IsSendable : IsSendable (update (literal "a") (1 ∷ []))
unfolding is_whitespace
update_a-IsSendable = ground arith

parse_message-print_message_example :
    parse_message shifted (print_message shifted (update (literal "a") (1 ∷ [])))
    ≡ ok (update (literal "a") (1 ∷ []))
parse_message-print_message_example =
    parse_message-print_message shifted (update (literal "a") (1 ∷ [])) update_a-IsSendable
