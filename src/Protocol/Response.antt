-- ===== src/Protocol/Response.antt =====
-- `BaseResp`, `DataResp` and `ServerResponse` of src/request_msg.rs, with `Display` and `FromStr`.
-- The source's name `data` is reserved here: the field is `content`, the variant `map_response`.
use nkv.Base.{
  Text, literal, Bool, true, false, none, some, List, [], ◌∷◌, ◌++◌, if◌then◌else◌, ◌==◌, list_eq,
  number_eq, join,
}
use nkv.Base.Dict
use nkv.Errors.{ok, err, missing, unknown_command, invalid_input, parse_error, ◌>>=◌}
use nkv.Storage.{Bytes}
use nkv.Protocol.{failed, Parsed, next_part}
use nkv.Protocol.Words.{splitn, split_whitespace, cut_blank, trim_start}
use nkv.Protocol.Base64.{Base64}

pub record BaseResp : Type 0 where
  pub id : Text
  pub status : Bool

-- `PartialEq` of `BaseResp` leaves the id out.
unfoldable pub base_eq : BaseResp → BaseResp → Bool
base_eq a b = if a.status then b.status else (if b.status then false else true)

unfoldable pub print_base : BaseResp → Text
print_base r = r.id ++ b' ' ∷ (if r.status then literal "OK" else literal "FAILED")

unfoldable pub parse_status : Text → Parsed Bool
parse_status status =
    if status == literal "OK"
    then ok true
    else if status == literal "FAILED"
    then ok false
    else err (failed unknown_command)

-- The first two words of a response, and what is left.
unfoldable pub parse_head : List Text → Parsed (BaseResp × List Text)
parse_head parts = next_part "id" parts >>= λ id. next_part "status" id.1 >>= λ status.
    parse_status status.0 >>= λ s. ok (record { id = id.0; status = s }, status.1)

unfoldable pub parse_base : Text → Parsed BaseResp
parse_base input = parse_head (splitn 3 b' ' input) >>= λ head. ok head.0

-- The trait `Marshalable`, without its printing for the log.
pub record Marshalable (T : Type 0) : Type 0 where
  pub marshal : T → Text
  pub unmarshal : Text → Parsed T

-- `parts.len() % 2 == 0`
unfoldable pub is_even : List Text → Bool
is_even [] = true
is_even (word ∷ []) = false
is_even (word ∷ next ∷ words) = is_even words

module _ (B : Base64) where
  unfoldable pub marshal_map : Dict.Dict Text Bytes → Text
  marshal_map [] = []
  marshal_map ((key, val) ∷ entries) = b' ' ∷ (key ++ b' ' ∷ (B.encode val ++ marshal_map entries))

  -- The loop over the pairs. An odd number of words is refused before it, so the case of one word
  -- does not arise.
  unfoldable pub insert_pairs : List Text → Dict.Dict Text Bytes → Parsed (Dict.Dict Text Bytes)
  insert_pairs [] found = ok found
  insert_pairs (key ∷ []) found = ok found
  insert_pairs (key ∷ value ∷ words) found = elim (B.decode value) [
    | none ↦ err (failed parse_error)
    | some bytes ↦ insert_pairs words (Dict.insert key bytes found)
  ]

  unfoldable pub unmarshal_map : Text → Parsed (Dict.Dict Text Bytes)
  unmarshal_map input =
      let parts = split_whitespace input in
      if is_even parts then insert_pairs parts [] else err (failed invalid_input)

  abbrev pub map_data : Marshalable (Dict.Dict Text Bytes)
  map_data = record { marshal = marshal_map; unmarshal = unmarshal_map }

unfoldable pub marshal_names : List Text → Text
marshal_names [] = []
marshal_names (name ∷ names) = b' ' ∷ (name ++ marshal_names names)

abbrev pub names_data : Marshalable (List Text)
names_data = record { marshal = marshal_names; unmarshal = λ input. ok (split_whitespace input) }

abbrev pub text_data : Marshalable Text
text_data = record { marshal = λ text. b' ' ∷ text; unmarshal = λ input. ok input }

pub record DataResp (T : Type 0) : Type 0 where
  pub base : BaseResp
  pub content : T

module _ {T : Type 0} (M : Marshalable T) where
  unfoldable pub print_data : DataResp T → Text
  print_data r = print_base r.base ++ M.marshal r.content

  unfoldable pub parse_data : Text → Parsed (DataResp T)
  parse_data input = parse_head (split_whitespace input) >>= λ head.
      M.unmarshal (join b' ' head.1) >>= λ content. ok (record { base = head.0; content = content })

pub data ServerResponse : Type 0 where
  base : BaseResp → ServerResponse
  map_response : DataResp (Dict.Dict Text Bytes) → ServerResponse
  trace : DataResp (List Text) → ServerResponse
  version : DataResp Text → ServerResponse

module _ (B : Base64) where
  unfoldable pub print_response : ServerResponse → Text
  print_response (base r) = literal "base " ++ print_base r
  print_response (map_response r) = literal "data " ++ print_data (map_data B) r
  print_response (trace r) = literal "trace " ++ print_data names_data r
  print_response (version r) = literal "version " ++ print_data text_data r

  -- The `match` on the first word.
  unfoldable pub parse_kind : Text → Text → Parsed ServerResponse
  parse_kind word tail =
      if word == literal "base"
      then parse_base tail >>= (λ r. ok (base r))
      else if word == literal "data"
      then parse_data (map_data B) tail >>= (λ r. ok (map_response r))
      else if word == literal "trace"
      then parse_data names_data tail >>= (λ r. ok (trace r))
      else if word == literal "version"
      then parse_data text_data tail >>= (λ r. ok (version r))
      else err (failed (missing (literal "type")))

  -- `ServerResponse::from_str`
  unfoldable pub parse_response : Text → Parsed ServerResponse
  parse_response input = elim (cut_blank input) [
    | none ↦ err (failed (missing (literal "type")))
    | some (word, from) ↦ parse_kind word (trim_start from)
  ]
