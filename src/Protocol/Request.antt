-- ===== src/Protocol/Request.antt =====
-- `ServerRequest` of src/request_msg.rs, its `Display` and its `FromStr`.
use nkv.Base.{
  Text, literal, none, some, List, [], ◌∷◌, if◌then◌else◌, ◌==◌, list_eq, number_eq, join,
}
use nkv.Errors.{ok, err, unknown_command, ◌>>=◌}
use nkv.Storage.{Bytes}
use nkv.Protocol.{failed, panic, Parsed, next_part}
use nkv.Protocol.Words.{splitn}
use nkv.Protocol.Base64.{Base64}

pub record BaseMessage : Type 0 where
  pub id : Text
  pub key : Text
  pub client_uuid : Text

pub record PutMessage : Type 0 where
  pub base : BaseMessage
  pub value : Bytes

pub data ServerRequest : Type 0 where
  put : PutMessage → ServerRequest
  get delete subscribe unsubscribe trace health version : BaseMessage → ServerRequest

-- "{name} {id} {client_uuid} {key}"
abbrev pub print_line : Text → BaseMessage → Text → Text
print_line name m key = join b' ' (name ∷ m.id ∷ m.client_uuid ∷ key ∷ [])

module _ (B : Base64) where
  -- `Display`; HEALTH and VERSION do not send their key.
  unfoldable pub print_request : ServerRequest → Text
  print_request (put p) =
      join b' '
        (literal "PUT" ∷ p.base.id ∷ p.base.client_uuid ∷ p.base.key ∷ B.encode p.value ∷ [])
  print_request (get m) = print_line (literal "GET") m m.key
  print_request (delete m) = print_line (literal "DEL") m m.key
  print_request (subscribe m) = print_line (literal "SUB") m m.key
  print_request (unsubscribe m) = print_line (literal "UNSUB") m m.key
  print_request (trace m) = print_line (literal "TRACE") m m.key
  print_request (health m) = print_line (literal "HEALTH") m (literal "HK")
  print_request (version m) = print_line (literal "VERSION") m (literal "DISCARDME")

  -- An empty value is not decoded, and a value that base64 refuses is a panic (`expect`).
  unfoldable pub decode_value : Text → Parsed Bytes
  decode_value [] = ok []
  decode_value (x ∷ value) = elim (B.decode (x ∷ value)) [
    | some bytes ↦ ok bytes
    | none ↦ err panic
  ]

  -- The arm for PUT; `parts` holds what is left of the line.
  unfoldable pub parse_put : BaseMessage → List Text → Parsed ServerRequest
  parse_put base parts = next_part "value" parts >>= λ next.
      decode_value next.0 >>= λ bytes. ok (put (record { base = base; value = bytes }))

  -- The `match` on the name of the request.
  unfoldable pub parse_command : Text → BaseMessage → List Text → Parsed ServerRequest
  parse_command request base parts =
      if request == literal "PUT"
      then parse_put base parts
      else if request == literal "GET"
      then ok (get base)
      else if request == literal "DEL"
      then ok (delete base)
      else if request == literal "SUB"
      then ok (subscribe base)
      else if request == literal "UNSUB"
      then ok (unsubscribe base)
      else if request == literal "TRACE"
      then ok (trace base)
      else if request == literal "HEALTH"
      then ok (health base)
      else if request == literal "VERSION"
      then ok (version base)
      else err (failed unknown_command)

  -- The four words of every request, then the match.
  unfoldable pub parse_parts : List Text → Parsed ServerRequest
  parse_parts parts = next_part "command" parts >>= λ request. next_part "id" request.1 >>= λ id.
      next_part "client-uuid" id.1 >>= λ uuid. next_part "key" uuid.1 >>= λ key.
      parse_command request.0 (record { id = id.0; key = key.0; client_uuid = uuid.0 }) key.1

  -- `ServerRequest::from_str`
  unfoldable pub parse_request : Text → Parsed ServerRequest
  parse_request input = parse_parts (splitn 5 b' ' input)
