-- ===== src/Protocol/Notice.antt =====
-- `Display` and `FromStr` of `Message` in src/request_msg.rs.
use nkv.Base.{
  Text, literal, none, some, List, [], ◌∷◌, if◌then◌else◌, ◌==◌, list_eq, number_eq, join,
}
use nkv.Errors.{ok, err, unknown_command, ◌>>=◌}
use nkv.Message.{Message, hello, not_found, update, close}
use nkv.Protocol.{failed, panic, Parsed, next_part}
use nkv.Protocol.Words.{split_whitespace}
use nkv.Protocol.Base64.{Base64}

module _ (B : Base64) where
  unfoldable pub print_message : Message → Text
  print_message hello = literal "HELLO"
  print_message not_found = literal "NOTFOUND"
  print_message (update key value) = join b' ' (literal "UPDATE" ∷ key ∷ B.encode value ∷ [])
  print_message (close key) = join b' ' (literal "CLOSE" ∷ key ∷ [])

  -- The arm for UPDATE; a value that base64 refuses is a panic (`expect`).
  unfoldable pub parse_update : List Text → Parsed Message
  parse_update parts = next_part "key" parts >>= λ key. next_part "value" key.1 >>= λ value.
      elim (B.decode value.0) [ none ↦ err panic | some bytes ↦ ok (update key.0 bytes) ]

  -- The `match` on the first word.
  unfoldable pub parse_words : List Text → Parsed Message
  parse_words parts = next_part "type" parts >>= λ kind.
      if kind.0 == literal "HELLO"
      then ok hello
      else if kind.0 == literal "UPDATE"
      then parse_update kind.1
      else if kind.0 == literal "CLOSE"
      then next_part "key" kind.1 >>= (λ key. ok (close key.0))
      else if kind.0 == literal "NOTFOUND"
      then ok not_found
      else err (failed unknown_command)

  -- `Message::from_str`
  unfoldable pub parse_message : Text → Parsed Message
  parse_message input = parse_words (split_whitespace input)
