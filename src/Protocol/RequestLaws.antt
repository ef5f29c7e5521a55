-- ===== src/Protocol/RequestLaws.antt =====
-- What `Display` and `FromStr` of `ServerRequest` in src/request_msg.rs do to each other.
use mathlib.Core.Option.{some-injective}
use nkv.Base.{
  Text, literal, ◌≡◌, ◌≢◌, ◌↔◌, refl, ap, sym, ◌∙◌, none, List, [], ◌∷◌, ◌++◌, arith, list_eq,
  number_eq, list_beq, join, Avoids, eq_iff,
}
use nkv.Errors.{ok, err}
use nkv.Storage.{Bytes}
use nkv.Protocol.{panic}
use nkv.Protocol.Words.{splitn, splitn-append, splitn_of_Avoids}
use nkv.Protocol.Base64.{Base64}
use nkv.Protocol.Request.{
  BaseMessage, PutMessage, ServerRequest, put, get, delete, subscribe, unsubscribe, trace, health,
  version, print_request, print_line, decode_value, parse_put, parse_command, parse_parts,
  parse_request,
}

-- The words of the message hold no blank.
abbrev pub IsPlainMessage : BaseMessage → Type 0
IsPlainMessage m = Avoids b' ' m.id × Avoids b' ' m.key × Avoids b' ' m.client_uuid

abbrev pub IsPlainRequest : ServerRequest → Type 0
IsPlainRequest (put p) = IsPlainMessage p.base
IsPlainRequest (get m) = IsPlainMessage m
IsPlainRequest (delete m) = IsPlainMessage m
IsPlainRequest (subscribe m) = IsPlainMessage m
IsPlainRequest (unsubscribe m) = IsPlainMessage m
IsPlainRequest (trace m) = IsPlainMessage m
IsPlainRequest (health m) = IsPlainMessage m
IsPlainRequest (version m) = IsPlainMessage m

-- The request that arrives: HEALTH and VERSION carry a fixed word in place of their key.
unfoldable pub received : ServerRequest → ServerRequest
received (health m) = health (record m { key = literal "HK" })
received (version m) = version (record m { key = literal "DISCARDME" })
received r = r

pub splitn-line :
    (name key : Text) (m : BaseMessage)
    → Avoids b' ' name
    → Avoids b' ' key
    → IsPlainMessage m
    → splitn 5 b' ' (print_line name m key) ≡ name ∷ m.id ∷ m.client_uuid ∷ key ∷ []
unfolding join
splitn-line name key m hn hk (hi, hx, hu) =
    rw
      (
        splitn-append 3 b' ' name (m.id ++ b' ' ∷ (m.client_uuid ++ b' ' ∷ key)) hn,
        splitn-append 2 b' ' m.id (m.client_uuid ++ b' ' ∷ key) hi,
        splitn-append 1 b' ' m.client_uuid key hu,
        splitn_of_Avoids 1 b' ' key hk,
      )
      refl

module _ (B : Base64) where
  splitn_put :
      (p : PutMessage)
      → IsPlainMessage p.base
      → splitn 5 b' ' (print_request B (put p))
        ≡ literal "PUT" ∷ p.base.id ∷ p.base.client_uuid ∷ p.base.key ∷ B.encode p.value ∷ []
  unfolding print_request join
  splitn_put p (hi, hk, hu) =
      let m = p.base in
      let v = B.encode p.value in
      rw
        (
          splitn-append 3 b' ' (literal "PUT")
              (m.id ++ b' ' ∷ (m.client_uuid ++ b' ' ∷ (m.key ++ b' ' ∷ v))) (ground arith),
          splitn-append 2 b' ' m.id (m.client_uuid ++ b' ' ∷ (m.key ++ b' ' ∷ v)) hi,
          splitn-append 1 b' ' m.client_uuid (m.key ++ b' ' ∷ v) hu,
          splitn-append 0 b' ' m.key v hk,
        )
        (unfold splitn in refl)

  decode_value-encode : (v : Bytes) → decode_value B (B.encode v) ≡ ok v
  unfolding decode_value
  decode_value-encode v = by_text (B.encode v) refl
    where
      by_text : (s : Text) → B.encode v ≡ s → decode_value B s ≡ ok v
      by_text [] e = ap ok (
          some-injective [] v
            (sym (B.decode-encode []) ∙ ap B.decode (B.encode_nil ∙ sym e) ∙ B.decode-encode v))
      by_text (x ∷ s) e = rw (ap B.decode (sym e) ∙ B.decode-encode v, decode_value) refl

  parse-line :
      (name key : Text) (m : BaseMessage)
      → Avoids b' ' name
      → Avoids b' ' key
      → IsPlainMessage m
      → parse_request B (print_line name m key) ≡ parse_command B name (record m { key = key }) []
  unfolding parse_request parse_parts
  parse-line name key m hn hk hm = rw (splitn-line name key m hn hk hm) refl

  parse-put :
      (p : PutMessage)
      → IsPlainMessage p.base
      → parse_request B (print_request B (put p)) ≡ parse_put B p.base (B.encode p.value ∷ [])
  unfolding parse_request parse_parts print_request parse_command list_beq
  parse-put p (hi, hk, hu) = rw (splitn_put p (hi, hk, hu)) refl

  -- If the words of a request hold no blank, parsing its text gives the request back, with the
  -- fixed key of a HEALTH or VERSION request.
  pub parse_request-print_request :
      (r : ServerRequest) → IsPlainRequest r → parse_request B (print_request B r) ≡ ok (received r)
  unfolding print_request received parse_command list_beq
  parse_request-print_request (put p) h =
      parse-put p h ∙ unfold parse_put in rw (decode_value-encode p.value) refl
  parse_request-print_request (get m) h = parse-line (literal "GET") m.key m (ground arith) h.1 h
  parse_request-print_request (delete m) h = parse-line (literal "DEL") m.key m (ground arith) h.1 h
  parse_request-print_request (subscribe m) h =
      parse-line (literal "SUB") m.key m (ground arith) h.1 h
  parse_request-print_request (unsubscribe m) h =
      parse-line (literal "UNSUB") m.key m (ground arith) h.1 h
  parse_request-print_request (trace m) h =
      parse-line (literal "TRACE") m.key m (ground arith) h.1 h
  parse_request-print_request (health m) h =
      parse-line (literal "HEALTH") (literal "HK") m (ground arith) (ground arith) h
  parse_request-print_request (version m) h =
      parse-line (literal "VERSION") (literal "DISCARDME") m (ground arith) (ground arith) h

  decode_value-panic : (s : Text) → decode_value B s ≡ err panic → (s ≢ []) × (B.decode s ≡ none)
  unfolding decode_value
  decode_value-panic [] e = cc
  decode_value-panic (x ∷ s) e = ground arith

  panic-decode_value : (s : Text) → s ≢ [] → B.decode s ≡ none → decode_value B s ≡ err panic
  unfolding decode_value
  panic-decode_value [] h e = absurd (h refl)
  panic-decode_value (x ∷ s) h e = rw (e, decode_value) refl

  -- The words of a line on which the parser panics: a PUT whose value is not base64.
  abbrev pub IsBadPut : List Text → Type 0
  IsBadPut parts =
      (id : Text) × (uuid : Text) × (key : Text) × (value : Text) × (rest : List Text) × (parts
        ≡ literal "PUT" ∷ id ∷ uuid ∷ key ∷ value ∷ rest)
      × (value ≢ [])
      × (B.decode value ≡ none)

  panic-parse_put :
      (base : BaseMessage) (rest : List Text)
      → parse_put B base rest ≡ err panic
      → (value : Text) × (others : List Text) × (rest ≡ value ∷ others)
        × (value ≢ [])
        × (B.decode value ≡ none)
  unfolding parse_put
  panic-parse_put base [] e = cc
  panic-parse_put base (value ∷ others) e =
      let (given, refused) = decode_value-panic value (ground arith) in
      (value, others, refl, given, refused)

  panic-parse_command :
      (request : Text) (base : BaseMessage) (rest : List Text)
      → parse_command B request base rest ≡ err panic
      → (request ≡ literal "PUT") × (parse_put B base rest ≡ err panic)
  unfolding parse_command
  panic-parse_command request base rest e = ground (arith, eq_iff request (literal "PUT"))

  panic-parse_parts : (parts : List Text) → parse_parts B parts ≡ err panic → IsBadPut parts
  unfolding parse_parts
  panic-parse_parts [] e = cc
  panic-parse_parts (request ∷ []) e = cc
  panic-parse_parts (request ∷ id ∷ []) e = cc
  panic-parse_parts (request ∷ id ∷ uuid ∷ []) e = cc
  panic-parse_parts (request ∷ id ∷ uuid ∷ key ∷ parts) e =
      let base : BaseMessage = record { id = id; key = key; client_uuid = uuid } in
      let (name, refused) = panic-parse_command request base parts e in
      let (value, rest, words, given, bad) = panic-parse_put base parts refused in
      (id, uuid, key, value, rest, rw (name, words) refl, given, bad)

  parse_parts_of_IsBadPut : (parts : List Text) → IsBadPut parts → parse_parts B parts ≡ err panic
  unfolding parse_parts parse_command parse_put list_beq
  parse_parts_of_IsBadPut parts (id, uuid, key, value, rest, e, given, bad) =
      rw (e, panic-decode_value value given bad) refl

  -- The parser of requests panics on the lines of a PUT with a nonempty value that base64 refuses,
  -- and on no other.
  pub parse_request-panic_iff :
      (input : Text) → (parse_request B input ≡ err panic) ↔ IsBadPut (splitn 5 b' ' input)
  unfolding parse_request
  parse_request-panic_iff input =
      (panic-parse_parts (splitn 5 b' ' input), parse_parts_of_IsBadPut (splitn 5 b' ' input))
