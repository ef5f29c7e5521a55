-- ===== src/Protocol/Debug.antt =====
-- `Debug` of the messages of src/request_msg.rs, for the log and the terminal, and `PartialEq` of
-- the responses.
use nkv.Base.{
  Text, literal, Bool, true, false, ◌&&◌, none, some, List, [], ◌∷◌, ◌++◌, if◌then◌else◌, ◌==◌,
  list_eq, number_eq, length, nat_beq,
}
use nkv.Base.Dict
use nkv.Base.Utf8.{from_utf8}
use nkv.Base.Format.{Unicode, decimal, debug_bytes, quote}
use nkv.Storage.{Bytes}
use nkv.Message.{Message, hello, update, close, not_found}
use nkv.Protocol.Request
use nkv.Protocol.Request.{ServerRequest, BaseMessage, PutMessage}
use nkv.Protocol.Response.{
  BaseResp, DataResp, ServerResponse, base, map_response, trace, version, base_eq,
}

-- `Debug` of `BaseResp` writes what `Display` does.
unfoldable pub debug_base : BaseResp → Text
debug_base r = r.id ++ b' ' ∷ (if r.status then literal "OK" else literal "FAILED")

-- The bytes as text if they are UTF-8, else `{:?}`.
abbrev pub readable : Bytes → Text
readable val = elim (from_utf8 val) [ some s ↦ s | none ↦ debug_bytes val ]

-- `Marshalable::debug` of a map: a value that is UTF-8 is shown as the text.
unfoldable pub debug_map : Dict.Dict Text Bytes → Text
debug_map [] = []
debug_map ((key, val) ∷ entries) = b' ' ∷ (key ++ b' ' ∷ (readable val ++ debug_map entries))

unfoldable pub debug_message : Message → Text
debug_message hello = literal "HELLO"
debug_message (update key value) = literal "UPDATE " ++ key ++ b' ' ∷ decimal (length value)
debug_message (close key) = literal "CLOSE " ++ key
debug_message not_found = literal "NOTFOUND"

module _ (U : Unicode) where
  unfoldable pub debug_names : List Text → Text
  debug_names [] = []
  debug_names (name ∷ names) = b' ' ∷ (quote U name ++ debug_names names)

  unfoldable pub debug_text : Text → Text
  debug_text text = b' ' ∷ quote U text

  -- `Debug` of `ServerResponse`; that of a `DataResp` is its base and the `debug` of its data.
  unfoldable pub debug_response : ServerResponse → Text
  debug_response (base r) = debug_base r
  debug_response (map_response r) = debug_base r.base ++ debug_map r.content
  debug_response (trace r) = debug_base r.base ++ debug_names r.content
  debug_response (version r) = debug_base r.base ++ debug_text r.content

  -- The derived `Debug` of `BaseMessage`
  unfoldable pub debug_base_message : BaseMessage → Text
  debug_base_message m =
      literal "BaseMessage { id: "
      ++ quote U m.id
      ++ literal ", key: "
      ++ quote U m.key
      ++ literal ", client_uuid: "
      ++ quote U m.client_uuid
      ++ literal " }"

  -- `Debug` of `PutMessage` tells the length of the value alone.
  unfoldable pub debug_put : PutMessage → Text
  debug_put p = debug_base_message p.base ++ literal " length:" ++ decimal (length p.value)

  abbrev variant : Text → Text → Text
  variant name shown = name ++ literal "(" ++ shown ++ literal ")"

  -- The derived `Debug` of `ServerRequest`
  unfoldable pub debug_request : ServerRequest → Text
  debug_request (Request.put p) = variant (literal "Put") (debug_put p)
  debug_request (Request.get m) = variant (literal "Get") (debug_base_message m)
  debug_request (Request.delete m) = variant (literal "Delete") (debug_base_message m)
  debug_request (Request.subscribe m) = variant (literal "Subscribe") (debug_base_message m)
  debug_request (Request.unsubscribe m) = variant (literal "Unsubscribe") (debug_base_message m)
  debug_request (Request.trace m) = variant (literal "Trace") (debug_base_message m)
  debug_request (Request.health m) = variant (literal "Health") (debug_base_message m)
  debug_request (Request.version m) = variant (literal "Version") (debug_base_message m)

-- `==` of maps: as many entries, and every entry of the one is in the other.
unfoldable pub entries_in : Dict.Dict Text Bytes → Dict.Dict Text Bytes → Bool
entries_in [] other = true
entries_in ((key, val) ∷ entries) other =
    elim (Dict.lookup key other) [ none ↦ false | some w ↦ val == w ] && entries_in entries other

unfoldable pub map_eq : Dict.Dict Text Bytes → Dict.Dict Text Bytes → Bool
map_eq a b = nat_beq (length a) (length b) && entries_in a b

-- `PartialEq` of `DataResp`, over that of the data
unfoldable pub data_eq : {T : Type 0} → (T → T → Bool) → DataResp T → DataResp T → Bool
data_eq same a b = base_eq a.base b.base && same a.content b.content

-- `PartialEq` of `ServerResponse`
unfoldable pub response_eq : ServerResponse → ServerResponse → Bool
response_eq (base a) (base b) = base_eq a b
response_eq (map_response a) (map_response b) = data_eq map_eq a b
response_eq (trace a) (trace b) = data_eq (λ x y. x == y) a b
response_eq (version a) (version b) = data_eq (λ x y. x == y) a b
response_eq _ _ = false
