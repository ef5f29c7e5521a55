-- ===== src/ClientProgram.antt =====
-- The client program src/client/main.rs: the commands of its prompt. The terminal is the text that
-- a command prints on it; what the clock and the generator of UUIDs give is an argument.
pub mod Session
pub mod Start
pub mod Tree
pub mod Tests
use nkv.Base.{
  Text, literal, Bool, true, false, Option, none, some, List, [], ◌∷◌, ◌++◌, if◌then◌else◌, ◌==◌,
  list_eq, number_eq,
}
use nkv.Base.Dict.{Dict}
use nkv.Base.Utf8.{as_bytes}
use nkv.Base.Format.{Unicode, line}
use nkv.Errors.{ok, err}
use nkv.Storage.{Bytes}
use nkv.Message.{Message}
use nkv.Notifier.Subscriber.{Subscriber}
use nkv.Protocol.Base64.{Base64}
use nkv.Protocol.Debug.{debug_base, debug_message, debug_response, readable}
use nkv.Protocol.Response.{
  ServerResponse, base, map_response, trace, version, print_base, print_response,
}
use nkv.Trie
use nkv.Trie.{Trie}
use nkv.Trie.Display
use nkv.Client
use nkv.Client.{NkvClient, Network, Answer}

-- The crate `serde_json`: `from_str` to a `Value`, and `to_string_pretty`.
pub record Json : Type 1 where
  pub Value : Type 0
  pub from_str : Text → Option Value
  pub to_string_pretty : Value → Option Text

abbrev pub took : Text → Text → Text
took elapsed shown = line (literal "Request took: " ++ elapsed ++ b'\n' ∷ shown)

-- What the handler of a subscription prints.
unfoldable print_update : Message → Text
print_update value = line (literal "Received update:\n" ++ debug_message value)

abbrev pub help_text : Text
help_text =
    line (literal "Commands:")
    ++ line (literal "PUT key value")
    ++ line (literal "GET key")
    ++ line (literal "TREE key")
    ++ line (literal "DELETE key")
    ++ line (literal "HELP")
    ++ line (literal "SUBSCRIBE key")
    ++ line (literal "QUIT")

module _ (J : Json) where
  -- A JSON text is printed anew, with indents.
  abbrev pub pretty_text : Text → Text
  pretty_text printable = elim (J.from_str printable) [
    | some val ↦ elim (J.to_string_pretty val) [ some pretty ↦ pretty | none ↦ printable ]
    | none ↦ printable
  ]

  unfoldable pub data_text : Bytes → Text
  data_text v = pretty_text (readable v)

  unfoldable pub print_entries : Dict Text Bytes → Text
  print_entries [] = []
  print_entries ((k, v) ∷ entries) =
      line (k ++ b' ' ∷ (data_text v ++ b'\n' ∷ [])) ++ print_entries entries

  -- `pretty_print_server_response`
  unfoldable pub pretty_print : Base64 → ServerResponse → Text
  pretty_print B (map_response r) = line (print_base r.base) ++ print_entries r.content
  pretty_print B (base r) = line (print_response B (base r))
  pretty_print B (trace r) = line (print_response B (trace r))
  pretty_print B (version r) = line (print_response B (version r))

-- The loop of TREE that enters the keys of a response into a new trie.
unfoldable pub tree_of : Dict Text Bytes → Trie Bytes → Trie Bytes
tree_of [] trie = trie
tree_of ((key, val) ∷ entries) trie = tree_of entries (Trie.insert trie key val).0

-- What TREE prints.
unfoldable pub print_tree : Text → ServerResponse → Text
unfolding debug_base
print_tree elapsed (base r) = took elapsed (debug_base r)
print_tree elapsed (map_response r) =
    took elapsed
      (debug_base r.base ++ b'\n' ∷ Display.fmt (tree_of r.content (Trie.new {T = Bytes})))
print_tree elapsed (trace r) = line (literal "Wrong response!")
print_tree elapsed (version r) = line (literal "Wrong response!")

-- After a command: what it has printed, the subscriber that it has started, and whether the
-- program is to end; `none` is a panic (`unwrap`).
pub record Ran (N : Network) : Type 0 where
  pub client : NkvClient
  pub network : N.State
  pub printed : Text
  pub started : Option Subscriber
  pub quits : Option Bool

module _ (N : Network) (B : Base64) (U : Unicode) (J : Json) where
  -- A command that only prints.
  abbrev pub says : NkvClient → N.State → Text → Ran N
  says c w text = record {
    client = c;
    network = w;
    printed = text;
    started = none;
    quits = some false;
  }

  -- The answer of a method is unwrapped and printed.
  unfoldable pub report : NkvClient → N.State × Answer → (ServerResponse → Text) → Ran N
  report c (w, ok response) show = says c w (show response)
  report c (w, err _) show = record {
    client = c;
    network = w;
    printed = [];
    started = none;
    quits = none;
  }

  -- The line of most answers.
  abbrev pub brief : Text → ServerResponse → Text
  brief elapsed response = took elapsed (debug_response U response)

  unfoldable pub run_put : NkvClient → N.State → Text → Text → List Text → Ran N
  run_put c w v4 elapsed (key ∷ value ∷ _) =
      report c (Client.put N B c w key (as_bytes value) v4) (brief elapsed)
  run_put c w v4 elapsed _ = says c w (line (literal "PUT requires a key and a value"))

  unfoldable pub run_get : NkvClient → N.State → Text → Text → List Text → Ran N
  run_get c w v4 elapsed (key ∷ _) =
      report c (Client.get N B c w key v4)
        (λ response. line (literal "Request took: " ++ elapsed) ++ pretty_print J B response)
  run_get c w v4 elapsed [] = says c w (line (literal "GET requires a key"))

  unfoldable pub run_trace : NkvClient → N.State → Text → Text → List Text → Ran N
  run_trace c w v4 elapsed (key ∷ _) = report c (Client.trace N B c w key v4) (brief elapsed)
  run_trace c w v4 elapsed [] = says c w (line (literal "TRACE requires a key"))

  unfoldable pub run_tree : NkvClient → N.State → Text → Text → List Text → Ran N
  unfolding print_tree
  run_tree c w v4 elapsed (key ∷ _) = report c (Client.get N B c w key v4) (print_tree elapsed)
  run_tree c w v4 elapsed [] = says c w (line (literal "TREE requires a key"))

  unfoldable pub run_delete : NkvClient → N.State → Text → Text → List Text → Ran N
  run_delete c w v4 elapsed (key ∷ _) = report c (Client.delete N B c w key v4) (brief elapsed)
  run_delete c w v4 elapsed [] = says c w (line (literal "DELETE requires a key"))

  -- The subscriber runs in tasks of its own.
  unfoldable pub run_subscribe : NkvClient → N.State → Text → Text → List Text → Ran N
  run_subscribe c w v4 elapsed (key ∷ _) =
      let (c', response, subscriber) = Client.subscribe c key v4 in
      record (says c' w (brief elapsed response)) { started = subscriber }
  run_subscribe c w v4 elapsed [] = says c w (line (literal "SUBSCRIBE requires a key"))

  unfoldable pub run_unsubscribe : NkvClient → N.State → Text → List Text → Ran N
  run_unsubscribe c w elapsed (key ∷ _) = report c (Client.unsubscribe N B c w key) (brief elapsed)
  run_unsubscribe c w elapsed [] = says c w (line (literal "SUBSCRIBE requires a key"))

  -- The `match` on the command, in lower case; the arguments are the words behind it.
  unfoldable pub run_command : NkvClient → N.State → Text → Text → Text → List Text → Ran N
  unfolding run_put run_get run_trace run_tree run_delete run_subscribe run_unsubscribe
  run_command c w v4 elapsed command args =
      if command == literal "put"
      then run_put c w v4 elapsed args
      else if command == literal "get"
      then run_get c w v4 elapsed args
      else if command == literal "trace"
      then run_trace c w v4 elapsed args
      else if command == literal "tree"
      then run_tree c w v4 elapsed args
      else if command == literal "delete"
      then run_delete c w v4 elapsed args
      else if command == literal "subscribe"
      then run_subscribe c w v4 elapsed args
      else if command == literal "unsubscribe"
      then run_unsubscribe c w elapsed args
      else if command == literal "health"
      then report c (Client.health N B c w v4) (brief elapsed)
      else if command == literal "quit"
      then record (says c w []) { quits = some true }
      else if command == literal "help"
      then says c w help_text
      else says c w (line (literal "Unknown command"))

  unfoldable pub handle_command : NkvClient → N.State → Text → Text → List Text → Ran N
  unfolding run_command
  handle_command c w v4 elapsed [] = says c w []
  handle_command c w v4 elapsed (command ∷ args) =
      run_command c w v4 elapsed (U.to_lowercase command) args
