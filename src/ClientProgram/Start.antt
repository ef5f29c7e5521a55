-- ===== src/ClientProgram/Start.antt =====
-- `main` of src/client/main.rs: the command line, the question for the version of the server, one
-- command or the prompt. What the crate `rustyline_async` reads from the terminal is an argument.
use nkv.Base.{
  Text, literal, false, Option, none, some, List, [], ◌∷◌, ◌++◌, is_some, if◌then◌else◌, ◌==◌,
  list_eq, number_eq, ◌≡◌, ◌≢◌, refl, arith, elem, list_beq,
}
use nkv.Base.Format.{line, Unicode}
use nkv.Errors.{Result, ok, err}
use nkv.FlagParser
use nkv.FlagParser.{FlagParser, FlagParserError, display_error}
use nkv.FlagParser.Allowed.{get-new_unknown}
use nkv.Protocol.Base64.{Base64}
use nkv.Protocol.Response.{ServerResponse, base, map_response, trace, version}
use nkv.Protocol.Words.{split_whitespace}
use nkv.Server.{pkg_version}
use nkv.Client
use nkv.Client.{NkvClient, Network, ClientFailure, io_failure, panicked}
use nkv.ClientProgram.{Json, handle_command}

-- `DEFAULT_URL`
abbrev default_url : Text
default_url = literal "/tmp/nkv/nkv.sock"

-- `HELP_MESSAGE`
abbrev help_message : Text
help_message =
    line (literal "nkv-client [OPTIONS]")
    ++ line (literal "Run the notify key-value (nkv) client.")
    ++ line []
    ++ line (literal "OPTIONS:")
    ++ line (literal "  --addr <path-to-socket>")
    ++ line (literal "      Specify the address of the server to connect to.")
    ++ line (literal "      Supports UNIX socket paths.")
    ++ line []
    ++ line (literal "  --help")
    ++ line (literal "      Display this help message and exit.")
    ++ line []
    ++ line (literal "  --version")
    ++ literal "      Print nkv-client version and exit."

abbrev pub allowed_flags : List Text
allowed_flags = literal "help" ∷ literal "addr" ∷ []

-- What the command line asks for.
pub data Start : Type 0 where
  usage : FlagParserError → Start
  help show_version : Start
  run : Text → List Text → Start

abbrev address : Option (Option Text) → Text
address (some (some val)) = val
address _ = default_url

-- What `main` makes of the flags.
abbrev pub plan : Result (FlagParser × List Text) FlagParserError → Start
plan (err e) = usage e
plan (ok (flags, positional)) =
    if is_some (FlagParser.get flags (literal "help"))
    then help
    else if is_some (FlagParser.get flags (literal "version"))
    then show_version
    else run (address (FlagParser.get flags (literal "addr"))) positional

unfoldable pub read_args : List Text → Start
read_args args = plan (FlagParser.new args (some allowed_flags))

abbrev about : Text
about = line (literal "nkv-client, version: " ++ pkg_version) ++ line help_message

-- The `match` on the answer to the question for the version.
unfoldable pub version_note : ServerResponse → Text
version_note (version r) =
    if r.content == pkg_version
    then []
    else line
        (literal "Version missmatch! Server " ++ r.content ++ literal ", client: " ++ pkg_version)
version_note (base r) = line (literal "WARN: wrong response to version")
version_note (map_response r) = line (literal "WARN: wrong response to version")
version_note (trace r) = line (literal "WARN: wrong response to version")

-- One event of the prompt, with the UUID and the time that its command takes.
pub data ReadlineEvent : Type 0 where
  entered : Text → Text → Text → ReadlineEvent
  eof interrupted : ReadlineEvent
  failed : Text → ReadlineEvent

-- How the program goes on: it is over, with an error or a panic or without, or waits for an
-- interrupt.
pub data After : Type 0 where
  over waits : After
  stopped : ClientFailure → After

pub record Ended (N : Network) : Type 0 where
  pub network : N.State
  pub printed : Text
  pub after : After

module _ (N : Network) (B : Base64) (U : Unicode) (J : Json) where
  -- Something was printed before.
  abbrev after_printing : Text → Ended N → Ended N
  after_printing text ended = record ended { printed = text ++ ended.printed }

  abbrev finish : N.State → Text → Ended N
  finish w text = record { network = w; printed = text; after = over }

  -- The prompt; the events are those that the terminal gives until the program ends.
  unfoldable pub prompt : NkvClient → N.State → List ReadlineEvent → Ended N
  prompt c w [] = finish w []
  prompt c w (entered input v4 elapsed ∷ events) =
      let ran = handle_command N B U J c w v4 elapsed (split_whitespace input) in
      elim ran.quits [
        | none ↦ record { network = ran.network; printed = ran.printed; after = stopped panicked }
        | some quits ↦
            let more = prompt ran.client ran.network events in
            if quits then finish ran.network ran.printed else after_printing ran.printed more
      ]
  prompt c w (eof ∷ events) = finish w (line (literal "<EOF>"))
  prompt c w (interrupted ∷ events) = prompt c w events
  prompt c w (failed why ∷ events) = finish w (line (literal "Error: " ++ why))

  -- The command that the positional arguments are.
  unfoldable pub run_single : NkvClient → N.State → Text → Text → Text → List Text → Ended N
  run_single c w v4 elapsed command args =
      let ran = handle_command N B U J c w v4 elapsed (command ∷ args) in
      if U.to_lowercase command == literal "unsubscribe"
      then finish w (line (literal "unsupported"))
      else record {
        network = ran.network;
        printed = ran.printed;
        after = elim ran.quits [
          | none ↦ stopped panicked
          | some _ ↦ if U.to_lowercase command == literal "subscribe" then waits else over
        ];
      }

  -- One command, or the prompt.
  unfoldable pub serve_user :
      NkvClient → N.State → List Text → List ReadlineEvent → Text → Text → Ended N
  unfolding prompt run_single
  serve_user c w [] events v4 elapsed = prompt c w events
  serve_user c w (command ∷ args) events v4 elapsed = run_single c w v4 elapsed command args

  -- `main`; `v4` and `elapsed` belong to the single command.
  unfoldable pub main : N.State → List Text → List ReadlineEvent → Text → Text → Text → Ended N
  unfolding read_args
  main w args events own_v4 v4 elapsed = elim (read_args args) [
    | usage e ↦ finish w (line (literal "error: " ++ display_error e) ++ about)
    | help ↦ finish w (about)
    | show_version ↦ finish w (line pkg_version)
    | run addr positional ↦
        let c = Client.new addr [] own_v4 in
        let (w', answer) = Client.version N B c w in
        elim answer [
          | err why ↦ record { network = w'; printed = []; after = stopped why }
          | ok response ↦
              after_printing (version_note response) (serve_user c w' positional events v4 elapsed)
        ]
  ]

plan-ne-show_version :
    (found : Result (FlagParser × List Text) FlagParserError)
    → ((flags : FlagParser) (positional : List Text)
        → found ≡ ok (flags, positional)
        → FlagParser.get flags (literal "version") ≡ none)
    → plan found ≢ show_version
plan-ne-show_version (err e) h = cc
plan-ne-show_version (ok (flags, positional)) h =
    let absent : FlagParser.get flags (literal "version") ≡ none = h flags positional refl in
    ground (arith, absent)

version_not_allowed : elem (literal "version") allowed_flags ≡ false
unfolding elem list_beq
version_not_allowed = refl

-- No command line makes the client program show its version.
pub read_args-ne-show_version : (args : List Text) → read_args args ≢ show_version
unfolding read_args
read_args-ne-show_version args =
    plan-ne-show_version (FlagParser.new args (some allowed_flags)) λ flags positional made.
      get-new_unknown args allowed_flags (literal "version") flags positional made
        version_not_allowed
