-- ===== src/ServerProgram/Tests.antt =====
-- Runs of src/server/main.rs.
use nkv.Base.{
  Text, literal, ◌≡◌, refl, [], ◌∷◌, list_beq, list_eq, number_eq, elem, ◌==◌, if◌then◌else◌,
}
use nkv.Base.Dict
use nkv.Errors.{Result, ok, err}
use nkv.FlagParser.{find_unknown, parse_args, strip_dashes, check_allowed}
use nkv.FlagParser
use nkv.ServerProgram.{bad_level, read_args}

-- There is one level.
abbrev parse_level : Text → Result (Unit {0}) Text
parse_level text = if text == literal "info" then ok tt else err (literal "bad level")

-- A level that is refused comes before the help.
level_first :
    read_args tt parse_level
      (literal "nkv" ∷ literal "--help" ∷ literal "--level" ∷ literal "x" ∷ [])
    ≡ bad_level (literal "bad level")
unfolding read_args FlagParser.new parse_args check_allowed find_unknown strip_dashes FlagParser.get
    Dict.lookup Dict.insert Dict.keys list_beq elem
level_first = refl
