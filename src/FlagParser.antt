-- ===== src/FlagParser.antt =====
-- src/flag_parser.rs: the flags of the command lines.
pub mod RoundTrip
pub mod Allowed
pub mod Tests
use nkv.Base.{
  ℕ, Text, literal, Bool, true, false, ◌≡◌, refl, Option, some, none, List, [], ◌∷◌, ◌++◌, arith,
  if◌then◌else◌, list_eq, number_eq, elem, nat_beq,
}
use nkv.Base.Dict
use nkv.Base.Dict.{Dict}
use nkv.Errors.{Result, ok, err, ◌>>=◌}

pub data FlagParserError : Type 0 where
  duplicate_flag unknown_flag : Text → FlagParserError

-- `Display`
unfoldable pub display_error : FlagParserError → Text
display_error (duplicate_flag flag) = literal "Duplicate flag " ++ flag
display_error (unknown_flag flag) = literal "Unknown flag " ++ flag

pub record FlagParser : Type 0 where
  pub flags : Dict Text (Option Text)

-- `arg.strip_prefix("--")`
unfoldable pub strip_dashes : Text → Option Text
strip_dashes [] = none
strip_dashes (x ∷ []) = none
strip_dashes (x ∷ y ∷ flag) =
    if nat_beq x b'-' then (if nat_beq y b'-' then some flag else none) else none

abbrev pub Flags : Type 0
Flags = Dict Text (Option Text)

-- The loop over the arguments. The one after a flag is its value, if it is no flag itself.
unfoldable pub parse_args :
    List Text → Flags → List Text → Result (Flags × List Text) FlagParserError
unfolding strip_dashes
parse_args [] flags positional = ok (flags, positional)
parse_args (arg ∷ []) flags positional = elim (strip_dashes arg) [
  | none ↦ ok (flags, positional ++ arg ∷ [])
  | some flag ↦
      if Dict.contains_key flag flags
      then err (duplicate_flag flag)
      else ok (Dict.insert flag none flags, positional)
]
parse_args (arg ∷ value ∷ more) flags positional = elim (strip_dashes arg) [
  | none ↦ parse_args (value ∷ more) flags (positional ++ arg ∷ [])
  | some flag ↦
      if Dict.contains_key flag flags
      then err (duplicate_flag flag)
      else elim (strip_dashes value) [
        | some _ ↦ parse_args (value ∷ more) (Dict.insert flag none flags) positional
        | none ↦ parse_args more (Dict.insert flag (some value) flags) positional
      ]
]

-- `flags.keys().find(|&key| !allowed_set.contains(key))`
unfoldable pub find_unknown : List Text → List Text → Option Text
find_unknown allowed [] = none
find_unknown allowed (flag ∷ flags) =
    let later = find_unknown allowed flags in if elem flag allowed then later else some flag

unfoldable pub check_allowed : Option (List Text) → Flags → Result (Unit {0}) FlagParserError
unfolding find_unknown
check_allowed none flags = ok tt
check_allowed (some allowed) flags = elim (find_unknown allowed (Dict.keys flags)) [
  | none ↦ ok tt
  | some flag ↦ err (unknown_flag flag)
]

-- `FlagParser::new`; the first argument is the name of the program.
unfoldable pub new :
    List Text → Option (List Text) → Result (FlagParser × List Text) FlagParserError
unfolding parse_args check_allowed
new [] allowed = check_allowed allowed [] >>= λ _. ok (record { flags = [] }, [])
new (program ∷ args) allowed = parse_args args [] [] >>= λ found.
    check_allowed allowed found.0 >>= λ _. ok (record { flags = found.0 }, found.1)

unfoldable pub get : FlagParser → Text → Option (Option Text)
get p flag = Dict.lookup flag p.flags
