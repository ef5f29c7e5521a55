-- ===== src/FlagParser/Tests.antt =====
-- Runs of the parser of src/flag_parser.rs, and its theorem at a concrete command line.
use nkv.Base.{
  Text, literal, ◌≡◌, refl, some, none, List, [], ◌∷◌, ◌++◌, list_beq, list_eq, number_eq, elem,
  All,
}
use nkv.Base.Dict
use nkv.Errors.{ok, err}
use nkv.FlagParser.{
  Flags, new, parse_args, strip_dashes, check_allowed, find_unknown, duplicate_flag, unknown_flag,
}
use nkv.FlagParser.RoundTrip.{print_flags, new-print_flags, IsPlainWord, IsPlainFlag}

code : Unit {0}
unfolding new parse_args strip_dashes check_allowed find_unknown elem list_beq Dict.lookup
    Dict.insert Dict.keys
code = tt

twice :
    new (literal "nkv" ∷ literal "--a" ∷ literal "--a" ∷ []) none
    ≡ err (duplicate_flag (literal "a"))
unfolding code
twice = refl

not_allowed :
    new (literal "nkv" ∷ literal "--a" ∷ literal "1" ∷ []) (some [])
    ≡ err (unknown_flag (literal "a"))
unfolding code
not_allowed = refl

abbrev two_flags : Flags
two_flags = (literal "v", none) ∷ (literal "addr", some (literal "sock")) ∷ []

abbrev allowed_names : List Text
allowed_names = literal "addr" ∷ literal "v" ∷ []

run-IsPlainWord : All IsPlainWord (literal "run" ∷ [])
unfolding code
run-IsPlainWord = (refl, tt)

two_flags-NodupKeys : Dict.NodupKeys two_flags
unfolding code
two_flags-NodupKeys = (refl, (refl, tt))

two_flags-IsPlainFlag : All IsPlainFlag two_flags
unfolding code
two_flags-IsPlainFlag = (tt, (refl, tt))

two_flags_allowed : check_allowed (some allowed_names) two_flags ≡ ok tt
unfolding code
two_flags_allowed = refl

new-print_flags_example :
    new (literal "nkv" ∷ ((literal "run" ∷ []) ++ print_flags two_flags)) (some allowed_names)
    ≡ ok (record { flags = two_flags }, literal "run" ∷ [])
new-print_flags_example =
    new-print_flags (literal "nkv") (literal "run" ∷ []) two_flags (some allowed_names)
      run-IsPlainWord two_flags-NodupKeys two_flags-IsPlainFlag two_flags_allowed
