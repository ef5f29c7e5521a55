-- ===== src/FlagParser/Allowed.antt =====
-- `FlagParser::new` of src/flag_parser.rs with a list of allowed flags.
use nkv.Base.{
  Text, false, none, some, List, [], ◌∷◌, ◌≡◌, refl, sym, arith, elem, list_eq, number_eq, eq_iff,
  Option-cases, inl, inr,
}
use nkv.Base.Dict
use nkv.Errors.{Result, ok, err, ◌>>=◌}
use nkv.FlagParser
use nkv.FlagParser.{
  FlagParser, FlagParserError, Flags, unknown_flag, find_unknown, check_allowed, parse_args,
}

lookup_allowed :
    (allowed : List Text) (flags : Flags) (flag : Text)
    → find_unknown allowed (Dict.keys flags) ≡ none
    → elem flag allowed ≡ false
    → Dict.lookup flag flags ≡ none
unfolding find_unknown Dict.keys Dict.lookup
lookup_allowed allowed [] flag h absent = refl
lookup_allowed allowed ((k, v) ∷ flags) flag h absent =
    ground (arith, eq_iff k flag, h, absent, lookup_allowed allowed flags flag)

-- What `new` does with the parsed arguments.
abbrev checked :
    List Text
    → Result (Flags × List Text) FlagParserError
    → Result (FlagParser × List Text) FlagParserError
checked allowed parsed = parsed >>= λ found.
    check_allowed (some allowed) found.0 >>= λ _. ok (record { flags = found.0 }, found.1)

flags_allowed :
    (allowed : List Text) (parsed : Result (Flags × List Text) FlagParserError) (p : FlagParser)
    (positional : List Text)
    → checked allowed parsed ≡ ok (p, positional)
    → find_unknown allowed (Dict.keys p.flags) ≡ none
unfolding check_allowed
flags_allowed allowed (err why) p positional made = cc
flags_allowed allowed (ok (flags, rest)) p positional made =
    elim (Option-cases (find_unknown allowed (Dict.keys flags))) [
      | inr (k, e) ↦
          let found : Result (FlagParser × List Text) FlagParserError = err (unknown_flag k) in
          let refused : found ≡ ok (p, positional) = rw (checked, check_allowed, e) at made in cc
      | inl e ↦
          let found : Result (FlagParser × List Text) FlagParserError =
            ok (record { flags = flags }, rest) in
          let taken : found ≡ ok (p, positional) = rw (checked, check_allowed, e) at made in
          let same : flags ≡ p.flags = cc in rw (sym same) e
    ]

-- To.
pub get-new_unknown :
    (args allowed : List Text) (flag : Text) (p : FlagParser) (positional : List Text)
    → FlagParser.new args (some allowed) ≡ ok (p, positional)
    → elem flag allowed ≡ false
    → FlagParser.get p flag ≡ none
unfolding FlagParser.new FlagParser.get
get-new_unknown [] allowed flag p positional made absent =
    lookup_allowed allowed p.flags flag (flags_allowed allowed (ok ([], [])) p positional made)
      absent
get-new_unknown (program ∷ args) allowed flag p positional made absent =
    lookup_allowed allowed p.flags flag
      (flags_allowed allowed (parse_args args [] []) p positional made) absent
