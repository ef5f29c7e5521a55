-- ===== src/FlagParser/RoundTrip.antt =====
-- The parser of src/flag_parser.rs on command lines that list arguments and then flags.
use nkv.Base.{
  Text, ◌≡◌, refl, ap, ◌∙◌, Option, some, none, List, [], ◌∷◌, ◌++◌, arith, All, list_eq, number_eq,
  append-nil, append_assoc,
}
use nkv.Base.Dict
use nkv.Errors.{ok}
use nkv.FlagParser.{Flags, strip_dashes, parse_args, check_allowed, new}

abbrev pub dashed : Text → Text
dashed flag = b'-' ∷ b'-' ∷ flag

-- The words of the flags on a command line.
unfoldable pub print_flags : Flags → List Text
print_flags [] = []
print_flags ((flag, none) ∷ flags) = dashed flag ∷ print_flags flags
print_flags ((flag, some value) ∷ flags) = dashed flag ∷ value ∷ print_flags flags

-- No word of its own starts with two dashes.
abbrev pub IsPlainWord : Text → Type 0
IsPlainWord word = strip_dashes word ≡ none

abbrev pub IsPlainFlag : Text × Option Text → Type 0
IsPlainFlag (flag, none) = Unit
IsPlainFlag (flag, some value) = IsPlainWord value

parse_args-plain :
    (arg : Text) (args positional : List Text) (flags : Flags)
    → IsPlainWord arg
    → parse_args (arg ∷ args) flags positional ≡ parse_args args flags (positional ++ arg ∷ [])
unfolding parse_args
parse_args-plain arg [] positional flags h = rw (parse_args, h) refl
parse_args-plain arg (value ∷ more) positional flags h = rw (parse_args, h) refl

parse_args-switch :
    (flag : Text) (later found : Flags) (positional : List Text)
    → Dict.lookup flag found ≡ none
    → parse_args (dashed flag ∷ print_flags later) found positional
      ≡ parse_args (print_flags later) (Dict.insert flag none found) positional
unfolding parse_args strip_dashes print_flags
parse_args-switch flag [] found positional h = ground arith
parse_args-switch flag ((next, none) ∷ later) found positional h = rw h refl
parse_args-switch flag ((next, some value) ∷ later) found positional h = rw h refl

parse_args-value :
    (flag value : Text) (args positional : List Text) (found : Flags)
    → Dict.lookup flag found ≡ none
    → IsPlainWord value
    → parse_args (dashed flag ∷ value ∷ args) found positional
      ≡ parse_args args (Dict.insert flag (some value) found) positional
unfolding parse_args
parse_args-value flag value args positional found h plain = rw (parse_args, h, plain) refl

parse_args-print_flags :
    (flags found : Flags) (positional : List Text)
    → Dict.NodupKeys (found ++ flags)
    → All IsPlainFlag flags
    → parse_args (print_flags flags) found positional ≡ ok (found ++ flags, positional)
unfolding print_flags
parse_args-print_flags [] found positional h plain =
    rw (append-nil found) (unfold parse_args in refl)
parse_args-print_flags ((flag, none) ∷ flags) found positional h plain =
    let later = append_assoc found ((flag, none) ∷ []) flags in
    parse_args-switch flag flags found positional (Dict.lookup_fresh found flags flag none h)
    ∙ ap (λ d. parse_args (print_flags flags) d positional)
        (Dict.insert-append found flags flag none h)
    ∙ parse_args-print_flags flags (found ++ (flag, none) ∷ []) positional (rw later h) plain.1
    ∙ ap (λ d. ok (d, positional)) later
parse_args-print_flags ((flag, some value) ∷ flags) found positional h plain =
    let later = append_assoc found ((flag, some value) ∷ []) flags in
    parse_args-value flag value (print_flags flags) positional found
      (Dict.lookup_fresh found flags flag (some value) h) plain.0
    ∙ ap (λ d. parse_args (print_flags flags) d positional)
        (Dict.insert-append found flags flag (some value) h)
    ∙ parse_args-print_flags flags (found ++ (flag, some value) ∷ []) positional (rw later h)
        plain.1
    ∙ ap (λ d. ok (d, positional)) later

parse_args-append :
    (args later positional : List Text) (found : Flags)
    → All IsPlainWord args
    → parse_args (args ++ later) found positional ≡ parse_args later found (positional ++ args)
parse_args-append [] later positional found h = rw (append-nil positional) refl
parse_args-append (arg ∷ args) later positional found h =
    parse_args-plain arg (args ++ later) positional found h.0
    ∙ parse_args-append args later (positional ++ arg ∷ []) found h.1
    ∙ ap (parse_args later found) (append_assoc positional (arg ∷ []) args)

-- A command line of plain arguments and then distinct flags, whose values do not start with two
-- dashes, is parsed to these flags and arguments, if every flag is allowed.
pub new-print_flags :
    (program : Text) (args : List Text) (flags : Flags) (allowed : Option (List Text))
    → All IsPlainWord args
    → Dict.NodupKeys flags
    → All IsPlainFlag flags
    → check_allowed allowed flags ≡ ok tt
    → new (program ∷ (args ++ print_flags flags)) allowed ≡ ok (record { flags = flags }, args)
unfolding new
new-print_flags program args flags allowed plain nodup values permitted =
    rw
      (
        new,
        parse_args-append args (print_flags flags) [] [] plain,
        parse_args-print_flags flags [] args nodup values,
        permitted,
      )
      refl
