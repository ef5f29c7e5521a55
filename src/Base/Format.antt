-- ===== src/Base/Format.antt =====
-- The formats of Rust's `std::fmt` that nkv prints with: numbers, and `{:?}` of strings and bytes.
-- The tables of Unicode are an argument.
use Prim.Native.Nat.{ℕ, zero, suc, ◌+◌, ◌-◌}
use mathlib.Core.Bool.{Bool}
use mathlib.Core.List.{List, [], ◌∷◌, ◌++◌}
use nkv.Base.Tests.{if◌then◌else◌, ltb, nat_beq}
use nkv.Base.Strings.{Text, literal}

-- What `char::is_printable` and the property Grapheme_Extend say of a character for `{:?}`: true if
-- it is printed as it is; and `str::to_lowercase`.
pub record Unicode : Type 0 where
  pub is_plain : ℕ → Bool
  pub to_lowercase : Text → Text

-- What `println!` and `writeln!` write.
abbrev pub line : Text → Text
line text = text ++ b'\n' ∷ []

-- Adds one to a number in digits, the last digit first.
abbrev pub bump : ℕ → List ℕ → List ℕ
bump base [] = 1 ∷ []
bump base (d ∷ digits) =
    let carried = bump base digits in if nat_beq (suc d) base then 0 ∷ carried else suc d ∷ digits

abbrev pub count : ℕ → ℕ → List ℕ
count base zero = []
count base (suc n) = bump base (count base n)

abbrev pub digit : ℕ → ℕ
digit d = if ltb d 10 then b'0' + d else b'a' + d - 10

-- The digits in front of a text.
abbrev pub write_digits : List ℕ → Text → Text
write_digits [] out = out
write_digits (d ∷ digits) out = write_digits digits (digit d ∷ out)

abbrev pub in_base : ℕ → ℕ → Text
in_base base zero = literal "0"
in_base base (suc n) = write_digits (count base (suc n)) []

-- `{}` of a number
unfoldable pub decimal : ℕ → Text
decimal n = in_base 10 n

-- `{:?}` of a `Vec<u8>`
abbrev pub more_bytes : List ℕ → Text
more_bytes [] = literal "]"
more_bytes (b ∷ bytes) = literal ", " ++ in_base 10 b ++ more_bytes bytes

unfoldable pub debug_bytes : List ℕ → Text
debug_bytes [] = literal "[]"
debug_bytes (b ∷ bytes) = literal "[" ++ in_base 10 b ++ more_bytes bytes

module _ (U : Unicode) where
  -- `char::escape_debug`, as `{:?}` of a string uses it.
  abbrev pub escape : ℕ → Text
  escape c =
      if nat_beq c 0
      then literal "\\0"
      else if nat_beq c b'\t'
      then literal "\\t"
      else if nat_beq c b'\r'
      then literal "\\r"
      else if nat_beq c b'\n'
      then literal "\\n"
      else if nat_beq c 34
      then literal "\\\""
      else if nat_beq c 92
      then literal "\\\\"
      else if U.is_plain c
      then c ∷ []
      else literal "\\u{" ++ in_base 16 c ++ literal "}"

  abbrev pub escaped : Text → Text
  escaped [] = []
  escaped (c ∷ s) = escape c ++ escaped s

  -- `{:?}` of a string
  unfoldable pub quote : Text → Text
  quote s = literal "\"" ++ escaped s ++ literal "\""
