-- ===== src/Base/Utf8.antt =====
-- `str::as_bytes` and `String::from_utf8`: a text and its UTF-8 encoding.
use Prim.Native.Nat.{ℕ, zero, suc, ◌+◌, ◌-◌, ◌*◌, ◌/◌, ◌%◌, ◌≤◌, ◌<◌}
use mathlib.Core.Path.{◌≡◌, refl, ◌∙◌}
use mathlib.Core.Logic.{◌≢◌, inl, inr}
use mathlib.Core.Bool.{Bool, true, ◌&&◌, ◌||◌}
use mathlib.Core.Option.{Option, none, some}
use mathlib.Core.List.{List, [], ◌∷◌, ◌++◌}
use native.Mathlib.Omega.{arith}
use nkv.Base.Tests.{if◌then◌else◌, ltb, leb, nat_beq, Bool-cases}
use nkv.Base.Lists.{All}
use nkv.Base.Strings.{Text}

-- A byte after the first one of a character.
abbrev tail_byte : ℕ → ℕ
tail_byte n = 128 + n % 64

abbrev pub encode_char : ℕ → List ℕ
encode_char c =
    if ltb c 0x80
    then c ∷ []
    else if ltb c 0x800
    then (192 + c / 64) ∷ tail_byte c ∷ []
    else if ltb c 0x10000
    then (224 + c / 4096) ∷ tail_byte (c / 64) ∷ tail_byte c ∷ []
    else (240 + c / 262144) ∷ tail_byte (c / 4096) ∷ tail_byte (c / 64) ∷ tail_byte c ∷ []

-- `s.as_bytes()`
unfoldable pub as_bytes : Text → List ℕ
as_bytes [] = []
as_bytes (c ∷ s) = encode_char c ++ as_bytes s

-- The Unicode scalar values: no surrogates, and none above 0x10ffff.
abbrev is_scalar : ℕ → Bool
is_scalar c = ltb c 0xd800 || (leb 0xe000 c && leb c 0x10ffff)

-- Between two bytes: how many bytes of a character are to come, what the bytes before them give,
-- and the least character that needs as many bytes.
pub record Reader : Type 0 where
  pub awaited : ℕ
  pub number : ℕ
  pub least : ℕ

-- What a byte does: the reader after it, and the character that it ends.
abbrev Move : Type 0
Move = Option (Reader × Option ℕ)

abbrev idle : Reader
idle = record { awaited = 0; number = 0; least = 0 }

-- The first byte of a character.
unfoldable lead : ℕ → Move
lead b =
    if ltb b 128
    then some (idle, some b)
    else if ltb b 192
    then none
    else if ltb b 224
    then some (record { awaited = 1; number = b - 192; least = 0x80 }, none)
    else if ltb b 240
    then some (record { awaited = 2; number = b - 224; least = 0x800 }, none)
    else if ltb b 248
    then some (record { awaited = 3; number = b - 240; least = 0x10000 }, none)
    else none

-- A further byte; the last one ends the character, which must be one that needs its bytes.
unfoldable follow : ℕ → ℕ → ℕ → ℕ → Move
follow more number least b =
    let c = number * 64 + (b - 128) in
    if leb 128 b && ltb b 192
    then elim more [
      | zero ↦ if leb least c && is_scalar c then some (idle, some c) else none
      | suc n ↦ some (record { awaited = suc n; number = c; least = least }, none)
    ]
    else none

unfoldable step : Reader → ℕ → Move
unfolding lead follow
step r b = elim r.awaited [ zero ↦ lead b | suc more ↦ follow more r.number r.least b ]

abbrev push_read : Option ℕ → Option Text → Option Text
push_read none s = s
push_read (some c) none = none
push_read (some c) (some s) = some (c ∷ s)

-- The bytes must not end within a character.
unfoldable read : Reader → List ℕ → Option Text
unfolding step
read r [] = if nat_beq r.awaited 0 then some [] else none
read r (b ∷ bytes) = elim (step r b) [
  | none ↦ none
  | some (r', found) ↦ push_read found (read r' bytes)
]

-- `String::from_utf8(bytes)`
unfoldable pub from_utf8 : List ℕ → Option Text
unfolding read
from_utf8 bytes = read idle bytes

abbrev pub IsText : Text → Type 0
IsText = All (λ c. is_scalar c ≡ true)

-- The first byte tells how many bytes are to come.
lead_two :
    (c : ℕ)
    → 128 ≤ c
    → c < 0x800
    → lead (192 + c / 64) ≡ some (record { awaited = 1; number = c / 64; least = 0x80 }, none)
unfolding lead
lead_two c h h' = ground (arith, h, h')

lead_three :
    (c : ℕ)
    → 0x800 ≤ c
    → c < 0x10000
    → lead (224 + c / 4096) ≡ some (record { awaited = 2; number = c / 4096; least = 0x800 }, none)
unfolding lead
lead_three c h h' = ground (arith, h, h')

lead_four :
    (c : ℕ)
    → 0x10000 ≤ c
    → c < 0x110000
    → lead (240 + c / 262144)
      ≡ some (record { awaited = 3; number = c / 262144; least = 0x10000 }, none)
unfolding lead
lead_four c h h' = ground (arith, h, h')

-- A byte that is not the last one of its character.
next_byte :
    (c n more least : ℕ)
    → n ≡ c / 64
    → follow (suc more) n least (tail_byte c)
      ≡ some (record { awaited = suc more; number = c; least = least }, none)
unfolding follow
next_byte c n more least e =
    let within : (leb 128 (tail_byte c) && ltb (tail_byte c) 192) ≡ true = ground arith in
    let value : n * 64 + (tail_byte c - 128) ≡ c = omega (arith, e) in rw (within, value) refl

last_byte :
    (c n least : ℕ)
    → n ≡ c / 64
    → least ≤ c
    → is_scalar c ≡ true
    → follow 0 n least (tail_byte c) ≡ some (idle, some c)
unfolding follow
last_byte c n least e h ok =
    let within : (leb 128 (tail_byte c) && ltb (tail_byte c) 192) ≡ true = ground arith in
    let value : n * 64 + (tail_byte c - 128) ≡ c = omega (arith, e) in
    let enough : leb least c ≡ true = ground (arith, h) in rw (within, value, enough, ok) refl

scalar_lt : (c : ℕ) → is_scalar c ≡ true → c < 0x110000
scalar_lt c ok = ground (arith, ok)

read_step :
    (r r' : Reader) (b : ℕ) (found : Option ℕ) (bytes : List ℕ)
    → step r b ≡ some (r', found)
    → read r (b ∷ bytes) ≡ push_read found (read r' bytes)
unfolding read
read_step r r' b found bytes e = rw (read, e) refl

read_two :
    (c : ℕ) (bytes : List ℕ)
    → 128 ≤ c
    → c < 0x800
    → is_scalar c ≡ true
    → read idle ((192 + c / 64) ∷ tail_byte c ∷ bytes) ≡ push_read (some c) (read idle bytes)
unfolding step
read_two c bytes h h' ok =
    read_step _ _ _ none _ (lead_two c h h')
    ∙ read_step _ _ _ (some c) bytes (last_byte c (c / 64) 0x80 refl h ok)

read_three :
    (c : ℕ) (bytes : List ℕ)
    → 0x800 ≤ c
    → c < 0x10000
    → is_scalar c ≡ true
    → read idle ((224 + c / 4096) ∷ tail_byte (c / 64) ∷ tail_byte c ∷ bytes)
      ≡ push_read (some c) (read idle bytes)
unfolding step
read_three c bytes h h' ok =
    read_step _ _ _ none _ (lead_three c h h')
    ∙ read_step _ _ _ none _ (next_byte (c / 64) (c / 4096) 0 0x800 (omega arith))
    ∙ read_step _ _ _ (some c) bytes (last_byte c (c / 64) 0x800 refl h ok)

read_four :
    (c : ℕ) (bytes : List ℕ)
    → 0x10000 ≤ c
    → is_scalar c ≡ true
    → read idle
        ((240 + c / 262144) ∷ tail_byte (c / 4096) ∷ tail_byte (c / 64) ∷ tail_byte c ∷ bytes)
      ≡ push_read (some c) (read idle bytes)
unfolding step
read_four c bytes h ok =
    read_step _ _ _ none _ (lead_four c h (scalar_lt c ok))
    ∙ read_step _ _ _ none _ (next_byte (c / 4096) (c / 262144) 1 0x10000 (omega arith))
    ∙ read_step _ _ _ none _ (next_byte (c / 64) (c / 4096) 0 0x10000 (omega arith))
    ∙ read_step _ _ _ (some c) bytes (last_byte c (c / 64) 0x10000 refl h ok)

-- The four lengths of a character.
read-encode_char :
    (c : ℕ) (bytes : List ℕ)
    → is_scalar c ≡ true
    → read idle (encode_char c ++ bytes) ≡ push_read (some c) (read idle bytes)
unfolding step
read-encode_char c bytes ok = elim (Bool-cases (ltb c 0x80)) [
  | inl e ↦ rw e (read_step _ _ _ (some c) bytes (unfold lead in ground (arith, e)))
  | inr e ↦ elim (Bool-cases (ltb c 0x800)) [
    | inl e' ↦ rw (e, e') (read_two c bytes (ground (arith, e)) (ground (arith, e')) ok)
    | inr e' ↦ elim (Bool-cases (ltb c 0x10000)) [
      | inl e2 ↦ rw (e, e', e2) (read_three c bytes (ground (arith, e')) (ground (arith, e2)) ok)
      | inr e2 ↦ rw (e, e', e2) (read_four c bytes (ground (arith, e2)) ok)
    ]
  ]
]

pub from_utf8-as_bytes : (s : Text) → IsText s → from_utf8 (as_bytes s) ≡ some s
unfolding from_utf8 as_bytes
from_utf8-as_bytes [] ok = unfold read in refl
from_utf8-as_bytes (c ∷ s) ok =
    rw (read-encode_char c (as_bytes s) ok.0, from_utf8-as_bytes s ok.1) refl

pub as_bytes-ne-nil : (s : Text) → s ≢ [] → as_bytes s ≢ []
unfolding as_bytes
as_bytes-ne-nil [] h = absurd (h refl)
as_bytes-ne-nil (c ∷ s) h = ground arith

-- The euro sign has three bytes; a lone byte of a longer character is refused.
decoded : from_utf8 (226 ∷ 130 ∷ 172 ∷ []) ≡ some (8364 ∷ [])
unfolding from_utf8 read step lead follow
decoded = refl

refused : from_utf8 (192 ∷ 128 ∷ []) ≡ none
unfolding from_utf8 read step lead follow
refused = refl
