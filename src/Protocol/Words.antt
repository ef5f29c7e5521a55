-- ===== src/Protocol/Words.antt =====
-- The functions of Rust's `str` with which src/request_msg.rs cuts a line into words: `splitn`,
-- `split_whitespace`, `find(char::is_whitespace)` and `trim_start`.
use nkv.Base.{
  ℕ, zero, suc, Text, Bool, false, ◌||◌, ◌&&◌, ◌≡◌, ◌≢◌, refl, Option, none, some, List, [], ◌∷◌,
  ◌++◌, arith, if◌then◌else◌, nat_beq, leb, All, Avoids,
}

-- Puts a character in front of the first word.
abbrev pub extend_first : ℕ → List Text → List Text
extend_first x [] = (x ∷ []) ∷ []
extend_first x (word ∷ words) = (x ∷ word) ∷ words

-- `s.splitn(n, c)`: at most `n` parts, the last one is the rest of the text.
unfoldable pub splitn : ℕ → ℕ → Text → List Text
splitn zero c s = []
splitn (suc zero) c s = s ∷ []
splitn (suc (suc n)) c [] = [] ∷ []
splitn (suc (suc n)) c (x ∷ s) =
    let ended = splitn (suc n) c s in
    let longer = splitn (suc (suc n)) c s in
    if nat_beq x c then [] ∷ ended else extend_first x longer

abbrev between : ℕ → ℕ → ℕ → Bool
between low high x = leb low x && leb x high

-- `char::is_whitespace`: the characters with the property White_Space of Unicode.
unfoldable pub is_whitespace : ℕ → Bool
is_whitespace x =
    between 9 13 x
    || nat_beq x 32
    || nat_beq x 133
    || nat_beq x 160
    || nat_beq x 5760
    || between 8192 8202 x
    || between 8232 8233 x
    || nat_beq x 8239
    || nat_beq x 8287
    || nat_beq x 12288

-- The pieces between whitespace characters, the empty ones included.
unfoldable pub split_blank : Text → List Text
split_blank [] = [] ∷ []
split_blank (x ∷ s) =
    let parts = split_blank s in if is_whitespace x then [] ∷ parts else extend_first x parts

abbrev pub non_empty : List Text → List Text
non_empty [] = []
non_empty ([] ∷ words) = non_empty words
non_empty ((x ∷ word) ∷ words) = (x ∷ word) ∷ non_empty words

-- `s.split_whitespace()`
unfoldable pub split_whitespace : Text → List Text
unfolding split_blank
split_whitespace s = non_empty (split_blank s)

-- `s.trim_start()`
unfoldable pub trim_start : Text → Text
trim_start [] = []
trim_start (x ∷ s) = let rest = trim_start s in if is_whitespace x then rest else x ∷ s

-- `s.find(char::is_whitespace)`: the text before the first whitespace character and the text from
-- it on.
unfoldable pub cut_blank : Text → Option (Text × Text)
cut_blank [] = none
cut_blank (x ∷ s) =
    let later = cut_blank s in
    if is_whitespace x
    then some ([], x ∷ s)
    else elim later [ none ↦ none | some (before, from) ↦ some (x ∷ before, from) ]

-- No character of the text is whitespace.
abbrev pub IsSolid : Text → Type 0
IsSolid = All (λ x. is_whitespace x ≡ false)

-- One word of a line.
abbrev pub IsWord : Text → Type 0
IsWord word = IsSolid word × (word ≢ [])

pub splitn_of_Avoids : (n c : ℕ) (word : Text) → Avoids c word → splitn (suc n) c word ≡ word ∷ []
unfolding splitn
splitn_of_Avoids zero c word h = refl
splitn_of_Avoids (suc n) c [] h = refl
splitn_of_Avoids (suc n) c (x ∷ word) h = ground (arith, splitn_of_Avoids (suc n) c word h.1)

pub splitn-append :
    (n c : ℕ) (word s : Text)
    → Avoids c word
    → splitn (suc (suc n)) c (word ++ c ∷ s) ≡ word ∷ splitn (suc n) c s
unfolding splitn
splitn-append n c [] s h = ground arith
splitn-append n c (x ∷ word) s h = ground (arith, splitn-append n c word s h.1)

split_blank-append :
    (word s : Text) → IsSolid word → split_blank (word ++ b' ' ∷ s) ≡ word ∷ split_blank s
unfolding split_blank
split_blank-append [] s h = unfold is_whitespace in refl
split_blank-append (x ∷ word) s h = ground (arith, split_blank-append word s h.1)

split_blank_of_IsSolid : (word : Text) → IsSolid word → split_blank word ≡ word ∷ []
unfolding split_blank
split_blank_of_IsSolid [] h = refl
split_blank_of_IsSolid (x ∷ word) h = ground (arith, split_blank_of_IsSolid word h.1)

pub split_whitespace-append :
    (word s : Text) → IsWord word → split_whitespace (word ++ b' ' ∷ s) ≡ word ∷ split_whitespace s
unfolding split_whitespace
split_whitespace-append [] s h = absurd (h.1 refl)
split_whitespace-append (x ∷ word) s h = rw (split_blank-append (x ∷ word) s h.0) refl

pub split_whitespace_of_IsWord : (word : Text) → IsWord word → split_whitespace word ≡ word ∷ []
unfolding split_whitespace
split_whitespace_of_IsWord [] h = absurd (h.1 refl)
split_whitespace_of_IsWord (x ∷ word) h = rw (split_blank_of_IsSolid (x ∷ word) h.0) refl

pub cut_blank-append :
    (word s : Text) → IsSolid word → cut_blank (word ++ b' ' ∷ s) ≡ some (word, b' ' ∷ s)
unfolding cut_blank
cut_blank-append [] s h = unfold is_whitespace in refl
cut_blank-append (x ∷ word) s h = rw (h.0, cut_blank-append word s h.1) refl

-- A text that starts with a word is not trimmed.
pub trim_start-append : (word s : Text) → IsWord word → trim_start (b' ' ∷ (word ++ s)) ≡ word ++ s
unfolding trim_start is_whitespace
trim_start-append [] s h = absurd (h.1 refl)
trim_start-append (x ∷ word) s h = rw (h.0.0) refl
