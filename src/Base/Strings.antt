-- ===== src/Base/Strings.antt =====
-- Texts as lists of code points, with the functions of Rust's `str` that nkv calls on keys:
-- `contains`, `starts_with`, `split` at a character, and `join`.
use Prim.Native.Nat.{ℕ}
use Prim.Native.Char.{code}
use Prim.Native.String.{String}
use mathlib.Core.Path.{◌≡◌, refl, ap, ◌∙◌}
use mathlib.Core.Logic.{◌≢◌, inl, inr}
use mathlib.Core.Bool.{Bool, true, false, ◌&&◌, ◌||◌}
use mathlib.Core.List.{List, [], ◌∷◌, ◌++◌}
use native.Mathlib.Omega.{arith}
use nkv.Base.Tests.{if◌then◌else◌, nat_beq, Bool-cases}
use nkv.Base.Lists.{All}

abbrev pub Text : Type 0
Text = List ℕ

-- A string literal of the source as a text.
abbrev pub literal : (quoted : String) → Text
literal (String.◌∷◌ first rest) = code first ∷ literal rest
literal String.[] = []

-- `s.contains(c)` for a single character.
unfoldable pub contains_char : ℕ → Text → Bool
contains_char c [] = false
contains_char c (x ∷ s) = nat_beq x c || contains_char c s

-- `s.starts_with(prefix)`.
unfoldable pub starts_with : Text → Text → Bool
starts_with s [] = true
starts_with [] (p ∷ prefix) = false
starts_with (x ∷ s) (p ∷ prefix) = nat_beq x p && starts_with s prefix

abbrev cons_head : ℕ → List Text → List Text
cons_head c [] = (c ∷ []) ∷ []
cons_head c (part ∷ parts) = (c ∷ part) ∷ parts

-- `s.split(c)`: one part more than there are separators, so never the empty list.
unfoldable pub split : ℕ → Text → List Text
split c [] = [] ∷ []
split c (x ∷ s) = let parts = split c s in if nat_beq x c then [] ∷ parts else cons_head x parts

-- `parts.join(c)`.
unfoldable pub join : ℕ → List Text → Text
join c [] = []
join c (part ∷ []) = part
join c (part ∷ next ∷ parts) = part ++ c ∷ join c (next ∷ parts)

-- No character of the text is `c`.
abbrev pub Avoids : ℕ → Text → Type 0
Avoids c = All (λ x. x ≢ c)

pub split-ne-nil : (c : ℕ) (s : Text) → split c s ≢ []
unfolding split
split-ne-nil c [] = cc
split-ne-nil c (x ∷ s) = ground (arith, split-ne-nil c s)

join-cons_head :
    (c x : ℕ) (parts : List Text) → parts ≢ [] → join c (cons_head x parts) ≡ x ∷ join c parts
unfolding join
join-cons_head c x [] h = absurd (h refl)
join-cons_head c x (part ∷ []) h = refl
join-cons_head c x (part ∷ next ∷ parts) h = refl

join-nil_cons : (c : ℕ) (parts : List Text) → parts ≢ [] → join c ([] ∷ parts) ≡ c ∷ join c parts
unfolding join
join-nil_cons c [] h = absurd (h refl)
join-nil_cons c (part ∷ parts) h = refl

-- Joining the parts of a split gives the text back.
pub join-split : (c : ℕ) (s : Text) → join c (split c s) ≡ s
unfolding split
join-split c [] = unfold join in refl
join-split c (x ∷ s) = ground (
  arith,
  join-split c s,
  join-cons_head c x (split c s) (split-ne-nil c s),
  join-nil_cons c (split c s) (split-ne-nil c s),
)

split_of_Avoids : (c : ℕ) (s : Text) → Avoids c s → split c s ≡ s ∷ []
unfolding split
split_of_Avoids c [] h = refl
split_of_Avoids c (x ∷ s) h = ground (arith, split_of_Avoids c s h.1)

-- The first part ends at the first separator.
pub split-append :
    (c : ℕ) (part s : Text) → Avoids c part → split c (part ++ c ∷ s) ≡ part ∷ split c s
unfolding split
split-append c [] s h = ground arith
split-append c (x ∷ part) s h = ground (arith, split-append c part s h.1)

-- Splitting a joined list gives the parts back, if no part holds the separator.
pub split-join :
    (c : ℕ) (part : Text) (parts : List Text)
    → All (Avoids c) (part ∷ parts)
    → split c (join c (part ∷ parts)) ≡ part ∷ parts
unfolding join
split-join c part [] h = split_of_Avoids c part h.0
split-join c part (next ∷ parts) h =
    split-append c part (join c (next ∷ parts)) h.0
    ∙ ap (λ ps. part ∷ ps) (split-join c next parts h.1)

-- What comes behind the last part.
abbrev pub extend_last : List Text → Text → List Text
extend_last [] t = t ∷ []
extend_last (part ∷ []) t = (part ++ t) ∷ []
extend_last (part ∷ next ∷ parts) t = part ∷ extend_last (next ∷ parts) t

extend_last-cons_head :
    (x : ℕ) (parts : List Text) (t : Text)
    → parts ≢ []
    → (extend_last (cons_head x parts) t ≡ cons_head x (extend_last parts t))
      × (extend_last ([] ∷ parts) t ≡ [] ∷ extend_last parts t)
extend_last-cons_head x [] t h = absurd (h refl)
extend_last-cons_head x (part ∷ []) t h = (refl, refl)
extend_last-cons_head x (part ∷ next ∷ parts) t h = (refl, refl)

-- A text without the separator joins the last part.
pub split-extend : (c : ℕ) (s t : Text) → Avoids c t → split c (s ++ t) ≡ extend_last (split c s) t
unfolding split
split-extend c [] t h = split_of_Avoids c t h
split-extend c (x ∷ s) t h =
    let full = split-ne-nil c s in
    ground (arith, split-extend c s t h, extend_last-cons_head x (split c s) t full)

-- No part of a split holds the separator.
cons_head-Avoids :
    (c x : ℕ) (parts : List Text)
    → x ≢ c
    → All (Avoids c) parts
    → All (Avoids c) (cons_head x parts)
cons_head-Avoids c x [] other h = ((other, tt), tt)
cons_head-Avoids c x (part ∷ parts) other h = ((other, h.0), h.1)

pub split-Avoids : (c : ℕ) (s : Text) → All (Avoids c) (split c s)
unfolding split
split-Avoids c [] = (tt, tt)
split-Avoids c (x ∷ s) = elim (Bool-cases (nat_beq x c)) [
  | inl same ↦ rw same (tt, split-Avoids c s)
  | inr other ↦
      rw other (cons_head-Avoids c x (split c s) (ground (arith, other)) (split-Avoids c s))
]
