-- ===== src/Protocol/Trim.antt =====
-- `str::trim_end`, which the two ends of a connection call on a line, and the texts that it keeps.
use nkv.Base.{ℕ, Text, false, [], ◌∷◌, ◌++◌, ◌≡◌, ◌≢◌, refl, if◌then◌else◌}
use nkv.Protocol.Words.{is_whitespace, IsWord}

-- `line.trim_end()`
unfoldable pub trim_end : Text → Text
trim_end [] = []
trim_end (x ∷ s) =
    let rest = trim_end s in
    elim rest [ [] ↦ if is_whitespace x then [] else x ∷ [] | ◌∷◌ y more ↦ x ∷ y ∷ more ]

-- `trim_end` cuts the text behind `s` and nothing of `s`.
abbrev pub IsTrimmed : Text → Text → Type 0
IsTrimmed tail s = (trim_end (s ++ tail) ≡ s) × (s ≢ [])

pub trim_end-newline : trim_end (b'\n' ∷ []) ≡ []
unfolding trim_end is_whitespace
trim_end-newline = refl

trim_end-cons : (x : ℕ) (rest s : Text) → trim_end rest ≡ s → s ≢ [] → trim_end (x ∷ rest) ≡ x ∷ s
unfolding trim_end
trim_end-cons x rest [] e h = absurd (h refl)
trim_end-cons x rest (y ∷ s) e h = rw (trim_end, e) refl

trim_end_last :
    (x : ℕ) (rest : Text)
    → trim_end rest ≡ []
    → is_whitespace x ≡ false
    → trim_end (x ∷ rest) ≡ x ∷ []
unfolding trim_end
trim_end_last x rest e h = rw (trim_end, e, h) refl

pub trim_end-blank_newline : trim_end (b' ' ∷ b'\n' ∷ []) ≡ []
unfolding trim_end is_whitespace
trim_end-blank_newline = refl

module _ (tail : Text) (cut : trim_end tail ≡ []) where
  pub word-IsTrimmed : (word : Text) → IsWord word → IsTrimmed tail word
  word-IsTrimmed [] h = absurd (h.1 refl)
  word-IsTrimmed (x ∷ []) h = (trim_end_last x tail cut h.0.0, λ e. cc)
  word-IsTrimmed (x ∷ y ∷ word) h =
      let (kept, _) = word-IsTrimmed (y ∷ word) (h.0.1, λ e. cc) in
      (trim_end-cons x (y ∷ word ++ tail) (y ∷ word) kept (λ e. cc), λ e. cc)

pub append-IsTrimmed : (tail before s : Text) → IsTrimmed tail s → IsTrimmed tail (before ++ s)
append-IsTrimmed tail [] s h = h
append-IsTrimmed tail (x ∷ before) s h =
    let (kept, given) = append-IsTrimmed tail before s h in
    (trim_end-cons x (before ++ s ++ tail) (before ++ s) kept given, λ e. cc)

abbrev pub newline : Text
newline = b'\n' ∷ []
