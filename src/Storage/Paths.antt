-- ===== src/Storage/Paths.antt =====
-- The paths of src/storage/file_storage.rs: the file of a key, and the key of a file. A path is
-- the list of its components, with "/" in front of an absolute one; no name in it is a dot.
use nkv.Base.{
  ℕ, zero, suc, Text, literal, false, ◌≡◌, ◌≢◌, refl, ap, Option, none, some, List, [], ◌∷◌, ◌++◌,
  arith, All, Avoids, if◌then◌else◌, ◌==◌, eq_iff, eq_refl, list_eq, number_eq, nat_beq,
  starts_with, split, join, length, length-append, ◌<◌, extend_last, is_some, Bool-cases, inl, inr,
  list_beq,
}

abbrev pub PathBuf : Type 0
PathBuf = List Text

abbrev pub root_dir : Text
root_dir = literal "/"

-- The parts of a path that are names: slashes in a row count as one.
unfoldable pub names : List Text → PathBuf
names [] = []
names (part ∷ parts) = let rest = names parts in if part == [] then rest else part ∷ rest

-- `Path::new(s)`
unfoldable pub parse_path : Text → PathBuf
unfolding names
parse_path s =
    let relative = names (split b'/' s) in
    if starts_with s root_dir then root_dir ∷ relative else relative

-- `Path::join`: an absolute path takes the place of the other.
unfoldable pub join_path : PathBuf → PathBuf → PathBuf
join_path base [] = base
join_path base (name ∷ path) = if name == root_dir then name ∷ path else base ++ name ∷ path

-- `Path::strip_prefix`
unfoldable pub strip_prefix : PathBuf → PathBuf → Option PathBuf
strip_prefix path [] = some path
strip_prefix [] (_ ∷ _) = none
strip_prefix (name ∷ path) (part ∷ prefix) =
    let rest = strip_prefix path prefix in if name == part then rest else none

-- `s.replace(from, to)` for single characters.
unfoldable pub replace : ℕ → ℕ → Text → Text
replace from to [] = []
replace from to (x ∷ s) = (if nat_beq x from then to else x) ∷ replace from to s

-- `s.strip_suffix(suffix)`, and `s.trim_end_matches(suffix)`, which strips as often as it can.
abbrev push_front : ℕ → Option Text → Option Text
push_front x none = none
push_front x (some s) = some (x ∷ s)

unfoldable pub strip_suffix : Text → Text → Option Text
strip_suffix suffix [] = if [] == suffix then some [] else none
strip_suffix suffix (x ∷ s) =
    let shorter = push_front x (strip_suffix suffix s) in
    if (x ∷ s) == suffix then some [] else shorter

unfoldable trim_loop : ℕ → Text → Text → Text
unfolding strip_suffix
trim_loop zero suffix s = s
trim_loop (suc fuel) suffix s = elim (strip_suffix suffix s) [
  | none ↦ s
  | some shorter ↦ trim_loop fuel suffix shorter
]

unfoldable pub trim_end_matches : Text → Text → Text
unfolding trim_loop
trim_end_matches suffix s = trim_loop (length s) suffix s

abbrev pub extension : Text
extension = literal ".json"

unfoldable pub key_to_path : Text → Text
unfolding replace
key_to_path key = replace b'.' b'/' key ++ extension

unfoldable pub path_to_key : PathBuf → PathBuf → Text
unfolding strip_prefix trim_end_matches replace strip_suffix
path_to_key path prefix = elim (strip_prefix path prefix) [
  | none ↦ []
  | some stripped ↦
      let input_str = join b'/' stripped in
      if is_some (strip_suffix extension input_str)
      then replace b'/' b'.' (trim_end_matches extension input_str)
      else []
]

-- `self.digest.join(Self::key_to_path(key))`
unfoldable pub file_path : PathBuf → Text → PathBuf
unfolding join_path parse_path key_to_path
file_path digest key = join_path digest (parse_path (key_to_path key))

-- A key whose parts are names: none is empty, and none holds a slash.
abbrev pub IsProper : Text → Type 0
IsProper key = All (λ part. part ≢ []) (split b'.' key) × Avoids b'/' key

pub split-replace :
    (key : Text) → Avoids b'/' key → split b'/' (replace b'.' b'/' key) ≡ split b'.' key
unfolding split replace
split-replace [] h = refl
split-replace (x ∷ key) h = ground (arith, split-replace key h.1)

pub replace-replace :
    (key : Text) → Avoids b'/' key → replace b'/' b'.' (replace b'.' b'/' key) ≡ key
unfolding replace
replace-replace [] h = refl
replace-replace (x ∷ key) h = ground (arith, replace-replace key h.1)

replace-Avoids : (key : Text) → Avoids b'.' (replace b'.' b'/' key)
unfolding replace
replace-Avoids [] = tt
replace-Avoids (x ∷ key) = (ground arith, replace-Avoids key)

longer : (suffix : Text) (x : ℕ) (s : Text) → ((x ∷ s ++ suffix) == suffix) ≡ false
longer suffix x s = elim (Bool-cases ((x ∷ s ++ suffix) == suffix)) [
  | inl same ↦
      absurd (
        omega (arith, ap length ((eq_iff (x ∷ s ++ suffix) suffix).0 same), length-append s suffix))
  | inr other ↦ other
]

strip_suffix-append : (suffix s : Text) → strip_suffix suffix (s ++ suffix) ≡ some s
unfolding strip_suffix
strip_suffix-append [] [] = unfold list_beq in refl
strip_suffix-append (y ∷ suffix) [] = rw (eq_refl (y ∷ suffix)) refl
strip_suffix-append suffix (x ∷ s) = rw (longer suffix x s, strip_suffix-append suffix s) refl

strip_suffix_of_Avoids : (s : Text) → Avoids b'.' s → strip_suffix extension s ≡ none
unfolding strip_suffix list_beq
strip_suffix_of_Avoids [] h = refl
strip_suffix_of_Avoids (x ∷ s) h = ground (arith, strip_suffix_of_Avoids s h.1)

trim_once :
    (fuel : ℕ) (suffix s shorter : Text)
    → strip_suffix suffix s ≡ some shorter
    → strip_suffix suffix shorter ≡ none
    → 0 < fuel
    → trim_loop fuel suffix s ≡ shorter
unfolding trim_loop
trim_once zero suffix s shorter first second h = absurd (omega (arith, h))
trim_once (suc zero) suffix s shorter first second h = rw (first, trim_loop) refl
trim_once (suc (suc fuel)) suffix s shorter first second h = rw (first, trim_loop, second) refl

-- The two conversions are inverse where the key holds no slash.
pub trimmed_path :
    (key : Text)
    → Avoids b'/' key
    → (strip_suffix extension (key_to_path key) ≡ some (replace b'.' b'/' key))
      × (trim_end_matches extension (key_to_path key) ≡ replace b'.' b'/' key)
unfolding key_to_path trim_end_matches
trimmed_path key h =
    let name = replace b'.' b'/' key in
    let found = strip_suffix-append extension name in
    (
      found,
      trim_once (length (name ++ extension)) extension (name ++ extension) name found
          (strip_suffix_of_Avoids name (replace-Avoids key))
          (omega (arith, length-append name extension)),
    )

pub extend_last-full :
    (parts : List Text) (t : Text)
    → All (λ part. part ≢ []) parts
    → t ≢ []
    → All (λ part. part ≢ []) (extend_last parts t)
extend_last-full [] t h full = (full, tt)
extend_last-full ([] ∷ []) t h full = absurd (h.0 refl)
extend_last-full ((x ∷ part) ∷ []) t h full = (cc, tt)
extend_last-full (part ∷ next ∷ parts) t h full = (h.0, extend_last-full (next ∷ parts) t h.1 full)

pub names_of_full : (parts : List Text) → All (λ part. part ≢ []) parts → names parts ≡ parts
unfolding names
names_of_full [] h = refl
names_of_full (part ∷ parts) h = ground (arith, eq_iff part [], names_of_full parts h.1)

pub strip_prefix-append : (base rel : PathBuf) → strip_prefix (base ++ rel) base ≡ some rel
unfolding strip_prefix
strip_prefix-append [] [] = refl
strip_prefix-append [] (name ∷ rel) = refl
strip_prefix-append (part ∷ base) rel = rw (eq_refl part, strip_prefix-append base rel) refl
