-- ===== src/Storage/PathLaws.antt =====
-- From a key to its file and back, in src/storage/file_storage.rs.
use nkv.Base.{
  Text, false, ◌≡◌, ◌≢◌, refl, ap, sym, ◌∙◌, [], ◌∷◌, ◌++◌, arith, All, Avoids, ◌==◌, list_eq,
  number_eq, starts_with, split, join-split, split-extend, append-nil, split-Avoids, list_beq,
}
use nkv.Storage.Paths.{
  PathBuf, root_dir, parse_path, join_path, replace, extension, key_to_path, path_to_key, file_path,
  IsProper, names_of_full, extend_last-full, strip_prefix-append, trimmed_path, replace-replace,
  split-replace,
}

extension-Avoids : Avoids b'/' extension
extension-Avoids = (omega arith, (omega arith, (omega arith, (omega arith, (omega arith, tt)))))

key_to_path-full :
    (key : Text) → IsProper key → All (λ part. part ≢ []) (split b'/' (key_to_path key))
unfolding key_to_path
key_to_path-full key (full, plain) =
    rw
      (
        split-extend b'/' (replace b'.' b'/' key) extension extension-Avoids,
        split-replace key plain,
      )
      (extend_last-full (split b'.' key) extension full (λ e. cc))

-- A text that starts with a slash has an empty first part.
starts_with_root :
    (s : Text) → All (λ part. part ≢ []) (split b'/' s) → starts_with s root_dir ≡ false
unfolding starts_with split
starts_with_root [] h = refl
starts_with_root (x ∷ s) h = ground arith

parse_path_of_full :
    (s : Text) → All (λ part. part ≢ []) (split b'/' s) → parse_path s ≡ split b'/' s
unfolding parse_path
parse_path_of_full s h = rw (starts_with_root s h, names_of_full (split b'/' s) h) refl

-- A name without a slash is not the root.
join_path_of_plain :
    (base path : PathBuf) → All (Avoids b'/') path → join_path base path ≡ base ++ path
unfolding join_path
join_path_of_plain base [] h = sym (append-nil base)
join_path_of_plain base (name ∷ path) (plain, _) = rw (other name plain) refl
  where
    other : (name : Text) → Avoids b'/' name → (name == root_dir) ≡ false
    other [] h = unfold list_beq in refl
    other (x ∷ name) h = unfold list_beq in ground arith

pub file_path_of_IsProper :
    (digest : PathBuf) (key : Text)
    → IsProper key
    → file_path digest key ≡ digest ++ split b'/' (key_to_path key)
unfolding file_path
file_path_of_IsProper digest key h =
    let full = key_to_path-full key h in
    ap (join_path digest) (parse_path_of_full (key_to_path key) full)
    ∙ join_path_of_plain digest (split b'/' (key_to_path key)) (split-Avoids b'/' (key_to_path key))

-- The file of a key leads back to the key, if no part of the key is empty and none holds a slash.
pub path_to_key-file_path :
    (digest : PathBuf) (key : Text) → IsProper key → path_to_key (file_path digest key) digest ≡ key
unfolding path_to_key
path_to_key-file_path digest key h =
    let (found, trimmed) = trimmed_path key h.1 in
    rw
      (
        file_path_of_IsProper digest key h,
        path_to_key,
        strip_prefix-append digest (split b'/' (key_to_path key)),
        join-split b'/' (key_to_path key),
        found,
        trimmed,
      )
      (replace-replace key h.1)

-- Different keys have different files.
pub file_path-injective :
    (digest : PathBuf) (j k : Text)
    → IsProper j
    → IsProper k
    → file_path digest j ≡ file_path digest k
    → j ≡ k
file_path-injective digest j k hj hk e =
    sym (path_to_key-file_path digest j hj)
    ∙ ap (λ p. path_to_key p digest) e
    ∙ path_to_key-file_path digest k hk
