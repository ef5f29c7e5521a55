-- ===== src/Storage/FileLaws.antt =====
-- What `atomic_write` of src/storage/file_storage.rs does to the files.
use nkv.Base.{
  Text, literal, Bool, true, false, ◌&&◌, ◌≡◌, ◌≢◌, refl, ap, sym, ◌∙◌, Option, none, some, List,
  [], ◌∷◌, ◌++◌, arith, if◌then◌else◌, ◌==◌, eq_iff, eq_refl, list_eq, number_eq, Bool-cases, inl,
  inr, ◌⊎◌, length, length-append, list_beq,
}
use nkv.Errors.{Result, ok, err, IoError, IoResult}
use nkv.Storage.{Bytes}
use nkv.Storage.Paths.{PathBuf, root_dir}
use nkv.Storage.FileSystem.{FileSystem, View, IsLawful}
use nkv.Storage.Files.{
  parent, parent_or_here, atomic_write, fill_and_move, create_parent, move_to, ◌then◌, then_ok,
  then_err,
}

abbrev pub is_ok : IoResult → Bool
is_ok (ok _) = true
is_ok (err _) = false

pub Result-cases :
    {A : Type 0} (r : Result A IoError) → ((a : A) × (r ≡ ok a)) ⊎ ((e : IoError) × (r ≡ err e))
Result-cases (ok a) = inl (a, refl)
Result-cases (err e) = inr (e, refl)

distinct : {p q : PathBuf} → p ≢ q → (p == q) ≡ false
distinct {p} {q} h = ground (arith, eq_iff p q)

and_false : (d : Bytes) (b : Bool) → none ≡ (if b && false then some d else none)
and_false d true = refl
and_false d false = refl

module _ {F : FileSystem} {V : View F} (L : IsLawful F V) where
  file-create_parent :
      (o : Option PathBuf) (s : F.State) (q : PathBuf)
      → V.file (create_parent F o s).0 q ≡ V.file s q
  file-create_parent none s q = refl
  file-create_parent (some dir) s q = L.file-create_dir_all s dir q

  -- What stands under the temporary name moves to the target, or stays.
  move_to-Writes :
      (s : F.State) (tmp target q : PathBuf) (d : Bytes)
      → V.file s tmp ≡ some d
      → (tmp == q) ≡ false
      → V.file (move_to F s tmp target).0 q
        ≡ (if is_ok (move_to F s tmp target).1 && target == q then some d else V.file s q)
  unfolding move_to
  move_to-Writes s tmp target q d full other =
      let c = create_parent F (parent target) s in
      let next = λ (t : F.State). F.rename t tmp target in
      let same = file-create_parent (parent target) s in
      elim (Result-cases c.1) [
        | inr (e, failed) ↦ rw (then_err c next e failed) (same q)
        | inl (_, made) ↦ elim (Result-cases (F.rename c.0 tmp target).1) [
          | inr (e, failed) ↦
              rw (then_ok c next made, failed) (L.rename_err c.0 tmp target q e failed ∙ same q)
          | inl (_, moved) ↦
              rw
                (
                  then_ok c next made,
                  moved,
                  L.rename_ok c.0 tmp target q moved,
                  same tmp,
                  full,
                  other,
                  same q,
                )
                refl
        ]
      ]

  -- Up to the first error no file but the temporary one changes.
  fill_and_move-Writes :
      (s : F.State) (tmp target q : PathBuf) (d : Bytes)
      → V.file s tmp ≡ some []
      → (tmp == q) ≡ false
      → V.file (fill_and_move F s tmp d target).0 q
        ≡ (if is_ok (fill_and_move F s tmp d target).1 && target == q then some d else V.file s q)
  unfolding fill_and_move
  fill_and_move-Writes s tmp target q d fresh other =
      let w = F.write_all s tmp d in
      let next = λ (t : F.State). move_to F t tmp target in
      let written = L.write_all_others s tmp q d other in
      elim (Result-cases w.1) [
        | inr (e, failed) ↦ rw (then_err w next e failed) written
        | inl (_, done) ↦
            rw (then_ok w next done, sym written)
              (move_to-Writes w.0 tmp target q d (L.write_all_ok s tmp d fresh done) other)
      ]

  -- `atomic_write` is all or nothing, whatever call fails: the target gets all of the data if it
  -- succeeds, and every other file and after an error the target too are as before. The target is
  -- not in the directory for temporary files.
  pub atomic_write-Writes :
      (s : F.State) (d : Bytes) (ingest target q : PathBuf)
      → ((name : Text) → parent_or_here ingest ++ name ∷ [] ≢ target)
      → V.file (atomic_write F s d ingest target).0 q
        ≡ (if is_ok (atomic_write F s d ingest target).1 && target == q then some d else V.file s q)
  unfolding atomic_write
  atomic_write-Writes s d ingest target q apart =
      let n = F.new_in s (parent_or_here ingest) in
      elim (Result-cases n.1) [
        | inr (e, failed) ↦
            rw (failed, atomic_write) (L.new_in_err s (parent_or_here ingest) q e failed)
        | inl (tmp, made) ↦
            let ((name, at), free) = L.new_in_name s (parent_or_here ingest) tmp made in
            let fresh = L.new_in_ok s (parent_or_here ingest) tmp tmp made in
            let before = L.new_in_ok s (parent_or_here ingest) tmp q made in
            let w = fill_and_move F n.0 tmp d target in
            let dropped = L.file-drop_temp w.0 tmp q in
            elim (Bool-cases (tmp == q)) [
              | inl same ↦
                  let here = (eq_iff tmp q).0 same in
                  let missed = distinct (λ hit. apart name (sym at ∙ here ∙ sym hit)) in
                  rw (made, atomic_write, dropped, same, missed, ap (V.file s) (sym here) ∙ free)
                    (and_false d (is_ok w.1))
              | inr other ↦
                  let moved =
                    fill_and_move-Writes n.0 tmp target q d (fresh ∙ rw (eq_refl tmp) refl) other in
                  rw (made, atomic_write, dropped, other, moved, before, other) refl
            ]
      ]

pub parent-append :
    (root : PathBuf) (name : Text)
    → (name == root_dir) ≡ false
    → parent (root ++ name ∷ []) ≡ some root
unfolding parent
parent-append [] name h = rw h refl
parent-append (top ∷ []) name h = rw (parent, h) refl
parent-append (top ∷ next ∷ root) name h = rw (parent, parent-append (next ∷ root) name h) refl

pub too_short :
    (root : PathBuf) (name dir : Text) (parts : List Text)
    → parts ≢ []
    → root ++ name ∷ [] ≢ (root ++ dir ∷ []) ++ parts
too_short root name dir [] h e = h refl
too_short root name dir (part ∷ parts) h e = absurd (
    omega (
      arith,
      ap length e,
      length-append root (name ∷ []),
      length-append root (dir ∷ []),
      length-append (root ++ dir ∷ []) (part ∷ parts),
    ))

pub not_root : (literal "ingest" == root_dir) ≡ false
unfolding list_beq
not_root = refl
