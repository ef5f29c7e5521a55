-- ===== src/Core/Restart.antt =====
-- `NkvCore::new` of src/nkv.rs builds the tree of objects from the keys of the storage.
use mathlib.Core.Path.{ap, subst}
use mathlib.Core.List.Memᴰ
use mathlib.Core.List.{Memᴰ}
use nkv.Base.{
  Text, true, false, ◌≡◌, ◌≢◌, ◌↔◌, ◌⊎◌, refl, sym, none, some, List, [], ◌∷◌, arith, list_eq,
  number_eq, Bool-cases, inl, inr,
}
use nkv.Base.Dict
use nkv.Errors.{Result, ok, err, IoError}
use nkv.Message.{Message}
use nkv.Storage.{StorageEngine, View, IsLawful}
use nkv.Channels.{Mpsc}
use nkv.Trie
use nkv.Trie.{Trie, has_wildcard, parts_of}
use nkv.Trie.Lookup.{value_at, value_at-new}
use nkv.Trie.Shape.{IsWellFormed, insert-IsWellFormed, new-IsWellFormed}
use nkv.Core.{NkvCore, Heap, load_keys, new, get}
use nkv.Core.Listing.{IsListing, entered-IsListing, listed-entered}
use nkv.Core.Consistent.{IsConsistent, lookup-get}

-- What `load_keys` returns for the keys `ks` over the tree `objects`.
record IsLoaded (ks : List Text) (objects objects' : Trie Text) : Type 0 where
  shape : IsWellFormed objects'.root
  listing : IsListing objects'
  listed :
      (k : Text)
      → (value_at (parts_of k) objects'.root ≡ some k)
        ↔ (Memᴰ k ks ⊎ (value_at (parts_of k) objects.root ≡ some k))

insert_refused :
    (objects : Trie Text) (key : Text)
    → has_wildcard key ≡ true
    → (Trie.insert objects key key).1 ≢ none
unfolding Trie.insert
insert_refused objects key wild = rw (wild) (λ e. cc)

insert_taken :
    (objects : Trie Text) (key : Text)
    → has_wildcard key ≡ false
    → (Trie.insert objects key key).1 ≡ none
unfolding Trie.insert
insert_taken objects key plain = rw plain

-- One more key was listed before the rest.
listed_cons :
    (key : Text) (ks : List Text) (k : Text) {P P' P'' : Type 0}
    → P' ↔ ((key ≡ k) ⊎ P)
    → P'' ↔ (Memᴰ k ks ⊎ P')
    → P'' ↔ (Memᴰ k (key ∷ ks) ⊎ P)
listed_cons key ks k (to', from') (to'', from'') = (
  (λ p. elim (to'' p) [
    | inl m ↦ inl (Memᴰ.tail m)
    | inr p' ↦ elim (to' p') [ inl same ↦ inl (Memᴰ.head (sym same)) | inr old ↦ inr old ]
  ]),
  λ c. elim c [
    | inl m ↦ elim (Memᴰ.cases_cons m) [
      | inl same ↦ from'' (inr (from' (inl (sym same))))
      | inr m' ↦ from'' (inl m')
    ]
    | inr old ↦ from'' (inr (from' (inr old)))
  ],
)

load_keys-IsLoaded :
    (ks : List Text) (objects : Trie Text) {objects' : Trie Text}
    → IsWellFormed objects.root
    → IsListing objects
    → load_keys ks objects ≡ ok objects'
    → IsLoaded ks objects objects'
unfolding load_keys
load_keys-IsLoaded [] objects {objects'} shape listing e =
    let same : objects ≡ objects' = cc in
    subst (IsLoaded [] objects) same (record {
      shape = shape;
      listing = listing;
      listed = λ k. ((λ p. inr p), λ c. elim c [ inl m ↦ elim m [ ] | inr p ↦ p ]);
    })
load_keys-IsLoaded (key ∷ ks) objects {objects'} shape listing e =
    elim (Bool-cases (has_wildcard key)) [
      | inl wild ↦ absurd (ground (arith, insert_refused objects key wild))
      | inr plain ↦
          let entered : Trie Text = (Trie.insert objects key key).0 in
          let ih : IsLoaded ks entered objects' =
            load_keys-IsLoaded ks entered (insert-IsWellFormed objects key key shape)
              (entered-IsListing objects key plain listing)
              (ground (arith, insert_taken objects key plain)) in
          record {
            shape = ih.shape;
            listing = ih.listing;
            listed = λ k. listed_cons key ks k (listed-entered objects key plain k) (ih.listed k);
          }
    ]

new-IsListing : IsListing Trie.new
unfolding Trie.new
new-IsListing path k e = absurd (cc (value_at-new {T = Text} path))

new_lists_none : (k : Text) → value_at (parts_of k) (Trie.new {T = Text}).root ≢ some k
unfolding Trie.new
new_lists_none k e = cc (value_at-new {T = Text} (parts_of k))

load_keys_total :
    (ks : List Text) (objects : Trie Text)
    → ((k : Text) → Memᴰ k ks → has_wildcard k ≡ false)
    → (objects' : Trie Text) × (load_keys ks objects ≡ ok objects')
unfolding load_keys
load_keys_total [] objects plain = (objects, refl)
load_keys_total (key ∷ ks) objects plain =
    let (objects', done) =
      load_keys_total ks (Trie.insert objects key key).0 (λ k m. plain k (Memᴰ.tail m)) in
    (objects', ground (arith, insert_taken objects key (plain key (Memᴰ.head refl))))

module _ {S : StorageEngine} {Q : Mpsc Message} (storage : S.State) (heap : Heap)
    (channels : Q.State) where
  abbrev made : Trie Text → NkvCore S Q
  made objects = record {
    notifiers = Trie.new;
    objects = objects;
    storage = storage;
    heap = heap;
    channels = channels;
  }

  new_of_loaded :
      (objects : Trie Text)
      → load_keys (S.keys storage) Trie.new ≡ ok objects
      → new S Q storage heap channels ≡ ok (made objects)
  unfolding new
  new_of_loaded objects loaded = rw (loaded, new)

  new_inverse :
      (s : NkvCore S Q)
      → new S Q storage heap channels ≡ ok s
      → (objects : Trie Text) × (load_keys (S.keys storage) Trie.new ≡ ok objects)
        × (made objects ≡ s)
  unfolding new
  new_inverse s e = by_result (load_keys (S.keys storage) Trie.new) refl
    where
      by_result :
          (r : Result (Trie Text) IoError)
          → load_keys (S.keys storage) Trie.new ≡ r
          → (objects : Trie Text) × (load_keys (S.keys storage) Trie.new ≡ ok objects)
            × (made objects ≡ s)
      by_result (ok objects) loaded = (objects, loaded, cc (rw (loaded, new) at e))
      by_result (err x) loaded = cc (rw (loaded, new) at e)

module _ {S : StorageEngine} {Q : Mpsc Message} where
  pub storage-new :
      (storage : S.State) (heap : Heap) (channels : Q.State) (s : NkvCore S Q)
      → new S Q storage heap channels ≡ ok s
      → s.storage ≡ storage
  storage-new storage heap channels s e =
      let (objects, loaded, same) = new_inverse storage heap channels s e in
      ap (λ c. c.storage) (sym same)

  pub notifiers-new :
      (storage : S.State) (heap : Heap) (channels : Q.State) (s : NkvCore S Q)
      → new S Q storage heap channels ≡ ok s
      → s.notifiers ≡ Trie.new
  notifiers-new storage heap channels s e =
      let (objects, loaded, same) = new_inverse storage heap channels s e in
      ap (λ c. c.notifiers) (sym same)

module _ {S : StorageEngine} {Q : Mpsc Message} (V : View S) where
  -- The core of empty trees over a valid storage that holds nothing.
  pub made-IsConsistent :
      (storage : S.State) (heap : Heap) (channels : Q.State)
      → V.IsValid storage
      → ((k : Text) → V.contents storage k ≡ none)
      → IsConsistent {Q = Q} V (made storage heap channels Trie.new)
  made-IsConsistent storage heap channels valid nothing = record {
    shape = new-IsWellFormed Text;
    storage = valid;
    listed = new-IsListing;
    stored = λ k. ((λ p. absurd (new_lists_none k p)), λ c. absurd (c (nothing k)));
  }

  -- A core that new returns over a valid storage which lists what it holds.
  pub core_of_listing :
      (storage : S.State) (heap : Heap) (channels : Q.State) (s : NkvCore S Q)
      → V.IsValid storage
      → ((k : Text) → Memᴰ k (S.keys storage) ↔ (V.contents storage k ≢ none))
      → new S Q storage heap channels ≡ ok s
      → IsConsistent V s
  core_of_listing storage heap channels s valid exact e =
      let (objects, loaded, same) = new_inverse storage heap channels s e in
      let h =
        load_keys-IsLoaded (S.keys storage) Trie.new {objects' = objects} (new-IsWellFormed Text)
          new-IsListing loaded in
      subst (IsConsistent V) same (record {
        shape = h.shape;
        storage = valid;
        listed = h.listing;
        stored = λ k. (
          (λ p.
              (exact k).0
                (elim ((h.listed k).0 p) [ inl m ↦ m | inr q ↦ absurd (new_lists_none k q) ])),
          λ c. (h.listed k).1 (inl ((exact k).1 c)),
        );
      })

module _ {S : StorageEngine} {Q : Mpsc Message} {V : View S} (L : IsLawful S V) where
  -- A core that new returns over a valid storage is consistent: its tree lists exactly the keys of
  -- the storage.
  pub new-IsConsistent :
      (storage : S.State) (heap : Heap) (channels : Q.State) (s : NkvCore S Q)
      → V.IsValid storage
      → new S Q storage heap channels ≡ ok s
      → IsConsistent V s
  new-IsConsistent storage heap channels s valid e =
      core_of_listing V storage heap channels s valid (λ k. L.keys_iff storage k valid) e

  -- A restart over the storage of a consistent core succeeds, and every get finds what it found
  -- before.
  pub get_after_restart :
      (s : NkvCore S Q) (heap : Heap) (channels : Q.State)
      → IsConsistent V s
      → (s' : NkvCore S Q) × (new S Q s.storage heap channels ≡ ok s')
        × ((q k : Text) → Dict.lookup k (get S Q s' q) ≡ Dict.lookup k (get S Q s q))
  get_after_restart s heap channels h =
      let plain : (k : Text) → Memᴰ k (S.keys s.storage) → has_wildcard k ≡ false = λ k m.
        (h.listed (parts_of k) k ((h.stored k).1 ((L.keys_iff s.storage k h.storage).0 m))).1 in
      let (objects, loaded) = load_keys_total (S.keys s.storage) Trie.new plain in
      let s' : NkvCore S Q = made s.storage heap channels objects in
      let returned : new S Q s.storage heap channels ≡ ok s' =
        new_of_loaded s.storage heap channels objects loaded in
      let h' = new-IsConsistent s.storage heap channels s' h.storage returned in
      (s', returned, λ q k. rw (lookup-get L.store s' q k h', lookup-get L.store s q k h))
