-- ===== src/Server/Addresses.antt =====
-- The notifiers of a server of src/srv.rs, from its start on.
use nkv.Base.{ℕ, Text, Bool, ◌≡◌, List, [], ◌∷◌, list_eq, number_eq, Option-cases, inl, inr, ap}
use nkv.Base.Dict
use nkv.Errors.{Result, Result-cases, ok, err, IoError, IoResult}
use nkv.Message.{Message}
use nkv.Storage.{StorageEngine}
use nkv.Channels.{Mpsc}
use nkv.Core
use nkv.Core.{NkvCore, Heap}
use nkv.Core.Addresses.{
  AreManaged, new-IsManaged, put-IsSameTree, unsubscribe-IsSameTree, AreManaged-IsSameTree,
  subscribe-AreManaged, delete-AreManaged,
}
use nkv.Core.Put
use nkv.Core.Subscribe
use nkv.Core.Restart.{notifiers-new}
use nkv.Protocol.Request.{ServerRequest}
use nkv.Server.{
  Task, handle, handle_put, handle_delete, handle_sub, handle_unsub, serve_put, serve_delete,
  serve_sub, serve_unsub,
}
use nkv.Server.Start.{Addresses, prepare_address, owner, started, start_over}
use nkv.Server.Replay.{run}

module _ {S : StorageEngine} {Q : Mpsc Message} (A : Addresses) where
  owner_inverse :
      (nkv : NkvCore S Q) (prepared : A.State × IoResult) (t : Task S Q)
      → (owner S Q A nkv prepared).1 ≡ ok t
      → nkv ≡ t.nkv
  owner_inverse nkv (w, err e) t h = cc
  owner_inverse nkv (w, ok _) t h =
      let same : record { nkv = nkv; notifiers = [] } ≡ t = cc in ap (λ r. r.nkv) same

  -- What the core is to a result of `Core.new`.
  core_of_result :
      (made : Result (NkvCore S Q) IoError) (w : A.State) (addr : Text) (t : Task S Q)
      → (started S Q A made w addr).1 ≡ ok t
      → made ≡ ok t.nkv
  core_of_result (err e) w addr t h = cc
  core_of_result (ok nkv) w addr t h = ap ok (owner_inverse nkv (prepare_address A w addr) t h)

  pub core_of_start :
      (storage : S.State) (heap : Heap) (channels : Q.State) (w : A.State) (addr : Text)
      (t : Task S Q)
      → (start_over S Q A storage heap channels w addr).1 ≡ ok t
      → Core.new S Q storage heap channels ≡ ok t.nkv
  unfolding start_over
  core_of_start storage heap channels w addr t h =
      core_of_result (Core.new S Q storage heap channels) w addr t h

module _ {S : StorageEngine} {Q : Mpsc Message} (is_match : Text → Text → Bool) where
  serve_sub-AreManaged :
      (t : Task S Q) (key uuid : Text) (writer : ℕ)
      → AreManaged t.nkv
      → AreManaged (serve_sub S Q t key uuid writer).0.nkv
  unfolding serve_sub
  serve_sub-AreManaged t key uuid writer h =
      let h' = subscribe-AreManaged t.nkv key uuid h in
      elim (Option-cases (Dict.lookup key t.notifiers)) [
        | inr (n, e) ↦ rw (serve_sub, e) h
        | inl e ↦ elim (Result-cases (Subscribe.subscribe S Q t.nkv key uuid).1) [
          | inl (rx, e') ↦ rw (serve_sub, e, e') h'
          | inr (why, e') ↦ rw (serve_sub, e, e') h'
        ]
      ]

  handle-AreManaged :
      (t : Task S Q) (r : ServerRequest) (writer : ℕ)
      → AreManaged t.nkv
      → AreManaged (handle S Q is_match t r writer).0.nkv
  unfolding handle handle_put handle_delete handle_sub handle_unsub serve_put serve_delete
      serve_unsub
  handle-AreManaged t (ServerRequest.put m) writer h =
      AreManaged-IsSameTree t.nkv (Put.put S Q is_match t.nkv m.base.key m.value).0
        (put-IsSameTree is_match t.nkv m.base.key m.value) h
  handle-AreManaged t (ServerRequest.delete m) writer h = delete-AreManaged t.nkv m.key h
  handle-AreManaged t (ServerRequest.subscribe m) writer h =
      serve_sub-AreManaged t m.key m.client_uuid writer h
  handle-AreManaged t (ServerRequest.unsubscribe m) writer h =
      AreManaged-IsSameTree t.nkv (Subscribe.unsubscribe S Q t.nkv m.key m.client_uuid).0
        (unsubscribe-IsSameTree t.nkv m.key m.client_uuid) h
  handle-AreManaged t (ServerRequest.get m) writer h = h
  handle-AreManaged t (ServerRequest.trace m) writer h = h
  handle-AreManaged t (ServerRequest.health m) writer h = h
  handle-AreManaged t (ServerRequest.version m) writer h = h

  run-AreManaged :
      (rs : List (ServerRequest × ℕ)) (t : Task S Q)
      → AreManaged t.nkv
      → AreManaged (run S Q is_match rs t).nkv
  unfolding run
  run-AreManaged [] t h = h
  run-AreManaged ((r, writer) ∷ rs) t h =
      run-AreManaged rs (handle S Q is_match t r writer).0 (handle-AreManaged t r writer h)

  -- Whatever requests a server serves after its start over any storage, in any number and order,
  -- and whether they succeed or not, its tree of notifiers is well formed, every address in the
  -- tree was given out, and no two keys have the same notifier.
  pub start_over-run-AreManaged :
      (A : Addresses) (storage : S.State) (heap : Heap) (channels : Q.State) (w : A.State)
      (addr : Text) (t : Task S Q) (rs : List (ServerRequest × ℕ))
      → (start_over S Q A storage heap channels w addr).1 ≡ ok t
      → AreManaged (run S Q is_match rs t).nkv
  start_over-run-AreManaged A storage heap channels w addr t rs begun =
      let made = core_of_start A storage heap channels w addr t begun in
      run-AreManaged rs t
        (rw (notifiers-new storage heap channels t.nkv made) (new-IsManaged t.nkv.heap.next))
