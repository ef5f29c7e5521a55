-- ===== src/Server/Reach.antt =====
-- Any sequence of requests to the server of src/srv.rs, and the consistency of its core.
use nkv.Base.{ℕ, Text, Bool, true, ◌≡◌, ◌≢◌, refl, ◌∙◌, arith, list_eq, number_eq}
use nkv.Errors.{Result, ok, err, IoError, NotifyKeyValueError, io_error}
use nkv.Message.{Message}
use nkv.Storage.{StorageEngine, View, IsStore}
use nkv.Channels.{Mpsc}
use nkv.Trie.{has_wildcard, parts_of}
use nkv.Core.{NkvCore}
use nkv.Core.Put
use nkv.Core.Delete
use nkv.Core.Subscribe
use nkv.Core.Subscribe.{subscribe_notifier, send_present}
use nkv.Core.Consistent.{IsConsistent}
use nkv.Core.PutLaws.{put-IsConsistent}
use nkv.Core.DeleteLaws.{delete-IsConsistent, is_trailing}
use nkv.Protocol.Request.{ServerRequest}
use nkv.Server.{
  Task, handle, handle_put, handle_delete, handle_sub, handle_unsub, serve_put, serve_delete,
  serve_sub, serve_unsub,
}

module _ {S : StorageEngine} {Q : Mpsc Message} where
  -- The data and the tree of objects are the same.
  abbrev pub IsSameStore : NkvCore S Q → NkvCore S Q → Type 0
  IsSameStore s s' = (s'.objects ≡ s.objects) × (s'.storage ≡ s.storage)

  subscribe_notifier-IsSameStore :
      (s : NkvCore S Q) (key uuid : Text) → IsSameStore s (subscribe_notifier S Q s key uuid).0
  unfolding subscribe_notifier
  subscribe_notifier-IsSameStore s key uuid = (ground arith, ground arith)

  send_present-IsSameStore :
      (s : NkvCore S Q) (key uuid : Text) (r : Result (ℕ × ℕ) NotifyKeyValueError)
      → IsSameStore s (send_present S Q s key uuid r).0
  unfolding send_present
  send_present-IsSameStore s key uuid (err e) = (refl, refl)
  send_present-IsSameStore s key uuid (ok (rx, n)) = (ground arith, ground arith)

  subscribe-IsSameStore :
      (s : NkvCore S Q) (key uuid : Text) → IsSameStore s (Subscribe.subscribe S Q s key uuid).0
  unfolding Subscribe.subscribe
  subscribe-IsSameStore s key uuid =
      let (s', subscribed) = subscribe_notifier S Q s key uuid in
      let (objects, storage) = subscribe_notifier-IsSameStore s key uuid in
      let (objects', storage') = send_present-IsSameStore s' key uuid subscribed in
      (objects' ∙ objects, storage' ∙ storage)

  pub unsubscribe-IsSameStore :
      (s : NkvCore S Q) (key uuid : Text) → IsSameStore s (Subscribe.unsubscribe S Q s key uuid).0
  unfolding Subscribe.unsubscribe
  unsubscribe-IsSameStore s key uuid = (ground arith, ground arith)

  pub serve_sub-IsSameStore :
      (t : Task S Q) (key uuid : Text) (writer : ℕ)
      → IsSameStore t.nkv (serve_sub S Q t key uuid writer).0.nkv
  unfolding serve_sub
  serve_sub-IsSameStore t key uuid writer =
      let (objects, storage) = subscribe-IsSameStore t.nkv key uuid in
      (ground (arith, objects), ground (arith, storage))

module _ {S : StorageEngine} {Q : Mpsc Message} (V : View S) where
  IsConsistent-IsSameStore :
      (s s' : NkvCore S Q) → IsSameStore s s' → IsConsistent V s → IsConsistent V s'
  IsConsistent-IsSameStore s s' (objects, storage) h = record {
    shape = rw objects h.shape;
    storage = rw storage h.storage;
    listed = rw objects h.listed;
    stored = rw (objects, storage) h.stored;
  }

module _ (S : StorageEngine) (Q : Mpsc Message) (is_match : Text → Text → Bool)
    (admits : Text → Bool) where
  -- The storage admits the key of a PUT and takes its value if the PUT gets to it, and a DELETE has
  -- a wildcard as its last part or nowhere and succeeds.
  abbrev pub IsSmooth : Task S Q → ServerRequest → Type 0
  IsSmooth t (ServerRequest.put m) =
      (admits m.base.key ≡ true)
      × ((e : IoError) → (Put.put S Q is_match t.nkv m.base.key m.value).1 ≢ err (io_error e))
  IsSmooth t (ServerRequest.delete m) =
      (is_trailing (has_wildcard m.key) (parts_of m.key) ≡ true)
      × ((Delete.delete S Q t.nkv m.key).1 ≡ ok tt)
  IsSmooth t _ = Unit

  -- Requests that are served one after the other, on any connections.
  pub data Served (t : Task S Q) : Task S Q → Type 0 where
    start : Served t t
    serve :
        {u : Task S Q}
        → Served t u
        → (r : ServerRequest) (writer : ℕ) → IsSmooth u r
        → Served t (handle S Q is_match u r writer).0

module _ {S : StorageEngine} {Q : Mpsc Message} {V : View S} (L : IsStore S V)
    (is_match : Text → Text → Bool) where
  pub handle-IsConsistent :
      (t : Task S Q) (r : ServerRequest) (writer : ℕ)
      → IsSmooth S Q is_match V.admits t r
      → IsConsistent V t.nkv
      → IsConsistent V (handle S Q is_match t r writer).0.nkv
  unfolding handle handle_put handle_delete handle_sub handle_unsub serve_put serve_delete
      serve_unsub
  handle-IsConsistent t (ServerRequest.put m) writer (admits, quiet) h =
      put-IsConsistent L is_match t.nkv m.base.key m.value h admits quiet
  handle-IsConsistent t (ServerRequest.delete m) writer (trailing, done) h =
      delete-IsConsistent L t.nkv m.key h trailing done
  handle-IsConsistent t (ServerRequest.subscribe m) writer smooth h =
      IsConsistent-IsSameStore V t.nkv (serve_sub S Q t m.key m.client_uuid writer).0.nkv
        (serve_sub-IsSameStore t m.key m.client_uuid writer) h
  handle-IsConsistent t (ServerRequest.unsubscribe m) writer smooth h =
      IsConsistent-IsSameStore V t.nkv (Subscribe.unsubscribe S Q t.nkv m.key m.client_uuid).0
        (unsubscribe-IsSameStore t.nkv m.key m.client_uuid) h
  handle-IsConsistent t (ServerRequest.get m) writer smooth h = h
  handle-IsConsistent t (ServerRequest.trace m) writer smooth h = h
  handle-IsConsistent t (ServerRequest.health m) writer smooth h = h
  handle-IsConsistent t (ServerRequest.version m) writer smooth h = h

  -- Whatever requests a server with a consistent core over a storage that keeps the contract
  -- IsStore serves, one after the other and on any connections, its core stays consistent, if
  -- every PUT is of a key that the storage admits and meets no error of the storage, and every
  -- DELETE has a wildcard as its last part or nowhere and succeeds.
  pub Served-IsConsistent :
      {t u : Task S Q}
      → IsConsistent V t.nkv
      → Served S Q is_match V.admits t u
      → IsConsistent V u.nkv
  Served-IsConsistent h start = h
  Served-IsConsistent h (serve {u} before r writer smooth) =
      handle-IsConsistent u r writer smooth (Served-IsConsistent h before)
