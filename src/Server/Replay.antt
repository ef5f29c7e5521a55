-- ===== src/Server/Replay.antt =====
-- The server of src/srv.rs and what it is a server of: a map from keys to data, which the requests
-- read and change.
use mathlib.Core.Path.{fun_ext}
use nkv.Base.{
  ◌≢◌, ℕ, Text, Bool, ◌&&◌, ◌≡◌, refl, ap, ◌∙◌, Option, none, some, List, [], ◌∷◌, if◌then◌else◌,
  true, ◌==◌, list_eq, number_eq, Bool-cases, inl, inr,
}
use nkv.Base.Dict
use nkv.Errors.{IoError, err, io_error}
use nkv.Message.{Message}
use nkv.Storage.{Bytes, StorageEngine, View, IsStore}
use nkv.Channels.{Mpsc}
use nkv.Trie.{has_wildcard, parts_of}
use nkv.Trie.Select.{selects}
use nkv.Core.{NkvCore}
use nkv.Core.Put.{put}
use nkv.Core.Consistent.{IsConsistent, lookup-get}
use nkv.Core.PutLaws.{
  accepts, put_of_accepts, refused_put, stored_of_no_io_error, storage-put_checked,
}
use nkv.Core.DeleteLaws.{contents-delete}
use nkv.Protocol.Request.{ServerRequest, BaseMessage}
use nkv.Server.{
  Task, handle, handle_put, handle_delete, handle_sub, handle_unsub, serve_put, serve_delete,
  serve_unsub,
}
use nkv.Server.GetLaws.{content_of, content_of-get}
use nkv.Server.Reach.{IsSmooth, handle-IsConsistent, serve_sub-IsSameStore, unsubscribe-IsSameStore}

-- A map from keys to data.
abbrev pub Contents : Type 0
Contents = Text → Option Bytes

module _ (is_match : Text → Text → Bool) where
  -- What a request makes of the map.
  unfoldable pub replay_one : ServerRequest → Contents → Contents
  replay_one (ServerRequest.put m) f k =
      if accepts is_match m.base.key && m.base.key == k then some m.value else f k
  replay_one (ServerRequest.delete m) f k =
      if selects (has_wildcard m.key) (parts_of m.key) (parts_of k) then none else f k
  replay_one _ f k = f k

  unfoldable pub replay : List (ServerRequest × ℕ) → Contents → Contents
  unfolding replay_one
  replay [] f = f
  replay ((r, _) ∷ rs) f = replay rs (replay_one r f)

-- The requests, each with its connection, one after the other.
module _ (S : StorageEngine) (Q : Mpsc Message) (is_match : Text → Text → Bool) where
  unfoldable pub run : List (ServerRequest × ℕ) → Task S Q → Task S Q
  run [] t = t
  run ((r, writer) ∷ rs) t = run rs (handle S Q is_match t r writer).0

module _ (S : StorageEngine) (Q : Mpsc Message) (is_match : Text → Text → Bool)
    (admits : Text → Bool) where
  abbrev pub AreSmooth : List (ServerRequest × ℕ) → Task S Q → Type 0
  AreSmooth [] t = Unit
  AreSmooth ((r, writer) ∷ rs) t =
      IsSmooth S Q is_match admits t r × AreSmooth rs (handle S Q is_match t r writer).0

module _ {S : StorageEngine} {Q : Mpsc Message} {V : View S} (L : IsStore S V)
    (is_match : Text → Text → Bool) where
  contents-put :
      (s : NkvCore S Q) (key k : Text) (v : Bytes)
      → V.admits key ≡ true
      → ((e : IoError) → (put S Q is_match s key v).1 ≢ err (io_error e))
      → V.contents (put S Q is_match s key v).0.storage k
        ≡ (if accepts is_match key && key == k then some v else V.contents s.storage k)
  contents-put s key k v admits quiet = elim (Bool-cases (accepts is_match key)) [
    | inr refused ↦ rw (refused_put is_match s key v refused, refused) refl
    | inl a ↦
        rw (put_of_accepts is_match s key v a, a, storage-put_checked s key v)
          (L.put_ok s.storage key k v admits (stored_of_no_io_error is_match s key v a quiet))
  ]

  contents-handle :
      (t : Task S Q) (r : ServerRequest) (writer : ℕ) (k : Text)
      → IsSmooth S Q is_match V.admits t r
      → IsConsistent V t.nkv
      → V.contents (handle S Q is_match t r writer).0.nkv.storage k
        ≡ replay_one is_match r (V.contents t.nkv.storage) k
  unfolding handle handle_put handle_delete handle_sub handle_unsub serve_put serve_delete
      serve_unsub replay_one
  contents-handle t (ServerRequest.put m) writer k (admits, quiet) h =
      contents-put t.nkv m.base.key k m.value admits quiet
  contents-handle t (ServerRequest.delete m) writer k (_, done) h =
      contents-delete L t.nkv m.key k h done
  contents-handle t (ServerRequest.subscribe m) writer k smooth h =
      ap (λ s. V.contents s k) (serve_sub-IsSameStore t m.key m.client_uuid writer).1
  contents-handle t (ServerRequest.unsubscribe m) writer k smooth h =
      ap (λ s. V.contents s k) (unsubscribe-IsSameStore t.nkv m.key m.client_uuid).1
  contents-handle t (ServerRequest.get m) writer k smooth h = refl
  contents-handle t (ServerRequest.trace m) writer k smooth h = refl
  contents-handle t (ServerRequest.health m) writer k smooth h = refl
  contents-handle t (ServerRequest.version m) writer k smooth h = refl

  pub run-replay :
      (rs : List (ServerRequest × ℕ)) (t : Task S Q)
      → AreSmooth S Q is_match V.admits rs t
      → IsConsistent V t.nkv
      → IsConsistent V (run S Q is_match rs t).nkv
        × ((k : Text)
            → V.contents (run S Q is_match rs t).nkv.storage k
              ≡ replay is_match rs (V.contents t.nkv.storage) k)
  unfolding run replay
  run-replay [] t smooth h = (h, λ k. refl)
  run-replay ((r, writer) ∷ rs) t (smooth, later) h =
      let t' = (handle S Q is_match t r writer).0 in
      let (h', same) =
        run-replay rs t' later (handle-IsConsistent L is_match t r writer smooth h) in
      (
        h',
        λ k.
            same k
            ∙ ap (λ f. replay is_match rs f k) (fun_ext λ j. contents-handle t r writer j smooth h),
      )

  -- After any sequence of requests on a consistent core over a storage that keeps the contract
  -- IsStore, in which every PUT is of a key that the storage admits and meets no error of the
  -- storage, and every DELETE has a wildcard as its last part or nowhere and succeeds, the reply
  -- to a GET carries for each key that it selects what replaying the requests on the map of
  -- contents gives, and nothing for the others.
  pub content_of-run :
      (rs : List (ServerRequest × ℕ)) (t : Task S Q) (m : BaseMessage) (writer : ℕ) (k : Text)
      → AreSmooth S Q is_match V.admits rs t
      → IsConsistent V t.nkv
      → Dict.lookup k
          (content_of (handle S Q is_match (run S Q is_match rs t) (ServerRequest.get m) writer).1)
        ≡ (if selects (has_wildcard m.key) (parts_of m.key) (parts_of k)
            then replay is_match rs (V.contents t.nkv.storage) k
            else none)
  content_of-run rs t m writer k smooth h =
      let (h', same) = run-replay rs t smooth h in
      rw
        (
          content_of-get is_match (run S Q is_match rs t) m writer,
          lookup-get L (run S Q is_match rs t).nkv m.key k h',
          same k,
        )
        refl
