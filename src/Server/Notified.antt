-- ===== src/Server/Notified.antt =====
-- A client that subscribes to a key at the server of src/srv.rs, and a PUT of a key at it or below
-- it.
use nkv.Base.{
  ℕ, Text, Bool, true, false, ◌≡◌, refl, ap, ◌∙◌, none, some, List, [], ◌∷◌, ◌++◌, list_eq,
  number_eq, inl, inr,
}
use nkv.Base.Dict
use nkv.Errors.{Result, Result-cases, NotifyKeyValueError, ok}
use nkv.Message.{Message, hello, update}
use nkv.Storage.{StorageEngine}
use nkv.Channels.{Mpsc, View, IsLawful}
use nkv.Trie.{has_wildcard, parts_of}
use nkv.Trie.Lookup.{value_at}
use nkv.Core.{NkvCore, get}
use nkv.Core.Put
use nkv.Core.Subscribe
use nkv.Core.PutLaws.{accepts}
use nkv.Core.Delivery.{AreOpen}
use nkv.Core.PutDelivery.{listeners}
use nkv.Core.Greeting.{updates}
use nkv.Core.SubscribePut.{subscribe-put}
use nkv.Core.Addresses.{AreManaged}
use nkv.Protocol.Request.{ServerRequest, BaseMessage, PutMessage}
use nkv.Protocol.Response.{base}
use nkv.Server.{
  Task, handle, handle_put, handle_sub, serve_put, serve_sub, status_of, base_reply, error_of,
}

module _ {S : StorageEngine} {Q : Mpsc Message} where
  -- The first subscription to a key goes to the core, whether it succeeds or not.
  nkv-serve_sub_first :
      (t : Task S Q) (key uuid : Text) (writer : ℕ)
      → Dict.lookup key t.notifiers ≡ none
      → (serve_sub S Q t key uuid writer).0.nkv ≡ (Subscribe.subscribe S Q t.nkv key uuid).0
  unfolding serve_sub
  nkv-serve_sub_first t key uuid writer unknown =
      elim (Result-cases (Subscribe.subscribe S Q t.nkv key uuid).1) [
        | inl (rx, e) ↦ rw (serve_sub, unknown, e) refl
        | inr (why, e) ↦ rw (serve_sub, unknown, e) refl
      ]

module _ {S : StorageEngine} {Q : Mpsc Message} {V : View Q} (L : IsLawful Q V)
    (is_match : Text → Text → Bool) where
  -- At the server, the first client that subscribes to a key without a wildcard is sent HELLO and
  -- the stored values that the key selects; a PUT of that key or of one below it, which passes the
  -- checks and which the storage takes, is then answered OK and sends the new value to it exactly
  -- once, if the addresses of the notifiers are managed, no notifier is at the key in the server
  -- and in the core, and the receivers at the key of the PUT are there.
  pub handle-subscribe-put :
      (t : Task S Q) (m : BaseMessage) (p : PutMessage) (writer writer' : ℕ) (rest : List Text)
      → AreManaged t.nkv
      → has_wildcard m.key ≡ false
      → Dict.lookup m.key t.notifiers ≡ none
      → value_at (parts_of m.key) t.nkv.notifiers.root ≡ none
      → parts_of p.base.key ≡ parts_of m.key ++ rest
      → accepts is_match p.base.key ≡ true
      → (S.put t.nkv.storage p.base.key p.value).1 ≡ ok tt
      → AreOpen V t.nkv.channels (listeners t.nkv p.base.key)
      → (let tx = (Q.unbounded_channel t.nkv.channels).0 in
          let t' = (handle S Q is_match t (ServerRequest.subscribe m) writer).0 in
          let (t'', reply) = handle S Q is_match t' (ServerRequest.put p) writer' in
          (reply ≡ some (base (record { id = p.base.id; status = true })))
          × (V.queued t''.nkv.channels tx
              ≡ hello ∷ (updates (get S Q t.nkv m.key) ++ update p.base.key p.value ∷ [])))
  unfolding handle handle_sub handle_put serve_put status_of base_reply
  handle-subscribe-put t m p writer writer' rest managed plain unknown absent below accepted stored
        alive =
      let (_, done, queue) =
        subscribe-put L is_match t.nkv m.key p.base.key m.client_uuid rest p.value plain absent
          managed.allocated below accepted stored alive in
      let first = nkv-serve_sub_first t m.key m.client_uuid writer unknown in
      let tx = (Q.unbounded_channel t.nkv.channels).0 in
      let put_at = λ (s : NkvCore S Q). Put.put S Q is_match s p.base.key p.value in
      let replied = λ (r : Result (Unit {0}) NotifyKeyValueError).
        some (base (record { id = p.base.id; status = status_of (error_of r) })) in
      (
        ap (λ s. replied (put_at s).1) first ∙ ap replied done,
        ap (λ s. V.queued (put_at s).0.channels tx) first ∙ queue,
      )
