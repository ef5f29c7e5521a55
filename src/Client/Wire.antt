-- ===== src/Client/Wire.antt =====
-- The client of src/lib.rs and the server of src/srv.rs at the two ends of a connection.
use nkv.Base.{
  Text, literal, Bool, true, Option, none, some, [], ◌∷◌, ◌++◌, ◌≡◌, ◌≢◌, refl, arith, Avoids, ap,
  ◌∙◌,
}
use nkv.Base.Dict
use nkv.Errors.{ok}
use nkv.Message.{Message}
use nkv.Storage.{Bytes, StorageEngine, View, IsStore}
use nkv.Channels.{Mpsc}
use nkv.Core.PutLaws.{accepts, get_after_put}
use nkv.Protocol.Words.{IsWord, IsSolid, is_whitespace}
use nkv.Protocol.Base64.{Base64}
use nkv.Protocol.Request.{ServerRequest, BaseMessage, PutMessage}
use nkv.Protocol.RequestLaws.{IsPlainRequest, received}
use nkv.Protocol.Response.{ServerResponse, map_response}
use nkv.Protocol.ResponseLaws.{IsSendableResponse, IsSolid-Avoids}
use nkv.Protocol.ResponseLine.{parse_response-line}
use nkv.Server.{
  Task, handle, handle_put, handle_get, serve_put, serve_get, answer_of, status_of, base_reply,
}
use nkv.Server.Lines.{Outcome, reply, silence, panicked, handle_line, write_response}
use nkv.Server.LineLaws.{HasLastWord, handle_line-print_request}
use nkv.Client
use nkv.Client.{NkvClient, Network, Answer, uuid, message, read_response, send_request}

-- A connection that the server closes without a line has no answer.
abbrev line_of : Outcome → Option Text
line_of (reply line) = some line
line_of silence = none
line_of panicked = none

-- The network whose only server is the one of src/srv.rs.
module _ (S : StorageEngine) (Q : Mpsc Message) (is_match : Text → Text → Bool) (B : Base64) where
  abbrev pub served : Network
  served = record {
    State = Task S Q;
    exchange = λ t addr line.
        let (t', outcome) = handle_line S Q is_match B t line 0 in (t', ok (line_of outcome));
  }

  -- A request whose line the server reads, with a reply that the client can read.
  pub send_request-handle :
      (c : NkvClient) (t : Task S Q) (r : ServerRequest) (response : ServerResponse)
      → IsPlainRequest r
      → HasLastWord r
      → (handle S Q is_match t (received r) 0).1 ≡ some response
      → IsSendableResponse response
      → send_request served B c t r ≡ ((handle S Q is_match t (received r) 0).0, ok response)
  unfolding send_request read_response write_response
  send_request-handle c t r response plain last replied sendable =
      rw
        (
          send_request,
          handle_line-print_request S Q is_match B t r 0 plain last,
          replied,
          write_response,
          read_response,
          parse_response-line B response sendable,
        )
        refl

IsSolid-append : (a b : Text) → IsSolid a → IsSolid b → IsSolid (a ++ b)
IsSolid-append [] b ha hb = hb
IsSolid-append (x ∷ a) b ha hb = (ha.0, IsSolid-append a b ha.1 hb)

uuid-IsWord : (v4 : Text) → IsSolid v4 → IsWord (uuid v4)
unfolding is_whitespace
uuid-IsWord v4 h = (IsSolid-append (literal "rust-nkv-client-") v4 (ground arith) h, λ e. cc)

module _ (S : StorageEngine) (Q : Mpsc Message) (is_match : Text → Text → Bool) (B : Base64) where
  -- A PUT always has a reply that the client can read.
  send_request-put :
      (c : NkvClient) (t : Task S Q) (p : PutMessage)
      → IsPlainRequest (ServerRequest.put p)
      → p.value ≢ []
      → IsWord p.base.id
      → send_request (served S Q is_match B) B c t (ServerRequest.put p)
        ≡ ((handle_put S Q is_match t p).0, ok (handle_put S Q is_match t p).1)
  unfolding handle handle_put base_reply received
  send_request-put c t p plain given id =
      send_request-handle S Q is_match B c t (ServerRequest.put p) (handle_put S Q is_match t p).1
        plain given refl id

  send_request-get :
      (c : NkvClient) (t : Task S Q) (m : BaseMessage) (response : ServerResponse)
      → IsPlainRequest (ServerRequest.get m)
      → IsWord m.key
      → handle_get S Q t m ≡ response
      → IsSendableResponse response
      → send_request (served S Q is_match B) B c t (ServerRequest.get m) ≡ (t, ok response)
  unfolding handle received
  send_request-get c t m response plain word e sendable =
      send_request-handle S Q is_match B c t (ServerRequest.get m) response plain word (ap some e)
        sendable

module _ {S : StorageEngine} {Q : Mpsc Message} {V : View S} (L : IsStore S V)
    (is_match : Text → Text → Bool) (B : Base64) where
  handle_get-handle_put :
      (t : Task S Q) (p : PutMessage) (m : BaseMessage)
      → m.key ≡ p.base.key
      → accepts is_match p.base.key ≡ true
      → V.admits p.base.key ≡ true
      → (S.put t.nkv.storage p.base.key p.value).1 ≡ ok tt
      → handle_get S Q (handle_put S Q is_match t p).0 m
        ≡ map_response (record {
          base = record { id = m.id; status = true };
          content = (p.base.key, p.value) ∷ [];
        })
  unfolding handle_get handle_put serve_get serve_put answer_of status_of
  handle_get-handle_put t p m same a admits stored =
      rw (same, get_after_put L is_match t.nkv p.base.key p.value a admits stored, answer_of) refl

  -- What one client puts another one gets: over a network that hands each line to a server whose
  -- storage keeps the contract IsStore, if the key passes the checks and is one word, the storage
  -- admits it and takes the value, the value is not empty, and the uuids hold no blank, then the
  -- answer to the GET is the key with that value and nothing else.
  pub get-put :
      (c1 c2 : NkvClient) (t : Task S Q) (key : Text) (v : Bytes) (id1 id2 : Text)
      → accepts is_match key ≡ true
      → V.admits key ≡ true
      → (S.put t.nkv.storage key v).1 ≡ ok tt
      → v ≢ []
      → IsWord key
      → Avoids b' ' c1.client_uuid
      → Avoids b' ' c2.client_uuid
      → IsSolid id1
      → IsSolid id2
      → (Client.get
          (served S Q is_match B)
          B
          c2
          (Client.put (served S Q is_match B) B c1 t key v id1).0
          key
          id2).1
        ≡ ok (
            map_response
              (record { base = record { id = uuid id2; status = true }; content = (key, v) ∷ [] }))
  unfolding Client.get Client.put Dict.lookup
  get-put c1 c2 t key v id1 id2 a admits stored given word plain1 plain2 solid1 solid2 =
      let p : PutMessage = record { base = message c1 key (uuid id1); value = v } in
      let m : BaseMessage = message c2 key (uuid id2) in
      let id_word1 = uuid-IsWord id1 solid1 in
      let id_word2 = uuid-IsWord id2 solid2 in
      let key_plain = IsSolid-Avoids key word.0 in
      let t' = (handle_put S Q is_match t p).0 in
      let put_done =
        send_request-put S Q is_match B c1 t p
          (IsSolid-Avoids (uuid id1) id_word1.0, key_plain, plain1) given id_word1 in
      let get_done =
        send_request-get S Q is_match B c2 t' m
          (map_response
            (record { base = record { id = m.id; status = true }; content = (key, v) ∷ [] }))
          (IsSolid-Avoids (uuid id2) id_word2.0, key_plain, plain2) word
          (handle_get-handle_put t p m refl a admits stored)
          (id_word2, (refl, tt), ((word, given), tt)) in
      ap (λ r. (send_request (served S Q is_match B) B c2 r.0 (ServerRequest.get m)).1) put_done
      ∙ ap (λ r. r.1) get_done
