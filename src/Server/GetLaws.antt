-- ===== src/Server/GetLaws.antt =====
-- What a client of src/srv.rs gets to see of the data: the answers to GET, and GET after PUT.
use nkv.Base.{
  ℕ, Text, Bool, true, false, ◌≡◌, ◌≢◌, ◌↔◌, refl, Option, some, none, List, [], ◌∷◌, arith, ◌==◌,
  ◌&&◌, eq_refl, list_eq, number_eq, if◌then◌else◌,
}
use nkv.Base.Dict
use nkv.Base.Dict.{Dict}
use nkv.Errors.{ok}
use nkv.Message.{Message}
use nkv.Storage.{Bytes, StorageEngine, View, IsStore}
use nkv.Channels.{Mpsc}
use nkv.Trie.{has_wildcard, parts_of}
use nkv.Trie.Select.{selects}
use nkv.Core
use nkv.Core.Put
use nkv.Core.Consistent.{IsConsistent, lookup-get}
use nkv.Core.PutLaws.{accepts, lookup-get-put}
use nkv.Protocol.Request.{ServerRequest, BaseMessage, PutMessage}
use nkv.Protocol.Response.{ServerResponse, map_response}
use nkv.Server.{Task, handle, handle_get, handle_put, serve_get, serve_put, status_of, answer_of}

-- The data and the status that a reply carries.
abbrev pub content_of : Option ServerResponse → Dict Text Bytes
content_of (some (map_response r)) = r.content
content_of _ = []

abbrev pub found_of : Option ServerResponse → Bool
found_of (some (map_response r)) = r.base.status
found_of _ = false

both_of_some :
    (chosen : Bool) (o : Option Bytes)
    → (if chosen then o else none) ≢ none
    → (chosen ≡ true) × (o ≢ none)
both_of_some true o h = (refl, h)
both_of_some false o h = absurd (h refl)

value-answer_of {ℓ} : {A : Type ℓ} (xs : List A) → (answer_of xs).value ≡ xs
unfolding answer_of
value-answer_of [] = refl
value-answer_of (x ∷ xs) = refl

status_of-answer_of :
    (d : Dict Text Bytes)
    → (status_of (answer_of d).error ≡ true) ↔ ((k : Text) × (Dict.lookup k d ≢ none))
unfolding answer_of status_of Dict.lookup
status_of-answer_of [] = ((λ e. cc), λ (k, e). absurd (e refl))
status_of-answer_of ((k, v) ∷ d) = ((λ _. (k, ground (arith, eq_refl k))), λ _. refl)

module _ {S : StorageEngine} {Q : Mpsc Message} (is_match : Text → Text → Bool) where
  pub content_of-get :
      (t : Task S Q) (m : BaseMessage) (writer : ℕ)
      → content_of (handle S Q is_match t (ServerRequest.get m) writer).1 ≡ Core.get S Q t.nkv m.key
  unfolding handle handle_get serve_get
  content_of-get t m writer = value-answer_of (Core.get S Q t.nkv m.key)

  found_of-get :
      (t : Task S Q) (m : BaseMessage) (writer : ℕ)
      → found_of (handle S Q is_match t (ServerRequest.get m) writer).1
        ≡ status_of (answer_of (Core.get S Q t.nkv m.key)).error
  unfolding handle handle_get serve_get
  found_of-get t m writer = refl

  nkv-put :
      (t : Task S Q) (p : PutMessage) (writer : ℕ)
      → (handle S Q is_match t (ServerRequest.put p) writer).0.nkv
        ≡ (Put.put S Q is_match t.nkv p.base.key p.value).0
  unfolding handle handle_put serve_put
  nkv-put t p writer = refl

module _ {S : StorageEngine} {Q : Mpsc Message} {V : View S} (L : IsStore S V)
    (is_match : Text → Text → Bool) where
  -- On a consistent core over a storage that keeps the contract IsStore, the reply to a GET has
  -- the status OK exactly if a stored key is selected.
  pub found_of-get_iff :
      (t : Task S Q) (m : BaseMessage) (writer : ℕ)
      → IsConsistent V t.nkv
      → (found_of (handle S Q is_match t (ServerRequest.get m) writer).1 ≡ true) ↔ (
          (k : Text) × (selects (has_wildcard m.key) (parts_of m.key) (parts_of k) ≡ true)
          × (V.contents t.nkv.storage k ≢ none))
  found_of-get_iff t m writer h =
      let (to, from) = status_of-answer_of (Core.get S Q t.nkv m.key) in
      rw (found_of-get is_match t m writer) (
        (λ e.
            let (k, there) = to e in
            let (chosen, given) =
              both_of_some (selects (has_wildcard m.key) (parts_of m.key) (parts_of k))
                (V.contents t.nkv.storage k) (rw (lookup-get L t.nkv m.key k h) at there) in
            (k, chosen, given)),
        λ (k, chosen, there). from (k, rw (lookup-get L t.nkv m.key k h, chosen) there),
      )

  -- At the server, after a PUT that the key checks and the storage took, on a consistent core, the
  -- reply to a GET carries the new data wherever it selects the key, and for other keys what it
  -- carried before.
  pub content_of-get-put :
      (t : Task S Q) (p : PutMessage) (m : BaseMessage) (k : Text) (w1 w2 : ℕ)
      → IsConsistent V t.nkv
      → accepts is_match p.base.key ≡ true
      → V.admits p.base.key ≡ true
      → (S.put t.nkv.storage p.base.key p.value).1 ≡ ok tt
      → Dict.lookup k (
          content_of
            (handle S Q is_match
              (handle S Q is_match t (ServerRequest.put p) w1).0
              (ServerRequest.get m)
              w2).1)
        ≡ (if selects (has_wildcard m.key) (parts_of m.key) (parts_of k) && p.base.key == k
            then some p.value
            else Dict.lookup k (content_of (handle S Q is_match t (ServerRequest.get m) w2).1))
  content_of-get-put t p m k w1 w2 h a admits stored =
      rw
        (
          content_of-get is_match (handle S Q is_match t (ServerRequest.put p) w1).0 m w2,
          content_of-get is_match t m w2,
          nkv-put is_match t p w1,
        )
        (lookup-get-put L is_match t.nkv p.base.key m.key k p.value h a admits stored)
