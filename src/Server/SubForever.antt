-- ===== src/Server/SubForever.antt =====
-- The map of notifiers that the task of src/srv.rs keeps: a key that came into it stays there.
use nkv.Base.{
  ℕ, Text, Bool, ◌≡◌, ◌≢◌, none, List, [], ◌∷◌, list_eq, number_eq, arith, Option-cases, inl, inr,
}
use nkv.Base.Dict
use nkv.Errors.{Result-cases, no_error}
use nkv.Message.{Message}
use nkv.Storage.{StorageEngine}
use nkv.Channels.{Mpsc}
use nkv.Core.Subscribe
use nkv.Protocol.Request.{ServerRequest}
use nkv.Server.{
  Task, Notifier, handle, handle_put, handle_delete, handle_sub, handle_unsub, serve_put,
  serve_delete, serve_sub, serve_unsub, new_notifier, add_client,
}
use nkv.Server.SubLaws.{nkv-serve_sub_known, lookup-serve_sub}
use nkv.Server.Replay.{run}

-- An insertion keeps the keys.
lookup-insert_kept :
    (key j : Text) (n : Notifier) (d : Dict.Dict Text Notifier)
    → Dict.lookup key d ≢ none
    → Dict.lookup key (Dict.insert j n d) ≢ none
lookup-insert_kept key j n d known = ground (arith, Dict.lookup-insert j key n d)

module _ (S : StorageEngine) (Q : Mpsc Message) where
  serve_sub_kept :
      (t : Task S Q) (key j uuid : Text) (writer : ℕ)
      → Dict.lookup key t.notifiers ≢ none
      → Dict.lookup key (serve_sub S Q t j uuid writer).0.notifiers ≢ none
  unfolding serve_sub
  serve_sub_kept t key j uuid writer known = elim (Option-cases (Dict.lookup j t.notifiers)) [
    | inr (n, e) ↦
        rw (serve_sub, e) (lookup-insert_kept key j (add_client n uuid writer) t.notifiers known)
    | inl e ↦ elim (Result-cases (Subscribe.subscribe S Q t.nkv j uuid).1) [
      | inl (rx, made) ↦
          rw (serve_sub, e, made)
            (lookup-insert_kept key j (add_client (new_notifier rx) uuid writer) t.notifiers known)
      | inr (why, failed) ↦ rw (serve_sub, e, failed) known
    ]
  ]

module _ (S : StorageEngine) (Q : Mpsc Message) (is_match : Text → Text → Bool) where
  handle_kept :
      (t : Task S Q) (key : Text) (r : ServerRequest) (writer : ℕ)
      → Dict.lookup key t.notifiers ≢ none
      → Dict.lookup key (handle S Q is_match t r writer).0.notifiers ≢ none
  unfolding handle handle_put handle_delete handle_sub handle_unsub serve_put serve_delete
      serve_unsub
  handle_kept t key (ServerRequest.put m) writer known = known
  handle_kept t key (ServerRequest.delete m) writer known = known
  handle_kept t key (ServerRequest.subscribe m) writer known =
      serve_sub_kept S Q t key m.key m.client_uuid writer known
  handle_kept t key (ServerRequest.unsubscribe m) writer known = known
  handle_kept t key (ServerRequest.get m) writer known = known
  handle_kept t key (ServerRequest.trace m) writer known = known
  handle_kept t key (ServerRequest.health m) writer known = known
  handle_kept t key (ServerRequest.version m) writer known = known

  run_kept :
      (rs : List (ServerRequest × ℕ)) (t : Task S Q) (key : Text)
      → Dict.lookup key t.notifiers ≢ none
      → Dict.lookup key (run S Q is_match rs t).notifiers ≢ none
  unfolding run
  run_kept [] t key known = known
  run_kept ((r, writer) ∷ rs) t key known =
      run_kept rs (handle S Q is_match t r writer).0 key (handle_kept t key r writer known)

  -- After a subscription to a key that was served, no later subscription to that key changes the
  -- core, whatever requests are served between the two, an unsubscription and a deletion of the
  -- key included.
  pub nkv-serve_sub_later :
      (t : Task S Q) (rs : List (ServerRequest × ℕ)) (key u1 u2 : Text) (w1 w2 : ℕ)
      → (serve_sub S Q t key u1 w1).1 ≡ no_error
      → (let t' = run S Q is_match rs (serve_sub S Q t key u1 w1).0 in
          (serve_sub S Q t' key u2 w2).0.nkv ≡ t'.nkv)
  nkv-serve_sub_later t rs key u1 u2 w1 w2 served =
      let t' = run S Q is_match rs (serve_sub S Q t key u1 w1).0 in
      nkv-serve_sub_known S Q t' key u2 w2
        (run_kept rs (serve_sub S Q t key u1 w1).0 key (lookup-serve_sub S Q t key u1 w1 served))
