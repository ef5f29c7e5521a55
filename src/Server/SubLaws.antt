-- ===== src/Server/SubLaws.antt =====
-- Several clients that subscribe to one key at the server of src/srv.rs.
use nkv.Base.{
  ℕ, Text, ◌≡◌, ◌≢◌, [], ◌∷◌, none, arith, list_eq, number_eq, eq_refl, Option-cases, inl, inr,
}
use nkv.Base.Dict
use nkv.Errors.{Result-cases, Result, ok, err, NotifyKeyValueError, no_error}
use nkv.Message.{Message}
use nkv.Storage.{Bytes, StorageEngine}
use nkv.Channels.{Mpsc}
use nkv.Core.{NkvCore, get}
use nkv.Core.Notifications.{Notification, send_update_to_subscription}
use nkv.Core.Subscribe
use nkv.Core.Subscribe.{send_values, send_present, subscribe_notifier}
use nkv.Server.{Task, Notifier, serve_sub, new_notifier, add_client}

module _ (Q : Mpsc Message) where
  send_values-ne-no_error :
      (n : Notification) (uuid : Text) (kvs : Dict.Dict Text Bytes) (c : Q.State)
      → (send_values Q n uuid kvs c).0 ≢ err no_error
  unfolding send_values
  send_values-ne-no_error n uuid [] c = cc
  send_values-ne-no_error n uuid ((k, v) ∷ kvs) c =
      ground
        (arith, send_values-ne-no_error n uuid kvs (send_update_to_subscription Q n uuid k v c).1)

module _ (S : StorageEngine) (Q : Mpsc Message) where
  subscribe_notifier-ne-no_error :
      (s : NkvCore S Q) (key uuid : Text) → (subscribe_notifier S Q s key uuid).1 ≢ err no_error
  unfolding subscribe_notifier
  subscribe_notifier-ne-no_error s key uuid = ground arith

  send_present-ne-no_error :
      (s : NkvCore S Q) (key uuid : Text) (r : Result (ℕ × ℕ) NotifyKeyValueError)
      → r ≢ err no_error
      → (send_present S Q s key uuid r).1 ≢ err no_error
  unfolding send_present
  send_present-ne-no_error s key uuid (err e) h = ground arith
  send_present-ne-no_error s key uuid (ok (rx, n)) h =
      ground (arith, send_values-ne-no_error Q (s.heap.cell n) uuid (get S Q s key) s.channels)

  subscribe-ne-no_error :
      (s : NkvCore S Q) (key uuid : Text) → (Subscribe.subscribe S Q s key uuid).1 ≢ err no_error
  unfolding Subscribe.subscribe
  subscribe-ne-no_error s key uuid =
      let (s', subscribed) = subscribe_notifier S Q s key uuid in
      send_present-ne-no_error s' key uuid subscribed (subscribe_notifier-ne-no_error s key uuid)

  pub nkv-serve_sub_known :
      (t : Task S Q) (key uuid : Text) (writer : ℕ)
      → Dict.lookup key t.notifiers ≢ none
      → (serve_sub S Q t key uuid writer).0.nkv ≡ t.nkv
  unfolding serve_sub
  nkv-serve_sub_known t key uuid writer known = ground arith

  lookup-insert_self :
      (key : Text) (n : Notifier) (d : Dict.Dict Text Notifier)
      → Dict.lookup key (Dict.insert key n d) ≢ none
  lookup-insert_self key n d = rw (Dict.lookup-insert key key n d, eq_refl key) (λ e. cc)

  pub lookup-serve_sub :
      (t : Task S Q) (key uuid : Text) (writer : ℕ)
      → (serve_sub S Q t key uuid writer).1 ≡ no_error
      → Dict.lookup key (serve_sub S Q t key uuid writer).0.notifiers ≢ none
  unfolding serve_sub
  lookup-serve_sub t key uuid writer served = elim (Option-cases (Dict.lookup key t.notifiers)) [
    | inr (n, known) ↦
        rw (serve_sub, known) (lookup-insert_self key (add_client n uuid writer) t.notifiers)
    | inl unknown ↦ elim (Result-cases (Subscribe.subscribe S Q t.nkv key uuid).1) [
      | inl (rx, made) ↦
          rw (serve_sub, unknown, made)
            (lookup-insert_self key (add_client (new_notifier rx) uuid writer) t.notifiers)
      | inr (e, failed) ↦ absurd (subscribe-ne-no_error t.nkv key uuid (ground arith))
    ]
  ]
