-- ===== src/Core/Notifications.antt =====
-- `Notification` of src/nkv.rs: the subscriptions of one key, a sender for each client. The state
-- of the channels is passed along.
use nkv.Base.{ℕ, Text, literal, none, some, [], ◌∷◌, if◌then◌else◌, list_eq, number_eq}
use nkv.Base.Dict
use nkv.Base.Dict.{Dict}
use nkv.Errors.{Result, ok, err, NotificationError, already_subscribed, send_error, not_found}
use nkv.Message.{Message, hello, update, close}
use nkv.Storage.{Bytes}
use nkv.Channels.{Mpsc}

pub record Notification : Type 0 where
  pub subscriptions : Dict Text ℕ

abbrev pub new : Notification
new = record { subscriptions = [] }

-- `From<SendError>`
abbrev pub send_failed : NotificationError
send_failed = send_error (literal "Failed to send message")

abbrev pub Outcome : Type 0
Outcome = Result (Unit {0}) NotificationError

module _ (Q : Mpsc Message) where
  -- `tx.send(message)?`
  unfoldable pub try_send : ℕ → Message → Q.State → Outcome × Q.State
  try_send tx m c = let (c', sent) = Q.send tx m c in (if sent then ok tt else err send_failed, c')

  -- `for (_, tx) in … { tx.send(message)?; }`
  unfoldable pub send_each : Dict Text ℕ → Message → Q.State → Outcome × Q.State
  unfolding try_send
  send_each [] m c = (ok tt, c)
  send_each ((_, tx) ∷ d) m c =
      let (sent, c') = try_send tx m c in
      let rest = send_each d m c' in elim sent [ err e ↦ (err e, c') | ok _ ↦ rest ]

  -- `Notification::subscribe`
  unfoldable pub subscribe_uuid :
      Notification → Text → Q.State → Notification × Result ℕ NotificationError × Q.State
  unfolding try_send
  subscribe_uuid n uuid c =
      if Dict.contains_key uuid n.subscriptions
      then (n, err (already_subscribed uuid), c)
      else (let (tx, c') = Q.unbounded_channel c in
          let n' : Notification = record { subscriptions = Dict.insert uuid tx n.subscriptions } in
          let (sent, c'') = try_send tx hello c' in
          (n', (elim sent [ err e ↦ err e | ok _ ↦ ok tx ]), c''))

  -- `Notification::unsubscribe`: the sender is removed before the message goes out.
  unfoldable pub unsubscribe_uuid :
      Notification → Text → Text → Q.State → Notification × Outcome × Q.State
  unfolding try_send
  unsubscribe_uuid n key uuid c = elim (Dict.lookup uuid n.subscriptions) [
    | none ↦ (n, ok tt, c)
    | some tx ↦
        let (sent, c') = try_send tx (close key) c in
        (record { subscriptions = Dict.remove uuid n.subscriptions }, sent, c')
  ]

  -- `drain` empties the map also where the loop ends early.
  unfoldable pub unsubscribe_all : Notification → Text → Q.State → Notification × Outcome × Q.State
  unfolding send_each
  unsubscribe_all n key c =
      let (sent, c') = send_each n.subscriptions (close key) c in (new, sent, c')

  unfoldable pub send_hello : Notification → Q.State → Outcome × Q.State
  unfolding send_each
  send_hello n c = send_each n.subscriptions hello c

  unfoldable pub send_update : Notification → Text → Bytes → Q.State → Outcome × Q.State
  unfolding send_each
  send_update n key v c = send_each n.subscriptions (update key v) c

  unfoldable pub send_update_to_subscription :
      Notification → Text → Text → Bytes → Q.State → Outcome × Q.State
  unfolding try_send
  send_update_to_subscription n uuid key v c = elim (Dict.lookup uuid n.subscriptions) [
    | none ↦ (err (not_found uuid), c)
    | some tx ↦ try_send tx (update key v) c
  ]

  unfoldable pub send_close : Notification → Text → Q.State → Outcome × Q.State
  unfolding send_each
  send_close n key c = send_each n.subscriptions (close key) c
