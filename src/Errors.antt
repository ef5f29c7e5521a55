-- ===== src/Errors.antt =====
-- The error types of src/errors.rs and src/nkv.rs with their texts, and `std::io::Error` as its kind and message.
use nkv.Base.{Text, literal, ◌++◌, ◌≡◌, ◌⊎◌, refl, inl, inr}

pub data ErrorKind : Type 0 where
  not_found invalid_input other : ErrorKind

pub record IoError : Type 0 where
  pub kind : ErrorKind
  pub message : Text

pub data Result {ℓ κ} (A : Type ℓ) (E : Type κ) : Type (ℓ ⊔ κ) where
  ok : A → Result A E
  err : E → Result A E

pub Result-cases {ℓ κ} :
    {A : Type ℓ} {E : Type κ} (r : Result A E) → ((a : A) × (r ≡ ok a)) ⊎ ((e : E) × (r ≡ err e))
Result-cases (ok a) = inl (a, refl)
Result-cases (err e) = inr (e, refl)

-- The operator `?`.
infixl 10 ◌>>=◌
abbrev pub ◌>>=◌ {ℓ κ μ} :
    {A : Type ℓ} {B : Type κ} {E : Type μ} → Result A E → (A → Result B E) → Result B E
ok a >>= f = f a
err e >>= f = err e

-- `io::Result<()>`
abbrev pub IoResult : Type 0
IoResult = Result (Unit {0}) IoError

pub data NotificationError : Type 0 where
  already_subscribed send_error not_found : Text → NotificationError

pub data NotifyKeyValueError : Type 0 where
  no_error not_found : NotifyKeyValueError
  wrong_key : Text → NotifyKeyValueError
  notification_error : NotificationError → NotifyKeyValueError
  io_error : IoError → NotifyKeyValueError

pub data SerializingError : Type 0 where
  missing : Text → SerializingError
  unknown_command invalid_input parse_error : SerializingError

pub data NotifierError : Type 0 where
  failed_to_write_message failed_to_flush_message io_error : IoError → NotifierError
  subscription_not_found : NotifierError

-- `Display` of the errors. That of an `io::Error` is its message.
unfoldable pub display_notification : NotificationError → Text
display_notification (already_subscribed s) = literal "Already subscribed " ++ s
display_notification (send_error s) = literal "Failed to send " ++ s
display_notification (NotificationError.not_found s) =
    literal "Notification with UUID " ++ (s ++ literal " not found")

unfoldable pub display_notify : NotifyKeyValueError → Text
unfolding display_notification
display_notify NotifyKeyValueError.not_found = literal "Not Found"
display_notify no_error = literal "No Error"
display_notify (notification_error e) = literal "Notification error " ++ display_notification e
display_notify (NotifyKeyValueError.io_error e) = literal "IO error " ++ e.message
display_notify (wrong_key s) = literal "Wrong key: " ++ s

unfoldable pub display_serializing : SerializingError → Text
display_serializing (missing what) = literal "Missing " ++ what
display_serializing unknown_command = literal "Unknown command"
display_serializing invalid_input = literal "Invalid input"
display_serializing parse_error = literal "Failed to parse base64"

unfoldable display_notifier : NotifierError → Text
display_notifier (failed_to_write_message e) = literal "Failed to Write Message: " ++ e.message
display_notifier (failed_to_flush_message e) = literal "Failed to Flush Message: " ++ e.message
display_notifier (NotifierError.io_error e) = literal "IoError: " ++ e.message
display_notifier subscription_not_found = literal "Subscription not found"
