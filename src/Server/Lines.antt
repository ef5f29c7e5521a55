-- ===== src/Server/Lines.antt =====
-- `handle_request` and `write_response` of src/srv.rs: from the line that a client sends to the
-- line that it gets. The framing of tokio gives the bytes of a line.
use nkv.Base.{ℕ, Text, Bool, Option, some, none, [], ◌∷◌, ◌++◌}
use nkv.Errors.{ok, err}
use nkv.Message.{Message}
use nkv.Base.Utf8.{from_utf8}
use nkv.Storage.{Bytes, StorageEngine}
use nkv.Channels.{Mpsc}
use nkv.Protocol.{failed, panic}
use nkv.Protocol.Trim.{trim_end}
use nkv.Protocol.Base64.{Base64}
use nkv.Protocol.Request.{parse_request}
use nkv.Protocol.Response.{ServerResponse, print_response}
use nkv.Server.{Task, handle}

-- What the client sees: a line, nothing, or nothing because the handler panicked.
pub data Outcome : Type 0 where
  reply : Text → Outcome
  silence panicked : Outcome

module _ (B : Base64) where
  unfoldable pub write_response : Option ServerResponse → Outcome
  write_response none = silence
  write_response (some r) = reply (print_response B r ++ b'\n' ∷ [])

module _ (S : StorageEngine) (Q : Mpsc Message) (is_match : Text → Text → Bool) (B : Base64) where
  unfoldable pub handle_line : Task S Q → Text → ℕ → Task S Q × Outcome
  unfolding write_response
  handle_line t line writer = elim (parse_request B (trim_end line)) [
    | ok r ↦ let (t', response) = handle S Q is_match t r writer in (t', write_response B response)
    | err e ↦ elim e [ failed _ ↦ (t, silence) | panic ↦ (t, panicked) ]
  ]

  -- The bytes of a frame must be UTF-8 (`unwrap`).
  unfoldable pub handle_request : Task S Q → Bytes → ℕ → Task S Q × Outcome
  unfolding handle_line
  handle_request t bytes writer = elim (from_utf8 bytes) [
    | none ↦ (t, panicked)
    | some line ↦ handle_line t line writer
  ]
