-- ===== src/Server/LineLaws.antt =====
-- The server of src/srv.rs reads what a client prints with src/request_msg.rs.
use nkv.Base.{
  ℕ, Text, literal, Bool, ◌≡◌, ◌≢◌, refl, ap, ◌∙◌, [], ◌∷◌, ◌++◌, arith, join, list_beq,
  append_assoc,
}
use nkv.Errors.{err, missing}
use nkv.Message.{Message}
use nkv.Storage.{StorageEngine}
use nkv.Channels.{Mpsc}
use nkv.Protocol.{failed}
use nkv.Protocol.Words.{IsWord, is_whitespace}
use nkv.Protocol.Trim.{
  newline, trim_end, trim_end-newline, trim_end-blank_newline, IsTrimmed, word-IsTrimmed,
  append-IsTrimmed,
}
use nkv.Protocol.Base64.{Base64}
use nkv.Protocol.Request.{
  BaseMessage, ServerRequest, put, get, delete, subscribe, unsubscribe, trace, health, version,
  print_request, print_line, parse_request, parse_parts, parse_command, parse_put,
}
use nkv.Protocol.RequestLaws.{
  splitn-line, IsPlainMessage, IsPlainRequest, received, parse_request-print_request,
}
use nkv.Protocol.NoticeLaws.{encode-IsWord}
use nkv.Server.{Task, handle}
use nkv.Base.Utf8.{as_bytes, from_utf8-as_bytes, IsText}
use nkv.Server.Lines.{handle_request, silence, write_response, handle_line}

-- The last word of the line is not empty: the data of a PUT, the key otherwise.
abbrev pub HasLastWord : ServerRequest → Type 0
HasLastWord (put p) = p.value ≢ []
HasLastWord (get m) = IsWord m.key
HasLastWord (delete m) = IsWord m.key
HasLastWord (subscribe m) = IsWord m.key
HasLastWord (unsubscribe m) = IsWord m.key
HasLastWord (trace m) = IsWord m.key
HasLastWord (health m) = Unit
HasLastWord (version m) = Unit

words-IsTrimmed :
    (tail first second third s : Text)
    → IsTrimmed tail s
    → IsTrimmed tail (first ++ b' ' ∷ (second ++ b' ' ∷ (third ++ b' ' ∷ s)))
words-IsTrimmed tail first second third s h =
    append-IsTrimmed tail first (b' ' ∷ (second ++ b' ' ∷ (third ++ b' ' ∷ s))) (
      append-IsTrimmed tail (b' ' ∷ second) (b' ' ∷ (third ++ b' ' ∷ s))
        (append-IsTrimmed tail (b' ' ∷ third) (b' ' ∷ s) (append-IsTrimmed tail (b' ' ∷ []) s h)))

line-IsTrimmed :
    (name key : Text) (m : BaseMessage) → IsWord key → IsTrimmed newline (print_line name m key)
unfolding join
line-IsTrimmed name key m word =
    words-IsTrimmed newline name m.id m.client_uuid key
      (word-IsTrimmed newline trim_end-newline key word)

module _ (B : Base64) where
  pub print_request-IsTrimmed :
      (r : ServerRequest) → HasLastWord r → IsTrimmed newline (print_request B r)
  unfolding print_request is_whitespace join
  print_request-IsTrimmed (put p) h =
      words-IsTrimmed newline (literal "PUT") p.base.id p.base.client_uuid
        (p.base.key ++ b' ' ∷ B.encode p.value)
        (append-IsTrimmed newline p.base.key (b' ' ∷ B.encode p.value) (
          append-IsTrimmed newline (b' ' ∷ []) (B.encode p.value) (
            word-IsTrimmed newline trim_end-newline (B.encode p.value)
              (encode-IsWord B p.value h))))
  print_request-IsTrimmed (get m) h = line-IsTrimmed (literal "GET") m.key m h
  print_request-IsTrimmed (delete m) h = line-IsTrimmed (literal "DEL") m.key m h
  print_request-IsTrimmed (subscribe m) h = line-IsTrimmed (literal "SUB") m.key m h
  print_request-IsTrimmed (unsubscribe m) h = line-IsTrimmed (literal "UNSUB") m.key m h
  print_request-IsTrimmed (trace m) h = line-IsTrimmed (literal "TRACE") m.key m h
  print_request-IsTrimmed (health m) h =
      line-IsTrimmed (literal "HEALTH") (literal "HK") m (ground arith)
  print_request-IsTrimmed (version m) h =
      line-IsTrimmed (literal "VERSION") (literal "DISCARDME") m (ground arith)

  print_request-empty_put :
      (m : BaseMessage)
      → print_request B (put (record { base = m; value = [] })) ++ newline
        ≡ print_line (literal "PUT") m m.key ++ b' ' ∷ newline
  unfolding print_request join
  print_request-empty_put m = simp (append_assoc, B.encode_nil)

  -- Without its data, a PUT is cut to a line of four words.
  parse_request-empty_put :
      (m : BaseMessage)
      → IsPlainMessage m
      → IsWord m.key
      → parse_request B
          (trim_end (print_request B (put (record { base = m; value = [] })) ++ newline))
        ≡ err (failed (missing (literal "value")))
  unfolding parse_request parse_parts parse_command parse_put list_beq join
  parse_request-empty_put m plain word =
      ap (parse_request B) (
        ap trim_end (print_request-empty_put m)
        ∙ (words-IsTrimmed (b' ' ∷ newline) (literal "PUT") m.id m.client_uuid m.key
            (word-IsTrimmed (b' ' ∷ newline) trim_end-blank_newline m.key word)).0)
      ∙ unfold join in
        rw (parse_request, splitn-line (literal "PUT") m.key m (ground arith) plain.1 plain) refl

module _ (S : StorageEngine) (Q : Mpsc Message) (is_match : Text → Text → Bool) (B : Base64) where
  -- For the line that a client prints the server does what it does for the request, if the words
  -- of the request hold no blank and the last one is not empty.
  pub handle_line-print_request :
      (t : Task S Q) (r : ServerRequest) (writer : ℕ)
      → IsPlainRequest r
      → HasLastWord r
      → handle_line S Q is_match B t (print_request B r ++ b'\n' ∷ []) writer ≡ (
        (handle S Q is_match t (received r) writer).0,
        write_response B (handle S Q is_match t (received r) writer).1,
      )
  unfolding handle_line
  handle_line-print_request t r writer plain last =
      rw (handle_line, (print_request-IsTrimmed B r last).0, parse_request-print_request B r plain)
        refl

  -- The bytes of a line are decoded to the line.
  handle_request-as_bytes :
      (t : Task S Q) (line : Text) (writer : ℕ)
      → IsText line
      → handle_request S Q is_match B t (as_bytes line) writer
        ≡ handle_line S Q is_match B t line writer
  unfolding handle_request
  handle_request-as_bytes t line writer h = rw (handle_request, from_utf8-as_bytes line h) refl

  -- A PUT with empty data, as a client prints it, changes nothing and gets no reply, if its words
  -- hold no blank and its key is a word.
  pub handle_line-empty_put :
      (t : Task S Q) (m : BaseMessage) (writer : ℕ)
      → IsPlainMessage m
      → IsWord m.key
      → handle_line S Q is_match B t
          (print_request B (put (record { base = m; value = [] })) ++ b'\n' ∷ [])
          writer
        ≡ (t, silence)
  unfolding handle_line
  handle_line-empty_put t m writer plain word =
      rw (handle_line, parse_request-empty_put B m plain word) refl
