-- ===== src/Protocol/NoticeLaws.antt =====
-- What `Display` and `FromStr` of `Message` in src/request_msg.rs do to each other.
use mathlib.Core.Option.{some-injective}
use nkv.Base.{literal, ◌≡◌, ◌≢◌, refl, ap, sym, ◌∙◌, [], ◌∷◌, ◌++◌, arith, list_beq, join}
use nkv.Errors.{ok}
use nkv.Storage.{Bytes}
use nkv.Message.{Message, hello, not_found, update, close}
use nkv.Protocol.Words.{
  split_whitespace, split_blank, IsWord, is_whitespace, split_whitespace-append,
  split_whitespace_of_IsWord,
}
use nkv.Protocol.Base64.{Base64}
use nkv.Protocol.Notice.{print_message, parse_update, parse_words, parse_message}

-- The key is one word, and an update carries data.
abbrev pub IsSendable : Message → Type 0
IsSendable hello = Unit
IsSendable not_found = Unit
IsSendable (update key value) = IsWord key × (value ≢ [])
IsSendable (close key) = IsWord key

update-IsWord : IsWord (literal "UPDATE")
unfolding is_whitespace
update-IsWord = ground arith

close-IsWord : IsWord (literal "CLOSE")
unfolding is_whitespace
close-IsWord = ground arith

module _ (B : Base64) where
  pub encode-IsWord : (v : Bytes) → v ≢ [] → IsWord (B.encode v)
  encode-IsWord v given = (
    B.encode-IsSolid v,
    λ e. given (
        some-injective v []
          (sym (B.decode-encode v) ∙ ap B.decode (e ∙ sym B.encode_nil) ∙ B.decode-encode [])),
  )

  -- Parsing the text of a message to a subscriber gives the message back, if its key is one word
  -- and an update carries data.
  pub parse_message-print_message :
      (m : Message) → IsSendable m → parse_message B (print_message B m) ≡ ok m
  unfolding print_message parse_message parse_words parse_update list_beq join
  parse_message-print_message hello h = unfold split_whitespace split_blank is_whitespace in refl
  parse_message-print_message not_found h =
      unfold split_whitespace split_blank is_whitespace in refl
  parse_message-print_message (update key value) (word, given) =
      rw
        (
          split_whitespace-append (literal "UPDATE") (key ++ b' ' ∷ B.encode value) update-IsWord,
          split_whitespace-append key (B.encode value) word,
          split_whitespace_of_IsWord (B.encode value) (encode-IsWord value given),
          B.decode-encode value,
        )
        refl
  parse_message-print_message (close key) h =
      rw
        (
          split_whitespace-append (literal "CLOSE") key close-IsWord,
          split_whitespace_of_IsWord key h,
        )
        refl
