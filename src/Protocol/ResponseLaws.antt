-- ===== src/Protocol/ResponseLaws.antt =====
-- What `Display` and `FromStr` of `ServerResponse` in src/request_msg.rs do to each other.
use nkv.Base.{
  Text, literal, Bool, true, false, ◌≡◌, refl, ap, sym, ◌∙◌, List, [], ◌∷◌, ◌++◌, arith, All, join,
  Avoids, list_beq, if◌then◌else◌, append-nil, append_assoc, list_eq, number_eq,
}
use nkv.Base.Dict
use nkv.Errors.{ok, ◌>>=◌}
use nkv.Protocol.Words.{
  is_whitespace, IsSolid, IsWord, splitn-append, splitn_of_Avoids, cut_blank-append,
  trim_start-append,
}
use nkv.Protocol.Base64.{Base64}
use nkv.Protocol.Response.{
  BaseResp, print_base, parse_status, parse_head, parse_base, Marshalable, map_data, marshal_names,
  names_data, text_data, DataResp, print_data, parse_data, ServerResponse, base, map_response,
  trace, version, print_response, parse_kind, parse_response,
}
use nkv.Protocol.Marshal.{
  split_whitespace-marshal_names, split_whitespace-join, IsSendableEntry, entry_words,
  marshal_map-entry_words, entry_words-All, unmarshal_map-entry_words,
}

abbrev pub status_text : Bool → Text
status_text status = if status then literal "OK" else literal "FAILED"

pub status_text-IsWord : (status : Bool) → IsWord (status_text status)
unfolding is_whitespace
status_text-IsWord true = ground arith
status_text-IsWord false = ground arith

-- A text without whitespace has no blank.
pub IsSolid-Avoids : (word : Text) → IsSolid word → Avoids b' ' word
unfolding is_whitespace
IsSolid-Avoids [] h = tt
IsSolid-Avoids (x ∷ word) (h, hs) = (ground arith, IsSolid-Avoids word hs)

pub parse_head-status_text :
    (r : BaseResp) (words : List Text)
    → parse_head (r.id ∷ status_text r.status ∷ words) ≡ ok (r, words)
unfolding parse_head parse_status list_beq
parse_head-status_text r words = by_status r.status
  where
    by_status :
        (s : Bool)
        → parse_head (r.id ∷ status_text s ∷ words) ≡ ok (record { id = r.id; status = s }, words)
    by_status true = refl
    by_status false = refl

parse_base-print_base : (r : BaseResp) → IsWord r.id → parse_base (print_base r) ≡ ok r
unfolding parse_base print_base
parse_base-print_base r word =
    let status = status_text r.status in
    rw
      (
        parse_base,
        splitn-append 1 b' ' r.id status (IsSolid-Avoids r.id word.0),
        splitn_of_Avoids 1 b' ' status (IsSolid-Avoids status (status_text-IsWord r.status).0),
        parse_head-status_text r [],
      )
      refl

module _ {T : Type 0} (M : Marshalable T) where
  pub print_data-marshal_names :
      (r : DataResp T) (words : List Text)
      → M.marshal r.content ≡ marshal_names words
      → print_data M r ≡ r.base.id ++ marshal_names (status_text r.base.status ∷ words)
  unfolding print_data print_base marshal_names
  print_data-marshal_names r words spaced =
      append_assoc r.base.id (b' ' ∷ status_text r.base.status) (M.marshal r.content)
      ∙ ap (λ s. r.base.id ++ b' ' ∷ (status_text r.base.status ++ s)) spaced

  -- What a type of data needs: its text is a sequence of words, and the words give it back.
  parse_data-print_data :
      (r : DataResp T) (words : List Text)
      → IsWord r.base.id
      → All IsWord words
      → M.marshal r.content ≡ marshal_names words
      → M.unmarshal (join b' ' words) ≡ ok r.content
      → parse_data M (print_data M r) ≡ ok r
  unfolding parse_data
  parse_data-print_data r words word all spaced read =
      let status = status_text r.base.status in
      ap (parse_data M) (print_data-marshal_names r words spaced)
      ∙ rw
          (
            parse_data,
            split_whitespace-marshal_names r.base.id (status ∷ words) word
                (status_text-IsWord r.base.status, all),
            parse_head-status_text r.base words,
            read,
          )
          refl

-- The id, the keys and the text of a response are words, the keys of a map are distinct, and its
-- values are not empty.
abbrev pub IsSendableResponse : ServerResponse → Type 0
IsSendableResponse (base r) = IsWord r.id
IsSendableResponse (map_response r) =
    IsWord r.base.id × Dict.NodupKeys r.content × All IsSendableEntry r.content
IsSendableResponse (trace r) = IsWord r.base.id × All IsWord r.content
IsSendableResponse (version r) = IsWord r.base.id × IsWord r.content

module _ (B : Base64) where
  parse_response-parse_kind :
      (word text rest : Text)
      → IsSolid word
      → IsWord text
      → parse_response B (word ++ b' ' ∷ (text ++ rest)) ≡ parse_kind B word (text ++ rest)
  unfolding parse_response
  parse_response-parse_kind word text rest h starts =
      rw
        (parse_response, cut_blank-append word (text ++ rest) h, trim_start-append text rest starts)
        refl

  pub parse_kind_of_text :
      (word id rest text : Text)
      → IsSolid word
      → IsWord id
      → text ≡ id ++ rest
      → parse_response B (word ++ b' ' ∷ text) ≡ parse_kind B word text
  parse_kind_of_text word id rest text h starts e =
      rw e (parse_response-parse_kind word id rest h starts)

  parse_kind_of_data :
      {T : Type 0} (M : Marshalable T) (word : Text) (r : DataResp T) (words : List Text)
      → IsSolid word
      → IsWord r.base.id
      → M.marshal r.content ≡ marshal_names words
      → parse_response B (word ++ b' ' ∷ print_data M r) ≡ parse_kind B word (print_data M r)
  parse_kind_of_data M word r words h starts spaced =
      parse_kind_of_text word r.base.id (marshal_names (status_text r.base.status ∷ words))
        (print_data M r) h starts (print_data-marshal_names M r words spaced)

  -- Parsing the text of a response gives the response back, if its id, its keys and its text are
  -- words, its keys are distinct and no value is empty.
  pub parse_response-print_response :
      (r : ServerResponse) → IsSendableResponse r → parse_response B (print_response B r) ≡ ok r
  unfolding print_response parse_kind list_beq is_whitespace
  parse_response-print_response (base r) h =
      parse_kind_of_text (literal "base") r.id (b' ' ∷ status_text r.status) (print_base r)
        (ground arith) h (unfold print_base in refl)
      ∙ ap (λ p. p >>= (λ read. ok (base read))) (parse_base-print_base r h)
  parse_response-print_response (map_response r) (word, nodup, entries) =
      let words = entry_words B r.content in
      let spaced = marshal_map-entry_words B r.content in
      parse_kind_of_data (map_data B) (literal "data") r words (ground arith) word spaced
      ∙ ap (λ p. p >>= (λ read. ok (map_response read)))
          (parse_data-print_data (map_data B) r words word (entry_words-All B r.content entries)
            spaced (unmarshal_map-entry_words B r.content nodup entries))
  parse_response-print_response (trace r) (word, names) =
      parse_kind_of_data names_data (literal "trace") r r.content (ground arith) word refl
      ∙ ap (λ p. p >>= (λ read. ok (trace read)))
          (parse_data-print_data names_data r r.content word names refl
            (ap ok (split_whitespace-join r.content names)))
  parse_response-print_response (version r) (word, text) =
      let spaced = ap (λ s. b' ' ∷ s) (sym (append-nil r.content)) in
      parse_kind_of_data text_data (literal "version") r (r.content ∷ []) (ground arith) word
        (unfold marshal_names in spaced)
      ∙ ap (λ p. p >>= (λ read. ok (version read)))
          (parse_data-print_data text_data r (r.content ∷ []) word (text, tt)
            (unfold marshal_names in spaced) (unfold join in refl))
