-- ===== src/ClientProgram/Session.antt =====
-- Commands of src/client/main.rs one after the other, with the server of src/srv.rs at the other
-- end.
use nkv.Base.{
  Text, literal, Bool, true, false, none, some, [], ◌∷◌, ◌++◌, ◌≡◌, ◌≢◌, refl, Avoids, ap, ◌∙◌,
  list_beq, append-nil, append-nil,
}
use nkv.Base.Utf8.{as_bytes, IsText, from_utf8-as_bytes, as_bytes-ne-nil}
use nkv.Base.Format.{line, Unicode}
use nkv.Errors.{ok, err}
use nkv.Message.{Message}
use nkv.Storage.{StorageEngine, View, IsStore}
use nkv.Channels.{Mpsc}
use nkv.Core.PutLaws.{accepts}
use nkv.Protocol.Words.{IsWord, IsSolid}
use nkv.Protocol.Base64.{Base64}
use nkv.Protocol.Response.{ServerResponse, map_response, print_base}
use nkv.Protocol.Debug.{readable}
use nkv.Server.{Task}
use nkv.Client
use nkv.Client.{NkvClient, Network, Answer, uuid}
use nkv.Client.Wire.{served, get-put}
use nkv.ClientProgram.{
  Json, data_text, pretty_text, brief, print_entries, run_command, run_put, run_get, pretty_print,
  report, handle_command,
}

module _ (N : Network) (B : Base64) (U : Unicode) (J : Json) where
  report_network :
      (c : NkvClient) (r : N.State × Answer) (show : ServerResponse → Text)
      → (report N B U J c r show).network ≡ r.0
  unfolding report
  report_network c (w, ok response) show = refl
  report_network c (w, err e) show = refl

  report_client :
      (c : NkvClient) (r : N.State × Answer) (show : ServerResponse → Text)
      → (report N B U J c r show).client ≡ c
  unfolding report
  report_client c (w, ok response) show = refl
  report_client c (w, err e) show = refl

  report_answered :
      (c : NkvClient) (r : N.State × Answer) (show : ServerResponse → Text)
      (response : ServerResponse)
      → r.1 ≡ ok response
      → ((report N B U J c r show).printed ≡ show response)
        × ((report N B U J c r show).quits ≡ some false)
  unfolding report
  report_answered c r show response e = rw e (refl, refl)

module _ (N : Network) (B : Base64) (U : Unicode) (J : Json) where
  handle_command-put :
      (c : NkvClient) (w : N.State) (put key v id elapsed : Text)
      → U.to_lowercase put ≡ literal "put"
      → handle_command N B U J c w id elapsed (put ∷ key ∷ v ∷ [])
        ≡ report N B U J c (Client.put N B c w key (as_bytes v) id) (brief N B U J elapsed)
  unfolding handle_command run_command run_put list_beq
  handle_command-put c w put key v id elapsed low = rw low refl

  abbrev shown_get : Text → ServerResponse → Text
  shown_get elapsed response =
      line (literal "Request took: " ++ elapsed) ++ pretty_print J B response

  handle_command-get :
      (c : NkvClient) (w : N.State) (get key id elapsed : Text)
      → U.to_lowercase get ≡ literal "get"
      → handle_command N B U J c w id elapsed (get ∷ key ∷ [])
        ≡ report N B U J c (Client.get N B c w key id) (shown_get elapsed)
  unfolding handle_command run_command run_get list_beq
  handle_command-get c w get key id elapsed low = rw low refl

readable-as_bytes : (s : Text) → IsText s → readable (as_bytes s) ≡ s
readable-as_bytes s h = rw (readable, from_utf8-as_bytes s h) refl

data_text-as_bytes :
    (J : Json) (s : Text) → IsText s → J.from_str s ≡ none → data_text J (as_bytes s) ≡ s
unfolding data_text
data_text-as_bytes J s h plain =
    let kept : pretty_text J s ≡ s = rw (pretty_text, plain) refl in
    ap (pretty_text J) (readable-as_bytes s h) ∙ kept

-- How one entry is shown.
pretty_print_entry :
    (B : Base64) (J : Json) (id key v : Text)
    → IsText v
    → J.from_str v ≡ none
    → pretty_print J B (
        map_response
          (record { base = record { id = id; status = true }; content = (key, as_bytes v) ∷ [] }))
      ≡ line (id ++ literal " OK") ++ line (key ++ b' ' ∷ (v ++ b'\n' ∷ []))
unfolding pretty_print print_entries print_base
pretty_print_entry B J id key v text plain =
    let entry = λ (shown : Text). line (key ++ b' ' ∷ (shown ++ b'\n' ∷ [])) in
    ap (λ shown. line (id ++ literal " OK") ++ (entry shown ++ []))
      (data_text-as_bytes J v text plain)
    ∙ ap (λ shown. line (id ++ literal " OK") ++ shown) (append-nil (entry v))

module _ {S : StorageEngine} {Q : Mpsc Message} {V : View S} (L : IsStore S V)
    (is_match : Text → Text → Bool) (B : Base64) (U : Unicode) (J : Json) where
  -- In the client program, a PUT of a value and then a GET of its key print the value: over a
  -- network that hands each line to a server whose storage keeps the contract IsStore, if the
  -- words of the commands are put and get in lower case, the key passes the checks and is one
  -- word, the storage admits it and takes the value, the value is a text that is not empty and no
  -- JSON, and the uuids hold no blank, then the GET prints the time it took, its id with OK, and
  -- the key with the value, and the program goes on.
  pub handle_command-get-put :
      (c : NkvClient) (t : Task S Q) (put get key v id1 id2 elapsed1 elapsed2 : Text)
      → U.to_lowercase put ≡ literal "put"
      → U.to_lowercase get ≡ literal "get"
      → accepts is_match key ≡ true
      → V.admits key ≡ true
      → (S.put t.nkv.storage key (as_bytes v)).1 ≡ ok tt
      → v ≢ []
      → IsText v
      → J.from_str v ≡ none
      → IsWord key
      → Avoids b' ' c.client_uuid
      → IsSolid id1
      → IsSolid id2
      → (let N = served S Q is_match B in
          let done = handle_command N B U J c t id1 elapsed1 (put ∷ key ∷ v ∷ []) in
          let got = handle_command N B U J done.client done.network id2 elapsed2 (get ∷ key ∷ []) in
          (got.quits ≡ some false)
          × (got.printed
              ≡ line (literal "Request took: " ++ elapsed2)
                ++ (line (uuid id2 ++ literal " OK") ++ line (key ++ b' ' ∷ (v ++ b'\n' ∷ [])))))
  handle_command-get-put c t put get key v id1 id2 elapsed1 elapsed2 low_put low_get accepted admits
        stored given text plain word solid solid1 solid2 =
      let N = served S Q is_match B in
      let done = handle_command N B U J c t id1 elapsed1 (put ∷ key ∷ v ∷ []) in
      let reply = Client.put N B c t key (as_bytes v) id1 in
      let again = λ (c' : NkvClient) (w : Task S Q).
        handle_command N B U J c' w id2 elapsed2 (get ∷ key ∷ []) in
      let ran = handle_command-put N B U J c t put key v id1 elapsed1 low_put in
      let same : done.client ≡ c =
        ap (λ r. r.client) ran ∙ report_client N B U J c reply (brief N B U J elapsed1) in
      let moved : done.network ≡ reply.0 =
        ap (λ r. r.network) ran ∙ report_network N B U J c reply (brief N B U J elapsed1) in
      let read : again done.client done.network ≡ report N B U J c _ (shown_get N B U J elapsed2) =
        ap (λ c'. again c' done.network) same
        ∙ ap (again c) moved
        ∙ handle_command-get N B U J c reply.0 get key id2 elapsed2 low_get in
      let (printed, quits) = report_answered N B U J c _ (shown_get N B U J elapsed2) _ (
        get-put L is_match B c c t key (as_bytes v) id1 id2 accepted admits stored
          (as_bytes-ne-nil v given) word solid solid solid1 solid2) in
      (
        ap (λ r. r.quits) read ∙ quits,
        ap (λ r. r.printed) read
            ∙ printed
            ∙ ap (λ shown. line (literal "Request took: " ++ elapsed2) ++ shown)
                (pretty_print_entry B J (uuid id2) key v text plain),
      )
