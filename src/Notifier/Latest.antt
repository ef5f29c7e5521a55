-- ===== src/Notifier/Latest.antt =====
-- The invariant of the two tasks of a `Notifier` of src/notifier.rs: the wake-ups that they owe, and
-- the last message of the channel.
use nkv.Base.{
  Bool, true, false, ◌≡◌, ◌≢◌, refl, sym, ap, ◌∙◌, Option, none, some, List, [], ◌∷◌, ◌++◌, ◌⊎◌,
  inl, inr, arith, append_assoc, append-nil, Option-cases,
}
use nkv.Message.{Message}
use nkv.Notifier.StateBuf
use nkv.Notifier.StateBuf.{StateBuf, slot, IsSingle, new-IsSingle, store-IsSingle, pop-IsSingle}
use nkv.Notifier.System
use nkv.Notifier.System.{
  System, Step, arrive, receive, signal, end_of_channel, wake, take, start, write, write_failed,
  skip, finish, subscribe, unsubscribe, unsubscribe_all, Steps, here, next, take_out, taken,
}

unfoldable pub last : List Message → Option Message
last [] = none
last (m ∷ []) = some m
last (m ∷ n ∷ ms) = last (n ∷ ms)

last-append :
    (xs : List Message) (y : Message) (ys : List Message) → last (xs ++ y ∷ ys) ≡ last (y ∷ ys)
unfolding last
last-append [] y ys = refl
last-append (x ∷ []) y ys = refl
last-append (x ∷ n ∷ xs) y ys = last-append (n ∷ xs) y ys

-- What the two tasks keep of their state: the messages given to a broadcast, that in the buffer and
-- those in the channel end with the last one that was sent.
pub record Inv (queue : List Message) (buf : StateBuf Message) (stored changed woken : Bool)
    (handed sent : List Message) : Type 0 where
  pub single : IsSingle buf
  -- A message in the buffer will be taken out.
  pub awaited : slot buf ≢ none → (stored ≡ true) ⊎ ((changed ≡ true) ⊎ (woken ≡ true))
  pub latest : last (handed ++ (taken (slot buf) ++ queue)) ≡ last sent

abbrev pub IsAwake : System → Type 0
IsAwake s = Inv s.queue s.buf s.stored s.changed s.woken s.handed s.sent

pub new-IsAwake : IsAwake System.new
unfolding System.new StateBuf.new
new-IsAwake = record { single = new-IsSingle; awaited = λ h. absurd (h refl); latest = refl }

last-arrive :
    (handed el queue sent : List Message) (m : Message)
    → last (handed ++ (el ++ (queue ++ m ∷ []))) ≡ last (sent ++ m ∷ [])
last-arrive handed el queue sent m =
    ap (λ q. last (handed ++ q)) (sym (append_assoc el queue (m ∷ [])))
    ∙ ap last (sym (append_assoc handed (el ++ queue) (m ∷ [])))
    ∙ last-append (handed ++ (el ++ queue)) m []
    ∙ sym (last-append sent m [])

last-receive :
    (handed el rest : List Message) (m : Message)
    → last (handed ++ m ∷ rest) ≡ last (handed ++ (el ++ m ∷ rest))
last-receive handed el rest m =
    last-append handed m rest
    ∙ sym (last-append (handed ++ el) m rest)
    ∙ ap last (append_assoc handed el (m ∷ rest))

take_out-IsAwake : (s : System) → IsAwake s → IsAwake (take_out s)
unfolding take_out
take_out-IsAwake s h =
    let (single, empty, el) = pop-IsSingle s.buf h.single in
    record {
      single = single;
      awaited = λ full. absurd (full empty);
      latest = rw (empty, el, append_assoc s.handed (taken (slot s.buf)) s.queue) h.latest;
    }

Step-IsAwake : {s t : System} → Step s t → IsAwake s → IsAwake t
Step-IsAwake {s} (arrive m going) h = record {
  single = h.single;
  awaited = h.awaited;
  latest = last-arrive s.handed (taken (slot s.buf)) s.queue s.sent m;
}
Step-IsAwake {s} (receive m rest e ready going) h =
    let (single, full) = store-IsSingle m s.buf h.single in
    record {
      single = single;
      awaited = λ _. inl refl;
      latest = rw full (last-receive s.handed (taken (slot s.buf)) rest m) ∙ rw e at h.latest;
    }
Step-IsAwake (signal e) h = record {
  single = h.single;
  awaited = λ _. inr (inl refl);
  latest = h.latest;
}
Step-IsAwake (wake e ready) h = record {
  single = h.single;
  awaited = λ _. inr (inr refl);
  latest = h.latest;
}
Step-IsAwake {s} (take e) h = take_out-IsAwake s h
Step-IsAwake (end_of_channel e ready) h = h
Step-IsAwake (start before after m e) h = h
Step-IsAwake (write before after m u us failures w e found) h = h
Step-IsAwake (write_failed before after m u us failures w e found) h = h
Step-IsAwake (skip before after m u us failures e missing) h = h
Step-IsAwake (finish before after m failures d wire e close_failed) h = h
Step-IsAwake (subscribe u w) h = h
Step-IsAwake (unsubscribe key u w found) h = h
Step-IsAwake (unsubscribe_all key wire close_all) h = h

pub Steps-IsAwake : {s t : System} → IsAwake s → Steps s t → IsAwake t
Steps-IsAwake h here = h
Steps-IsAwake h (next steps step) = Step-IsAwake step (Steps-IsAwake h steps)

-- Neither of the two tasks has anything to do.
pub record IsQuiet (s : System) : Type 0 where
  pub read : s.queue ≡ []
  pub told : s.stored ≡ false
  pub seen : s.changed ≡ false
  pub asleep : s.woken ≡ false

-- Where the two tasks rest, the buffer is empty and the last message that was sent was the last
-- one given to a broadcast.
pub last_handed_of_IsQuiet :
    {s : System} → Steps System.new s → IsQuiet s → last s.handed ≡ last s.sent
last_handed_of_IsQuiet {s} steps quiet =
    let h = Steps-IsAwake new-IsAwake steps in
    elim (Option-cases (slot s.buf)) [
      | inl empty ↦ ap last (sym (append-nil s.handed)) ∙ rw (empty, quiet.read) at h.latest
      | inr (m, full) ↦
          absurd
            (ground (arith, h.awaited (λ e. cc (full, e)), quiet.told, quiet.seen, quiet.asleep))
    ]
