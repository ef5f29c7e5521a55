-- ===== src/Notifier/Settle.antt =====
-- How the two tasks of a `Notifier` of src/notifier.rs come to rest, by steps of their own, while
-- the channel is there.
use nkv.Base.{true, false, ◌≡◌, refl, ap, ◌∙◌, List, [], ◌∷◌, inl, inr, Bool-cases}
use nkv.Message.{Message}
use nkv.Notifier.StateBuf
use nkv.Notifier.System
use nkv.Notifier.System.{System, Step, receive, signal, wake, take, Steps, here, next, take_out}
use nkv.Notifier.Latest.{last, IsQuiet, last_handed_of_IsQuiet}

Steps-trans : {s t u : System} → Steps s t → Steps t u → Steps s u
Steps-trans a here = a
Steps-trans a (next b step) = next (Steps-trans a b) step

-- `t` comes from `s` by steps at which no message arrives and the channel stays.
record Own (s t : System) : Type 0 where
  steps : Steps s t
  sent : t.sent ≡ s.sent
  going : t.receiving ≡ s.receiving

Own-refl : (s : System) → Own s s
Own-refl s = record { steps = here; sent = refl; going = refl }

Own-trans : {s t u : System} → Own s t → Own t u → Own s u
Own-trans a b = record {
  steps = Steps-trans a.steps b.steps;
  sent = b.sent ∙ a.sent;
  going = b.going ∙ a.going;
}

Own-step : {s t : System} → Step s t → t.sent ≡ s.sent → t.receiving ≡ s.receiving → Own s t
Own-step step sent going = record { steps = next here step; sent = sent; going = going }

tell : (s : System) → (t : System) × Own s t × (t.stored ≡ false) × (t.queue ≡ s.queue)
tell s = elim (Bool-cases s.stored) [
  | inl full ↦
      (record s { stored = false; changed = true }, Own-step (signal full) refl refl, refl, refl)
  | inr idle ↦ (s, Own-refl s, idle, refl)
]

drain :
    (queue : List Message) (s : System)
    → s.queue ≡ queue
    → s.receiving ≡ true
    → (t : System) × Own s t × (t.stored ≡ false) × (t.queue ≡ [])
drain [] s e going = let (t, own, idle, same) = tell s in (t, own, idle, same ∙ e)
drain (m ∷ rest) s e going =
    let (t, own, idle, same) = tell s in
    let u : System = record t { queue = rest; buf = StateBuf.store m t.buf; stored = true } in
    let read : Own t u = Own-step (receive m rest (same ∙ e) idle (own.going ∙ going)) refl refl in
    let (v, later, idle', empty) = drain rest u refl (own.going ∙ going) in
    (v, Own-trans own (Own-trans read later), idle', empty)

take_turn :
    (s : System)
    → (t : System) × Own s t
      × (t.woken ≡ false)
      × (t.changed ≡ s.changed)
      × (t.stored ≡ s.stored)
      × (t.queue ≡ s.queue)
unfolding take_out
take_turn s = elim (Bool-cases s.woken) [
  | inl up ↦ (take_out s, Own-step (take up) refl refl, refl, refl, refl, refl)
  | inr asleep ↦ (s, Own-refl s, asleep, refl, refl, refl)
]

see :
    (s : System)
    → s.woken ≡ false
    → (t : System) × Own s t
      × (t.woken ≡ false)
      × (t.changed ≡ false)
      × (t.stored ≡ s.stored)
      × (t.queue ≡ s.queue)
see s asleep = elim (Bool-cases s.changed) [
  | inr old ↦ (s, Own-refl s, asleep, old, refl, refl)
  | inl version ↦
      let u : System = record s { changed = false; woken = true } in
      let up : Own s u = Own-step (wake (inl version) asleep) refl refl in
      let (t, own, down, seen, stored, queue) = take_turn u in
      (t, Own-trans up own, down, seen, stored, queue)
]

-- From every reachable state of a notifier whose channel is there, its tasks can come to rest by
-- steps at which no message arrives, and then the last message that was sent is the last one that
-- was given to a broadcast.
pub settles :
    (s : System)
    → Steps System.new s
    → s.receiving ≡ true
    → (t : System) × Steps s t × IsQuiet t × (t.sent ≡ s.sent) × (last t.handed ≡ last s.sent)
settles s reached going =
    let (t, own1, told, read) = drain s.queue s refl going in
    let (u, own2, down, _, told2, read2) = take_turn t in
    let (v, own3, asleep, seen, told3, read3) = see u down in
    let own = Own-trans own1 (Own-trans own2 own3) in
    let quiet : IsQuiet v = record {
      read = read3 ∙ read2 ∙ read;
      told = told3 ∙ told2 ∙ told;
      seen = seen;
      asleep = asleep;
    } in
    (
      v,
      own.steps,
      quiet,
      own.sent,
      last_handed_of_IsQuiet (Steps-trans reached own.steps) quiet ∙ ap last own.sent,
    )
