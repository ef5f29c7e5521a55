-- ===== src/Notifier/Tests.antt =====
-- Runs of the tasks of a `Notifier` of src/notifier.rs, and its theorems at concrete data.
use nkv.Base.{◌<◌, none, ◌⊎◌, literal, true, ◌≡◌, refl, [], ◌∷◌, list_eq, number_eq}
use nkv.Message.{Message, hello, update}
use nkv.Notifier.StateBuf
use nkv.Notifier.System
use nkv.Notifier.System.{System, Step, arrive, receive, subscribe, Steps, here, next}
use nkv.Notifier.Latest.{last, IsQuiet}
use nkv.Notifier.Bounds.{idx_in_bounds}
use nkv.Notifier.Settle.{settles}
use nkv.Notifier.Race.{overwritten, reordered}

abbrev newer : Message
newer = update (literal "a") (2 ∷ [])

-- A HELLO is in the buffer and an update is in the channel.
abbrev busy : System
busy = record System.new {
  queue = newer ∷ [];
  buf = StateBuf.store hello StateBuf.new;
  stored = true;
  sent = hello ∷ newer ∷ [];
}

busy_reached : Steps System.new busy
unfolding System.new
busy_reached =
    next (next (next here (arrive hello refl)) (arrive newer refl))
      (receive hello (newer ∷ []) refl refl refl)

busy_going : busy.receiving ≡ true
unfolding System.new
busy_going = refl

settles_example :
    (t : System) × Steps busy t
    × IsQuiet t
    × (t.sent ≡ busy.sent)
    × (last t.handed ≡ last busy.sent)
settles_example = settles busy busy_reached busy_going

overwritten_example :
    (s : System) × Steps System.new s
    × IsQuiet s
    × (s.jobs ≡ [])
    × (s.sent ≡ hello ∷ newer ∷ [])
    × (s.wire ≡ (7, newer) ∷ [])
overwritten_example = overwritten (literal "u1") 7 hello newer

reordered_example :
    (s : System) × Steps System.new s
    × IsQuiet s
    × (s.jobs ≡ [])
    × (s.sent ≡ hello ∷ newer ∷ [])
    × (s.wire ≡ (7, newer) ∷ (7, hello) ∷ [])
reordered_example = reordered (literal "u1") 7 hello newer

idx_in_bounds_example : (busy.buf.idx < 2) × ((busy.buf.first ≡ none) ⊎ (busy.buf.second ≡ none))
idx_in_bounds_example = idx_in_bounds busy busy_reached
