-- ===== src/Notifier/Bounds.antt =====
-- The buffer of src/notifier.rs, over all runs of the tasks of a `Notifier`.
use nkv.Base.{◌<◌, ◌≡◌, none, arith, ◌⊎◌}
use nkv.Notifier.System
use nkv.Notifier.System.{System, Steps}
use nkv.Notifier.Latest.{new-IsAwake, Steps-IsAwake}

-- In every state that a notifier reaches, the index of its buffer is a valid one, and at most one
-- of the two slots is full.
pub idx_in_bounds :
    (s : System)
    → Steps System.new s
    → (s.buf.idx < 2) × ((s.buf.first ≡ none) ⊎ (s.buf.second ≡ none))
idx_in_bounds s steps =
    let single = (Steps-IsAwake new-IsAwake steps).single in
    (omega (arith, single), ground (arith, single))
