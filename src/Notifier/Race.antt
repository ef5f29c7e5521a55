-- ===== src/Notifier/Race.antt =====
-- Two runs of a `Notifier` of src/notifier.rs with one client: what the buffer and the spawned
-- broadcasts do to two messages in a row.
use nkv.Base.{ℕ, Text, ◌≡◌, refl, some, [], ◌∷◌, inl, eq_refl, list_eq, number_eq}
use nkv.Base.Dict
use nkv.Message.{Message}
use nkv.Notifier.StateBuf
use nkv.Notifier.System
use nkv.Notifier.System.{
  System, Step, arrive, receive, signal, wake, take, start, write, finish, subscribe, Steps, here,
  next, take_out, spawned, sending, CloseFailed,
}
use nkv.Notifier.Latest.{IsQuiet}

code : Unit {0}
unfolding System.new StateBuf.new StateBuf.store StateBuf.pop take_out Dict.insert Dict.keys
code = tt

lookup_only : (u : Text) (w : ℕ) → Dict.lookup u ((u, w) ∷ []) ≡ some w
unfolding Dict.lookup
lookup_only u w = rw (eq_refl u) refl

module _ (u : Text) (w : ℕ) (m1 m2 : Message) where
  -- For any two messages there is a run of a notifier with one client after which its tasks rest
  -- and only the second one was written to the client.
  pub overwritten :
      (s : System) × Steps System.new s
      × IsQuiet s
      × (s.jobs ≡ [])
      × (s.sent ≡ m1 ∷ m2 ∷ [])
      × (s.wire ≡ (w, m2) ∷ [])
  unfolding code
  overwritten = (
    _,
    next
        (next
          (next
            (next
              (next
                (next
                  (next
                    (next
                      (next
                        (next (next (next here (subscribe u w)) (arrive m1 refl))
                          (receive m1 [] refl refl refl))
                        (signal refl))
                      (arrive m2 refl))
                    (receive m2 [] refl refl refl))
                  (signal refl))
                (wake (inl refl) refl))
              (take refl))
            (start [] [] m2 refl))
          (write [] [] m2 u [] [] w refl (lookup_only u w)))
        (finish [] [] m2 [] _ _ refl CloseFailed.done),
    record { read = refl; told = refl; seen = refl; asleep = refl },
    refl,
    refl,
    refl,
  )

  -- For any two messages there is a run of a notifier with one client after which its tasks rest
  -- and both were written to the client, the second one first.
  pub reordered :
      (s : System) × Steps System.new s
      × IsQuiet s
      × (s.jobs ≡ [])
      × (s.sent ≡ m1 ∷ m2 ∷ [])
      × (s.wire ≡ (w, m2) ∷ (w, m1) ∷ [])
  unfolding code
  reordered = (
    _,
    next
        (next
          (next
            (next
              (next
                (next
                  (next
                    (next
                      (next
                        (next
                          (next
                            (next
                              (next
                                (next
                                  (next (next (next here (subscribe u w)) (arrive m1 refl))
                                    (receive m1 [] refl refl refl))
                                  (signal refl))
                                (wake (inl refl) refl))
                              (take refl))
                            (arrive m2 refl))
                          (receive m2 [] refl refl refl))
                        (signal refl))
                      (wake (inl refl) refl))
                    (take refl))
                  (start (spawned m1 ∷ []) [] m2 refl))
                (write (spawned m1 ∷ []) [] m2 u [] [] w refl (lookup_only u w)))
              (finish (spawned m1 ∷ []) [] m2 [] _ _ refl CloseFailed.done))
            (start [] [] m1 refl))
          (write [] [] m1 u [] [] w refl (lookup_only u w)))
        (finish [] [] m1 [] _ _ refl CloseFailed.done),
    record { read = refl; told = refl; seen = refl; asleep = refl },
    refl,
    refl,
    refl,
  )
