-- ===== src/Core/Delivery.antt =====
-- The senders of notifiers of src/nkv.rs, and what their channels get when a message is sent to
-- each.
use nkv.Base.{
  ℕ, Text, Bool, true, false, ◌≡◌, refl, sym, ap, ◌∙◌, List, [], ◌∷◌, ◌++◌, arith, All,
  if◌then◌else◌, ◌==◌, number_eq, list_eq, append-nil, append_assoc,
}
use nkv.Base.Dict.{Dict}
use nkv.Errors.{ok}
use nkv.Message.{Message}
use nkv.Channels.{Mpsc, View, IsLawful}
use nkv.Core.{Heap}
use nkv.Core.Notifications.{send_each, try_send}

-- What a channel gets when `m` is sent to each of these senders in turn.
unfoldable pub mail : Message → ℕ → List ℕ → List Message
mail m ty [] = []
mail m ty (tx ∷ txs) = let later = mail m ty txs in if tx == ty then m ∷ later else later

pub mail-append :
    (m : Message) (ty : ℕ) (xs ys : List ℕ) → mail m ty (xs ++ ys) ≡ mail m ty xs ++ mail m ty ys
unfolding mail
mail-append m ty [] ys = refl
mail-append m ty (x ∷ xs) ys = ground (arith, mail-append m ty xs ys)

unfoldable pub senders : Dict Text ℕ → List ℕ
senders [] = []
senders ((_, tx) ∷ d) = tx ∷ senders d

-- The senders of the notifiers at these addresses.
unfoldable pub senders_at : Heap → List ℕ → List ℕ
unfolding senders
senders_at heap [] = []
senders_at heap (n ∷ ns) = senders (heap.cell n).subscriptions ++ senders_at heap ns

pub senders_at-append :
    (heap : Heap) (ms ns : List ℕ)
    → senders_at heap (ms ++ ns) ≡ senders_at heap ms ++ senders_at heap ns
unfolding senders_at
senders_at-append heap [] ns = refl
senders_at-append heap (m ∷ ms) ns =
    rw
      (
        senders_at-append heap ms ns,
        append_assoc (senders (heap.cell m).subscriptions) (senders_at heap ms)
            (senders_at heap ns),
      )
      refl

-- Every receiver of these senders is there.
abbrev pub AreOpen : {Q : Mpsc Message} → View Q → Q.State → List ℕ → Type 0
AreOpen V c = All (λ tx. V.is_open c tx ≡ true)

pub AreOpen-append :
    {Q : Mpsc Message} (V : View Q) (c : Q.State) (xs ys : List ℕ)
    → AreOpen V c (xs ++ ys)
    → AreOpen V c xs × AreOpen V c ys
AreOpen-append V c [] ys h = (tt, h)
AreOpen-append V c (x ∷ xs) ys (h, hs) =
    let (left, right) = AreOpen-append V c xs ys hs in ((h, left), right)

-- The channels `c'` are `c` after the message was sent to each of the senders.
pub record Sent {Q : Mpsc Message} (V : View Q) (m : Message) (txs : List ℕ) (c c' : Q.State)
    : Type 0 where
  pub still_open : (tx : ℕ) → V.is_open c' tx ≡ V.is_open c tx
  pub queue : (tx : ℕ) → V.queued c' tx ≡ V.queued c tx ++ mail m tx txs

module _ {Q : Mpsc Message} {V : View Q} where
  pub Sent-nil : (m : Message) (c : Q.State) → Sent V m [] c c
  unfolding mail
  Sent-nil m c = record { still_open = λ tx. refl; queue = λ tx. sym (append-nil (V.queued c tx)) }

  pub Sent-append :
      (m : Message) (xs ys : List ℕ) (c c' c'' : Q.State)
      → Sent V m xs c c'
      → Sent V m ys c' c''
      → Sent V m (xs ++ ys) c c''
  Sent-append m xs ys c c' c'' first second = record {
    still_open = λ tx. second.still_open tx ∙ first.still_open tx;
    queue = λ tx.
        second.queue tx
        ∙ ap (λ q. q ++ mail m tx ys) (first.queue tx)
        ∙ append_assoc (V.queued c tx) (mail m tx xs) (mail m tx ys)
        ∙ ap (λ q. V.queued c tx ++ q) (sym (mail-append m tx xs ys));
  }

  pub Sent-AreOpen :
      (m : Message) (xs ys : List ℕ) (c c' : Q.State)
      → Sent V m xs c c'
      → AreOpen V c ys
      → AreOpen V c' ys
  Sent-AreOpen m xs [] c c' sent h = tt
  Sent-AreOpen m xs (y ∷ ys) c c' sent (h, hs) =
      (sent.still_open y ∙ h, Sent-AreOpen m xs ys c c' sent hs)

module _ {Q : Mpsc Message} {V : View Q} (L : IsLawful Q V) (m : Message) where
  Sent-send :
      (c : Q.State) (tx : ℕ) → V.is_open c tx ≡ true → Sent V m (tx ∷ []) c (Q.send tx m c).0
  unfolding mail
  Sent-send c tx h = record {
    still_open = λ ty. L.is_open-send c tx ty m;
    queue = λ ty. rw (L.queued-send c tx ty m, h) (taken (V.queued c ty) (tx == ty));
  }
    where
      taken :
          (q : List Message) (here : Bool)
          → (if here then q ++ (m ∷ []) else q) ≡ q ++ (if here then m ∷ [] else [])
      taken q true = refl
      taken q false = sym (append-nil q)

  send_each_step :
      (u : Text) (tx : ℕ) (d : Dict Text ℕ) (c : Q.State)
      → V.is_open c tx ≡ true
      → send_each Q ((u, tx) ∷ d) m c ≡ send_each Q d m (Q.send tx m c).0
  unfolding send_each try_send
  send_each_step u tx d c h = let sent = L.send_result c tx m ∙ h in rw (sent, send_each) refl

  -- A loop that sends to senders whose receivers are there succeeds and reaches each of them.
  pub send_each-Sent :
      (d : Dict Text ℕ) (c : Q.State)
      → AreOpen V c (senders d)
      → ((send_each Q d m c).0 ≡ ok tt) × Sent V m (senders d) c (send_each Q d m c).1
  unfolding senders
  send_each-Sent [] c h = unfold send_each in (refl, Sent-nil m c)
  send_each-Sent ((u, tx) ∷ d) c (h, hs) =
      let first = Sent-send c tx h in
      let c' = (Q.send tx m c).0 in
      let (done, rest) = send_each-Sent d c' (Sent-AreOpen m (tx ∷ []) (senders d) c c' first hs) in
      rw (send_each_step u tx d c h)
        (done, Sent-append m (tx ∷ []) (senders d) c c' (send_each Q d m c').1 first rest)
