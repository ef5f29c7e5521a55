-- ===== src/Channels.antt =====
-- The unbounded channels of `tokio::sync::mpsc`, which src/nkv.rs uses and does not implement: an
-- interface, its documented behaviour, and a model that has it. A sender and its receiver go by
-- one number.
use nkv.Base.{
  ℕ, suc, zero, Bool, true, false, ◌&&◌, ◌≡◌, refl, List, [], ◌∷◌, ◌++◌, arith, if◌then◌else◌, ◌==◌,
  number_eq, length,
}

pub record Mpsc (A : Type 0) : Type 1 where
  pub State : Type 0
  pub unbounded_channel : State → ℕ × State
  -- The flag tells whether the message was taken; if not, `send` returned a `SendError`.
  pub send : ℕ → A → State → State × Bool

pub record View {A : Type 0} (Q : Mpsc A) : Type 1 where
  -- Is the receiver there?
  pub is_open : Q.State → ℕ → Bool
  -- What was put into the channel since it was made, the oldest message first.
  pub queued : Q.State → ℕ → List A

pub record IsLawful {A : Type 0} (Q : Mpsc A) (V : View Q) : Type 0 where
  pub send_result : (c : Q.State) (tx : ℕ) (m : A) → (Q.send tx m c).1 ≡ V.is_open c tx
  pub is_open-send :
      (c : Q.State) (tx ty : ℕ) (m : A) → V.is_open (Q.send tx m c).0 ty ≡ V.is_open c ty
  pub queued-send :
      (c : Q.State) (tx ty : ℕ) (m : A)
      → V.queued (Q.send tx m c).0 ty
        ≡ (if V.is_open c tx && tx == ty then V.queued c ty ++ (m ∷ []) else V.queued c ty)
  pub channel_fresh : (c : Q.State) → V.is_open c (Q.unbounded_channel c).0 ≡ false
  pub is_open-channel :
      (c : Q.State) (ty : ℕ)
      → V.is_open (Q.unbounded_channel c).1 ty
        ≡ (if (Q.unbounded_channel c).0 == ty then true else V.is_open c ty)
  pub queued-channel :
      (c : Q.State) (ty : ℕ)
      → V.queued (Q.unbounded_channel c).1 ty
        ≡ (if (Q.unbounded_channel c).0 == ty then [] else V.queued c ty)

-- A model: a list of channels, each with a flag and its messages.
module _ {A : Type 0} where
  abbrev opened : List (Bool × List A) → ℕ → Bool
  opened [] tx = false
  opened ((flag, _) ∷ c) zero = flag
  opened (_ ∷ c) (suc tx) = opened c tx

  abbrev messages : List (Bool × List A) → ℕ → List A
  messages [] tx = []
  messages ((_, q) ∷ c) zero = q
  messages (_ ∷ c) (suc tx) = messages c tx

  abbrev push : ℕ → A → List (Bool × List A) → List (Bool × List A) × Bool
  push tx m [] = ([], false)
  push zero m ((true, q) ∷ c) = ((true, q ++ (m ∷ [])) ∷ c, true)
  push zero m ((false, q) ∷ c) = ((false, q) ∷ c, false)
  push (suc tx) m (ch ∷ c) = let (c', sent) = push tx m c in (ch ∷ c', sent)

  push_result : (c : List (Bool × List A)) (tx : ℕ) (m : A) → (push tx m c).1 ≡ opened c tx
  push_result [] tx m = refl
  push_result ((true, q) ∷ c) zero m = refl
  push_result ((false, q) ∷ c) zero m = refl
  push_result (ch ∷ c) (suc tx) m = push_result c tx m

  opened-push :
      (c : List (Bool × List A)) (tx ty : ℕ) (m : A) → opened (push tx m c).0 ty ≡ opened c ty
  opened-push [] tx ty m = refl
  opened-push ((true, q) ∷ c) zero zero m = refl
  opened-push ((true, q) ∷ c) zero (suc ty) m = refl
  opened-push ((false, q) ∷ c) zero ty m = refl
  opened-push ((flag, q) ∷ c) (suc tx) zero m = refl
  opened-push (ch ∷ c) (suc tx) (suc ty) m = opened-push c tx ty m

  messages-push :
      (c : List (Bool × List A)) (tx ty : ℕ) (m : A)
      → messages (push tx m c).0 ty
        ≡ (if opened c tx && tx == ty then messages c ty ++ (m ∷ []) else messages c ty)
  messages-push [] tx ty m = refl
  messages-push ((true, q) ∷ c) zero zero m = refl
  messages-push ((true, q) ∷ c) zero (suc ty) m = ground arith
  messages-push ((false, q) ∷ c) zero ty m = refl
  messages-push ((flag, q) ∷ c) (suc tx) zero m = ground arith
  messages-push (ch ∷ c) (suc tx) (suc ty) m = ground (arith, messages-push c tx ty m)

  opened-length : (c : List (Bool × List A)) → opened c (length c) ≡ false
  opened-length [] = refl
  opened-length (ch ∷ c) = opened-length c

  opened-append :
      (c : List (Bool × List A)) (ty : ℕ)
      → opened (c ++ ((true, []) ∷ [])) ty ≡ (if length c == ty then true else opened c ty)
  opened-append [] zero = refl
  opened-append [] (suc ty) = ground arith
  opened-append ((flag, q) ∷ c) zero = ground arith
  opened-append (ch ∷ c) (suc ty) = ground (arith, opened-append c ty)

  messages-append :
      (c : List (Bool × List A)) (ty : ℕ)
      → messages (c ++ ((true, []) ∷ [])) ty ≡ (if length c == ty then [] else messages c ty)
  messages-append [] zero = refl
  messages-append [] (suc ty) = ground arith
  messages-append ((flag, q) ∷ c) zero = ground arith
  messages-append (ch ∷ c) (suc ty) = ground (arith, messages-append c ty)

abbrev pub list_channels : (A : Type 0) → Mpsc A
list_channels A = record {
  State = List (Bool × List A);
  unbounded_channel = λ c. (length c, c ++ ((true, []) ∷ []));
  send = push;
}

abbrev pub list_view : (A : Type 0) → View (list_channels A)
list_view A = record { is_open = opened; queued = messages }

pub list_channels-IsLawful : (A : Type 0) → IsLawful (list_channels A) (list_view A)
list_channels-IsLawful A = record {
  send_result = push_result;
  is_open-send = opened-push;
  queued-send = messages-push;
  channel_fresh = opened-length;
  is_open-channel = opened-append;
  queued-channel = messages-append;
}
