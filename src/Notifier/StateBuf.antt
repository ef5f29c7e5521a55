-- ===== src/Notifier/StateBuf.antt =====
-- `StateBuf` of src/notifier.rs: two slots and the index of the one in use. It is a mailbox with
-- room for one message, where the last one stored wins.
use nkv.Base.{ℕ, ◌≡◌, refl, Option, none, some, arith, if◌then◌else◌, ◌==◌, number_eq, ◌⊎◌, inl}

pub record StateBuf {ℓ} (T : Type ℓ) : Type ℓ where
  pub first : Option T
  pub second : Option T
  pub idx : ℕ

module _ {ℓ} {T : Type ℓ} where
  unfoldable pub new : StateBuf T
  new = record { first = none; second = none; idx = 0 }

  -- `self.buf[self.idx]`
  abbrev pub slot : StateBuf T → Option T
  slot b = if b.idx == 0 then b.first else b.second

  abbrev put_slot : StateBuf T → Option T → StateBuf T
  put_slot b el = if b.idx == 0 then record b { first = el } else record b { second = el }

  unfoldable pub store : T → StateBuf T → StateBuf T
  store el b = put_slot b (some el)

  unfoldable pub pop : StateBuf T → StateBuf T × Option T
  pop b =
      let taken = put_slot b none in (record taken { idx = if b.idx == 0 then 1 else 0 }, slot b)

  -- The index is that of a slot, and the other slot is empty.
  abbrev pub IsSingle : StateBuf T → Type ℓ
  IsSingle b = ((b.idx ≡ 0) × (b.second ≡ none)) ⊎ ((b.idx ≡ 1) × (b.first ≡ none))

  pub new-IsSingle : IsSingle new
  unfolding new
  new-IsSingle = inl (refl, refl)

  pub store-IsSingle :
      (el : T) (b : StateBuf T) → IsSingle b → IsSingle (store el b) × (slot (store el b) ≡ some el)
  unfolding store
  store-IsSingle el b h = ground arith

  pub pop-IsSingle :
      (b : StateBuf T)
      → IsSingle b
      → IsSingle (pop b).0 × (slot (pop b).0 ≡ none) × ((pop b).1 ≡ slot b)
  unfolding pop
  pop-IsSingle b h = ground arith
