-- ===== src/EventStore/Ring.antt =====
-- The class `RingBuffer` of studio/electron/forge/store.ts.
pub mod Laws
use reticle.Common.{
  ℕ, ◌-◌, ltb, length, drop, List, [], ◌∷◌, ◌++◌, Bool, true, false, if◌then◌else◌, ◌||◌,
}

pub record RingBuffer (A : Type 0) : Type 0 where
  pub items : List A
  pub evicted : Bool
  pub capacity : ℕ

module _ {A : Type 0} where
  unfoldable pub empty : ℕ → RingBuffer A
  empty capacity = record { items = []; evicted = false; capacity = capacity }

  -- `this.items.splice(0, this.items.length - capacity)`, where there are more than fit
  unfoldable pub trim_to : ℕ → RingBuffer A → RingBuffer A
  trim_to capacity b =
      if ltb capacity (length b.items)
      then record b { items = drop (length b.items - capacity) b.items; evicted = true }
      else b

  unfoldable pub push : A → RingBuffer A → RingBuffer A
  unfolding trim_to
  push item b = trim_to b.capacity (record b { items = b.items ++ item ∷ [] })

  unfoldable pub set_capacity : ℕ → RingBuffer A → RingBuffer A
  unfolding trim_to
  set_capacity capacity b = trim_to capacity (record b { capacity = capacity })

  unfoldable pub clear : RingBuffer A → RingBuffer A
  clear b = record b { items = []; evicted = false }

  unfoldable pub push_all : List A → RingBuffer A → RingBuffer A
  unfolding push
  push_all [] b = b
  push_all (x ∷ xs) b = push_all xs (push x b)
