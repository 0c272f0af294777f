-- ===== src/EventStore/Ring/Laws.antt =====
-- The ring buffer of studio/electron/forge/store.ts holds the newest items.
use reticle.Common.{
  ℕ, ◌-◌, ◌≤◌, ltb, length, length-append, length-drop, drop, take_last, drop-nil, drop-drop,
  drop-append, List, [], ◌∷◌, ◌++◌, Bool, ◌||◌, ◌≡◌, refl, sym, ap, ◌∙◌, arith, Bool-cases, inl,
  inr,
}
use mathlib.Core.List.{append_assoc, append-nil}
use reticle.EventStore.Ring.{RingBuffer, empty, trim_to, push, push_all}

module _ {A : Type 0} where
  -- Trimming what is left of a history keeps the history's newest items.
  trim_to-drop :
      (cap k : ℕ) (history : List A) (evicted : Bool) (room : ℕ)
      → k ≤ length history - cap
      → (trim_to cap (record { items = drop k history; evicted = evicted; capacity = room })).items
        ≡ take_last cap history
  unfolding trim_to
  trim_to-drop cap k history evicted room h =
      elim (Bool-cases (ltb cap (length (drop k history)))) [
        | inl over ↦
            rw (over, trim_to)
              (drop-drop (length (drop k history) - cap) k history
                ∙ ap (λ n. drop n history) (ground (arith, length-drop k history)))
        | inr fits ↦
            rw (fits, trim_to) (ap (λ n. drop n history) (ground (arith, length-drop k history)))
      ]

  -- The buffer of a history: its newest items, and whether older ones are gone.
  abbrev pub Holds : ℕ → List A → RingBuffer A → Type 0
  Holds cap history b =
      (b.items ≡ take_last cap history)
      × (b.evicted ≡ ltb cap (length history))
      × (b.capacity ≡ cap)

  take_last-concat :
      (cap : ℕ) (history : List A) (x : A)
      → take_last cap history ++ x ∷ [] ≡ drop (length history - cap) (history ++ x ∷ [])
  take_last-concat cap history x =
      sym (drop-append (length history - cap) history (x ∷ []) (omega arith))

  trim_to-evicted :
      (cap : ℕ) (b : RingBuffer A)
      → ((trim_to cap b).evicted ≡ (ltb cap (length b.items) || b.evicted))
        × ((trim_to cap b).capacity ≡ b.capacity)
  unfolding trim_to
  trim_to-evicted cap b = elim (Bool-cases (ltb cap (length b.items))) [
    | inl over ↦ rw (over, trim_to) (refl, refl)
    | inr fits ↦ rw (fits, trim_to) (refl, refl)
  ]

  push-Holds :
      (cap : ℕ) (history : List A) (x : A) (b : RingBuffer A)
      → Holds cap history b
      → Holds cap (history ++ x ∷ []) (push x b)
  unfolding push
  push-Holds cap history x b (items, evicted, capacity) = (
    ap (λ c. (trim_to c (record b { items = b.items ++ x ∷ [] })).items) capacity
        ∙ (ap (λ l. (trim_to cap (record b { items = l })).items)
              (ap (λ l. l ++ x ∷ []) items ∙ take_last-concat cap history x)
            ∙ trim_to-drop cap (length history - cap) (history ++ x ∷ []) b.evicted b.capacity
                (omega (arith, length-append history (x ∷ [])))),
    (trim_to-evicted b.capacity (record b { items = b.items ++ x ∷ [] })).0 ∙ gone,
    (trim_to-evicted b.capacity (record b { items = b.items ++ x ∷ [] })).1 ∙ capacity,
  )
    where
      gone :
          (ltb b.capacity (length (b.items ++ x ∷ [])) || b.evicted)
          ≡ ltb cap (length (history ++ x ∷ []))
      gone = ground (
        arith,
        evicted,
        capacity,
        ap length items,
        length-append b.items (x ∷ []),
        length-append history (x ∷ []),
        length-drop (length history - cap) history,
      )

  push_all-Holds_lem :
      (cap : ℕ) (before history : List A) (b : RingBuffer A)
      → Holds cap before b
      → Holds cap (before ++ history) (push_all history b)
  unfolding push_all
  push_all-Holds_lem cap before [] b h = rw (append-nil before) h
  push_all-Holds_lem cap before (x ∷ xs) b h =
      rw (sym (append_assoc before (x ∷ []) xs))
        (push_all-Holds_lem cap (before ++ x ∷ []) xs (push x b) (push-Holds cap before x b h))

-- A buffer that starts empty and takes the items of a history one by one holds the newest of them,
-- as many as its capacity, oldest first; and it says that items are gone just when there were more.
pub push_all-Holds :
    {A : Type 0} (capacity : ℕ) (history : List A)
    → Holds capacity history (push_all history (empty capacity))
unfolding empty
push_all-Holds {A = A} capacity history =
    push_all-Holds_lem capacity [] history (empty capacity)
      (sym (drop-nil {A = A} (0 - capacity)), ground arith, refl)
