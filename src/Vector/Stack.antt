-- ===== src/Vector/Stack.antt =====
-- A vector is a stack: its items are the list of the first `len` slots.
use chammer.Prelude.{
  ◌⊎◌, inl, inr, ℕ, zero, suc, ◌+◌, ◌-◌, ◌*◌, ◌%◌, ◌^◌, ◌≤◌, ◌<◌, ◌≡◌, refl, sym, ap, none, some,
  List, [], ◌∷◌, ◌++◌, ltb, leb, length, get_elem?, length-append, ◌∙◌, if◌then◌else◌, arith,
}
use native.Mathlib.Decide.{dec_lt}
use chammer.Vector.{Vector, with_slot, vector_push_item, vector_pop, vector_last}

write_within : {B : Type 0} (a b : ℕ) (x : B) → a < b → (if ltb a b then some x else none) ≡ some x
write_within a b x h = ground arith

module _ {A : Type 0} where
  pub slot_items : ℕ → (ℕ → A) → List A
  slot_items zero m = []
  slot_items (suc n) m = slot_items n m ++ m n ∷ []

  abbrev pub items_of : Vector A → List A
  items_of v = slot_items v.len v.slots

  pub record IsVector (v : Vector A) : Type 0 where
    pub some_room : 1 ≤ v.capacity_items
    pub within : v.len ≤ v.capacity_items
    pub bounded : v.capacity_items < 2 ^ 63

  -- A write behind the items leaves them.
  slot_items-with_slot :
      (n i : ℕ) (m : ℕ → A) (x : A) → n ≤ i → slot_items n (with_slot m i x) ≡ slot_items n m
  unfolding slot_items
  slot_items-with_slot zero i m x h = refl
  slot_items-with_slot (suc n) i m x h =
      let e : with_slot m i x n ≡ m n = ground arith in
      rw (e, slot_items-with_slot n i m x (omega (arith, h))) refl

  length-slot_items : (n : ℕ) (m : ℕ → A) → length (slot_items n m) ≡ n
  unfolding slot_items
  length-slot_items zero m = refl
  length-slot_items (suc n) m =
      omega (arith, length-append (slot_items n m) (m n ∷ []), length-slot_items n m)

  get-append_left :
      (xs ys : List A) (i : ℕ) → i < length xs → get_elem? (xs ++ ys) i ≡ get_elem? xs i
  get-append_left [] ys i h = elim h [ ]
  get-append_left (x ∷ xs) ys zero h = refl
  get-append_left (x ∷ xs) ys (suc i) h = get-append_left xs ys i (omega (arith, h))

  get-append_at : (xs : List A) (x : A) → get_elem? (xs ++ x ∷ []) (length xs) ≡ some x
  get-append_at [] x = refl
  get-append_at (y ∷ xs) x = get-append_at xs x

  get-slot_items : (n : ℕ) (m : ℕ → A) (i : ℕ) → i < n → get_elem? (slot_items n m) i ≡ some (m i)
  unfolding slot_items
  get-slot_items zero m i h = elim h [ ]
  get-slot_items (suc n) m i h = elim (dec_lt i n) [
    | yes l ↦
        get-append_left (slot_items n m) (m n ∷ []) i (omega (arith, l, length-slot_items n m))
        ∙ get-slot_items n m i l
    | no g ↦
        let e : i ≡ length (slot_items n m) = omega (arith, h, g, length-slot_items n m) in
        let f : i ≡ n = omega (arith, h, g) in
        ap (get_elem? (slot_items n m ++ m n ∷ [])) e
        ∙ (get-append_at (slot_items n m) (m n) ∙ ap (λ j. some (m j)) (sym f))
  ]

  capacity_room :
      (v : Vector A)
      → IsVector v
      → v.len < 2 ^ 62
      → let capacity : ℕ =
          if leb v.capacity_items v.len then v.capacity_items * 2 % 2 ^ 64 else v.capacity_items in
        (v.len < capacity) × (capacity < 2 ^ 63)
  capacity_room v h lt = (ground arith, ground arith)

  push_slots :
      (n : ℕ) (m : ℕ → A) (x : A) → slot_items (n + 1) (with_slot m n x) ≡ slot_items n m ++ x ∷ []
  unfolding slot_items
  push_slots n m x =
      let last : with_slot m n x n ≡ x = ground arith in
      let next : n + 1 ≡ suc n = omega arith in
      ap (λ k. slot_items k (with_slot m n x)) next
      ∙ (ap (λ l. l ++ with_slot m n x n ∷ []) (slot_items-with_slot n n m x (omega arith))
          ∙ ap (λ y. slot_items n m ++ y ∷ []) last)

  -- A push onto a vector of fewer than 2 ^ 62 items is within its memory, appends the item, and
  -- keeps the vector valid.
  pub push_item-items :
      (v : Vector A) (x : A)
      → IsVector v
      → v.len < 2 ^ 62
      → (v' : Vector A) × (vector_push_item v x ≡ some v')
        × (items_of v' ≡ items_of v ++ x ∷ [])
        × IsVector v'
  unfolding vector_push_item slot_items
  push_item-items v x h lt =
      let capacity : ℕ =
        if leb v.capacity_items v.len then v.capacity_items * 2 % 2 ^ 64 else v.capacity_items in
      let v' : Vector A = record {
        slots = with_slot v.slots v.len x;
        len = v.len + 1;
        capacity_items = capacity;
      } in
      let (room, bound) = capacity_room v h lt in
      (
        v',
        write_within v.len capacity v' room,
        push_slots v.len v.slots x,
        record { some_room = omega (arith, room); within = omega (arith, room); bounded = bound },
      )

  abbrev pub Popped : Vector A → Type 0
  Popped v =
      ((items_of v ≡ []) × (vector_pop v ≡ (none, v)))
      ⊎ ((x : A) × (v' : Vector A) × (vector_pop v ≡ (some x, v'))
          × (vector_last v ≡ some x)
          × (items_of v ≡ items_of v' ++ x ∷ [])
          × IsVector v')

  pop_at :
      (n : ℕ) (m : ℕ → A) (c : ℕ)
      → IsVector (record { slots = m; len = n; capacity_items = c })
      → Popped (record { slots = m; len = n; capacity_items = c })
  unfolding vector_pop vector_last slot_items
  pop_at zero m c h = inl (refl, refl)
  pop_at (suc n) m c h =
      let one : suc n - 1 ≡ n = omega arith in
      let wrapped : (suc n + 2 ^ 64 - 1) % 2 ^ 64 ≡ n = omega (arith, h.within, h.bounded) in
      inr (
        m n,
        record { slots = m; len = n; capacity_items = c },
        rw one (ground arith),
        rw wrapped (write_within n c (m n) (omega (arith, h.within))),
        refl,
        record { some_room = h.some_room; within = omega (arith, h.within); bounded = h.bounded },
      )

  -- The last item of a vector that has one is what a pop copies out, and the pop removes it; a pop
  -- from an empty vector copies nothing out.
  pub pop-items : (v : Vector A) → IsVector v → Popped v
  pop-items v h = pop_at v.len v.slots v.capacity_items h
