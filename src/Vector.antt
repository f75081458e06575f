-- ===== src/Vector.antt =====
-- lib/vector.c: a growable array. Its memory is a function of the index; what stands behind
-- `len` is arbitrary, and a read or write behind the capacity is `none`.
pub mod Stack
use chammer.Prelude.{
  ℕ, zero, suc, ◌+◌, ◌-◌, ◌*◌, ◌/◌, ◌%◌, ◌^◌, Option, none, some, ltb, leb, ◌==◌, if◌then◌else◌,
}

pub record Vector (A : Type 0) : Type 0 where
  pub slots : ℕ → A
  pub len : ℕ
  pub capacity_items : ℕ

abbrev pub default_max_size : ℕ
default_max_size = 0x400

module _ {A : Type 0} where
  unfoldable pub vector_init_capacity : (ℕ → A) → ℕ → Vector A
  vector_init_capacity memory capacity = record {
    slots = memory;
    len = 0;
    capacity_items = capacity;
  }

  unfoldable pub vector_init : (ℕ → A) → ℕ → Vector A
  unfolding vector_init_capacity
  vector_init memory item_size = vector_init_capacity memory (default_max_size / item_size)

  abbrev pub with_slot : (ℕ → A) → ℕ → A → ℕ → A
  with_slot slots i x j = if j == i then x else slots j

  unfoldable pub vector_get : Vector A → ℕ → Option A
  vector_get v index = if ltb index v.capacity_items then some (v.slots index) else none

  -- The write through a pointer that `vector_push` or `vector_get` returned.
  unfoldable pub vector_set : Vector A → ℕ → A → Option (Vector A)
  vector_set v index x =
      if ltb index v.capacity_items
      then some (record v { slots = with_slot v.slots index x })
      else none

  -- The item's index, and the vector.
  unfoldable pub vector_push : Vector A → ℕ × Vector A
  vector_push v =
      let capacity : ℕ =
        if leb v.capacity_items v.len then v.capacity_items * 2 % 2 ^ 64 else v.capacity_items in
      (v.len, record v { len = v.len + 1; capacity_items = capacity })

  -- `*(T *)vector_push(v) = x`; `vector_push_zeroed` is this with zero bytes.
  unfoldable pub vector_push_item : Vector A → A → Option (Vector A)
  unfolding vector_push vector_set
  vector_push_item v x = let (index, v') = vector_push v in vector_set v' index x

  -- The item that is copied out, if there is one.
  unfoldable pub vector_pop : Vector A → Option A × Vector A
  vector_pop v =
      if v.len == 0 then (none, v) else (some (v.slots (v.len - 1)), record v { len = v.len - 1 })

  unfoldable pub vector_last : Vector A → Option A
  unfolding vector_get
  vector_last v = vector_get v ((v.len + 2 ^ 64 - 1) % 2 ^ 64)

  unfoldable pub vector_clear : Vector A → Vector A
  vector_clear v = record v { len = 0 }
