-- ===== src/Tests/Arrays.antt =====
-- Vectors of few items.
use chammer.Prelude.{ℕ, ◌+◌, ◌≡◌, some, [], ◌∷◌, ◌++◌, arith}
use chammer.Vector.{Vector, vector_push_item}
use chammer.Vector.Stack.{items_of, IsVector, Popped, push_item-items, pop-items}

-- A vector that is full, so that the next push moves it.
abbrev full_vector : Vector ℕ
full_vector = record { slots = λ i. i + 5; len = 2; capacity_items = 2 }

full_vector-IsVector : IsVector full_vector
full_vector-IsVector = record {
  some_room = omega arith;
  within = omega arith;
  bounded = omega arith;
}

push_item-items_example :
    (v' : Vector ℕ) × (vector_push_item full_vector 9 ≡ some v')
    × (items_of v' ≡ items_of full_vector ++ 9 ∷ [])
    × IsVector v'
push_item-items_example = push_item-items full_vector 9 full_vector-IsVector (omega arith)

pop-items_example : Popped full_vector
pop-items_example = pop-items full_vector full_vector-IsVector
