-- ===== src/Buffer/Laws.antt =====
-- The operations of the buffer on its contents and on its invariant.
use chammer.Prelude.{
  ℕ, zero, suc, ◌+◌, ◌-◌, ◌^◌, ◌<◌, ◌≤◌, ◌≡◌, refl, ap, List, [], ◌∷◌, ◌++◌, arith, length, take,
  drop, take-append_length, drop-append_length, append-nil,
}
use chammer.Buffer.{
  Buffer, cells, behind, before, grow_loop, vsnprintf, printf_loop, write_at, buffer_puts,
}
use native.Mathlib.Decide.{dec_lt}
use chammer.Buffer.Growth.{grow_loop_room, grow_loop_done, grow_loop_le}

pub length-cells : (n : ℕ) (m : ℕ → ℕ) → length (cells n m) ≡ n
length-cells zero m = refl
length-cells (suc n) m = ap suc (length-cells n (λ i. m (suc i)))

drop-length : (xs : List ℕ) → drop (length xs) xs ≡ []
drop-length [] = refl
drop-length (x ∷ xs) = drop-length xs

take-length : (n : ℕ) (xs : List ℕ) → length xs ≤ n → take n xs ≡ xs
take-length zero [] h = refl
take-length zero (x ∷ xs) h = elim h [ ]
take-length (suc n) [] h = refl
take-length (suc n) (x ∷ xs) h = rw (take-length n xs (omega arith))

-- What is written over a block at the end is what stands there.
pub write_at-append :
    (xs new old : List ℕ)
    → length old ≡ length new
    → write_at (length xs) new (xs ++ old) ≡ xs ++ new
unfolding write_at
write_at-append xs new old h =
    rw (take-append_length xs old, drop-append_length xs old, ← h, drop-length old, append-nil)

pub puts-bytes : (b : Buffer) (str : List ℕ) → (buffer_puts b str).1.bytes ≡ b.bytes ++ str
unfolding buffer_puts
puts-bytes b str =
    write_at-append b.bytes str (cells (length str) b.spare) (length-cells (length str) b.spare)

cells-before : (xs ys : List ℕ) (m : ℕ → ℕ) → cells (length xs) (before (xs ++ ys) m) ≡ xs
cells-before [] ys m = refl
cells-before (x ∷ xs) ys m = rw (cells-before xs ys m)

cells-vsnprintf :
    (b : Buffer) (text : List ℕ)
    → length b.bytes + length text + 1 ≤ b.capacity
    → cells (length text) (vsnprintf b text).spare ≡ text
unfolding vsnprintf
cells-vsnprintf b text h =
    rw (take-length (b.capacity - length b.bytes - 1) text (omega arith))
      (cells-before text (0 ∷ []) (behind (length text + 1) b.spare))

-- A round that has room is the last.
printf_loop-room :
    (fuel : ℕ) (b : Buffer) (text : List ℕ)
    → length b.bytes + length text + 1 ≤ b.capacity
    → printf_loop (suc fuel) b text ≡ vsnprintf b text
unfolding printf_loop
printf_loop-room fuel b text h =
    let e = grow_loop_done 64 (length b.bytes + length text) b.capacity h in ground (arith, e)

-- What `printf_loop` leaves: the contents as they were, room, and the text behind them.
pub record Printed (b : Buffer) (text : List ℕ) (r : Buffer) : Type 0 where
  pub kept : r.bytes ≡ b.bytes
  pub room : length b.bytes + length text + 1 ≤ r.capacity
  pub written : cells (length text) r.spare ≡ text

module _ (b : Buffer) (text : List ℕ) where
  grown_capacity : ℕ
  grown_capacity = grow_loop 64 (length b.bytes + length text) b.capacity

  grown_buffer : Buffer
  unfolding grown_capacity vsnprintf
  grown_buffer = record (vsnprintf b text) { capacity = grown_capacity }

  printf_loop-grown :
      b.capacity < grown_capacity → printf_loop 2 b text ≡ printf_loop 1 grown_buffer text
  unfolding printf_loop grown_buffer
  printf_loop-grown h = ground arith

  printf_loop-same : ¬ (b.capacity < grown_capacity) → printf_loop 2 b text ≡ grown_buffer
  unfolding printf_loop grown_buffer
  printf_loop-same h = ground arith

  pub printf_loop-Printed :
      0 < b.capacity → length b.bytes + length text < 2 ^ 63 → Printed b text (printf_loop 2 b text)
  unfolding grown_buffer
  printf_loop-Printed pos small =
      let room = grow_loop_room (length b.bytes + length text) b.capacity pos small in
      let up = grow_loop_le 64 (length b.bytes + length text) b.capacity small in
      elim (dec_lt b.capacity grown_capacity) [
        | yes more ↦
            rw (printf_loop-grown more, printf_loop-room 0 grown_buffer text room)
              (record {
                kept = refl;
                room = room;
                written = cells-vsnprintf grown_buffer text room;
              })
        | no done ↦
            rw (printf_loop-same done)
              (record { kept = refl; room = room; written = cells-vsnprintf b text (omega arith) })
      ]

-- Over a block that more stands behind.
pub write_at_middle :
    (xs new old ys : List ℕ)
    → length old ≡ length new
    → write_at (length xs) new (xs ++ (old ++ ys)) ≡ xs ++ (new ++ ys)
unfolding write_at
write_at_middle xs new old ys h = rw (
  take-append_length xs (old ++ ys),
  drop-append_length xs (old ++ ys),
  ← h,
  drop-append_length old ys,
)
