-- ===== src/Bytes.antt =====
-- lib/bytes.c and lib/bytes.h: big-endian words in memory. A cursor is the list of the bytes from
-- it on, and reading past its end is `none`.
pub mod RoundTrip
use chammer.Prelude.{
  ℕ, zero, suc, ◌+◌, ◌*◌, ◌/◌, ◌%◌, ◌^◌, Option, none, some, List, [], ◌∷◌, ltb, if◌then◌else◌,
}
use chammer.Prelude.Int.{ℤ, signed, shr, low_byte, is_signed}
use chammer.Buffer.{Buffer, buffer_alloc, buffer_write}
use mathlib.Core.Option

-- `READ_BE_BYTES` on an unsigned word of modulus `m`. The low byte of `v << 8` is 0, so `|` with a
-- byte is a sum.
pub read_be_bytes : ℕ → ℕ → ℕ → List ℕ → Option (ℕ × List ℕ)
read_be_bytes zero m v bs = some (v, bs)
read_be_bytes (suc n) m v [] = none
read_be_bytes (suc n) m v (b ∷ bs) = read_be_bytes n m (v * 256 % m + b) bs

unfoldable pub read_u16be : List ℕ → Option (ℕ × List ℕ)
unfolding read_be_bytes
read_u16be = read_be_bytes 2 (2 ^ 16) 0

unfoldable pub read_u32be : List ℕ → Option (ℕ × List ℕ)
unfolding read_be_bytes
read_u32be = read_be_bytes 4 (2 ^ 32) 0

unfoldable pub read_u64be : List ℕ → Option (ℕ × List ℕ)
unfolding read_be_bytes
read_u64be = read_be_bytes 8 (2 ^ 64) 0

-- The cast to a signed type of the same width.
abbrev pub as_signed : ℕ → ℕ × List ℕ → ℤ × List ℕ
as_signed m (v, bs) = (signed m v, bs)

unfoldable pub read_i16be : List ℕ → Option (ℤ × List ℕ)
unfolding read_be_bytes
read_i16be bs = Option.map (as_signed (2 ^ 16)) (read_be_bytes 2 (2 ^ 16) 0 bs)

unfoldable pub read_i32be : List ℕ → Option (ℤ × List ℕ)
unfolding read_be_bytes
read_i32be bs = Option.map (as_signed (2 ^ 32)) (read_be_bytes 4 (2 ^ 32) 0 bs)

unfoldable pub read_i64be : List ℕ → Option (ℤ × List ℕ)
unfolding read_be_bytes
read_i64be bs = Option.map (as_signed (2 ^ 64)) (read_be_bytes 8 (2 ^ 64) 0 bs)

-- `WRITE_BE_BYTES`: `(v >> (i << 3)) & 0xFF` from the highest `i` down.
pub write_be_bytes : ℕ → ℕ → List ℕ
write_be_bytes zero v = []
write_be_bytes (suc i) v = (v / 256 ^ i % 256) ∷ write_be_bytes i v

-- The same on a signed word, whose shift rounds down.
pub write_be_bytes_signed : ℕ → ℤ → List ℕ
write_be_bytes_signed zero v = []
write_be_bytes_signed (suc i) v = low_byte (shr v (256 ^ i)) ∷ write_be_bytes_signed i v

unfoldable pub write_u16be : ℕ → List ℕ
unfolding write_be_bytes
write_u16be = write_be_bytes 2

unfoldable pub write_u32be : ℕ → List ℕ
unfolding write_be_bytes
write_u32be = write_be_bytes 4

unfoldable pub write_u64be : ℕ → List ℕ
unfolding write_be_bytes
write_u64be = write_be_bytes 8

unfoldable pub write_i16be : ℤ → List ℕ
unfolding write_be_bytes_signed
write_i16be = write_be_bytes_signed 2

unfoldable pub write_i32be : ℤ → List ℕ
unfolding write_be_bytes_signed
write_i32be = write_be_bytes_signed 4

unfoldable pub write_i64be : ℤ → List ℕ
unfolding write_be_bytes_signed
write_i64be = write_be_bytes_signed 8

-- `buffer_alloc` of the word's size, and the word written over the block.
pub put_word : Buffer → ℕ → List ℕ → Buffer
unfolding buffer_alloc buffer_write
put_word b size word = let (at, b') = buffer_alloc b size in buffer_write b' at word

unfoldable pub buffer_put_u16be : Buffer → ℕ → Buffer
unfolding put_word write_u16be
buffer_put_u16be b v = put_word b 2 (write_u16be v)

unfoldable pub buffer_put_u32be : Buffer → ℕ → Buffer
unfolding put_word write_u32be
buffer_put_u32be b v = put_word b 4 (write_u32be v)

unfoldable pub buffer_put_u64be : Buffer → ℕ → Buffer
unfolding put_word write_u64be
buffer_put_u64be b v = put_word b 8 (write_u64be v)

unfoldable pub buffer_put_i16be : Buffer → ℤ → Buffer
unfolding put_word write_i16be
buffer_put_i16be b v = put_word b 2 (write_i16be v)

unfoldable pub buffer_put_i32be : Buffer → ℤ → Buffer
unfolding put_word write_i32be
buffer_put_i32be b v = put_word b 4 (write_i32be v)

unfoldable pub buffer_put_i64be : Buffer → ℤ → Buffer
unfolding put_word write_i64be
buffer_put_i64be b v = put_word b 8 (write_i64be v)

-- `CHECKED_INT_CAST`: a value outside the type's range panics, which is `none`.
abbrev pub checked : ℕ → ℕ → Option ℕ
checked m v = if ltb v m then some v else none

abbrev pub checked_u8 : ℕ → Option ℕ
checked_u8 = checked (2 ^ 8)

abbrev pub checked_u16 : ℕ → Option ℕ
checked_u16 = checked (2 ^ 16)

abbrev pub checked_u32 : ℕ → Option ℕ
checked_u32 = checked (2 ^ 32)

abbrev pub checked_i16 : ℤ → Option ℤ
checked_i16 v = if is_signed (2 ^ 16) v then some v else none
