-- ===== src/Bytes/RoundTrip.antt =====
-- What is written as a word is read back, and a word in a buffer takes its size.
use chammer.Prelude.{ℕ, ◌^◌, ◌≡◌, some, List, ◌++◌, arith, length, IsU16, IsU32, IsU64, ◌∙◌, sym}
use chammer.Prelude.Int.{ℤ, pos, negsuc, IsSigned}
use chammer.Buffer.{Buffer, cells}
use chammer.Buffer.Laws.{write_at-append, length-cells}
use chammer.Bytes.{
  put_word, read_u16be, read_u32be, read_u64be, read_i16be, read_i32be, read_i64be, write_u16be,
  write_u32be, write_u64be, write_i16be, write_i32be, write_i64be,
}

pub read_u16be-write :
    (v : ℕ) (rest : List ℕ) → IsU16 v → read_u16be (write_u16be v ++ rest) ≡ some (v, rest)
unfolding read_u16be write_u16be
read_u16be-write v rest h = ground arith

pub read_u32be-write :
    (v : ℕ) (rest : List ℕ) → IsU32 v → read_u32be (write_u32be v ++ rest) ≡ some (v, rest)
unfolding read_u32be write_u32be
read_u32be-write v rest h = ground arith

pub read_u64be-write :
    (v : ℕ) (rest : List ℕ) → IsU64 v → read_u64be (write_u64be v ++ rest) ≡ some (v, rest)
unfolding read_u64be write_u64be
read_u64be-write v rest h = ground arith

pub read_i16be-write :
    (v : ℤ) (rest : List ℕ)
    → IsSigned (2 ^ 16) v
    → read_i16be (write_i16be v ++ rest) ≡ some (v, rest)
unfolding read_i16be write_i16be
read_i16be-write (pos n) rest h = ground arith
read_i16be-write (negsuc n) rest h = ground arith

pub read_i32be-write :
    (v : ℤ) (rest : List ℕ)
    → IsSigned (2 ^ 32) v
    → read_i32be (write_i32be v ++ rest) ≡ some (v, rest)
unfolding read_i32be write_i32be
read_i32be-write (pos n) rest h = ground arith
read_i32be-write (negsuc n) rest h = ground arith

pub read_i64be-write :
    (v : ℤ) (rest : List ℕ)
    → IsSigned (2 ^ 64) v
    → read_i64be (write_i64be v ++ rest) ≡ some (v, rest)
unfolding read_i64be write_i64be
read_i64be-write (pos n) rest h = ground arith
read_i64be-write (negsuc n) rest h = ground arith

-- A word of its block's size is appended.
pub put_word-bytes :
    (b : Buffer) (size : ℕ) (word : List ℕ)
    → length word ≡ size
    → (put_word b size word).bytes ≡ b.bytes ++ word
unfolding put_word
put_word-bytes b size word h =
    write_at-append b.bytes word (cells size b.spare) (length-cells size b.spare ∙ sym h)
