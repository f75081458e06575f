-- ===== src/Buffer.antt =====
-- lib/buffer.c and lib/buffer.h: the growable byte buffer.
--
-- The memory behind `data` is `bytes` followed by `spare`: `spare i` is what stands `i` bytes
-- behind the contents, so `spare 0` is the terminator's place and what `realloc` leaves in new
-- memory is whatever `spare` says. `len` is `length bytes`. A `char` is stored as its byte.
pub mod Growth
pub mod Laws
pub mod Reads
pub mod Literal
pub mod Refines
use chammer.Prelude.{
  ℕ, zero, suc, ◌+◌, ◌-◌, ◌*◌, ◌%◌, ◌^◌, ◌≤◌, ◌≡◌, Bool, true, false, Option, none, some, List, [],
  ◌∷◌, ◌++◌, ltb, leb, if◌then◌else◌, length, take, drop,
}

pub record Buffer : Type 0 where
  pub bytes : List ℕ
  pub spare : ℕ → ℕ
  pub capacity : ℕ

abbrev pub default_capacity : ℕ
default_capacity = 0x400

-- `data[len] = '\0'`
abbrev pub terminate : (ℕ → ℕ) → ℕ → ℕ
terminate m zero = 0
terminate m (suc i) = m (suc i)

-- The first `n` bytes of memory, and memory from there on.
abbrev pub cells : ℕ → (ℕ → ℕ) → List ℕ
cells zero m = []
cells (suc n) m = m 0 ∷ cells n (λ i. m (suc i))

abbrev pub behind : ℕ → (ℕ → ℕ) → ℕ → ℕ
behind n m i = m (n + i)

-- Memory that begins with a list.
abbrev pub before : List ℕ → (ℕ → ℕ) → ℕ → ℕ
before [] m i = m i
before (b ∷ bs) m zero = b
before (b ∷ bs) m (suc i) = before bs m i

-- `while (min_len + 1 > capacity) capacity <<= 1` on a 64-bit `size_t`.
unfoldable pub grow_loop : ℕ → ℕ → ℕ → ℕ
grow_loop zero min_len c = c
grow_loop (suc fuel) min_len c = elim (ltb c (min_len + 1)) [
  | true ↦ grow_loop fuel min_len (c * 2 % 2 ^ 64)
  | false ↦ c
]

-- 64 doublings take any capacity but 0 past every length below 2 ^ 63.
unfoldable pub buffer_grow : Buffer → ℕ → Buffer × Bool
buffer_grow b min_len =
    let c = grow_loop 64 min_len b.capacity in (record b { capacity = c }, ltb b.capacity c)

unfoldable pub buffer_init_capacity : (ℕ → ℕ) → ℕ → Buffer
buffer_init_capacity m c = record { bytes = []; spare = terminate m; capacity = c }

unfoldable pub buffer_init : (ℕ → ℕ) → Buffer
unfolding buffer_init_capacity
buffer_init m = buffer_init_capacity m default_capacity

unfoldable pub buffer_putc : Buffer → ℕ → Buffer
unfolding buffer_grow
buffer_putc b c =
    let b' = (buffer_grow b (length b.bytes + 1)).0 in
    record b' { bytes = b'.bytes ++ (c % 256) ∷ []; spare = terminate (behind 1 b'.spare) }

-- The pointer that is returned is the offset of the new block.
unfoldable pub buffer_alloc : Buffer → ℕ → ℕ × Buffer
unfolding buffer_grow
buffer_alloc b len =
    let b' = (buffer_grow b (length b.bytes + len)).0 in
    (
      length b.bytes,
      record b' { bytes = b'.bytes ++ cells len b'.spare; spare = terminate (behind len b'.spare) },
    )

-- `memcpy` to an offset inside the contents.
unfoldable pub write_at : ℕ → List ℕ → List ℕ → List ℕ
write_at at new old = take at old ++ (new ++ drop (length new) (drop at old))

unfoldable pub buffer_write : Buffer → ℕ → List ℕ → Buffer
unfolding write_at
buffer_write b at new = record b { bytes = write_at at new b.bytes }

-- The string that is returned begins at the offset.
unfoldable pub buffer_puts : Buffer → List ℕ → ℕ × Buffer
unfolding buffer_alloc buffer_write
buffer_puts b str = let (at, b') = buffer_alloc b (length str) in (at, buffer_write b' at str)

-- One call of `vsnprintf` for the text that the format expands to: as much of it as leaves room
-- for the terminator, in the memory behind the contents.
vsnprintf : Buffer → List ℕ → Buffer
vsnprintf b text = record b {
  spare =
      before (take (b.capacity - length b.bytes - 1) text ++ 0 ∷ [])
        (behind (length (take (b.capacity - length b.bytes - 1) text) + 1) b.spare);
}

-- `do … while (buffer_grow(…))`
pub printf_loop : ℕ → Buffer → List ℕ → Buffer
unfolding vsnprintf buffer_grow
printf_loop zero b text = b
printf_loop (suc fuel) b text =
    let (b', grown) = buffer_grow (vsnprintf b text) (length b.bytes + length text) in
    elim grown [ true ↦ printf_loop fuel b' text | false ↦ b' ]

-- The buffer grows in the first round at most, so two rounds are enough.
unfoldable pub buffer_printf : Buffer → List ℕ → Buffer
unfolding printf_loop
buffer_printf b text =
    let b' = printf_loop 2 b text in
    record b' {
      bytes = b'.bytes ++ cells (length text) b'.spare;
      spare = terminate (behind (length text) b'.spare);
    }

unfoldable pub buffer_clear : Buffer → Buffer
buffer_clear b = record b { bytes = []; spare = terminate (before b.bytes b.spare) }

-- A new length within the contents, and the terminator there.
abbrev pub shorten : Buffer → ℕ → Buffer
shorten b len = record b {
  bytes = take len b.bytes;
  spare = terminate (before (drop len b.bytes) b.spare);
}

-- `none` is the assertion that fails where `len` is beyond the contents.
unfoldable pub buffer_truncate : Buffer → ℕ → Option Buffer
buffer_truncate b len = if leb len (length b.bytes) then some (shorten b len) else none

-- `fread` fills `actual` of the `size` bytes that the file has.
unfoldable pub buffer_read_file : Buffer → ℕ → List ℕ → Buffer
unfolding buffer_alloc buffer_write
buffer_read_file b size actual =
    let (at, b') = buffer_alloc b size in
    shorten (buffer_write b' at actual) (length b'.bytes - (size - length actual))

-- The invariant that the header file states: the contents and a terminator fit.
pub record IsValid (b : Buffer) : Type 0 where
  pub fits : length b.bytes + 1 ≤ b.capacity
  pub terminated : b.spare 0 ≡ 0
