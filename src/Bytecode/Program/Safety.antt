-- ===== src/Bytecode/Program/Safety.antt =====
-- The checks of `program_read` are enough for its own reads.
use chammer.Prelude.{
  ℕ, ◌+◌, ◌*◌, ◌≤◌, ◌≡◌, refl, some, Bool, true, false, List, [], ◌∷◌, arith, ltb, if◌then◌else◌,
  length, drop, length-drop,
}
use chammer.Bytes.{read_u16be, read_u32be}
use chammer.Bytecode.Program.{
  Program, program_read, read_body, read_table, finish, ReadResult, accepted, rejected,
  out_of_bounds, skip_leaving_4, starts_with_magic, magic, func_meta_size,
}

-- A word that lies within the bytes is read.
read_u16be-some :
    (bs : List ℕ)
    → 2 ≤ length bs
    → (v : ℕ) × (r : List ℕ) × (read_u16be bs ≡ some (v, r)) × (length bs ≡ length r + 2)
unfolding read_u16be
read_u16be-some (a ∷ b ∷ r) h = (_, r, refl, omega arith)
read_u16be-some (a ∷ []) h = absurd (omega arith)
read_u16be-some [] h = absurd (omega arith)

read_u32be-some :
    (bs : List ℕ)
    → 4 ≤ length bs
    → (v : ℕ) × (r : List ℕ) × (read_u32be bs ≡ some (v, r)) × (length bs ≡ length r + 4)
unfolding read_u32be
read_u32be-some (a ∷ b ∷ c ∷ d ∷ r) h = (_, r, refl, omega arith)
read_u32be-some (a ∷ b ∷ c ∷ []) h = absurd (omega arith)
read_u32be-some (a ∷ b ∷ []) h = absurd (omega arith)
read_u32be-some (a ∷ []) h = absurd (omega arith)
read_u32be-some [] h = absurd (omega arith)

-- What an accepted program guarantees of its sections: the strings, the table and at least four
-- bytes of code lie within the `n` bytes that were given.
pub record Sections (n : ℕ) (p : Program) : Type 0 where
  pub strings_inside : p.string_bytes_len + 4 ≤ length p.string_bytes
  pub table_inside : func_meta_size * p.funcs_len + 4 ≤ length p.funcs
  pub code_behind : p.bytecode ≡ drop (func_meta_size * p.funcs_len) p.funcs
  pub within : length p.string_bytes ≤ n

abbrev pub IsSound : ℕ → ReadResult → Type 0
IsSound n (accepted p) = Sections n p
IsSound n rejected = Unit {0}
IsSound n out_of_bounds = ⊥

if_IsSound :
    (t : Bool) (n : ℕ) (r : ReadResult)
    → (t ≡ false → IsSound n r)
    → IsSound n (if t then rejected else r)
if_IsSound true n r h = tt
if_IsSound false n r h = h refl

skip-IsSound :
    (m n : ℕ) (cursor : List ℕ) (k : List ℕ → ReadResult)
    → (m + 4 ≤ length cursor → IsSound n (k (drop m cursor)))
    → IsSound n (skip_leaving_4 m cursor k)
skip-IsSound m n cursor k h =
    if_IsSound (ltb (length cursor) (m + 4)) n (k (drop m cursor)) (λ e. h (ground arith))

read_table-IsSound :
    (n version len : ℕ) (at_strings at_funcs_len : List ℕ)
    → len + 4 ≤ length at_strings
    → at_funcs_len ≡ drop len at_strings
    → length at_strings ≤ n
    → IsSound n (read_table version len at_strings at_funcs_len)
unfolding read_table
read_table-IsSound n version len at_strings at_funcs_len fits e inside =
    let (funcs_len, at_funcs, f, g) =
      read_u32be-some at_funcs_len (rw (e, length-drop len at_strings) (omega arith)) in
    rw f (
      skip-IsSound (func_meta_size * funcs_len) n at_funcs
        (finish version len at_strings funcs_len at_funcs)
        λ table. record {
          strings_inside = fits;
          table_inside = table;
          code_behind = refl;
          within = inside;
        })

read_body-IsSound :
    (n : ℕ) (cursor : List ℕ) → 6 ≤ length cursor → length cursor ≤ n → IsSound n (read_body cursor)
unfolding read_body
read_body-IsSound n cursor h inside =
    let (version, at_len, e, l) = read_u16be-some cursor (omega arith) in
    let (len, at_strings, e', l') = read_u32be-some at_len (omega arith) in
    rw (e, e')
      (skip-IsSound len n at_strings (read_table version len at_strings) λ fits.
        read_table-IsSound n version len at_strings (drop len at_strings) fits refl (omega arith))

checked_IsSound :
    (t : Bool) (n : ℕ) (r : ReadResult) → IsSound n r → IsSound n (if t then r else rejected)
checked_IsSound true n r h = h
checked_IsSound false n r h = tt

-- On any bytes, `program_read` never reads past their end, and the sections of a program that it
-- accepts lie within them.
pub program_read-IsSound : (bytes : List ℕ) → IsSound (length bytes) (program_read bytes)
unfolding program_read
program_read-IsSound bytes =
    if_IsSound (ltb (length bytes) (7 + 5)) (length bytes)
      (if starts_with_magic magic bytes then read_body (drop 6 bytes) else rejected)
      λ e.
        checked_IsSound (starts_with_magic magic bytes) (length bytes) (read_body (drop 6 bytes)) (
          read_body-IsSound (length bytes) (drop 6 bytes) (rw (length-drop 6 bytes) (ground arith))
            (rw (length-drop 6 bytes) (omega arith)))
