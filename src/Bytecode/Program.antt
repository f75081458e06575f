-- ===== src/Bytecode/Program.antt =====
-- The container of a compiled program in lib/bytecode.c: header, strings, the table of functions and
-- the bytecode. A pointer into the program is the list of the bytes from it to the end.
pub mod Image
pub mod Safety
use chammer.Prelude.{
  ℕ, zero, suc, ◌+◌, ◌-◌, ◌*◌, ◌%◌, Option, none, some, Bool, true, false, List, [], ◌∷◌, ◌++◌, ltb,
  ◌==◌, ◌&&◌, if◌then◌else◌, length, take, drop,
}
use chammer.Buffer.{Buffer, buffer_alloc, buffer_write}
use chammer.Bytes.{read_u16be, read_u32be, write_u32be}

-- `func_type`, an enumeration of small integers.
abbrev pub fn_named : ℕ
fn_named = 0

abbrev pub fn_block : ℕ
fn_block = 1

abbrev pub fn_lambda : ℕ
fn_lambda = 2

abbrev pub fn_case : ℕ
fn_case = 3

abbrev pub fn_global : ℕ
fn_global = 4

-- `type` may hold any byte once it is read back.
pub record FuncMeta : Type 0 where
  pub addr : ℕ
  pub locals : ℕ
  pub args : ℕ
  pub captures : ℕ
  pub type : ℕ
  pub name_offset : ℕ
  pub name_len : ℕ

pub record Program : Type 0 where
  pub version : ℕ
  pub string_bytes_len : ℕ
  pub string_bytes : List ℕ
  pub funcs_len : ℕ
  pub funcs : List ℕ
  pub bytecode : List ℕ

abbrev pub magic : List ℕ
magic = b'H' ∷ b'A' ∷ b'M' ∷ b'M' ∷ b'E' ∷ b'R' ∷ []

abbrev pub bytecode_version : ℕ
bytecode_version = 1

-- `sizeof(func_meta_bytes)`: thirteen bytes, with no padding between them.
abbrev pub func_meta_size : ℕ
func_meta_size = 13

-- The fields of `func_meta_bytes` in the order of memory.
pub func_meta_bytes : FuncMeta → List ℕ
unfolding write_u32be
func_meta_bytes fn =
    write_u32be fn.addr
    ++ (fn.locals ∷ fn.args ∷ fn.captures ∷ (fn.type % 256) ∷ [])
    ++ write_u32be fn.name_offset
    ++ (fn.name_len ∷ [])

unfoldable pub bytecode_put_func_meta : Buffer → FuncMeta → Buffer
unfolding func_meta_bytes buffer_alloc buffer_write
bytecode_put_func_meta b fn =
    let (at, b') = buffer_alloc b func_meta_size in buffer_write b' at (func_meta_bytes fn)

-- The fields behind `addr`, and the record that they make up.
abbrev pub func_meta_end : ℕ → ℕ → ℕ → ℕ → ℕ → Option (ℕ × List ℕ) → Option FuncMeta
func_meta_end addr locals args captures type (some (name_offset, name_len ∷ _)) = some (record {
  addr = addr;
  locals = locals;
  args = args;
  captures = captures;
  type = type;
  name_offset = name_offset;
  name_len = name_len;
})
func_meta_end addr locals args captures type _ = none

abbrev pub func_meta_tail : ℕ → List ℕ → Option FuncMeta
func_meta_tail addr (locals ∷ args ∷ captures ∷ type ∷ r) =
    func_meta_end addr locals args captures type (read_u32be r)
func_meta_tail addr _ = none

abbrev pub func_meta_from : Option (ℕ × List ℕ) → Option FuncMeta
func_meta_from none = none
func_meta_from (some (addr, r)) = func_meta_tail addr r

-- `none` is a read past the end of the program; the index is not compared with `funcs_len`.
unfoldable pub program_func_meta : Program → ℕ → Option FuncMeta
unfolding read_u32be
program_func_meta p index = func_meta_from (read_u32be (drop (func_meta_size * index) p.funcs))

-- The name of a function for debug traces; `none` is the end of the switch with no case taken.
unfoldable pub program_func_name : Program → FuncMeta → Option (List ℕ)
program_func_name p fn =
    if fn.type == fn_named
    then some (take fn.name_len (drop fn.name_offset p.string_bytes))
    else if fn.type == fn_block
    then some (b'<' ∷ b'b' ∷ b'l' ∷ b'o' ∷ b'c' ∷ b'k' ∷ b'>' ∷ [])
    else if fn.type == fn_lambda
    then some (b'<' ∷ b'l' ∷ b'a' ∷ b'm' ∷ b'b' ∷ b'd' ∷ b'a' ∷ b'>' ∷ [])
    else if fn.type == fn_case
    then some (b'<' ∷ b'c' ∷ b'a' ∷ b's' ∷ b'e' ∷ b'>' ∷ [])
    else if fn.type == fn_global
    then some (b'<' ∷ b'g' ∷ b'l' ∷ b'o' ∷ b'b' ∷ b'a' ∷ b'l' ∷ b'>' ∷ [])
    else none

-- `rejected` is the result `false`; `out_of_bounds` is a read past the end of the bytes.
pub data ReadResult : Type 0 where
  accepted : Program → ReadResult
  rejected out_of_bounds : ReadResult

-- `memcmp` with the magic word; the caller has seen that there are enough bytes.
pub starts_with_magic : List ℕ → List ℕ → Bool
starts_with_magic [] bs = true
starts_with_magic (m ∷ ms) [] = false
starts_with_magic (m ∷ ms) (b ∷ bs) = m == b && starts_with_magic ms bs

-- `cursor += n; if (end - cursor < 4) return false`, then what follows.
abbrev pub skip_leaving_4 : ℕ → List ℕ → (List ℕ → ReadResult) → ReadResult
skip_leaving_4 n cursor k = if ltb (length cursor) (n + 4) then rejected else k (drop n cursor)

abbrev pub with_word : Option (ℕ × List ℕ) → (ℕ → List ℕ → ReadResult) → ReadResult
with_word none k = out_of_bounds
with_word (some (v, cursor)) k = k v cursor

-- From the bytecode on, which is whatever is left.
abbrev pub finish : ℕ → ℕ → List ℕ → ℕ → List ℕ → List ℕ → ReadResult
finish version string_bytes_len at_strings funcs_len at_funcs at_code = accepted (record {
  version = version;
  string_bytes_len = string_bytes_len;
  string_bytes = at_strings;
  funcs_len = funcs_len;
  funcs = at_funcs;
  bytecode = at_code;
})

-- From the number of functions on.
read_table : ℕ → ℕ → List ℕ → List ℕ → ReadResult
read_table version string_bytes_len at_strings at_funcs_len =
    with_word (read_u32be at_funcs_len) λ funcs_len at_funcs.
      skip_leaving_4 (func_meta_size * funcs_len) at_funcs
        (finish version string_bytes_len at_strings funcs_len at_funcs)

-- From the cursor behind the magic word on.
read_body : List ℕ → ReadResult
unfolding read_table
read_body cursor = with_word (read_u16be cursor) λ version at_len.
    with_word (read_u32be at_len) λ string_bytes_len at_strings.
      skip_leaving_4 string_bytes_len at_strings (read_table version string_bytes_len at_strings)

-- `sizeof(MAGIC_HAMMER)` counts the terminator.
unfoldable pub program_read : List ℕ → ReadResult
unfolding read_body starts_with_magic
program_read bytes =
    if ltb (length bytes) (7 + 5)
    then rejected
    else if starts_with_magic magic bytes
    then read_body (drop 6 bytes)
    else rejected
