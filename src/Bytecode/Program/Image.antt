-- ===== src/Bytecode/Program/Image.antt =====
-- A program that is laid out as the compiler writes it is read back, with its table of functions.
use chammer.Prelude.{
  ℕ, zero, suc, ◌*◌, ◌≤◌, ◌≡◌, refl, ◌∙◌, some, List, [], ◌∷◌, ◌++◌, arith, length, drop, All,
  get_elem?, length-append, append_assoc, drop-append_length, IsByte, IsU32,
}
use chammer.Bytes.{read_u32be, write_u16be, write_u32be}
use chammer.Bytes.RoundTrip.{read_u16be-write, read_u32be-write}
use chammer.Bytecode.Program.{
  FuncMeta, Program, func_meta_bytes, func_meta_size, func_meta_from, program_func_meta, ReadResult,
  accepted, program_read, read_body, read_table, finish, magic, bytecode_version, skip_leaving_4,
}

-- Each field is a value of its C type.
pub record MetaFits (fn : FuncMeta) : Type 0 where
  pub addr_fits : IsU32 fn.addr
  pub type_fits : IsByte fn.type
  pub name_fits : IsU32 fn.name_offset

pub length-func_meta_bytes : (fn : FuncMeta) → length (func_meta_bytes fn) ≡ func_meta_size
unfolding func_meta_bytes
length-func_meta_bytes fn = refl

-- The table of functions.
unfoldable pub table : List FuncMeta → List ℕ
table [] = []
table (fn ∷ fns) = func_meta_bytes fn ++ table fns

length-table : (fns : List FuncMeta) → length (table fns) ≡ func_meta_size * length fns
unfolding table
length-table [] = refl
length-table (fn ∷ fns) =
    length-append (func_meta_bytes fn) (table fns)
    ∙ omega (arith, length-func_meta_bytes fn, length-table fns)

-- The bytes of a program with the given strings, functions and code.
unfoldable pub image : List ℕ → List FuncMeta → List ℕ → List ℕ
image strings fns code =
    magic
    ++ (write_u16be bytecode_version
        ++ (write_u32be (length strings)
            ++ (strings ++ (write_u32be (length fns) ++ (table fns ++ code)))))

-- What it is read back as.
pub program_of : List ℕ → List FuncMeta → List ℕ → Program
program_of strings fns code = record {
  version = bytecode_version;
  string_bytes_len = length strings;
  string_bytes = strings ++ (write_u32be (length fns) ++ (table fns ++ code));
  funcs_len = length fns;
  funcs = table fns ++ code;
  bytecode = code;
}

skip_room :
    (xs ys : List ℕ) (k : List ℕ → ReadResult)
    → 4 ≤ length ys
    → skip_leaving_4 (length xs) (xs ++ ys) k ≡ k ys
skip_room xs ys k h = rw (drop-append_length xs ys) (ground (arith, length-append xs ys))

length-write_u32be : (v : ℕ) → length (write_u32be v) ≡ 4
unfolding write_u32be
length-write_u32be v = refl

read_table-image :
    (strings : List ℕ) (fns : List FuncMeta) (code : List ℕ)
    → IsU32 (length fns)
    → 4 ≤ length code
    → read_table bytecode_version
        (length strings)
        (strings ++ (write_u32be (length fns) ++ (table fns ++ code)))
        (write_u32be (length fns) ++ (table fns ++ code))
      ≡ accepted (program_of strings fns code)
unfolding read_table program_of
read_table-image strings fns code h room =
    rw (read_u32be-write (length fns) (table fns ++ code) h, ← length-table fns)
      (skip_room (table fns) code
        (finish bytecode_version (length strings)
          (strings ++ (write_u32be (length fns) ++ (table fns ++ code))) (length fns)
          (table fns ++ code))
        room)

program_read-magic :
    (body : List ℕ) → 6 ≤ length body → program_read (magic ++ body) ≡ read_body body
unfolding program_read
program_read-magic body h = ground arith

read_body-image :
    (strings : List ℕ) (fns : List FuncMeta) (code : List ℕ)
    → IsU32 (length strings)
    → IsU32 (length fns)
    → 4 ≤ length code
    → read_body (
        write_u16be bytecode_version
        ++ (write_u32be (length strings)
            ++ (strings ++ (write_u32be (length fns) ++ (table fns ++ code)))))
      ≡ accepted (program_of strings fns code)
unfolding read_body
read_body-image strings fns code h k room =
    let rest = write_u32be (length fns) ++ (table fns ++ code) in
    let at_strings = strings ++ rest in
    rw
      (
        read_u16be-write bytecode_version (write_u32be (length strings) ++ at_strings)
            (omega arith),
        read_u32be-write (length strings) at_strings h,
        skip_room strings rest (read_table bytecode_version (length strings) at_strings) (
            rw (length-append (write_u32be (length fns)) (table fns ++ code), length-write_u32be)
              (omega arith)),
      )
      (read_table-image strings fns code k room)

-- A program that is laid out as the compiler writes it is accepted, with its sections, if it has
-- at least four bytes of code.
pub program_read-image :
    (strings : List ℕ) (fns : List FuncMeta) (code : List ℕ)
    → IsU32 (length strings)
    → IsU32 (length fns)
    → 4 ≤ length code
    → program_read (image strings fns code) ≡ accepted (program_of strings fns code)
unfolding image
program_read-image strings fns code h k room =
    program_read-magic _ (
      rw
        (
          length-append (write_u16be bytecode_version) (
              write_u32be (length strings)
              ++ (strings ++ (write_u32be (length fns) ++ (table fns ++ code)))),
          length-append (write_u32be (length strings))
              (strings ++ (write_u32be (length fns) ++ (table fns ++ code))),
          length-write_u32be,
        )
        (unfold write_u16be in omega arith))
    ∙ read_body-image strings fns code h k room

-- The n-th entry of the table is read as the n-th function.
func_meta-read :
    (fn : FuncMeta) (rest : List ℕ)
    → MetaFits fn
    → func_meta_from (read_u32be (func_meta_bytes fn ++ rest)) ≡ some fn
unfolding func_meta_bytes read_u32be
func_meta-read fn rest h = ground arith

drop_entry :
    (fn : FuncMeta) (rest : List ℕ) (i : ℕ)
    → drop (func_meta_size * suc i) (func_meta_bytes fn ++ rest) ≡ drop (func_meta_size * i) rest
unfolding func_meta_bytes
drop_entry fn rest i =
    let e : func_meta_size * suc i
        ≡ suc (
            suc (
              suc
                (suc (suc (suc (suc (suc (suc (suc (suc (suc (suc (func_meta_size * i))))))))))))) =
      omega arith in
    rw e

entry-read :
    (fns : List FuncMeta) (code : List ℕ) (i : ℕ) (fn : FuncMeta)
    → get_elem? fns i ≡ some fn
    → All MetaFits fns
    → func_meta_from (read_u32be (drop (func_meta_size * i) (table fns ++ code))) ≡ some fn
unfolding table
entry-read [] code i fn e fits = absurd (cc)
entry-read (g ∷ fns) code zero fn e fits =
    rw
      (
        append_assoc (func_meta_bytes g) (table fns) code,
        func_meta-read g (table fns ++ code) fits.0,
      )
      e
entry-read (g ∷ fns) code (suc i) fn e fits =
    rw (append_assoc (func_meta_bytes g) (table fns) code, drop_entry g (table fns ++ code) i)
      (entry-read fns code i fn e fits.1)

-- The i-th entry of the table of such a program is read as the i-th function, if the fields of
-- the functions are values of their C types.
pub program_func_meta-image :
    (strings : List ℕ) (fns : List FuncMeta) (code : List ℕ) (i : ℕ) (fn : FuncMeta)
    → get_elem? fns i ≡ some fn
    → All MetaFits fns
    → program_func_meta (program_of strings fns code) i ≡ some fn
unfolding program_func_meta program_of
program_func_meta-image strings fns code i fn e fits = entry-read fns code i fn e fits
