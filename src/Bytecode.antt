-- ===== src/Bytecode.antt =====
-- lib/bytecode.h and lib/bytecode.c: the instructions, the functions that append them to a buffer,
-- the table of functions and the container format of a program.
pub mod Program
pub mod Format
pub mod Jumps
use chammer.Prelude.{
  ℕ, ◌+◌, Option, none, some, Bool, true, false, List, [], ◌∷◌, ◌++◌, ◌==◌, if◌then◌else◌, length,
}
use chammer.Prelude.Int.{ℤ, negsuc}
use chammer.Buffer.{Buffer, buffer_putc}
use chammer.Bytes.{
  read_u16be, read_u32be, read_i16be, read_i64be, buffer_put_u16be, buffer_put_u32be,
  buffer_put_i16be, buffer_put_i64be,
}

pub data Opcode : Type 0 where
  op_jump op_jumpif op_jumpifn op_call op_return : Opcode
  op_load op_store op_dup op_pop op_swap : Opcode
  op_pushint op_pushstr op_pushtrue op_pushfalse : Opcode
  op_makecls op_callval op_bind : Opcode
  op_chktuple op_tupleget op_maketuple op_makelist : Opcode
  op_chknil op_chkcons op_uncons op_concat op_eq : Opcode
  op_loadext op_yield op_halt : Opcode

abbrev pub opcode_byte : Opcode → ℕ
opcode_byte op_jump = 0x01
opcode_byte op_jumpif = 0x02
opcode_byte op_jumpifn = 0x03
opcode_byte op_call = 0x04
opcode_byte op_return = 0x05
opcode_byte op_load = 0x10
opcode_byte op_store = 0x11
opcode_byte op_dup = 0x12
opcode_byte op_pop = 0x13
opcode_byte op_swap = 0x14
opcode_byte op_pushint = 0x20
opcode_byte op_pushstr = 0x21
opcode_byte op_pushtrue = 0x22
opcode_byte op_pushfalse = 0x23
opcode_byte op_makecls = 0x30
opcode_byte op_callval = 0x31
opcode_byte op_bind = 0x32
opcode_byte op_chktuple = 0x50
opcode_byte op_tupleget = 0x51
opcode_byte op_maketuple = 0x52
opcode_byte op_makelist = 0x53
opcode_byte op_chknil = 0x54
opcode_byte op_chkcons = 0x55
opcode_byte op_uncons = 0x56
opcode_byte op_concat = 0x57
opcode_byte op_eq = 0x58
opcode_byte op_loadext = 0x80
opcode_byte op_yield = 0xf0
opcode_byte op_halt = 0xff

-- `(int16_t)0xFFFF`
abbrev pub addr_placeholder : ℤ
addr_placeholder = negsuc 0

-- The offset of the address goes to `addr_offset`.
unfoldable pub bytecode_put_jump : Buffer → Opcode → ℕ × Buffer
bytecode_put_jump b op =
    let b' = buffer_putc b (opcode_byte op) in
    (length b'.bytes, buffer_put_i16be b' addr_placeholder)

unfoldable pub bytecode_put_call : Buffer → ℕ → Buffer
bytecode_put_call b fnindex = buffer_put_u32be (buffer_putc b (opcode_byte op_call)) fnindex

unfoldable pub bytecode_put_load : Buffer → ℕ → Buffer
bytecode_put_load b local = buffer_putc (buffer_putc b (opcode_byte op_load)) local

unfoldable pub bytecode_put_store : Buffer → ℕ → Buffer
bytecode_put_store b local = buffer_putc (buffer_putc b (opcode_byte op_store)) local

unfoldable pub bytecode_put_pushint : Buffer → ℤ → Buffer
bytecode_put_pushint b value = buffer_put_i64be (buffer_putc b (opcode_byte op_pushint)) value

unfoldable pub bytecode_put_pushstr : Buffer → ℕ → ℕ → Buffer
bytecode_put_pushstr b offset len =
    buffer_put_u32be (buffer_put_u32be (buffer_putc b (opcode_byte op_pushstr)) offset) len

unfoldable pub bytecode_put_makecls : Buffer → ℕ → Buffer
bytecode_put_makecls b fnindex = buffer_put_u32be (buffer_putc b (opcode_byte op_makecls)) fnindex

unfoldable pub bytecode_put_callval : Buffer → ℕ → Buffer
bytecode_put_callval b args = buffer_putc (buffer_putc b (opcode_byte op_callval)) args

unfoldable pub bytecode_put_chktuple : Buffer → ℕ → Buffer
bytecode_put_chktuple b len = buffer_put_u16be (buffer_putc b (opcode_byte op_chktuple)) len

unfoldable pub bytecode_put_tupleget : Buffer → ℕ → Buffer
bytecode_put_tupleget b index = buffer_put_u16be (buffer_putc b (opcode_byte op_tupleget)) index

unfoldable pub bytecode_put_maketuple : Buffer → ℕ → Buffer
bytecode_put_maketuple b len = buffer_put_u16be (buffer_putc b (opcode_byte op_maketuple)) len

unfoldable pub bytecode_put_makelist : Buffer → ℕ → Buffer
bytecode_put_makelist b len = buffer_put_u16be (buffer_putc b (opcode_byte op_makelist)) len

-- An instruction with its operands, as `machine_step` and `program_debug_print` read it.
pub data Instr : Type 0 where
  jump : ℤ → Instr
  jumpif : ℤ → Instr
  jumpifn : ℤ → Instr
  call : ℕ → Instr
  return : Instr
  load : ℕ → Instr
  store : ℕ → Instr
  dup pop swap : Instr
  pushint : ℤ → Instr
  pushstr : ℕ → ℕ → Instr
  pushtrue pushfalse : Instr
  makecls : ℕ → Instr
  callval : ℕ → Instr
  bind : Instr
  chktuple : ℕ → Instr
  tupleget : ℕ → Instr
  maketuple : ℕ → Instr
  makelist : ℕ → Instr
  chknil chkcons uncons concat eq : Instr
  loadext yield halt : Instr

-- Operands behind the opcode.
abbrev pub then_read {ℓ} :
    {A : Type ℓ} → (A → Instr) → Option (A × List ℕ) → Option (Instr × List ℕ)
then_read f none = none
then_read f (some (a, bs)) = some (f a, bs)

abbrev pub read_u8 : List ℕ → Option (ℕ × List ℕ)
read_u8 [] = none
read_u8 (b ∷ bs) = some (b, bs)

abbrev pub pair_with : ℕ → Option (ℕ × List ℕ) → Option ((ℕ × ℕ) × List ℕ)
pair_with a none = none
pair_with a (some (b, bs)) = some ((a, b), bs)

abbrev pub and_u32 : Option (ℕ × List ℕ) → Option ((ℕ × ℕ) × List ℕ)
and_u32 none = none
and_u32 (some (a, bs)) = pair_with a (read_u32be bs)

-- The operands that `machine_step` reads under each case of its switch.
pub operands : Opcode → List ℕ → Option (Instr × List ℕ)
unfolding read_u16be read_u32be read_i16be read_i64be
operands op_jump bs = then_read jump (read_i16be bs)
operands op_jumpif bs = then_read jumpif (read_i16be bs)
operands op_jumpifn bs = then_read jumpifn (read_i16be bs)
operands op_call bs = then_read call (read_u32be bs)
operands op_return bs = some (return, bs)
operands op_load bs = then_read load (read_u8 bs)
operands op_store bs = then_read store (read_u8 bs)
operands op_dup bs = some (dup, bs)
operands op_pop bs = some (pop, bs)
operands op_swap bs = some (swap, bs)
operands op_pushint bs = then_read pushint (read_i64be bs)
operands op_pushstr bs = then_read (λ p. pushstr p.0 p.1) (and_u32 (read_u32be bs))
operands op_pushtrue bs = some (pushtrue, bs)
operands op_pushfalse bs = some (pushfalse, bs)
operands op_makecls bs = then_read makecls (read_u32be bs)
operands op_callval bs = then_read callval (read_u8 bs)
operands op_bind bs = some (bind, bs)
operands op_chktuple bs = then_read chktuple (read_u16be bs)
operands op_tupleget bs = then_read tupleget (read_u16be bs)
operands op_maketuple bs = then_read maketuple (read_u16be bs)
operands op_makelist bs = then_read makelist (read_u16be bs)
operands op_chknil bs = some (chknil, bs)
operands op_chkcons bs = some (chkcons, bs)
operands op_uncons bs = some (uncons, bs)
operands op_concat bs = some (concat, bs)
operands op_eq bs = some (eq, bs)
operands op_loadext bs = some (loadext, bs)
operands op_yield bs = some (yield, bs)
operands op_halt bs = some (halt, bs)

abbrev pub all_opcodes : List Opcode
all_opcodes =
    op_jump ∷ op_jumpif ∷ op_jumpifn ∷ op_call ∷ op_return ∷ op_load ∷ op_store ∷ op_dup ∷ op_pop
    ∷ op_swap ∷ op_pushint ∷ op_pushstr ∷ op_pushtrue ∷ op_pushfalse ∷ op_makecls ∷ op_callval
    ∷ op_bind ∷ op_chktuple ∷ op_tupleget ∷ op_maketuple ∷ op_makelist ∷ op_chknil ∷ op_chkcons
    ∷ op_uncons ∷ op_concat ∷ op_eq ∷ op_loadext ∷ op_yield ∷ op_halt ∷ []

-- The case of a switch on an opcode's byte; `none` is the default.
unfoldable pub find_opcode : List Opcode → ℕ → Option Opcode
find_opcode [] byte = none
find_opcode (op ∷ ops) byte = if opcode_byte op == byte then some op else find_opcode ops byte

-- `none` is an unsupported opcode, or a read past the end.
unfoldable pub fetch : List ℕ → Option (Instr × List ℕ)
unfolding operands find_opcode
fetch [] = none
fetch (byte ∷ bs) = elim (find_opcode all_opcodes byte) [ none ↦ none | some op ↦ operands op bs ]
