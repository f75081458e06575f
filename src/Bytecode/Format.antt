-- ===== src/Bytecode/Format.antt =====
-- What the compiler appends for an instruction is what the machine reads.
use chammer.Prelude.{
  ℕ, ◌^◌, ◌<◌, ◌≡◌, refl, ap, ◌∙◌, some, List, [], ◌∷◌, ◌++◌, arith, IsByte, IsU16, IsU32,
  append_assoc,
}
use chammer.Prelude.Int.{ℤ, negsuc, IsSigned}
use chammer.Buffer.{Buffer, buffer_putc}
use chammer.Bytes.{
  read_u32be, write_u16be, write_u32be, write_i16be, write_i64be, buffer_put_u16be,
  buffer_put_u32be, buffer_put_i16be, buffer_put_i64be,
}
use chammer.Bytes.RoundTrip.{
  read_u16be-write, read_u32be-write, read_i16be-write, read_i64be-write, put_word-bytes,
}
use chammer.Bytecode.{
  op_jump, op_jumpif, op_jumpifn, Instr, jump, jumpif, jumpifn, call, return, load, store, dup, pop,
  swap, pushint, pushstr, pushtrue, pushfalse, makecls, callval, bind, chktuple, tupleget,
  maketuple, makelist, chknil, chkcons, uncons, concat, eq, loadext, yield, halt, fetch,
  bytecode_put_jump, bytecode_put_call, bytecode_put_load, bytecode_put_store, bytecode_put_pushint,
  bytecode_put_pushstr, bytecode_put_makecls, bytecode_put_callval, bytecode_put_chktuple,
  bytecode_put_tupleget, bytecode_put_maketuple, bytecode_put_makelist, then_read, and_u32,
}

-- The operands are values of their C types.
abbrev pub OperandsFit : Instr → Type 0
OperandsFit (jump a) = IsSigned (2 ^ 16) a
OperandsFit (jumpif a) = IsSigned (2 ^ 16) a
OperandsFit (jumpifn a) = IsSigned (2 ^ 16) a
OperandsFit (call f) = IsU32 f
OperandsFit (load i) = IsByte i
OperandsFit (store i) = IsByte i
OperandsFit (pushint v) = IsSigned (2 ^ 64) v
OperandsFit (pushstr o l) = IsU32 o × IsU32 l
OperandsFit (makecls f) = IsU32 f
OperandsFit (callval n) = IsByte n
OperandsFit (chktuple n) = IsU16 n
OperandsFit (tupleget n) = IsU16 n
OperandsFit (maketuple n) = IsU16 n
OperandsFit (makelist n) = IsU16 n
OperandsFit _ = Unit {0}

-- The bytes of an instruction.
unfoldable pub encode : Instr → List ℕ
encode (jump a) = 0x01 ∷ write_i16be a
encode (jumpif a) = 0x02 ∷ write_i16be a
encode (jumpifn a) = 0x03 ∷ write_i16be a
encode (call f) = 0x04 ∷ write_u32be f
encode return = 0x05 ∷ []
encode (load i) = 0x10 ∷ i ∷ []
encode (store i) = 0x11 ∷ i ∷ []
encode dup = 0x12 ∷ []
encode pop = 0x13 ∷ []
encode swap = 0x14 ∷ []
encode (pushint v) = 0x20 ∷ write_i64be v
encode (pushstr o l) = 0x21 ∷ (write_u32be o ++ write_u32be l)
encode pushtrue = 0x22 ∷ []
encode pushfalse = 0x23 ∷ []
encode (makecls f) = 0x30 ∷ write_u32be f
encode (callval n) = 0x31 ∷ n ∷ []
encode bind = 0x32 ∷ []
encode (chktuple n) = 0x50 ∷ write_u16be n
encode (tupleget n) = 0x51 ∷ write_u16be n
encode (maketuple n) = 0x52 ∷ write_u16be n
encode (makelist n) = 0x53 ∷ write_u16be n
encode chknil = 0x54 ∷ []
encode chkcons = 0x55 ∷ []
encode uncons = 0x56 ∷ []
encode concat = 0x57 ∷ []
encode eq = 0x58 ∷ []
encode loadext = 0x80 ∷ []
encode yield = 0xf0 ∷ []
encode halt = 0xff ∷ []

two_u32-write :
    (o l : ℕ) (rest : List ℕ)
    → IsU32 o × IsU32 l
    → and_u32 (read_u32be ((write_u32be o ++ write_u32be l) ++ rest)) ≡ some ((o, l), rest)
two_u32-write o l rest h =
    rw (append_assoc, read_u32be-write o (write_u32be l ++ rest) h.0, read_u32be-write l rest h.1)

-- An instruction is read back from its bytes, whatever follows them.
pub fetch-encode :
    (i : Instr) (rest : List ℕ) → OperandsFit i → fetch (encode i ++ rest) ≡ some (i, rest)
unfolding fetch encode
fetch-encode (jump a) rest h = rw (read_i16be-write a rest h)
fetch-encode (jumpif a) rest h = rw (read_i16be-write a rest h)
fetch-encode (jumpifn a) rest h = rw (read_i16be-write a rest h)
fetch-encode (call f) rest h = rw (read_u32be-write f rest h)
fetch-encode (pushint v) rest h = rw (read_i64be-write v rest h)
fetch-encode (pushstr o l) rest h = ap (then_read (λ p. pushstr p.0 p.1)) (two_u32-write o l rest h)
fetch-encode (makecls f) rest h = rw (read_u32be-write f rest h)
fetch-encode (chktuple n) rest h = rw (read_u16be-write n rest h)
fetch-encode (tupleget n) rest h = rw (read_u16be-write n rest h)
fetch-encode (maketuple n) rest h = rw (read_u16be-write n rest h)
fetch-encode (makelist n) rest h = rw (read_u16be-write n rest h)
fetch-encode _ rest h = refl

-- The function that the compiler calls for an instruction; the compiler appends an instruction
-- with no operands by `buffer_putc`, and a jump by `bytecode_put_jump` and a later patch.
abbrev pub emit : Buffer → Instr → Buffer
emit b (call f) = bytecode_put_call b f
emit b (load i) = bytecode_put_load b i
emit b (store i) = bytecode_put_store b i
emit b (pushint v) = bytecode_put_pushint b v
emit b (pushstr o l) = bytecode_put_pushstr b o l
emit b (makecls f) = bytecode_put_makecls b f
emit b (callval n) = bytecode_put_callval b n
emit b (chktuple n) = bytecode_put_chktuple b n
emit b (tupleget n) = bytecode_put_tupleget b n
emit b (maketuple n) = bytecode_put_maketuple b n
emit b (makelist n) = bytecode_put_makelist b n
emit b (jump a) = (bytecode_put_jump b op_jump).1
emit b (jumpif a) = (bytecode_put_jump b op_jumpif).1
emit b (jumpifn a) = (bytecode_put_jump b op_jumpifn).1
emit b return = buffer_putc b 0x05
emit b dup = buffer_putc b 0x12
emit b pop = buffer_putc b 0x13
emit b swap = buffer_putc b 0x14
emit b pushtrue = buffer_putc b 0x22
emit b pushfalse = buffer_putc b 0x23
emit b bind = buffer_putc b 0x32
emit b chknil = buffer_putc b 0x54
emit b chkcons = buffer_putc b 0x55
emit b uncons = buffer_putc b 0x56
emit b concat = buffer_putc b 0x57
emit b eq = buffer_putc b 0x58
emit b loadext = buffer_putc b 0x80
emit b yield = buffer_putc b 0xf0
emit b halt = buffer_putc b 0xff

-- A jump is emitted with the placeholder.
abbrev pub placed : Instr → Instr
placed (jump a) = jump (negsuc 0)
placed (jumpif a) = jumpif (negsuc 0)
placed (jumpifn a) = jumpifn (negsuc 0)
placed i = i

module _ (b : Buffer) where
  pub putc-bytes : (c : ℕ) → c < 256 → (buffer_putc b c).bytes ≡ b.bytes ++ c ∷ []
  unfolding buffer_putc
  putc-bytes c h = ap (λ (x : ℕ). b.bytes ++ x ∷ []) (omega arith)

  put_u16be-bytes : (v : ℕ) → (buffer_put_u16be b v).bytes ≡ b.bytes ++ write_u16be v
  unfolding buffer_put_u16be
  put_u16be-bytes v = put_word-bytes b 2 (write_u16be v) refl

  put_u32be-bytes : (v : ℕ) → (buffer_put_u32be b v).bytes ≡ b.bytes ++ write_u32be v
  unfolding buffer_put_u32be
  put_u32be-bytes v = put_word-bytes b 4 (write_u32be v) refl

  pub put_i16be-bytes : (v : ℤ) → (buffer_put_i16be b v).bytes ≡ b.bytes ++ write_i16be v
  unfolding buffer_put_i16be
  put_i16be-bytes v = put_word-bytes b 2 (write_i16be v) refl

  put_i64be-bytes : (v : ℤ) → (buffer_put_i64be b v).bytes ≡ b.bytes ++ write_i64be v
  unfolding buffer_put_i64be
  put_i64be-bytes v = put_word-bytes b 8 (write_i64be v) refl

  -- A word behind an opcode.
  word_behind :
      (out : List ℕ) (op : ℕ) (word : List ℕ)
      → out ≡ (buffer_putc b op).bytes ++ word
      → op < 256
      → out ≡ b.bytes ++ op ∷ word
  word_behind out op word e h = rw (e, putc-bytes op h) (append_assoc b.bytes (op ∷ []) word)

emit-bytes :
    (b : Buffer) (i : Instr) → OperandsFit i → (emit b i).bytes ≡ b.bytes ++ encode (placed i)
unfolding encode bytecode_put_jump bytecode_put_call bytecode_put_load bytecode_put_store
    bytecode_put_pushint bytecode_put_pushstr bytecode_put_makecls bytecode_put_callval
    bytecode_put_chktuple bytecode_put_tupleget bytecode_put_maketuple bytecode_put_makelist
emit-bytes b (jump a) h =
    word_behind b _ 0x01 _ (put_i16be-bytes (buffer_putc b 0x01) _) (omega arith)
emit-bytes b (jumpif a) h =
    word_behind b _ 0x02 _ (put_i16be-bytes (buffer_putc b 0x02) _) (omega arith)
emit-bytes b (jumpifn a) h =
    word_behind b _ 0x03 _ (put_i16be-bytes (buffer_putc b 0x03) _) (omega arith)
emit-bytes b (call f) h =
    word_behind b _ 0x04 _ (put_u32be-bytes (buffer_putc b 0x04) f) (omega arith)
emit-bytes b (load i) h =
    word_behind b _ 0x10 (i ∷ []) (putc-bytes (buffer_putc b 0x10) i h) (omega arith)
emit-bytes b (store i) h =
    word_behind b _ 0x11 (i ∷ []) (putc-bytes (buffer_putc b 0x11) i h) (omega arith)
emit-bytes b (pushint v) h =
    word_behind b _ 0x20 _ (put_i64be-bytes (buffer_putc b 0x20) v) (omega arith)
emit-bytes b (pushstr o l) h =
    word_behind b _ 0x21 _
      (put_u32be-bytes (buffer_put_u32be (buffer_putc b 0x21) o) l
        ∙ ap (λ (w : List ℕ). w ++ write_u32be l) (put_u32be-bytes (buffer_putc b 0x21) o)
        ∙ append_assoc _ (write_u32be o) (write_u32be l))
      (omega arith)
emit-bytes b (makecls f) h =
    word_behind b _ 0x30 _ (put_u32be-bytes (buffer_putc b 0x30) f) (omega arith)
emit-bytes b (callval n) h =
    word_behind b _ 0x31 (n ∷ []) (putc-bytes (buffer_putc b 0x31) n h) (omega arith)
emit-bytes b (chktuple n) h =
    word_behind b _ 0x50 _ (put_u16be-bytes (buffer_putc b 0x50) n) (omega arith)
emit-bytes b (tupleget n) h =
    word_behind b _ 0x51 _ (put_u16be-bytes (buffer_putc b 0x51) n) (omega arith)
emit-bytes b (maketuple n) h =
    word_behind b _ 0x52 _ (put_u16be-bytes (buffer_putc b 0x52) n) (omega arith)
emit-bytes b (makelist n) h =
    word_behind b _ 0x53 _ (put_u16be-bytes (buffer_putc b 0x53) n) (omega arith)
emit-bytes b return h = putc-bytes b _ (omega arith)
emit-bytes b dup h = putc-bytes b _ (omega arith)
emit-bytes b pop h = putc-bytes b _ (omega arith)
emit-bytes b swap h = putc-bytes b _ (omega arith)
emit-bytes b pushtrue h = putc-bytes b _ (omega arith)
emit-bytes b pushfalse h = putc-bytes b _ (omega arith)
emit-bytes b bind h = putc-bytes b _ (omega arith)
emit-bytes b chknil h = putc-bytes b _ (omega arith)
emit-bytes b chkcons h = putc-bytes b _ (omega arith)
emit-bytes b uncons h = putc-bytes b _ (omega arith)
emit-bytes b concat h = putc-bytes b _ (omega arith)
emit-bytes b eq h = putc-bytes b _ (omega arith)
emit-bytes b loadext h = putc-bytes b _ (omega arith)
emit-bytes b yield h = putc-bytes b _ (omega arith)
emit-bytes b halt h = putc-bytes b _ (omega arith)

placed-OperandsFit : (i : Instr) → OperandsFit i → OperandsFit (placed i)
placed-OperandsFit (jump a) h = omega arith
placed-OperandsFit (jumpif a) h = omega arith
placed-OperandsFit (jumpifn a) h = omega arith
placed-OperandsFit _ h = h

-- The bytes that the emitting function of an instruction appends to a buffer are fetched as that
-- instruction, a jump as one to the placeholder, with what follows left unread.
pub fetch-emit :
    (b : Buffer) (i : Instr) (rest : List ℕ)
    → OperandsFit i
    → (w : List ℕ) × ((emit b i).bytes ≡ b.bytes ++ w) × (fetch (w ++ rest) ≡ some (placed i, rest))
fetch-emit b i rest h =
    (encode (placed i), emit-bytes b i h, fetch-encode (placed i) rest (placed-OperandsFit i h))
