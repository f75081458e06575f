-- ===== src/Bytecode/Jumps.antt =====
-- Jumps of lib/bytecode.c, and the address that is put into them later.
use chammer.Prelude.{
  ℕ, ◌^◌, ◌<◌, ◌≡◌, refl, ◌∙◌, sym, some, List, [], ◌∷◌, ◌++◌, arith, length, append_assoc,
}
use chammer.Prelude.Int.{ℤ, IsSigned}
use chammer.Buffer.{Buffer, buffer_putc}
use chammer.Buffer.{write_at}
use chammer.Buffer.Laws.{write_at_middle}
use chammer.Bytes.{write_i16be}
use chammer.Bytecode.{
  Opcode, op_jump, op_jumpif, op_jumpifn, opcode_byte, Instr, jump, jumpif, jumpifn,
  addr_placeholder, fetch, bytecode_put_jump,
}
use chammer.Bytecode.Format.{encode, fetch-encode, put_i16be-bytes, putc-bytes}

-- The three jumps by their opcode.
abbrev pub jump_of : Opcode → ℤ → Instr
jump_of op_jump = jump
jump_of op_jumpif = jumpif
jump_of _ = jumpifn

abbrev pub IsJump : Opcode → Type 0
IsJump op_jump = Unit {0}
IsJump op_jumpif = Unit {0}
IsJump op_jumpifn = Unit {0}
IsJump _ = ⊥

encode-jump_of :
    (op : Opcode) (rel : ℤ) → IsJump op → encode (jump_of op rel) ≡ opcode_byte op ∷ write_i16be rel
unfolding encode
encode-jump_of op_jump rel j = refl
encode-jump_of op_jumpif rel j = refl
encode-jump_of op_jumpifn rel j = refl
encode-jump_of _ rel j = elim j [ ]

-- A jump is fetched with its address.
pub fetch-jump :
    (op : Opcode) (rel : ℤ) (rest : List ℕ)
    → IsJump op
    → IsSigned (2 ^ 16) rel
    → fetch ((opcode_byte op ∷ write_i16be rel) ++ rest) ≡ some (jump_of op rel, rest)
unfolding encode
fetch-jump op_jump rel rest j h = fetch-encode (jump rel) rest h
fetch-jump op_jumpif rel rest j h = fetch-encode (jumpif rel) rest h
fetch-jump op_jumpifn rel rest j h = fetch-encode (jumpifn rel) rest h
fetch-jump _ rel rest j h = elim j [ ]

pub length-write_i16be : (v : ℤ) → length (write_i16be v) ≡ 2
unfolding write_i16be
length-write_i16be v = refl

pub opcode_byte-lt : (op : Opcode) → opcode_byte op < 256
opcode_byte-lt op_jump = omega arith
opcode_byte-lt _ = omega arith

patched :
    (b : Buffer) (op : Opcode) (rel : ℤ) (later : List ℕ)
    → IsJump op
    → write_at
        (bytecode_put_jump b op).0
        (write_i16be rel)
        ((bytecode_put_jump b op).1.bytes ++ later)
      ≡ b.bytes ++ (encode (jump_of op rel) ++ later)
unfolding bytecode_put_jump
patched b op rel later j =
    let b' = buffer_putc b (opcode_byte op) in
    rw (
      put_i16be-bytes b' addr_placeholder,
      append_assoc b'.bytes (write_i16be addr_placeholder) later,
      write_at_middle b'.bytes (write_i16be rel) (write_i16be addr_placeholder) later
          (length-write_i16be addr_placeholder ∙ sym (length-write_i16be rel)),
      encode-jump_of op rel j,
      putc-bytes b (opcode_byte op) (opcode_byte-lt op),
      append_assoc b.bytes (opcode_byte op ∷ []) (write_i16be rel ++ later),
    )

-- A relative address that is written over the placeholder, at the offset that
-- `bytecode_put_jump` gave out and after any further bytes, turns the jump into one by that
-- address, and leaves what stands before and behind it.
pub fetch-patched_jump :
    (b : Buffer) (op : Opcode) (rel : ℤ) (later : List ℕ)
    → IsJump op
    → IsSigned (2 ^ 16) rel
    → (w : List ℕ) × (write_at
          (bytecode_put_jump b op).0
          (write_i16be rel)
          ((bytecode_put_jump b op).1.bytes ++ later)
        ≡ b.bytes ++ (w ++ later))
      × (fetch (w ++ later) ≡ some (jump_of op rel, later))
fetch-patched_jump b op_jump rel later j h =
    (encode (jump rel), patched b op_jump rel later tt, fetch-encode (jump rel) later h)
fetch-patched_jump b op_jumpif rel later j h =
    (encode (jumpif rel), patched b op_jumpif rel later tt, fetch-encode (jumpif rel) later h)
fetch-patched_jump b op_jumpifn rel later j h =
    (encode (jumpifn rel), patched b op_jumpifn rel later tt, fetch-encode (jumpifn rel) later h)
fetch-patched_jump b _ rel later j h = elim j [ ]
