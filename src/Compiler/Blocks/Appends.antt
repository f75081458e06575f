-- ===== src/Compiler/Blocks/Appends.antt =====
-- The emitters of lib/bytecode.c append to a block's code, and change nothing of it.
use chammer.Prelude.{
  ℕ, ◌%◌, ◌≡◌, refl, ap, ◌∙◌, sym, Option, none, some, List, [], ◌∷◌, ◌++◌, append_assoc,
  append-nil,
}
use chammer.Prelude.Int.{ℤ}
use chammer.Buffer.{Buffer, buffer_putc}
use chammer.Bytes.{
  buffer_put_u16be, buffer_put_u32be, buffer_put_i64be, write_u16be, write_u32be, write_i64be,
}
use chammer.Bytes.RoundTrip.{put_word-bytes}
use chammer.Bytecode.{
  Opcode, opcode_byte, op_call, op_load, op_store, op_pushint, op_pushstr, op_makecls, op_callval,
  op_chktuple, op_tupleget, op_maketuple, op_makelist, bytecode_put_call, bytecode_put_load,
  bytecode_put_store, bytecode_put_pushint, bytecode_put_pushstr, bytecode_put_makecls,
  bytecode_put_callval, bytecode_put_chktuple, bytecode_put_tupleget, bytecode_put_maketuple,
  bytecode_put_makelist,
}
use chammer.Compiler.Scopes.{Scope, put_all, scope_get_local, put_load_captures, put_store_captures}
use chammer.Compiler.Blocks.{op_byte}
use chammer.Compiler.Blocks.Post.{Post, post, mono-Post}

-- `b` is a beginning of `b'`.
abbrev pub Begins : Buffer → Buffer → Type 0
Begins b b' = (tail : List ℕ) × (b'.bytes ≡ b.bytes ++ tail)

pub Begins_refl : (b : Buffer) → Begins b b
Begins_refl b = ([], sym (append-nil b.bytes))

pub Begins_trans : (b b' b'' : Buffer) → Begins b b' → Begins b' b'' → Begins b b''
Begins_trans b b' b'' (t, e) (t', e') =
    (t ++ t', e' ∙ ap (λ (l : List ℕ). l ++ t') e ∙ append_assoc b.bytes t t')

abbrev pub Appends : (Buffer → Buffer) → Type 0
Appends f = (b : Buffer) → Begins b (f b)

putc-Begins : (b : Buffer) (c : ℕ) → Begins b (buffer_putc b c)
unfolding buffer_putc
putc-Begins b c = (c % 256 ∷ [], refl)

module _ (b : Buffer) where
  put_u16be-Begins : (v : ℕ) → Begins b (buffer_put_u16be b v)
  unfolding buffer_put_u16be
  put_u16be-Begins v = (write_u16be v, put_word-bytes b 2 (write_u16be v) refl)

  put_u32be-Begins : (v : ℕ) → Begins b (buffer_put_u32be b v)
  unfolding buffer_put_u32be
  put_u32be-Begins v = (write_u32be v, put_word-bytes b 4 (write_u32be v) refl)

  put_i64be-Begins : (v : ℤ) → Begins b (buffer_put_i64be b v)
  unfolding buffer_put_i64be
  put_i64be-Begins v = (write_i64be v, put_word-bytes b 8 (write_i64be v) refl)

-- An operand behind an opcode.
module _ (op : Opcode) (b : Buffer) where
  abbrev with_op : Buffer
  with_op = buffer_putc b (opcode_byte op)

  behind : (b' : Buffer) → Begins with_op b' → Begins b b'
  behind b' = Begins_trans b with_op b' (putc-Begins b (opcode_byte op))

  byte_behind : (n : ℕ) → Begins b (buffer_putc with_op n)
  byte_behind n = behind (buffer_putc with_op n) (putc-Begins with_op n)

  u16_behind : (n : ℕ) → Begins b (buffer_put_u16be with_op n)
  u16_behind n = behind (buffer_put_u16be with_op n) (put_u16be-Begins with_op n)

  u32_behind : (n : ℕ) → Begins b (buffer_put_u32be with_op n)
  u32_behind n = behind (buffer_put_u32be with_op n) (put_u32be-Begins with_op n)

  i64_behind : (v : ℤ) → Begins b (buffer_put_i64be with_op v)
  i64_behind v = behind (buffer_put_i64be with_op v) (put_i64be-Begins with_op v)

pub op_byte-Appends : (op : Opcode) → Appends (op_byte op)
unfolding op_byte
op_byte-Appends op b = putc-Begins b (opcode_byte op)

pub put_call-Appends : (n : ℕ) → Appends (λ b. bytecode_put_call b n)
unfolding bytecode_put_call
put_call-Appends n b = u32_behind op_call b n

pub put_load-Appends : (n : ℕ) → Appends (λ b. bytecode_put_load b n)
unfolding bytecode_put_load
put_load-Appends n b = byte_behind op_load b n

pub put_store-Appends : (n : ℕ) → Appends (λ b. bytecode_put_store b n)
unfolding bytecode_put_store
put_store-Appends n b = byte_behind op_store b n

pub put_pushint-Appends : (v : ℤ) → Appends (λ b. bytecode_put_pushint b v)
unfolding bytecode_put_pushint
put_pushint-Appends v b = i64_behind op_pushint b v

pub put_pushstr-Appends : (offset len : ℕ) → Appends (λ b. bytecode_put_pushstr b offset len)
unfolding bytecode_put_pushstr
put_pushstr-Appends offset len b =
    let b₁ = buffer_put_u32be (buffer_putc b (opcode_byte op_pushstr)) offset in
    Begins_trans b b₁ (buffer_put_u32be b₁ len) (u32_behind op_pushstr b offset)
      (put_u32be-Begins b₁ len)

pub put_makecls-Appends : (n : ℕ) → Appends (λ b. bytecode_put_makecls b n)
unfolding bytecode_put_makecls
put_makecls-Appends n b = u32_behind op_makecls b n

pub put_callval-Appends : (n : ℕ) → Appends (λ b. bytecode_put_callval b n)
unfolding bytecode_put_callval
put_callval-Appends n b = byte_behind op_callval b n

pub put_chktuple-Appends : (n : ℕ) → Appends (λ b. bytecode_put_chktuple b n)
unfolding bytecode_put_chktuple
put_chktuple-Appends n b = u16_behind op_chktuple b n

pub put_tupleget-Appends : (n : ℕ) → Appends (λ b. bytecode_put_tupleget b n)
unfolding bytecode_put_tupleget
put_tupleget-Appends n b = u16_behind op_tupleget b n

pub put_maketuple-Appends : (n : ℕ) → Appends (λ b. bytecode_put_maketuple b n)
unfolding bytecode_put_maketuple
put_maketuple-Appends n b = u16_behind op_maketuple b n

pub put_makelist-Appends : (n : ℕ) → Appends (λ b. bytecode_put_makelist b n)
unfolding bytecode_put_makelist
put_makelist-Appends n b = u16_behind op_makelist b n

-- So does an emitter that may panic, when it does not.
abbrev pub AppendsIf : (Buffer → Option Buffer) → Type 0
AppendsIf f = (b : Buffer) → Post (Begins b) (f b)

put_all-AppendsIf :
    (put : Buffer → ℕ → Buffer) (s : Scope) (captures : List ℕ)
    → ((n : ℕ) → Appends (λ b. put b n))
    → AppendsIf (put_all put s captures)
unfolding put_all
put_all-AppendsIf put s [] h b = post (Begins_refl b)
put_all-AppendsIf put s (c ∷ cs) h b =
    let rest = λ (n : ℕ).
      mono-Post (put_all-AppendsIf put s cs h (put b n))
        (λ b' begins. Begins_trans b (put b n) b' (h n b) begins) in
    elim (scope_get_local s c)
      as (λ local.
        Post (Begins b) (elim local [ some n ↦ put_all put s cs (put b n) | none ↦ none ])) [
          | some n ↦ rest n
          | none ↦ post tt
        ]

pub put_store_captures-AppendsIf : (s : Scope) → AppendsIf (λ b. put_store_captures b s)
unfolding put_store_captures
put_store_captures-AppendsIf s = put_all-AppendsIf bytecode_put_store s _ put_store-Appends

pub put_load_captures-AppendsIf : (s outer : Scope) → AppendsIf (λ b. put_load_captures b s outer)
unfolding put_load_captures
put_load_captures-AppendsIf s outer =
    put_all-AppendsIf bytecode_put_load outer s.captures put_load-Appends
