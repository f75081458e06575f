-- ===== src/Compiler/Blocks/Steps.antt =====
-- The changes that lib/compiler.c makes to blocks, jumps and functions keep them linked.
use chammer.Prelude.{
  ℕ, suc, ◌<◌, ◌≡◌, refl, ap, ◌∙◌, sym, Option, none, some, List, [], ◌∷◌, ◌++◌, length,
  length-append, append_assoc, ◌%◌, All, All-append, arith,
}
use mathlib.Core.Path.{subst}
use native.Mathlib.Decide.{ℕ_discrete}
use chammer.Buffer.{Buffer, buffer_putc}
use chammer.Buffer.Reads.{Reads, Reads-end, Reads-within}
use chammer.Bytes.{write_i16be, buffer_put_i16be}
use chammer.Bytes.RoundTrip.{put_word-bytes}
use chammer.Bytecode.{Opcode, opcode_byte, addr_placeholder, bytecode_put_jump}
use chammer.Bytecode.Jumps.{IsJump, opcode_byte-lt}
use chammer.Compiler.Blocks.Appends.{Appends, AppendsIf}
use chammer.Compiler.Blocks.Post.{Post, post, bind-Post, any-Post}
use chammer.Bytes.{checked_u32}
use chammer.Compiler.Scopes.{Scope}
use chammer.StringMap.{Entry, StringPool, string_pool_intern, symbol_string}
use chammer.Compiler.Blocks.{
  push_func, name_entry, Block, Jump, Func, Compiler, block_init, ◌>>?◌, link_after,
  insert_block_after, change_block, block_code, emit_in, try_emit_in, put_jump,
}
use chammer.Compiler.Blocks.Linked.{
  Has, Placed, Behind, Apart, IsLinked, All_mono, change-Extends, link-Extends, Extends-numbered,
  extended-IsLinked, length-change, length-link, link-Has, code-change,
}

-- Linked as before, with as many blocks.
abbrev pub Alike : Compiler → Compiler → Type 0
Alike c c' = IsLinked c' × (length c'.blocks ≡ length c.blocks)

-- Code is appended to a block.
pub emit_in-IsLinked :
    (id : ℕ) (f : Buffer → Buffer) (c : Compiler)
    → Appends f
    → id < length c.blocks
    → IsLinked c
    → IsLinked (emit_in id f c)
unfolding emit_in
emit_in-IsLinked id f c appends lt l =
    let (b, e) = l.numbered id lt in
    let x = change-Extends f id c.blocks b e (appends b) in
    extended-IsLinked c (change_block id f c.blocks) x
      (Extends-numbered c.blocks _ x (length-change f id c.blocks) l.numbered) l

-- Also where the emitter may panic.
pub try_emit_in-IsLinked :
    (id : ℕ) (f : Buffer → Option Buffer) (c : Compiler)
    → AppendsIf f
    → IsLinked c
    → Post (Alike c) (try_emit_in id f c)
unfolding try_emit_in emit_in
try_emit_in-IsLinked id f c appends l = at_block (block_code id c.blocks) refl
  where
    at_block :
        (o : Option Buffer)
        → block_code id c.blocks ≡ o
        → Post (Alike c) (o >>? f >>? λ b. some (emit_in id (λ _. b) c))
    at_block none e = post tt
    at_block (some b) e = bind-Post (appends b) (λ b' begins.
        let x = change-Extends (λ _. b') id c.blocks b e begins in
        let same = length-change (λ _. b') id c.blocks in
        post (
          extended-IsLinked c (change_block id (λ _. b') c.blocks) x
              (Extends-numbered c.blocks (change_block id (λ _. b') c.blocks) x same l.numbered) l,
          same,
        ))

pub insert_block_after-IsLinked :
    (prev : ℕ) (c : Compiler)
    → prev < length c.blocks
    → IsLinked c
    → IsLinked (insert_block_after prev c).1
      × (length (insert_block_after prev c).1.blocks ≡ suc (length c.blocks))
unfolding insert_block_after block_init
insert_block_after-IsLinked prev c lt l =
    let new = block_init (length c.blocks) c.memory in
    let bs = link_after prev new c.blocks in
    let has = l.numbered prev lt in
    let x = link-Extends prev new c.blocks refl has in
    let numbered : (id : ℕ) → id < length bs → Has bs id = λ id h.
      elim (ℕ_discrete id (length c.blocks)) [
        | yes same ↦ subst (Has bs) (sym same) (link-Has prev new c.blocks has)
        | no differ ↦
            let (b, e) = l.numbered id (omega (arith, length-link prev new c.blocks has)) in
            let (b', e', begins) =
              x.kept id b (omega (arith, length-link prev new c.blocks has)) e in
            (b', e')
      ] in
    (extended-IsLinked c bs x numbered l, length-link prev new c.blocks has)

put_jump-bytes :
    (b : Buffer) (op : Opcode)
    → ((bytecode_put_jump b op).1.bytes
        ≡ b.bytes ++ (opcode_byte op ∷ write_i16be addr_placeholder))
      × ((bytecode_put_jump b op).0 ≡ suc (length b.bytes))
unfolding bytecode_put_jump buffer_putc buffer_put_i16be
put_jump-bytes b op =
    let byte : opcode_byte op % 256 ≡ opcode_byte op = omega (arith, opcode_byte-lt op) in
    let b₁ = buffer_putc b (opcode_byte op) in
    (
      put_word-bytes b₁ 2 (write_i16be addr_placeholder) refl
          ∙ rw byte (append_assoc b.bytes (opcode_byte op ∷ []) (write_i16be addr_placeholder)),
      omega (arith, length-append b.bytes ((opcode_byte op % 256) ∷ [])),
    )

put_jump-Placed :
    (op : Opcode) (origin target : ℕ) (c : Compiler) (b : Buffer)
    → IsJump op
    → origin < length c.blocks
    → target < length c.blocks
    → block_code origin c.blocks ≡ some b
    → Placed (change_block origin (λ _. (bytecode_put_jump b op).1) c.blocks) (record {
      origin = origin;
      target = target;
      addr_offset = (bytecode_put_jump b op).0;
      origin_offset = length b.bytes;
    })
put_jump-Placed op origin target c b j lt lt' e =
    let (same, at) = put_jump-bytes b op in
    let w = opcode_byte op ∷ write_i16be addr_placeholder in
    let count = length-change (λ _. (bytecode_put_jump b op).1) origin c.blocks in
    record {
      target_in = omega (arith, count);
      origin_in = omega (arith, count);
      op = op;
      code = (bytecode_put_jump b op).1;
      is_jump = j;
      at_origin = code-change (λ _. (bytecode_put_jump b op).1) origin c.blocks b e;
      reads = subst (λ (l : List ℕ). Reads l (length b.bytes) w) (sym same) (Reads-end b.bytes w);
      behind_op = at;
    }

-- A jump that stands in the block already ends within its code.
Placed-Behind :
    (bs : List Block) (j k : Jump) (b : Buffer)
    → block_code k.origin bs ≡ some b
    → k.origin_offset ≡ length b.bytes
    → Placed bs j
    → Behind j k
unfolding write_i16be
Placed-Behind bs j k b e at p same =
    let found : p.code ≡ b = cc (p.at_origin, same, e) in
    omega (
      arith,
      at,
      Reads-within p.code.bytes j.origin_offset (opcode_byte p.op) (write_i16be addr_placeholder)
          p.reads,
      ap (λ (x : Buffer). length x.bytes) found,
    )

Apart-append :
    (js : List Jump) (k : Jump) → Apart js → All (λ j. Behind j k) js → Apart (js ++ k ∷ [])
Apart-append [] k a all = (tt, tt)
Apart-append (j ∷ js) k (b, a) (x, all) =
    (All-append (Behind j) js (k ∷ []) b (x, tt), Apart-append js k a all)

pub put_jump-IsLinked :
    (op : Opcode) (origin target : ℕ) (c : Compiler)
    → IsJump op
    → origin < length c.blocks
    → target < length c.blocks
    → IsLinked c
    → Post (Alike c) (put_jump op origin target c)
unfolding put_jump emit_in
put_jump-IsLinked op origin target c j lt lt' l = at_block (block_code origin c.blocks) refl
  where
    at_block :
        (o : Option Buffer)
        → block_code origin c.blocks ≡ o
        → Post (Alike c) (
            o >>? λ code.
            let (addr_offset, code') = bytecode_put_jump code op in
            some (record (emit_in origin (λ _. code') c) {
              jumps =
                  c.jumps
                  ++ record {
                    origin = origin;
                    target = target;
                    addr_offset = addr_offset;
                    origin_offset = length code.bytes;
                  }
                    ∷ [];
            }))
    at_block none e = post tt
    at_block (some b) e =
        let (addr_offset, b') = bytecode_put_jump b op in
        let k : Jump = record {
          origin = origin;
          target = target;
          addr_offset = addr_offset;
          origin_offset = length b.bytes;
        } in
        let x =
          change-Extends (λ _. b') origin c.blocks b e
            (opcode_byte op ∷ write_i16be addr_placeholder, (put_jump-bytes b op).0) in
        let same = length-change (λ _. b') origin c.blocks in
        let bs = change_block origin (λ _. b') c.blocks in
        let l' = extended-IsLinked c bs x (Extends-numbered c.blocks bs x same l.numbered) l in
        post (
          record {
            numbered = l'.numbered;
            jumps_placed =
                All-append (Placed bs) c.jumps (k ∷ []) l'.jumps_placed
                  (put_jump-Placed op origin target c b j lt lt' e, tt);
            jumps_apart = Apart-append c.jumps k l.jumps_apart (
                All_mono (Placed c.blocks) (λ j. Behind j k) c.jumps
                  (λ j. Placed-Behind c.blocks j k b e refl) l.jumps_placed);
            funcs_begin = l'.funcs_begin;
          },
          same,
        )

-- The pools are no part of it.
pub pools-IsLinked :
    (c : Compiler) (string_buffer : Buffer) (strings idents : StringPool)
    → IsLinked c
    → IsLinked (record c { string_buffer = string_buffer; strings = strings; idents = idents })
pools-IsLinked c string_buffer strings idents l = record {
  numbered = l.numbered;
  jumps_placed = l.jumps_placed;
  jumps_apart = l.jumps_apart;
  funcs_begin = l.funcs_begin;
}

func-IsLinked :
    (f : Func) (fs : List Func) (c : Compiler)
    → c.funcs ≡ fs
    → f.start < length c.blocks
    → IsLinked c
    → IsLinked (record c { funcs = fs ++ f ∷ [] })
func-IsLinked f fs c same lt l = record {
  numbered = l.numbered;
  jumps_placed = l.jumps_placed;
  jumps_apart = l.jumps_apart;
  funcs_begin =
      All-append (λ g. g.start < length c.blocks) fs (f ∷ [])
        (subst (All (λ g. g.start < length c.blocks)) same l.funcs_begin) (lt, tt);
}

name_entry-Post :
    (name : Option (Entry Unit)) (c : Compiler)
    → IsLinked c
    → Post (λ r. Alike c r.1 × (r.1.funcs ≡ c.funcs)) (name_entry name c)
unfolding name_entry
name_entry-Post none c l = post ((l, refl), refl)
name_entry-Post (some name) c l =
    let (e, strings) = string_pool_intern c.strings (symbol_string c.idents name) in
    any-Post e (λ _. post ((pools-IsLinked c c.string_buffer strings c.idents l, refl), refl))

pub push_func-IsLinked :
    (start : ℕ) (s : Scope) (args type : ℕ) (name : Option (Entry Unit)) (c : Compiler)
    → start < length c.blocks
    → IsLinked c
    → Post (λ r. Alike c r.1) (push_func start s args type name c)
unfolding push_func
push_func-IsLinked start s args type name c lt l =
    bind-Post (name_entry-Post name c l) (λ (entry, c') ((l', count), same).
      any-Post (checked_u32 (length c.funcs))
        (λ index. post (func-IsLinked _ c.funcs c' same (omega (arith, count, lt)) l', count)))
