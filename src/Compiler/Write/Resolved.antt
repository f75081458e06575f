-- ===== src/Compiler/Write/Resolved.antt =====
-- Jumps of lib/compiler.c that are resolved, and where they stand in the code of all blocks.
use chammer.Prelude.{
  ℕ, suc, ◌+◌, ◌≡◌, refl, ap, sym, ◌∙◌, inl, inr, ◌==◌, Bool-cases, some, List, [], ◌∷◌, ◌++◌,
  length, All, arith,
}
use chammer.Prelude.Int.{ℤ}
use mathlib.Core.Path.{subst}
use chammer.Buffer.{Buffer}
use chammer.Buffer.Reads.{Reads, Reads-append, Reads-prepend}
use chammer.Bytes.{write_i16be}
use chammer.Bytecode.{Opcode, addr_placeholder, opcode_byte}
use chammer.Bytecode.Jumps.{length-write_i16be}
use chammer.Compiler.Blocks.{Block, Jump, block_code}
use chammer.Compiler.Blocks.Linked.{Placed, Behind, Apart, All_mono, length-change}
use chammer.Compiler.Write.{offset_of, resolve_jumps}
use chammer.Compiler.Write.Accepted.{code_of}
use chammer.Compiler.Write.Patches.{
  Stands, Fits, Fits-same, SameOffsets, Settled, Clear, patched_blocks, resolve_jump-some,
  resolve_jump-SameOffsets, resolve_jump-Stands, resolve_jump-Settled, distance-same, patch,
}

-- The opcode and the address of a jump are clear of the jumps that come later, and of those before.
Behind-Clear :
    (j k : Jump) (w : List ℕ)
    → length w ≡ 3
    → k.addr_offset ≡ suc k.origin_offset
    → Behind j k
    → Clear k j.origin j.origin_offset w
Behind-Clear j k w three at behind same = inl (omega (arith, behind same, at, three))

Clear-Behind :
    (j k : Jump) (w : List ℕ)
    → j.addr_offset ≡ suc j.origin_offset
    → Behind j k
    → Clear j k.origin k.origin_offset w
Clear-Behind j k w at behind same = inr (omega (arith, behind (sym same), at))

jump_bytes : (op : Opcode) (v : ℤ) → length (opcode_byte op ∷ write_i16be v) ≡ 3
jump_bytes op v = omega (arith, length-write_i16be v)

Placed-kept :
    (j k : Jump) (bs : List Block) (p : Placed bs j) (f : Fits bs j)
    → Behind j k
    → Placed bs k
    → Placed (patched_blocks j bs p f) k
Placed-kept j k bs p f behind q =
    let w = opcode_byte q.op ∷ write_i16be addr_placeholder in
    let s =
      resolve_jump-Stands j bs p f k.origin k.origin_offset w
        (Clear-Behind j k w p.behind_op behind)
        (record { code = q.code; found = q.at_origin; reads = q.reads }) in
    let same = length-change (patch j bs p f) j.origin bs in
    record {
      target_in = omega (arith, same, q.target_in);
      origin_in = omega (arith, same, q.origin_in);
      op = q.op;
      code = s.code;
      is_jump = q.is_jump;
      at_origin = s.found;
      reads = s.reads;
      behind_op = q.behind_op;
    }

-- What becomes of blocks whose jumps are resolved.
pub record ResolvedJumps (js : List Jump) (bs : List Block) : Type 0 where
  pub blocks : List Block
  pub resolves : resolve_jumps js bs ≡ some blocks
  pub offsets : SameOffsets bs blocks
  pub settled : All (Settled blocks) js
  pub kept :
      (id off : ℕ) (w : List ℕ)
      → All (λ j. Clear j id off w) js
      → Stands bs id off w
      → Stands blocks id off w

All_map₂ :
    (P Q R : Jump → Type 0) (js : List Jump)
    → ((j : Jump) → P j → Q j → R j)
    → All P js
    → All Q js
    → All R js
All_map₂ P Q R [] h ps qs = tt
All_map₂ P Q R (j ∷ js) h (p, ps) (q, qs) = (h j p q, All_map₂ P Q R js h ps qs)

pub resolve_jumps-ResolvedJumps :
    (js : List Jump) (bs : List Block)
    → All (Placed bs) js
    → Apart js
    → All (Fits bs) js
    → ResolvedJumps js bs
unfolding resolve_jumps
resolve_jumps-ResolvedJumps [] bs placed apart fits = record {
  blocks = bs;
  resolves = refl;
  offsets = λ at id. refl;
  settled = tt;
  kept = λ id off w clear s. s;
}
resolve_jumps-ResolvedJumps (j ∷ js) bs (p, placed) (behind, apart) (f, fits) =
    let bs₁ = patched_blocks j bs p f in
    let same = resolve_jump-SameOffsets j bs p f in
    let r =
      resolve_jumps-ResolvedJumps js bs₁
        (All_map₂ (Behind j) (Placed bs) (Placed bs₁) js (λ k. Placed-kept j k bs p f) behind
          placed)
        apart (All_mono (Fits bs) (Fits bs₁) js (λ k. Fits-same bs bs₁ k same) fits) in
    let s = resolve_jump-Settled j bs p f in
    let w = opcode_byte s.op ∷ write_i16be s.rel in
    let clear =
      All_map₂ (Behind j) (Placed bs) (λ k. Clear k j.origin j.origin_offset w) js
        (λ k b q. Behind-Clear j k w (jump_bytes s.op s.rel) q.behind_op b) behind placed in
    record {
      blocks = r.blocks;
      resolves = rw (resolve_jump-some j bs p f) r.resolves;
      offsets = λ at id. r.offsets at id ∙ same at id;
      settled = (
        record {
          op = s.op;
          is_jump = s.is_jump;
          rel = s.rel;
          is_distance = distance-same bs₁ r.blocks j r.offsets ∙ s.is_distance;
          in_range = s.in_range;
          stands = r.kept j.origin j.origin_offset w clear s.stands;
        },
        r.settled,
      );
      kept =
          λ id off w' (c, cs) x. r.kept id off w' cs (resolve_jump-Stands j bs p f id off w' c x);
    }

-- What stands in a block stands in the whole code, from where the block begins.
pub code_of-Reads :
    (bs : List Block) (id off : ℕ) (w : List ℕ)
    → Stands bs id off w
    → (begin_ : ℕ) × ((at : ℕ) → offset_of at id bs ≡ some (at + begin_))
      × Reads (code_of bs) (begin_ + off) w
unfolding code_of block_code offset_of
code_of-Reads [] id off w s = absurd (cc (s.found))
code_of-Reads (b ∷ bs) id off w s = elim (Bool-cases (b.id == id)) [
  | inl here ↦
      let found : s.code ≡ b.bytecode = ground (arith, here, s.found) in
      let in_block : Reads b.bytecode.bytes off w =
        subst (λ (c : Buffer). Reads c.bytes off w) found s.reads in
      (
        0,
        λ at. rw here (ap some (omega arith)),
        subst (λ (i : ℕ). Reads (b.bytecode.bytes ++ code_of bs) i w) (omega arith)
            (Reads-append b.bytecode.bytes (code_of bs) off w in_block),
      )
  | inr later ↦
      let s' : Stands bs id off w = record {
        code = s.code;
        found = ground (arith, later, s.found);
        reads = s.reads;
      } in
      let (begin_, offsets, reads) = code_of-Reads bs id off w s' in
      let len = length b.bytecode.bytes in
      (
        len + begin_,
        λ at. rw later (offsets (at + len) ∙ ap some (omega arith)),
        subst (λ (i : ℕ). Reads (b.bytecode.bytes ++ code_of bs) i w) (omega arith)
            (Reads-prepend b.bytecode.bytes (code_of bs) (begin_ + off) w reads),
      )
]
