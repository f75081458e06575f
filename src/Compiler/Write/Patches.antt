-- ===== src/Compiler/Write/Patches.antt =====
-- Resolving a jump changes its address and nothing else: the loop over jumps in
-- `compiler_write_program` of lib/compiler.c.
use chammer.Prelude.{
  ℕ, ◌+◌, ◌^◌, ◌≤◌, ◌≡◌, refl, sym, ◌∙◌, ◌⊎◌, inl, inr, ◌==◌, Bool-cases, Option, none, some, List,
  [], ◌∷◌, length, arith,
}
use chammer.Prelude.Int.{ℤ, pos, negsuc, ◌-ℤ◌, IsSigned}
use native.Mathlib.Decide.{ℕ_discrete}
use mathlib.Core.Path.{subst}
use chammer.Buffer.{Buffer, buffer_write, write_at}
use chammer.Buffer.Reads.{
  Reads, Reads-within, Reads-write_at, Reads-write_at_other, length-write_at,
}
use chammer.Bytes.{write_i16be, checked_i16}
use chammer.Bytecode.{Opcode, opcode_byte, addr_placeholder}
use chammer.Bytecode.Jumps.{IsJump, length-write_i16be}
use chammer.Compiler.Blocks.{Block, Jump, ◌>>?◌, change_block, block_code}
use chammer.Compiler.Blocks.Linked.{Placed, code-change, code-change_other}
use chammer.Compiler.Write.{offset_of, resolve_jump}

-- Bytes that stand in a block's code.
pub record Stands (bs : List Block) (id off : ℕ) (w : List ℕ) : Type 0 where
  pub code : Buffer
  pub found : block_code id bs ≡ some code
  pub reads : Reads code.bytes off w

-- How far a jump leads.
unfoldable pub distance : List Block → Jump → Option ℤ
distance bs j = offset_of 0 j.target bs >>? λ target.
    offset_of 0 j.origin bs >>? λ origin. some (pos target -ℤ pos origin -ℤ pos j.origin_offset)

-- The distance is a signed word of 16 bits.
pub record Fits (bs : List Block) (j : Jump) : Type 0 where
  pub rel : ℤ
  pub is_distance : distance bs j ≡ some rel
  pub in_range : IsSigned (2 ^ 16) rel

abbrev pub SameOffsets : List Block → List Block → Type 0
SameOffsets bs bs' = (at id : ℕ) → offset_of at id bs' ≡ offset_of at id bs

pub distance-same :
    (bs bs' : List Block) (j : Jump) → SameOffsets bs bs' → distance bs' j ≡ distance bs j
unfolding distance
distance-same bs bs' j same = rw (same 0 j.target, same 0 j.origin) refl

pub Fits-same : (bs bs' : List Block) (j : Jump) → SameOffsets bs bs' → Fits bs j → Fits bs' j
Fits-same bs bs' j same f = record {
  rel = f.rel;
  is_distance = distance-same bs bs' j same ∙ f.is_distance;
  in_range = f.in_range;
}

-- A jump whose address has been written.
pub record Settled (bs : List Block) (j : Jump) : Type 0 where
  pub op : Opcode
  pub is_jump : IsJump op
  pub rel : ℤ
  pub is_distance : distance bs j ≡ some rel
  pub in_range : IsSigned (2 ^ 16) rel
  pub stands : Stands bs j.origin j.origin_offset (opcode_byte op ∷ write_i16be rel)

-- A change that keeps a block's length moves no block.
change-SameOffsets :
    (f : Buffer → Buffer) (id : ℕ) (bs : List Block) (b : Buffer)
    → block_code id bs ≡ some b
    → length (f b).bytes ≡ length b.bytes
    → SameOffsets bs (change_block id f bs)
unfolding change_block block_code offset_of
change-SameOffsets f id [] b e same at other = refl
change-SameOffsets f id (x ∷ bs) b e same at other = elim (Bool-cases (x.id == id)) [
  | inl here ↦
      let found : x.bytecode ≡ b = ground (arith, here, e) in rw here (rw found (rw same refl))
  | inr later ↦ rw later (
      ground (
        arith,
        change-SameOffsets f id bs b (ground arith) same (at + length x.bytecode.bytes) other,
      ))
]

-- Outside the address.
abbrev pub Clear : Jump → ℕ → ℕ → List ℕ → Type 0
Clear j id off w = id ≡ j.origin → (off + length w ≤ j.addr_offset) ⊎ (j.addr_offset + 2 ≤ off)

checked_i16-some : (v : ℤ) → IsSigned (2 ^ 16) v → checked_i16 v ≡ some v
checked_i16-some (pos n) h = ground arith
checked_i16-some (negsuc n) h = ground arith

through :
    {B : Type 0} (t o : Option ℕ) (k : ℕ → ℕ → ℤ) (g : ℤ → Option B)
    → (t >>? λ target. o >>? λ origin. g (k target origin))
      ≡ ((t >>? λ target. o >>? λ origin. some (k target origin)) >>? g)
through none o k g = refl
through (some t) none k g = refl
through (some t) (some o) k g = refl

-- One jump is resolved.
module _ (j : Jump) (bs : List Block) (p : Placed bs j) (f : Fits bs j) where
  abbrev pub patch : Buffer → Buffer
  patch b = buffer_write b j.addr_offset (write_i16be f.rel)

  abbrev pub patched_blocks : List Block
  patched_blocks = change_block j.origin patch bs

  room : j.addr_offset + length (write_i16be f.rel) ≤ length p.code.bytes
  room = omega (
    arith,
    p.behind_op,
    length-write_i16be f.rel,
    length-write_i16be addr_placeholder,
    Reads-within p.code.bytes j.origin_offset (opcode_byte p.op) (write_i16be addr_placeholder)
        p.reads,
  )

  pub resolve_jump-some : resolve_jump j bs ≡ some patched_blocks
  unfolding resolve_jump distance
  resolve_jump-some =
      through (offset_of 0 j.target bs) (offset_of 0 j.origin bs)
        (λ target origin. pos target -ℤ pos origin -ℤ pos j.origin_offset)
        (λ d. checked_i16 d >>? λ addr.
          some (change_block j.origin (λ b. buffer_write b j.addr_offset (write_i16be addr)) bs))
      ∙ rw (f.is_distance, checked_i16-some f.rel f.in_range) refl

  pub resolve_jump-SameOffsets : SameOffsets bs patched_blocks
  unfolding buffer_write
  resolve_jump-SameOffsets =
      change-SameOffsets patch j.origin bs p.code p.at_origin
        (length-write_at j.addr_offset (write_i16be f.rel) p.code.bytes room)

  far :
      (off len : ℕ)
      → (off + len ≤ j.addr_offset) ⊎ (j.addr_offset + 2 ≤ off)
      → (off + len ≤ j.addr_offset) ⊎ (j.addr_offset + length (write_i16be f.rel) ≤ off)
  far off len (inl before) = inl before
  far off len (inr behind) = inr (omega (arith, behind, length-write_i16be f.rel))

  pub resolve_jump-Stands :
      (id off : ℕ) (w : List ℕ)
      → Clear j id off w
      → Stands bs id off w
      → Stands patched_blocks id off w
  unfolding buffer_write
  resolve_jump-Stands id off w clear s = elim (ℕ_discrete id j.origin) [
    | yes same ↦
        let found : p.code ≡ s.code = cc (p.at_origin, s.found, same) in
        let reads : Reads p.code.bytes off w =
          subst (λ (c : Buffer). Reads c.bytes off w) (sym found) s.reads in
        record {
          code = patch p.code;
          found = rw same (code-change patch j.origin bs p.code p.at_origin);
          reads =
              Reads-write_at_other j.addr_offset (write_i16be f.rel) p.code.bytes off w room
                (far off (length w) (clear same)) reads;
        }
    | no differ ↦ record {
      code = s.code;
      found = code-change_other patch j.origin bs id differ ∙ s.found;
      reads = s.reads;
    }
  ]

  pub resolve_jump-Settled : Settled patched_blocks j
  unfolding buffer_write
  resolve_jump-Settled = record {
    op = p.op;
    is_jump = p.is_jump;
    rel = f.rel;
    is_distance = distance-same bs patched_blocks j resolve_jump-SameOffsets ∙ f.is_distance;
    in_range = f.in_range;
    stands = record {
      code = patch p.code;
      found = code-change patch j.origin bs p.code p.at_origin;
      reads = (
        (Reads-write_at_other j.addr_offset (write_i16be f.rel) p.code.bytes j.origin_offset
            (opcode_byte p.op ∷ []) room (inl (omega (arith, p.behind_op))) (p.reads.0, tt)).0,
        subst
            (λ (at : ℕ).
              Reads (write_at j.addr_offset (write_i16be f.rel) p.code.bytes) at
                (write_i16be f.rel))
            p.behind_op (Reads-write_at j.addr_offset (write_i16be f.rel) p.code.bytes room),
      );
    };
  }
