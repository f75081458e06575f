-- ===== src/Compiler/Write/Landing.antt =====
-- Every jump of a written program leads to the block that it was made for.
use chammer.Prelude.{
  ℕ, ◌+◌, ◌<◌, ◌≡◌, refl, ap, sym, ◌∙◌, Option, none, some, List, [], ◌∷◌, length, drop, All, arith,
}
use chammer.Prelude.Int.{ℤ, pos, ◌-ℤ◌}
use mathlib.Core.Path.{subst}
use chammer.Buffer.Reads.{Reads-drop}
use chammer.Bytes.{write_i16be}
use chammer.Bytecode.{Opcode, opcode_byte, fetch}
use chammer.Bytecode.Jumps.{IsJump, jump_of, fetch-jump}
use chammer.Value.{ok}
use chammer.Machine.Step.{jump_target}
use chammer.Compiler.Blocks.{Block, Jump, Func, Compiler, compiler_init, ◌>>?◌}
use chammer.Compiler.Blocks.Linked.{Has, IsLinked, All_mono}
use chammer.Ast.{Node}
use chammer.Compiler.Blocks.Post.{Post, unless}
use chammer.Compiler.Visit.Program.{compiler_visit_program}
use chammer.Compiler.Visit.Links.Program.{compiler_visit_program-Post}
use chammer.Compiler.Write.{offset_of, resolve_jumps}
use chammer.Compiler.Write.Accepted.{code_of}
use chammer.Compiler.Write.Patches.{distance, Fits, SameOffsets, Settled}
use chammer.Compiler.Write.Resolved.{code_of-Reads, resolve_jumps-ResolvedJumps}

-- A jump of the code, where it is fetched, and where it leads: to the beginning of its target.
pub record Lands (bs : List Block) (j : Jump) : Type 0 where
  pub op : Opcode
  pub rel : ℤ
  pub rest : List ℕ
  pub jump_at : ℕ
  pub target_at : ℕ
  pub is_jump : IsJump op
  pub origin_begins :
      (at : ℕ) × (offset_of 0 j.origin bs ≡ some at) × (jump_at ≡ at + j.origin_offset)
  pub target_begins : offset_of 0 j.target bs ≡ some target_at
  pub fetched : fetch (drop jump_at (code_of bs)) ≡ some (jump_of op rel, rest)
  pub leads : jump_target jump_at rel ≡ ok target_at

jump_target-distance : (t o off : ℕ) → jump_target (o + off) (pos t -ℤ pos o -ℤ pos off) ≡ ok t
jump_target-distance t o off = ground arith

distance-some :
    (bs : List Block) (j : Jump) (rel : ℤ)
    → distance bs j ≡ some rel
    → (t o : ℕ) × (offset_of 0 j.target bs ≡ some t)
      × (offset_of 0 j.origin bs ≡ some o)
      × (pos t -ℤ pos o -ℤ pos j.origin_offset ≡ rel)
unfolding distance
distance-some bs j rel e = at (offset_of 0 j.target bs) (offset_of 0 j.origin bs) refl refl e
  where
    at :
        (t o : Option ℕ)
        → offset_of 0 j.target bs ≡ t
        → offset_of 0 j.origin bs ≡ o
        → (t >>? λ target. o >>? λ origin. some (pos target -ℤ pos origin -ℤ pos j.origin_offset))
          ≡ some rel
        → (t : ℕ) × (o : ℕ) × (offset_of 0 j.target bs ≡ some t)
          × (offset_of 0 j.origin bs ≡ some o)
          × (pos t -ℤ pos o -ℤ pos j.origin_offset ≡ rel)
    at none o p q e = absurd (cc)
    at (some t) none p q e = absurd (cc)
    at (some t) (some o) p q e = (t, o, p, q, cc)

some_eq : (a b : ℕ) → some a ≡ some b → a ≡ b
some_eq a b e = cc

Settled-Lands : (bs : List Block) (j : Jump) → Settled bs j → Lands bs j
Settled-Lands bs j s =
    let w = opcode_byte s.op ∷ write_i16be s.rel in
    let (begin_, offsets, reads) = code_of-Reads bs j.origin j.origin_offset w s.stands in
    let (rest, dropped) = Reads-drop (code_of bs) (begin_ + j.origin_offset) w reads in
    let (t, o, at_target, at_origin, far) = distance-some bs j s.rel s.is_distance in
    let same : o ≡ begin_ = omega (arith, some_eq o (0 + begin_) (sym at_origin ∙ offsets 0)) in
    record {
      op = s.op;
      rel = s.rel;
      rest = rest;
      jump_at = begin_ + j.origin_offset;
      target_at = t;
      is_jump = s.is_jump;
      origin_begins = (o, at_origin, ap (λ (x : ℕ). x + j.origin_offset) (sym same));
      target_begins = at_target;
      fetched = rw dropped (fetch-jump s.op s.rel rest s.is_jump s.in_range);
      leads =
          subst (λ (d : ℤ). jump_target (begin_ + j.origin_offset) d ≡ ok t) far
            (subst
              (λ (x : ℕ).
                jump_target (x + j.origin_offset) (pos t -ℤ pos o -ℤ pos j.origin_offset) ≡ ok t)
              same (jump_target-distance t o j.origin_offset));
    }

-- A function begins where its block does.
abbrev pub BeginsIn : List Block → Func → Type 0
BeginsIn bs f = (at : ℕ) × (offset_of 0 f.start bs ≡ some at)

func-begins :
    (bs bs' : List Block) (f : Func) → SameOffsets bs bs' → Has bs f.start → BeginsIn bs' f
func-begins bs bs' f same (b, e) =
    let (at, offsets, _) =
      code_of-Reads bs f.start 0 [] (record { code = b; found = e; reads = tt }) in
    (0 + at, same 0 f.start ∙ offsets 0)

resolve_jumps-Lands :
    (c : Compiler)
    → IsLinked c
    → All (Fits c.blocks) c.jumps
    → (bs : List Block) × (resolve_jumps c.jumps c.blocks ≡ some bs)
      × SameOffsets c.blocks bs
      × All (Lands bs) c.jumps
      × All (BeginsIn bs) c.funcs
resolve_jumps-Lands c l fits =
    let r = resolve_jumps-ResolvedJumps c.jumps c.blocks l.jumps_placed l.jumps_apart fits in
    (
      r.blocks,
      r.resolves,
      r.offsets,
      All_mono (Settled r.blocks) (Lands r.blocks) c.jumps (Settled-Lands r.blocks) r.settled,
      All_mono (λ f. f.start < length c.blocks) (BeginsIn r.blocks) c.funcs
          (λ f lt. func-begins c.blocks r.blocks f r.offsets (l.numbered f.start lt)) l.funcs_begin,
    )

-- If a program compiles and its jumps' distances are words of 16 bits, then every jump is resolved
-- and no block is moved; and each jump is fetched, from where it stands in the code of all blocks,
-- as a jump whose address leads to the beginning of the block that it was made for; and every
-- function begins at a block.
pub compiler_visit_program-Lands :
    (depth : ℕ) (memory : ℕ → ℕ) (n : Node) (c : Compiler)
    → compiler_visit_program depth (compiler_init memory) n ≡ some c
    → All (Fits c.blocks) c.jumps
    → (bs : List Block) × (resolve_jumps c.jumps c.blocks ≡ some bs)
      × SameOffsets c.blocks bs
      × All (Lands bs) c.jumps
      × All (BeginsIn bs) c.funcs
unfolding compiler_init
compiler_visit_program-Lands depth memory n c compiled fits =
    resolve_jumps-Lands c
      (linked (compiler_visit_program-Post depth (compiler_init memory) n refl refl)) fits
  where
    linked : Post IsLinked (compiler_visit_program depth (compiler_init memory) n) → IsLinked c
    linked p = unless (subst (Post IsLinked) compiled p)
