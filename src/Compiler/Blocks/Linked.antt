-- ===== src/Compiler/Blocks/Linked.antt =====
-- The blocks, jumps and functions of lib/compiler.c fit together: jumps stand in blocks and lead to
-- blocks, and functions begin at blocks.
use chammer.Prelude.{
  ℕ, suc, ◌+◌, ◌≤◌, ◌<◌, ◌≡◌, ◌≢◌, Bool-cases, inl, inr, refl, ap, ◌∙◌, sym, some, List, [], ◌∷◌,
  ◌==◌, length, All, arith,
}
use mathlib.Core.Path.{subst}
use native.Mathlib.Decide.{ℕ_discrete}
use chammer.Buffer.{Buffer}
use chammer.Buffer.Reads.{Reads, Reads-append}
use chammer.Bytes.{write_i16be}
use chammer.Bytecode.{Opcode, opcode_byte, addr_placeholder}
use chammer.Bytecode.Jumps.{IsJump}
use chammer.Compiler.Blocks.Appends.{Begins, Begins_refl}
use chammer.Compiler.Blocks.{Block, Jump, Compiler, link_after, change_block, block_code}

-- There is a block with the number.
abbrev pub Has : List Block → ℕ → Type 0
Has bs id = (b : Buffer) × (block_code id bs ≡ some b)

module _ (f : Buffer → Buffer) (id : ℕ) where
  pub length-change : (bs : List Block) → length (change_block id f bs) ≡ length bs
  unfolding change_block
  length-change [] = refl
  length-change (b ∷ bs) = ground (arith, length-change bs)

  pub code-change :
      (bs : List Block) (b : Buffer)
      → block_code id bs ≡ some b
      → block_code id (change_block id f bs) ≡ some (f b)
  unfolding change_block block_code
  code-change [] b e = absurd (cc)
  code-change (x ∷ bs) b e = ground (arith, code-change bs b)

  pub code-change_other :
      (bs : List Block) (other : ℕ)
      → other ≢ id
      → block_code other (change_block id f bs) ≡ block_code other bs
  unfolding change_block block_code
  code-change_other [] other ne = refl
  code-change_other (x ∷ bs) other ne = ground (arith, code-change_other bs other ne)

cons-Has : (id : ℕ) (x : Block) (bs : List Block) → Has bs id → Has (x ∷ bs) id
unfolding block_code
cons-Has id x bs (b, e) = elim (Bool-cases (x.id == id)) [
  | inl here ↦ (x.bytecode, ground arith)
  | inr later ↦ (b, ground arith)
]

module _ (prev : ℕ) (new : Block) where
  pub length-link :
      (bs : List Block) → Has bs prev → length (link_after prev new bs) ≡ suc (length bs)
  unfolding link_after block_code
  length-link [] (b, e) = absurd (cc)
  length-link (x ∷ bs) (b, e) = elim (Bool-cases (x.id == prev)) [
    | inl here ↦ rw here
    | inr later ↦ rw later (ap suc (length-link bs (b, ground arith)))
  ]

  pub code-link_other :
      (bs : List Block) (other : ℕ)
      → other ≢ new.id
      → block_code other (link_after prev new bs) ≡ block_code other bs
  unfolding link_after block_code
  code-link_other [] other ne = refl
  code-link_other (x ∷ bs) other ne = ground (arith, code-link_other bs other ne)

  pub link-Has : (bs : List Block) → Has bs prev → Has (link_after prev new bs) new.id
  unfolding link_after block_code
  link-Has [] (b, e) = absurd (cc)
  link-Has (x ∷ bs) (b, e) = elim (Bool-cases (x.id == prev)) [
    | inl here ↦ rw here (cons-Has new.id x (new ∷ bs) (new.bytecode, ground arith))
    | inr later ↦
        rw later (cons-Has new.id x (link_after prev new bs) (link-Has bs (b, ground arith)))
  ]

-- Where a jump stands, the opcode is followed by the placeholder.
pub record Placed (bs : List Block) (j : Jump) : Type 0 where
  pub target_in : j.target < length bs
  pub origin_in : j.origin < length bs
  pub op : Opcode
  pub code : Buffer
  pub is_jump : IsJump op
  pub at_origin : block_code j.origin bs ≡ some code
  pub reads : Reads code.bytes j.origin_offset (opcode_byte op ∷ write_i16be addr_placeholder)
  pub behind_op : j.addr_offset ≡ suc j.origin_offset

-- Two jumps of one block do not overlap.
abbrev pub Behind : Jump → Jump → Type 0
Behind j k = j.origin ≡ k.origin → j.origin_offset + 3 ≤ k.origin_offset

abbrev pub Apart : List Jump → Type 0
Apart [] = Unit
Apart (j ∷ js) = All (Behind j) js × Apart js

pub record IsLinked (c : Compiler) : Type 0 where
  pub numbered : (id : ℕ) → id < length c.blocks → Has c.blocks id
  pub jumps_placed : All (Placed c.blocks) c.jumps
  pub jumps_apart : Apart c.jumps
  pub funcs_begin : All (λ f. f.start < length c.blocks) c.funcs

pub All_mono {ℓ} :
    {A : Type ℓ} (P Q : A → Type 0) (xs : List A) → ((x : A) → P x → Q x) → All P xs → All Q xs
All_mono P Q [] h all = tt
All_mono P Q (x ∷ xs) h (p, all) = (h x p, All_mono P Q xs h all)

-- What every change of the blocks keeps: they grow in number, and code that stands in one stays.
pub record Extends (bs bs' : List Block) : Type 0 where
  pub more : length bs ≤ length bs'
  pub kept :
      (id : ℕ) (b : Buffer)
      → id < length bs
      → block_code id bs ≡ some b
      → (b' : Buffer) × (block_code id bs' ≡ some b') × Begins b b'

pub Placed-Extends : (bs bs' : List Block) (j : Jump) → Extends bs bs' → Placed bs j → Placed bs' j
Placed-Extends bs bs' j x p =
    let (code', at', (tail, same)) = x.kept j.origin p.code p.origin_in p.at_origin in
    record {
      target_in = omega (arith, x.more, p.target_in);
      origin_in = omega (arith, x.more, p.origin_in);
      op = p.op;
      code = code';
      is_jump = p.is_jump;
      at_origin = at';
      reads =
          let w = opcode_byte p.op ∷ write_i16be addr_placeholder in
          subst (λ (l : List ℕ). Reads l j.origin_offset w) (sym same)
            (Reads-append p.code.bytes tail j.origin_offset w p.reads);
      behind_op = p.behind_op;
    }

pub change-Extends :
    (f : Buffer → Buffer) (id : ℕ) (bs : List Block) (b : Buffer)
    → block_code id bs ≡ some b
    → Begins b (f b)
    → Extends bs (change_block id f bs)
change-Extends f id bs b e begins = record {
  more = omega (arith, length-change f id bs);
  kept = λ other b' lt e'. elim (ℕ_discrete other id) [
    | yes same ↦
        let found : b ≡ b' = cc in
        (f b, rw same (code-change f id bs b e), subst (λ x. Begins x (f b)) found begins)
    | no differ ↦ (b', code-change_other f id bs other differ ∙ e', Begins_refl b')
  ];
}

pub link-Extends :
    (prev : ℕ) (new : Block) (bs : List Block)
    → new.id ≡ length bs
    → Has bs prev
    → Extends bs (link_after prev new bs)
link-Extends prev new bs fresh has = record {
  more = omega (arith, length-link prev new bs has);
  kept = λ id b lt e.
      (b, code-link_other prev new bs id (λ same. omega (arith, fresh, same)) ∙ e, Begins_refl b);
}

-- Of blocks that are as many.
pub Extends-numbered :
    (bs bs' : List Block)
    → Extends bs bs'
    → length bs' ≡ length bs
    → ((id : ℕ) → id < length bs → Has bs id)
    → (id : ℕ) → id < length bs'
    → Has bs' id
Extends-numbered bs bs' x same numbered id lt =
    let (b, e) = numbered id (omega (arith, same)) in
    let (b', e', begins) = x.kept id b (omega (arith, same)) e in (b', e')

pub extended-IsLinked :
    (c : Compiler) (bs : List Block)
    → Extends c.blocks bs
    → ((id : ℕ) → id < length bs → Has bs id)
    → IsLinked c
    → IsLinked (record c { blocks = bs })
extended-IsLinked c bs x numbered l = record {
  numbered = numbered;
  jumps_placed =
      All_mono (Placed c.blocks) (Placed bs) c.jumps (λ j. Placed-Extends c.blocks bs j x)
        l.jumps_placed;
  jumps_apart = l.jumps_apart;
  funcs_begin =
      All_mono (λ f. f.start < length c.blocks) (λ f. f.start < length bs) c.funcs
        (λ f lt. omega (arith, x.more)) l.funcs_begin;
}
