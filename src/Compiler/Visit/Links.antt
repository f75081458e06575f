-- ===== src/Compiler/Visit/Links.antt =====
-- What the visitors of lib/compiler.c keep: the blocks are linked, and the current block and the one
-- for failures are blocks.
pub mod Exprs
pub mod Functions
pub mod Bodies
pub mod Patterns
pub mod Program
use chammer.Prelude.{ℕ, ◌+◌, ◌≤◌, ◌<◌, ◌≡◌, refl, sym, ◌∙◌, Option, none, some, List, length, arith}
use chammer.Buffer.{Buffer}
use chammer.Ast.{Node, Nodes}
use chammer.Bytecode.{Opcode}
use chammer.Bytecode.Jumps.{IsJump}
use chammer.StringMap.{Entry, string_pool_intern}
use chammer.Compiler.Scopes.{scope_get_or_put_local}
use chammer.Compiler.Blocks.{Compiler, ◌>>?◌, top, emit_in, insert_block_after}
use chammer.Compiler.Blocks.Post.{Post, post, bind-Post, any-Post, mono-Post}
use chammer.Compiler.Blocks.Appends.{Appends, op_byte-Appends}
use chammer.Compiler.Blocks.Linked.{IsLinked, length-change}
use chammer.Compiler.Blocks.Steps.{
  Alike, emit_in-IsLinked, insert_block_after-IsLinked, put_jump-IsLinked, pools-IsLinked,
}
use chammer.Compiler.Visit.{
  Visit, Routines, emit, emit_op, new_block_after, jump_to, intern_ident, local_of, block_for_fail,
  fail_block,
}

abbrev pub count : Visit → ℕ
count v = length v.compiler.blocks

abbrev pub FailIn : Option ℕ → ℕ → Type 0
FailIn none n = Unit
FailIn (some id) n = id < n

pub record IsGood (v : Visit) : Type 0 where
  pub linked : IsLinked v.compiler
  pub block_in : v.block < count v
  pub fail_in : FailIn v.fail (count v)

pub record After (v v' : Visit) : Type 0 where
  pub good : IsGood v'
  pub more : count v ≤ count v'

pub After_trans : (v v' v'' : Visit) → count v ≤ count v' → After v' v'' → After v v''
After_trans v v' v'' more a = record { good = a.good; more = omega (arith, more, a.more) }

-- One visitor after another.
pub chain-Post :
    (v : Visit) {o : Option Visit} {f : Visit → Option Visit}
    → Post (After v) o
    → ((v' : Visit) → IsGood v' → count v ≤ count v' → Post (After v') (f v'))
    → Post (After v) (o >>? f)
chain-Post v p k =
    bind-Post p (λ v' a. mono-Post (k v' a.good a.more) (λ v''. After_trans v v' v'' a.more))

-- The same with a result beside the state.
pub chain_with-Post :
    {A : Type 0} (v : Visit) {o : Option (A × Visit)} {f : A × Visit → Option Visit}
    → Post (λ r. After v r.1) o
    → ((r : A × Visit) → IsGood r.1 → count v ≤ count r.1 → Post (After r.1) (f r))
    → Post (After v) (o >>? f)
chain_with-Post v p k =
    bind-Post p
      (λ r after. mono-Post (k r after.good after.more) (λ v''. After_trans v r.1 v'' after.more))

pub FailIn-more : (fail : Option ℕ) (m n : ℕ) → m ≤ n → FailIn fail m → FailIn fail n
FailIn-more none m n le h = tt
FailIn-more (some id) m n le h = omega arith

pub emit-After : (f : Buffer → Buffer) (v : Visit) → Appends f → IsGood v → After v (emit f v)
unfolding emit emit_in
emit-After f v appends g =
    let same = length-change f v.block v.compiler.blocks in
    record {
      good = record {
        linked = emit_in-IsLinked v.block f v.compiler appends g.block_in g.linked;
        block_in = omega (arith, same, g.block_in);
        fail_in = FailIn-more v.fail (count v) _ (omega (arith, same)) g.fail_in;
      };
      more = omega (arith, same);
    }

pub emit_op-After : (op : Opcode) (v : Visit) → IsGood v → After v (emit_op op v)
unfolding emit_op
emit_op-After op v g = emit-After _ v (op_byte-Appends op) g

-- The state when only the compiler has changed.
pub compiler-After :
    (c : Compiler) (v : Visit)
    → IsLinked c
    → count v ≤ length c.blocks
    → IsGood v
    → After v (record v { compiler = c })
compiler-After c v l more g = record {
  good = record {
    linked = l;
    block_in = omega (arith, g.block_in);
    fail_in = FailIn-more v.fail (count v) (length c.blocks) more g.fail_in;
  };
  more = more;
}

pub new_block_after-After :
    (prev : ℕ) (v : Visit)
    → prev < count v
    → IsGood v
    → After v (new_block_after prev v).1
      × ((new_block_after prev v).0 < count (new_block_after prev v).1)
unfolding new_block_after insert_block_after
new_block_after-After prev v lt g =
    let (l, one_more) = insert_block_after-IsLinked prev v.compiler lt g.linked in
    (compiler-After _ v l (omega (arith, one_more)) g, omega (arith, one_more))

pub jump_to-Post :
    (op : Opcode) (target : ℕ) (v : Visit)
    → IsJump op
    → target < count v
    → IsGood v
    → Post (After v) (jump_to op target v)
unfolding jump_to
jump_to-Post op target v j lt g =
    bind-Post (put_jump-IsLinked op v.block target v.compiler j g.block_in lt g.linked)
      (λ c (l, same). post (compiler-After c v l (omega (arith, same)) g))

pub intern_ident-Post :
    (name : List ℕ) (v : Visit) → IsGood v → Post (λ r. After v r.1) (intern_ident name v)
unfolding intern_ident
intern_ident-Post name v g =
    let (e, idents) = string_pool_intern v.compiler.idents name in
    let c = v.compiler in
    any-Post e (λ _. post (
      compiler-After _ v (pools-IsLinked c c.string_buffer c.strings idents g.linked) (omega arith)
        g))

-- The scopes are no part of it.
pub scopes-After : (scopes : _) (v : Visit) → IsGood v → After v (record v { scopes = scopes })
scopes-After scopes v g = record {
  good = record { linked = g.linked; block_in = g.block_in; fail_in = g.fail_in };
  more = omega arith;
}

pub local_of-Post :
    (sym : Entry Unit) (v : Visit) → IsGood v → Post (λ r. After v r.1) (local_of sym v)
unfolding local_of
local_of-Post sym v g =
    any-Post (scope_get_or_put_local (top v.scopes) sym.key_at)
      (λ (s, id). post (scopes-After _ v g))

pub at_block : (id : ℕ) (v : Visit) → id < count v → IsGood v → IsGood (record v { block = id })
at_block id v lt g = record { linked = g.linked; block_in = lt; fail_in = g.fail_in }

pub at_fail :
    (fail : Option ℕ) (v : Visit)
    → FailIn fail (count v)
    → IsGood v
    → IsGood (record v { fail = fail })
at_fail fail v h g = record { linked = g.linked; block_in = g.block_in; fail_in = h }

block_for_fail-After :
    (fail : Option ℕ) (v : Visit)
    → FailIn fail (count v)
    → IsGood v
    → After v (block_for_fail fail v).1
      × ((block_for_fail fail v).0 < count (block_for_fail fail v).1)
unfolding block_for_fail
block_for_fail-After (some id) v lt g = (record { good = g; more = omega arith }, lt)
block_for_fail-After none v h g =
    let (a, id_in) = new_block_after-After v.block v g.block_in g in
    (
      record { good = at_fail (some (new_block_after v.block v).0) _ id_in a.good; more = a.more },
      id_in,
    )

pub fail_block-After :
    (v : Visit) → IsGood v → After v (fail_block v).1 × ((fail_block v).0 < count (fail_block v).1)
unfolding fail_block
fail_block-After v g = block_for_fail-After v.fail v g.fail_in g

-- The visitors that the others call keep it.
pub record Links (r : Routines) : Type 0 where
  pub expr : (n : Node) (v : Visit) → IsGood v → Post (After v) (r.expr n v)
  pub pattern :
      (lhs : Node) (rhs : Option Node) (v : Visit) → IsGood v → Post (After v) (r.pattern lhs rhs v)
  pub block_body : (ns : Nodes) (v : Visit) → IsGood v → Post (After v) (r.block_body ns v)
