-- ===== src/Compiler/Visit/Links/Bodies.antt =====
-- The visitors of blocks keep blocks, jumps and functions together.
use chammer.Prelude.{◌≤◌, true, false, Option, none, some, arith, if◌then◌else◌}
use chammer.Ast.{Node, Nodes, node, nil, cons, n_assign, n_bind, n_void, type_of, node_type_is_expr}
use chammer.Bytecode.{op_return, op_halt, op_pop, op_bind}
use chammer.Bytecode.Program.{fn_block}
use chammer.Compiler.Blocks.Post.{Post, post, bind-Post, mono-Post}
use chammer.Compiler.Blocks.Appends.{put_makecls-Appends, put_call-Appends, put_maketuple-Appends}
use chammer.Compiler.Visit.{Visit, Routines, emit_op}
use chammer.Compiler.Visit.Functions.{
  enter, emit_fail, visit_assigns, visit_rest, visit_assign_block, visit_block_body,
}
use chammer.Compiler.Visit.Links.{
  count, FailIn-more, IsGood, After, After_trans, chain-Post, emit-After, emit_op-After, at_fail,
  Links,
}
use chammer.Compiler.Visit.Links.Functions.{
  After-same, emit_fail-After, enter-After, finish_func-Post, finished, then_emit,
}

module _ (r : Routines) (h : Links r) where
  visit_assigns-Post :
      (ns : Nodes) (v : Visit) → IsGood v → Post (λ x. After v x.1) (visit_assigns r ns v)
  unfolding visit_assigns
  visit_assigns-Post nil v g = post tt
  visit_assigns-Post (cons (node n_assign flag token (cons lhs (cons rhs more))) ns) v g =
      bind-Post (h.pattern lhs (some rhs) v g)
        (λ v' a. mono-Post (visit_assigns-Post ns v' a.good) (λ x. After_trans v v' x.1 a.more))
  visit_assigns-Post (cons (node n_assign flag token nil) ns) v g = post tt
  visit_assigns-Post (cons (node n_assign flag token (cons lhs nil)) ns) v g = post tt
  visit_assigns-Post (cons n ns) v g = post (After-same v g)

  visit_rest-Post :
      (begin_ : Visit → Option Visit) (rest : Nodes) (effect : Node) (v : Visit)
      → ((w : Visit) → IsGood w → Post (After w) (begin_ w))
      → IsGood v
      → Post (After v) (visit_rest r begin_ rest effect v)
  unfolding visit_rest
  visit_rest-Post begin_ rest effect v begins g =
      let (a₁, prelude_in) = enter-After v.block v g.block_in g in
      let (prelude, v₁) = enter v.block v in
      bind-Post (chain-Post v₁ (begins v₁ a₁.good) (λ v' g' _. h.block_body rest v' g')) (λ v₂ a₂.
        let b = emit_op-After op_return v₂ a₂.good in
        bind-Post
          (finish_func-Post prelude v.block v.fail 1 fn_block none _
            (omega (arith, prelude_in, a₂.more, b.more))
            (omega (arith, g.block_in, a₁.more, a₂.more, b.more))
            (FailIn-more v.fail (count v) _ (omega (arith, a₁.more, a₂.more, b.more)) g.fail_in)
            b.good)
          (λ (fnindex, v₃) a₃.
            let c = emit-After _ v₃ (put_makecls-Appends fnindex) a₃.good in
            bind-Post (h.expr effect _ c.good) (λ v₄ a₄.
              let d = emit_op-After op_bind v₄ a₄.good in
              let v₅ = emit_op op_bind v₄ in
              let fail_in =
                FailIn-more v₂.fail (count v₂) (count v₅)
                  (omega (arith, b.more, a₃.more, c.more, a₄.more, d.more)) a₂.good.fail_in in
              let e =
                emit_fail-After (emit_op op_halt) (record v₅ { fail = v₂.fail })
                  (λ w. emit_op-After op_halt w) (at_fail v₂.fail v₅ fail_in d.good) in
              let total : count v
                  ≤ count (emit_fail (emit_op op_halt) (record v₅ { fail = v₂.fail })) =
                omega (arith, a₁.more, a₂.more, b.more, a₃.more, c.more, a₄.more, d.more, e.more) in
              post (record {
                good = at_fail v.fail _ (FailIn-more v.fail (count v) _ total g.fail_in) e.good;
                more = total;
              }))))

  visit_assign_block-Post :
      (ns : Nodes) (v : Visit) → IsGood v → Post (After v) (visit_assign_block r ns v)
  unfolding visit_assign_block
  visit_assign_block-Post ns v g =
      let (a₁, prelude_in) = enter-After v.block v g.block_in g in
      let (prelude, v₁) = enter v.block v in
      bind-Post (visit_assigns-Post ns v₁ a₁.good) (λ (rest, v₂) a₂.
        bind-Post (h.block_body rest v₂ a₂.good) (λ v₃ a₃.
          bind-Post
            (finished r h prelude v.block v.fail 0 fn_block none v₃
              (omega (arith, prelude_in, a₂.more, a₃.more))
              (omega (arith, g.block_in, a₁.more, a₂.more, a₃.more))
              (FailIn-more v.fail (count v) _ (omega (arith, a₁.more, a₂.more, a₃.more)) g.fail_in)
              a₃.good)
            (λ (fnindex, v₄) a₄. post (
              then_emit v v₄ _ (put_call-Appends fnindex) (record {
                good = a₄.good;
                more = omega (arith, a₁.more, a₂.more, a₃.more, a₄.more);
              })))))

  pub visit_block_body-Post :
      (ns : Nodes) (v : Visit) → IsGood v → Post (After v) (visit_block_body r ns v)
  unfolding visit_block_body
  visit_block_body-Post nil v g = post (emit-After _ v (put_maketuple-Appends 0) g)
  visit_block_body-Post (cons (node n_assign flag token children) ns) v g =
      visit_assign_block-Post (cons (node n_assign flag token children) ns) v g
  visit_block_body-Post (cons (node n_bind flag token (cons lhs (cons rhs more))) ns) v g =
      visit_rest-Post (r.pattern lhs none) ns rhs v (h.pattern lhs none) g
  visit_block_body-Post (cons (node n_bind flag token nil) ns) v g = post tt
  visit_block_body-Post (cons (node n_bind flag token (cons lhs nil)) ns) v g = post tt
  visit_block_body-Post (cons (node n_void flag token (cons effect more)) ns) v g =
      visit_rest-Post (λ w. some (emit_op op_pop w)) ns effect v
        (λ w gw. post (emit_op-After op_pop w gw)) g
  visit_block_body-Post (cons (node n_void flag token nil) ns) v g = post tt
  visit_block_body-Post (cons n ns) v g =
      elim (node_type_is_expr (type_of n))
        as (λ t. Post (After v) (if t then r.expr n v else none)) [
          | true ↦ h.expr n v g
          | false ↦ post tt
        ]
