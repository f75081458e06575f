-- ===== src/Compiler/Visit/Links/Functions.antt =====
-- The visitors that make functions keep the blocks linked, and leave the block for failures as it was.
use chammer.Prelude.{
  ℕ, ◌+◌, ◌%◌, ◌^◌, ◌≤◌, ◌<◌, Bool, true, false, Option, none, some, length, arith,
}
use chammer.Buffer.{Buffer}
use chammer.Ast.{Node, Nodes, node, nil, cons, first_child}
use chammer.Bytecode.{
  Opcode, op_dup, op_return, op_halt, op_pop, op_swap, op_pushtrue, op_pushfalse, op_jump,
  op_jumpif,
}
use chammer.Bytecode.Program.{fn_case}
use chammer.StringMap.{Entry}
use chammer.Compiler.Scopes.{Scope, Scopes, scope_put_local}
use chammer.Compiler.Blocks.{Compiler, top, with_top}
use chammer.Compiler.Blocks.Post.{Post, post, bind-Post, any-Post, mono-Post}
use chammer.Compiler.Blocks.Appends.{
  Appends, put_callval-Appends, put_store-Appends, put_makecls-Appends, put_call-Appends,
  put_store_captures-AppendsIf, put_load_captures-AppendsIf,
}
use chammer.Compiler.Blocks.Linked.{IsLinked}
use chammer.Compiler.Blocks.Steps.{Alike, try_emit_in-IsLinked, push_func-IsLinked}
use chammer.Compiler.Visit.{Visit, Routines, emit, emit_op, new_block_after}
use chammer.Compiler.Visit.Functions.{
  enter, leave, put_captures, finish_func, emit_fail, visit_args, put_self, type_for, tie,
  visit_function, split_body, visit_lambda, visit_case, visit_cases, visit_match,
}
use chammer.Compiler.Visit.Links.{
  count, FailIn, FailIn-more, IsGood, After, After_trans, chain-Post, emit-After, emit_op-After,
  new_block_after-After, jump_to-Post, scopes-After, at_block, at_fail, Links,
}

-- One more emission.
pub then_emit : (v v' : Visit) (f : Buffer → Buffer) → Appends f → After v v' → After v (emit f v')
then_emit v v' f appends a = After_trans v v' (emit f v') a.more (emit-After f v' appends a.good)

then_op : (v v' : Visit) (op : Opcode) → After v v' → After v (emit_op op v')
then_op v v' op a = After_trans v v' (emit_op op v') a.more (emit_op-After op v' a.good)

pub After-same : (v : Visit) → IsGood v → After v v
After-same v g = record { good = g; more = omega arith }

pub enter-After :
    (prev : ℕ) (v : Visit)
    → prev < count v
    → IsGood v
    → After v (enter prev v).1 × ((enter prev v).0 < count (enter prev v).1)
unfolding enter
enter-After prev v lt g =
    let (a, prelude_in) = new_block_after-After prev v lt g in
    let (prelude, v₁) = new_block_after prev v in
    let (a', body_in) = new_block_after-After prelude v₁ prelude_in a.good in
    let (body, v₂) = new_block_after prelude v₁ in
    (
      record {
        good = record { linked = a'.good.linked; block_in = body_in; fail_in = tt };
        more = omega (arith, a.more, a'.more);
      },
      omega (arith, prelude_in, a'.more),
    )

put_captures-Post :
    (prelude block : ℕ) (s : Scope) (outer : Scopes) (c : Compiler)
    → IsLinked c
    → Post (Alike c) (put_captures prelude block s outer c)
unfolding put_captures
put_captures-Post prelude block s outer c l =
    bind-Post (try_emit_in-IsLinked prelude _ c (put_store_captures-AppendsIf s) l)
      (λ c' (l', same).
        mono-Post (try_emit_in-IsLinked block _ c' (put_load_captures-AppendsIf s (top outer)) l')
          (λ c'' (l'', same'). (l'', omega (arith, same, same'))))

-- With the block and the one for failures that are gone back to.
pub finish_func-Post :
    (prelude block : ℕ) (fail : Option ℕ) (args type : ℕ) (name : Option (Entry Unit)) (v : Visit)
    → prelude < count v
    → block < count v
    → FailIn fail (count v)
    → IsGood v
    → Post (λ r. After v r.1) (finish_func prelude block fail args type name v)
unfolding finish_func
finish_func-Post prelude block fail args type name v lt lt' h g =
    any-Post (leave v.scopes) (λ (s, outer).
      bind-Post (put_captures-Post prelude block s outer v.compiler g.linked) (λ c (l, same).
        bind-Post (push_func-IsLinked prelude s args type name c (omega (arith, same)) l)
          (λ (fnindex, c') (l', same'). post (record {
            good = record {
              linked = l';
              block_in = omega (arith, same, same');
              fail_in =
                  FailIn-more fail (count v) (length c'.blocks) (omega (arith, same, same')) h;
            };
            more = omega (arith, same, same');
          }))))

pub emit_fail-After :
    (f : Visit → Visit) (v : Visit)
    → ((w : Visit) → IsGood w → After w (f w))
    → IsGood v
    → After v (emit_fail f v)
unfolding emit_fail
emit_fail-After f v keeps g = at v.fail g.fail_in
  where
    at :
        (fail : Option ℕ)
        → FailIn fail (count v)
        → After v (elim fail [
          | none ↦ v
          | some id ↦ record (f (record v { block = id })) { block = v.block }
        ])
    at none h = After-same v g
    at (some id) lt =
        let a = keeps (record v { block = id }) (at_block id v lt g) in
        record {
          good = at_block v.block _ (omega (arith, a.more, g.block_in)) a.good;
          more = a.more;
        }

module _ (r : Routines) (h : Links r) where
  visit_args-Post :
      (ns : Nodes) (args : ℕ) (v : Visit)
      → IsGood v
      → Post (λ x. After v x.1) (visit_args r ns args v)
  unfolding visit_args
  visit_args-Post nil args v g = post (After-same v g)
  visit_args-Post (cons arg rest) args v g = bind-Post (h.pattern arg none v g) (λ v' a.
      mono-Post (visit_args-Post rest ((args + 1) % 2 ^ 8) v' a.good)
        (λ x. After_trans v v' x.1 a.more))

  put_self-Post :
      (rec_ : Bool) (name : Option (Entry Unit)) (v : Visit)
      → IsGood v
      → Post (λ x. After v x.1) (put_self rec_ name v)
  unfolding put_self
  put_self-Post false name v g = post (After-same v g)
  put_self-Post true none v g = post tt
  put_self-Post true (some sym) v g =
      any-Post (scope_put_local (top v.scopes) sym.key_at) (λ (s, local). post (
        then_emit v _ _ (put_store-Appends local) (
          then_emit v _ _ (put_callval-Appends 1)
            (then_op v _ op_dup (scopes-After (with_top s v.scopes) v g)))))

  tie-After : (rec_ : Bool) (v v' : Visit) → After v v' → After v (tie rec_ v')
  unfolding tie
  tie-After false v v' a = a
  tie-After true v v' a = then_emit v _ _ (put_callval-Appends 1) (then_op v v' op_dup a)

  -- The end of a function's body, which halts where its patterns fail.
  pub finished :
      (prelude block : ℕ) (fail : Option ℕ) (args type : ℕ) (name : Option (Entry Unit)) (v : Visit)
      → prelude < count v
      → block < count v
      → FailIn fail (count v)
      → IsGood v
      → Post
          (λ x. After v x.1)
          (finish_func prelude block fail args type name
            (emit_fail (emit_op op_halt) (emit_op op_return v)))
  finished prelude block fail args type name v lt lt' k g =
      let a = emit_op-After op_return v g in
      let b = emit_fail-After (emit_op op_halt) _ (λ w. emit_op-After op_halt w) a.good in
      mono-Post
        (finish_func-Post prelude block fail args type name _ (omega (arith, a.more, b.more))
          (omega (arith, a.more, b.more))
          (FailIn-more fail (count v) _ (omega (arith, a.more, b.more)) k) b.good)
        (λ x c. record { good = c.good; more = omega (arith, a.more, b.more, c.more) })

  pub visit_function-Post :
      (params : Nodes) (body : Node) (name : Option (Entry Unit)) (rec_ : Bool) (v : Visit)
      → IsGood v
      → Post (After v) (visit_function r params body name rec_ v)
  unfolding visit_function
  visit_function-Post params body name rec_ v g =
      let (a, prelude_in) = enter-After v.block v g.block_in g in
      let (prelude, v₁) = enter v.block v in
      bind-Post (put_self-Post rec_ name v₁ a.good) (λ (given, v₂) a₂.
        bind-Post (visit_args-Post params given v₂ a₂.good) (λ (args, v₃) a₃.
          bind-Post (h.expr body v₃ a₃.good) (λ v₄ a₄.
            bind-Post
              (finished prelude v.block v.fail args (type_for name) name v₄
                (omega (arith, prelude_in, a₂.more, a₃.more, a₄.more))
                (omega (arith, g.block_in, a.more, a₂.more, a₃.more, a₄.more))
                (FailIn-more v.fail (count v) _ (omega (arith, a.more, a₂.more, a₃.more, a₄.more))
                  g.fail_in)
                a₄.good)
              (λ (fnindex, v₅) a₅. post (
                tie-After rec_ v _ (
                  then_emit v v₅ _ (put_makecls-Appends fnindex) (record {
                    good = a₅.good;
                    more = omega (arith, a.more, a₂.more, a₃.more, a₄.more, a₅.more);
                  })))))))

  pub visit_lambda-Post :
      (n : Node) (name : Option (Entry Unit)) (v : Visit)
      → IsGood v
      → Post (After v) (visit_lambda r n name v)
  unfolding visit_lambda
  visit_lambda-Post n name v g =
      any-Post (split_body (first_child n))
        (λ (params, body). visit_function-Post params body name false v g)

  visit_case-Post :
      (cont_block : ℕ) (lhs rhs : Node) (v : Visit)
      → cont_block < count v
      → IsGood v
      → Post (After v) (visit_case r cont_block lhs rhs v)
  unfolding visit_case
  visit_case-Post cont_block lhs rhs v lt g =
      let a₁ = emit_op-After op_dup v g in
      let v₁ = emit_op op_dup v in
      let (a₂, prelude_in) = enter-After cont_block v₁ (omega (arith, a₁.more)) a₁.good in
      let (prelude, v₂) = enter cont_block v₁ in
      let fail_in =
        FailIn-more v.fail (count v) (count v₂) (omega (arith, a₁.more, a₂.more)) g.fail_in in
      bind-Post
        (chain-Post (record v₂ { fail = v.fail })
          (h.pattern lhs none (record v₂ { fail = v.fail }) (at_fail v.fail v₂ fail_in a₂.good))
          (λ v' g' _. h.expr rhs v' g'))
        (λ v₃ a₃.
          let b = then_op v₃ _ op_return (emit_op-After op_pushtrue v₃ a₃.good) in
          bind-Post
            (finish_func-Post prelude v.block v₃.fail 1 fn_case none _
              (omega (arith, prelude_in, a₃.more, b.more))
              (omega (arith, g.block_in, a₁.more, a₂.more, a₃.more, b.more))
              (FailIn-more v₃.fail (count v₃) _ b.more a₃.good.fail_in) b.good)
            (λ (fnindex, v₄) a₄.
              let c = emit-After _ v₄ (put_call-Appends fnindex) a₄.good in
              mono-Post
                (jump_to-Post op_jumpif cont_block _ tt
                  (omega (arith, a₁.more, a₂.more, a₃.more, b.more, a₄.more, c.more)) c.good)
                (λ v₅ a₅. record {
                  good = a₅.good;
                  more = omega (arith, a₁.more, a₂.more, a₃.more, b.more, a₄.more, c.more, a₅.more);
                })))

  visit_cases-Post :
      (cont_block : ℕ) (ns : Nodes) (v : Visit)
      → cont_block < count v
      → IsGood v
      → Post (After v) (visit_cases r cont_block ns v)
  unfolding visit_cases
  visit_cases-Post cont_block nil v lt g = post (After-same v g)
  visit_cases-Post cont_block (cons n nil) v lt g =
      chain-Post v (h.expr n v g)
        (λ v' g' more. jump_to-Post op_jump cont_block v' tt (omega (arith, lt, more)) g')
  visit_cases-Post cont_block (cons lhs (cons rhs ns)) v lt g =
      chain-Post v (visit_case-Post cont_block lhs rhs v lt g)
        (λ v' g' more. visit_cases-Post cont_block ns v' (omega (arith, lt, more)) g')

  pub visit_match-Post : (n : Node) (v : Visit) → IsGood v → Post (After v) (visit_match r n v)
  unfolding visit_match
  visit_match-Post (node type flag token nil) v g = post tt
  visit_match-Post (node type flag token (cons scrutinee cases)) v g =
      bind-Post (h.expr scrutinee v g) (λ v₁ a₁.
        let (a₂, cont_in) = new_block_after-After v₁.block v₁ a₁.good.block_in a₁.good in
        let (cont_block, v₂) = new_block_after v₁.block v₁ in
        bind-Post
          (visit_cases-Post cont_block cases (record v₂ { fail = none }) cont_in
            (at_fail none v₂ tt a₂.good))
          (λ v₃ a₃.
            let b = emit_op-After op_halt v₃ a₃.good in
            let c =
              emit_fail-After (λ f. emit_op op_return (emit_op op_pushfalse f)) _
                (λ w gw. then_op w _ op_return (emit_op-After op_pushfalse w gw)) b.good in
            let v₄ =
              emit_fail (λ f. emit_op op_return (emit_op op_pushfalse f)) (emit_op op_halt v₃) in
            let total : count v ≤ count v₄ =
              omega (arith, a₁.more, a₂.more, a₃.more, b.more, c.more) in
            post (
              then_op v _ op_pop (
                then_op v _ op_swap (record {
                  good = record {
                    linked = c.good.linked;
                    block_in = omega (arith, cont_in, a₃.more, b.more, c.more);
                    fail_in = FailIn-more v.fail (count v) (count v₄) total g.fail_in;
                  };
                  more = total;
                })))))
