-- ===== src/Compiler/Visit/Links/Patterns.antt =====
-- The visitors of patterns keep the blocks linked.
use chammer.Prelude.{ℕ, ◌+◌, ◌<◌, Bool, true, false, Option, none, some, arith}
use chammer.Bytes.{checked_u16}
use chammer.Ast.{
  Node, Nodes, node, nil, cons, NodeType, n_lambda, n_pltail, first_child, type_of, token_of,
  flag_of, count_nodes,
}
use chammer.Tokens.{token_string}
use chammer.Bytecode.{
  op_pop, op_eq, op_chkcons, op_chknil, op_uncons, op_jumpifn, bytecode_put_store,
  bytecode_put_tupleget, bytecode_put_chktuple,
}
use chammer.StringMap.{Entry}
use chammer.Compiler.Blocks.{◌>>?◌}
use chammer.Compiler.Blocks.Post.{Post, post, bind-Post, any-Post, mono-Post}
use chammer.Compiler.Blocks.Appends.{put_store-Appends, put_chktuple-Appends, put_tupleget-Appends}
use chammer.Compiler.Visit.{Visit, Routines, emit, emit_op, local_of, fail_block}
use chammer.Compiler.Visit.Patterns.{
  visit_value, name_value, visit_named, visit_applied, visit_tail_named, visit_pident, visit_papply,
  visit_tuple_items, visit_ptuple, visit_tail, visit_list_items, visit_plist, visit_pconst,
  visit_pwild,
}
use chammer.Compiler.Visit.Links.{
  count, IsGood, After, After_trans, chain-Post, chain_with-Post, emit-After, emit_op-After,
  jump_to-Post, intern_ident-Post, local_of-Post, fail_block-After, Links,
}
use chammer.Compiler.Visit.Links.Functions.{visit_lambda-Post, visit_function-Post}

module _ (r : Routines) (h : Links r) where
  visit_value-Post :
      (rhs : Option Node) (v : Visit) → IsGood v → Post (After v) (visit_value r rhs v)
  visit_value-Post none v g = post (record { good = g; more = omega arith })
  visit_value-Post (some n) v g = h.expr n v g

  -- The name's local is stored.
  stored :
      (sym : Entry Unit) (v : Visit)
      → IsGood v
      → Post
          (After v)
          (local_of sym v >>? λ (local, v'). some (emit (λ b. bytecode_put_store b local) v'))
  stored sym v g =
      chain_with-Post v (local_of-Post sym v g)
        (λ (local, v') g' _. post (emit-After _ v' (put_store-Appends local) g'))

  name_value-Post :
      (type : NodeType) (n : Node) (sym : Entry Unit) (v : Visit)
      → IsGood v
      → Post (After v) (name_value r type n sym v)
  unfolding name_value
  name_value-Post n_lambda n sym v g = visit_lambda-Post r h n (some sym) v g
  name_value-Post _ n sym v g = h.expr n v g

  visit_named-Post :
      (rhs : Option Node) (sym : Entry Unit) (v : Visit)
      → IsGood v
      → Post (After v) (visit_named r rhs sym v)
  unfolding visit_named
  visit_named-Post none sym v g = post (record { good = g; more = omega arith })
  visit_named-Post (some n) sym v g = name_value-Post (type_of n) n sym v g

  pub visit_pident-Post :
      (lhs : Node) (rhs : Option Node) (v : Visit)
      → IsGood v
      → Post (After v) (visit_pident r lhs rhs v)
  unfolding visit_pident
  visit_pident-Post lhs rhs v g =
      chain_with-Post v (intern_ident-Post (token_string (token_of lhs)) v g) (λ (sym, v₁) g₁ _.
        chain_with-Post v₁
          (bind-Post (visit_named-Post rhs sym v₁ g₁)
            (λ v' a. mono-Post (local_of-Post sym v' a.good) (λ x. After_trans v₁ v' x.1 a.more)))
          (λ (local, v₂) g₂ _. post (emit-After _ v₂ (put_store-Appends local) g₂)))

  visit_applied-Post :
      (is_rec : Bool) (lhs rhs : Node) (sym : Entry Unit) (v : Visit)
      → IsGood v
      → Post (λ x. After v x.1) (visit_applied r is_rec lhs rhs sym v)
  unfolding visit_applied
  visit_applied-Post true lhs rhs sym v g = bind-Post (local_of-Post sym v g) (λ (local, v') a.
      bind-Post (visit_function-Post r h (first_child lhs) rhs (some sym) true v' a.good)
        (λ v'' a'. post (After_trans v v' v'' a.more a')))
  visit_applied-Post false lhs rhs sym v g =
      bind-Post (visit_function-Post r h (first_child lhs) rhs (some sym) false v g)
        (λ v' a. mono-Post (local_of-Post sym v' a.good) (λ x. After_trans v v' x.1 a.more))

  pub visit_papply-Post :
      (lhs : Node) (rhs : Option Node) (v : Visit)
      → IsGood v
      → Post (After v) (visit_papply r lhs rhs v)
  unfolding visit_papply
  visit_papply-Post lhs none v g = post tt
  visit_papply-Post lhs (some rhs) v g =
      chain_with-Post v (intern_ident-Post (token_string (token_of lhs)) v g) (λ (sym, v₁) g₁ _.
        chain_with-Post v₁ (visit_applied-Post (flag_of lhs) lhs rhs sym v₁ g₁)
          (λ (local, v₂) g₂ _. post (emit-After _ v₂ (put_store-Appends local) g₂)))

  visit_tuple_items-Post :
      (ns : Nodes) (index : ℕ) (v : Visit)
      → IsGood v
      → Post (After v) (visit_tuple_items r ns index v)
  unfolding visit_tuple_items
  visit_tuple_items-Post nil index v g = post (record { good = g; more = omega arith })
  visit_tuple_items-Post (cons n ns) index v g = any-Post (checked_u16 index) (λ i.
      let a = emit-After _ v (put_tupleget-Appends i) g in
      let v₁ = emit (λ b. bytecode_put_tupleget b i) v in
      mono-Post
        (chain-Post v₁ (h.pattern n none v₁ a.good)
          (λ v' g' _. visit_tuple_items-Post ns (index + 1) v' g'))
        (λ v' a'. After_trans v v₁ v' a.more a'))

  pub visit_ptuple-Post :
      (lhs : Node) (rhs : Option Node) (v : Visit)
      → IsGood v
      → Post (After v) (visit_ptuple r lhs rhs v)
  unfolding visit_ptuple
  visit_ptuple-Post lhs rhs v g = chain-Post v (visit_value-Post rhs v g) (λ v₁ g₁ _.
      let (a, fail_in) = fail_block-After v₁ g₁ in
      let (fail, v₂) = fail_block v₁ in
      any-Post (checked_u16 (count_nodes (first_child lhs))) (λ len.
        let b = emit-After _ v₂ (put_chktuple-Appends len) a.good in
        let v₃ = emit (λ b. bytecode_put_chktuple b len) v₂ in
        mono-Post
          (chain-Post v₃
            (chain-Post v₃
              (jump_to-Post op_jumpifn fail v₃ tt (omega (arith, fail_in, b.more)) b.good)
              (λ v' g' _. visit_tuple_items-Post (first_child lhs) 0 v' g'))
            (λ v' g' _. post (emit_op-After op_pop v' g')))
          (λ v' a'. After_trans v₁ v₃ v' (omega (arith, a.more, b.more)) a')))

  visit_tail_named-Post :
      (named : Bool) (n : Node) (v : Visit) → IsGood v → Post (After v) (visit_tail_named named n v)
  unfolding visit_tail_named
  visit_tail_named-Post true n v g =
      chain_with-Post v (intern_ident-Post (token_string (token_of n)) v g)
        (λ (sym, v₁) g₁ _. stored sym v₁ g₁)
  visit_tail_named-Post false n v g = post (emit_op-After op_pop v g)

  visit_tail-Post : (n : Node) (v : Visit) → IsGood v → Post (After v) (visit_tail n v)
  unfolding visit_tail
  visit_tail-Post n v g = visit_tail_named-Post (flag_of n) n v g

  visit_list_items-Post :
      (fail : ℕ) (ns : Nodes) (v : Visit)
      → fail < count v
      → IsGood v
      → Post (After v) (visit_list_items r fail ns v)
  unfolding visit_list_items
  visit_list_items-Post fail nil v lt g =
      let a = emit_op-After op_chknil v g in
      let v₁ = emit_op op_chknil v in
      mono-Post
        (chain-Post v₁ (jump_to-Post op_jumpifn fail v₁ tt (omega (arith, lt, a.more)) a.good)
          (λ v' g' _. post (emit_op-After op_pop v' g')))
        (λ v' a'. After_trans v v₁ v' a.more a')
  visit_list_items-Post fail (cons (node n_pltail flag token children) ns) v lt g =
      visit_tail-Post (node n_pltail flag token children) v g
  visit_list_items-Post fail (cons n ns) v lt g =
      let a = emit_op-After op_chkcons v g in
      let v₁ = emit_op op_chkcons v in
      mono-Post
        (chain-Post v₁ (jump_to-Post op_jumpifn fail v₁ tt (omega (arith, lt, a.more)) a.good)
          (λ v₂ g₂ m₂.
            let b = emit_op-After op_uncons v₂ g₂ in
            let v₃ = emit_op op_uncons v₂ in
            mono-Post
              (chain-Post v₃ (h.pattern n none v₃ b.good) (λ v' g' m.
                visit_list_items-Post fail ns v' (omega (arith, lt, a.more, m₂, b.more, m)) g'))
              (λ v' a'. After_trans v₂ v₃ v' b.more a')))
        (λ v' a'. After_trans v v₁ v' a.more a')

  pub visit_plist-Post :
      (lhs : Node) (rhs : Option Node) (v : Visit)
      → IsGood v
      → Post (After v) (visit_plist r lhs rhs v)
  unfolding visit_plist
  visit_plist-Post lhs rhs v g = chain-Post v (visit_value-Post rhs v g) (λ v₁ g₁ _.
      let (a, fail_in) = fail_block-After v₁ g₁ in
      let (fail, v₂) = fail_block v₁ in
      mono-Post (visit_list_items-Post fail (first_child lhs) v₂ fail_in a.good)
        (λ v' a'. After_trans v₁ v₂ v' a.more a'))

  pub visit_pconst-Post :
      (lhs : Node) (rhs : Option Node) (v : Visit)
      → IsGood v
      → Post (After v) (visit_pconst r lhs rhs v)
  unfolding visit_pconst
  visit_pconst-Post (node type flag token nil) rhs v g = post tt
  visit_pconst-Post (node type flag token (cons n ns)) rhs v g =
      chain-Post v (visit_value-Post rhs v g) (λ v₁ g₁ _.
        let (a, fail_in) = fail_block-After v₁ g₁ in
        let (fail, v₂) = fail_block v₁ in
        mono-Post
          (chain-Post v₂ (h.expr n v₂ a.good) (λ v₃ g₃ m₃.
            let b = emit_op-After op_eq v₃ g₃ in
            mono-Post
              (jump_to-Post op_jumpifn fail _ tt (omega (arith, fail_in, m₃, b.more)) b.good)
              (λ v' a'. After_trans v₃ _ v' b.more a')))
          (λ v' a'. After_trans v₁ v₂ v' a.more a'))

  pub visit_pwild-Post :
      (rhs : Option Node) (v : Visit) → IsGood v → Post (After v) (visit_pwild rhs v)
  unfolding visit_pwild
  visit_pwild-Post none v g = post (emit_op-After op_pop v g)
  visit_pwild-Post (some rhs) v g = post (record { good = g; more = omega arith })
