-- ===== src/Compiler/Visit/Links/Exprs.antt =====
-- The visitors of expressions that make no function keep the blocks linked.
use chammer.Prelude.{
  ℕ, ◌-◌, ◌<◌, Bool, true, false, Option, none, some, List, arith, if◌then◌else◌, ltb,
}
use chammer.Prelude.Int.{pos, ◌-ℤ◌}
use chammer.Buffer.{Buffer, buffer_clear}
use chammer.Bytes.{checked_u8, checked_u16}
use chammer.Ast.{Node, Nodes, node, nil, cons, n_int, n_spread, first_child, token_of}
use chammer.Lexer.{token_ident}
use chammer.Tokens.{token_string}
use chammer.Bytecode.{op_concat, op_jump, op_jumpifn, bytecode_put_load, bytecode_put_pushint}
use chammer.StringMap.{string_pool_intern, string_pool_get_entry}
use chammer.Compiler.Scopes.{Resolved, scope_resolve_symbol, resolved, panicked, unresolved}
use chammer.Compiler.Literals.{compile_string, compile_int}
use chammer.Compiler.Blocks.{◌>>?◌}
use chammer.Compiler.Blocks.Post.{Post, post, bind-Post, any-Post, mono-Post}
use chammer.Compiler.Blocks.Appends.{
  Appends, put_load-Appends, put_pushint-Appends, put_pushstr-Appends, put_callval-Appends,
  put_maketuple-Appends, put_makelist-Appends,
}
use chammer.Compiler.Blocks.Steps.{pools-IsLinked}
use chammer.Compiler.Visit.{Visit, Routines, emit, emit_op, new_block_after, jump_to}
use chammer.Compiler.Visit.Exprs.{
  but_one, visit_ident, visit_string, visit_int, visit_reverse_siblings, visit_tuple, end_part,
  concat_parts, visit_element, visit_elements, visit_list, call_unary, is_minus, visit_unary,
  visit_binary, visit_apply, visit_if, is_spread, part_ends,
}
use chammer.Compiler.Visit.Links.{
  count, IsGood, After, After_trans, chain-Post, chain_with-Post, emit-After, emit_op-After,
  new_block_after-After, jump_to-Post, intern_ident-Post, scopes-After, compiler-After, at_block,
  Links,
}

emitted :
    (f : Buffer → Buffer) (v : Visit) → Appends f → IsGood v → Post (After v) (some (emit f v))
emitted f v appends g = post (emit-After f v appends g)

pub visit_ident-Post : (n : Node) (v : Visit) → IsGood v → Post (After v) (visit_ident n v)
unfolding visit_ident
visit_ident-Post n v g = any-Post (token_ident (token_of n)) (λ name.
    chain_with-Post v (intern_ident-Post name v g)
      (λ (sym, v') g' _. loaded v' g' (scope_resolve_symbol v'.scopes sym.key_at)))
  where
    loaded :
        (v' : Visit)
        → IsGood v'
        → (o : Resolved)
        → Post (After v') (elim o [
          | resolved scopes id ↦
              some (emit (λ b. bytecode_put_load b id) (record v' { scopes = scopes }))
          | panicked ↦ none
          | unresolved ↦ none
        ])
    loaded v' g' (resolved scopes id) =
        let a = scopes-After scopes v' g' in
        post (
          After_trans v' (record v' { scopes = scopes }) _ a.more
            (emit-After _ _ (put_load-Appends id) a.good))
    loaded v' g' panicked = post tt
    loaded v' g' unresolved = post tt

pub visit_string-Post : (n : Node) (v : Visit) → IsGood v → Post (After v) (visit_string n v)
unfolding visit_string
visit_string-Post n v g =
    let c = v.compiler in
    let text = compile_string (token_string (token_of n)) c.string_buffer in
    let (sym, strings) = string_pool_intern c.strings text.bytes in
    any-Post sym (λ e.
      let (offset, len) = string_pool_get_entry e in
      let a =
        compiler-After _ v (pools-IsLinked c (buffer_clear text) strings c.idents g.linked)
          (omega arith) g in
      post (After_trans v _ _ a.more (emit-After _ _ (put_pushstr-Appends offset len) a.good)))

pub visit_int-Post : (n : Node) (v : Visit) → IsGood v → Post (After v) (visit_int n v)
unfolding visit_int
visit_int-Post n v g =
    any-Post (compile_int (token_string (token_of n)))
      (λ value. emitted _ v (put_pushint-Appends value) g)

module _ (r : Routines) (h : Links r) where
  pub visit_reverse_siblings-Post :
      (ns : Nodes) (v : Visit) → IsGood v → Post (λ x. After v x.1) (visit_reverse_siblings r ns v)
  unfolding visit_reverse_siblings
  visit_reverse_siblings-Post nil v g = post (record { good = g; more = omega arith })
  visit_reverse_siblings-Post (cons n ns) v g =
      bind-Post (visit_reverse_siblings-Post ns v g) (λ (len, v') a.
        bind-Post (h.expr n v' a.good) (λ v'' a'. post (After_trans v v' v'' a.more a')))

  pub visit_tuple-Post : (n : Node) (v : Visit) → IsGood v → Post (After v) (visit_tuple r n v)
  unfolding visit_tuple
  visit_tuple-Post n v g =
      chain_with-Post v (visit_reverse_siblings-Post (first_child n) v g) (λ (len, v') g' _.
        any-Post (checked_u16 len) (λ len. emitted _ v' (put_maketuple-Appends len) g'))

  pub visit_binary-Post : (n : Node) (v : Visit) → IsGood v → Post (After v) (visit_binary r n v)
  unfolding visit_binary
  visit_binary-Post n v g =
      chain_with-Post v (visit_reverse_siblings-Post (first_child n) v g) (λ (len, v') g' _.
        chain-Post v' (visit_ident-Post n v' g')
          (λ v'' g'' _. emitted _ v'' (put_callval-Appends 2) g''))

  pub visit_apply-Post : (n : Node) (v : Visit) → IsGood v → Post (After v) (visit_apply r n v)
  unfolding visit_apply
  visit_apply-Post n v g =
      chain_with-Post v (visit_reverse_siblings-Post (first_child n) v g) (λ (len, v') g' _.
        any-Post (but_one len >>? checked_u8) (λ args. emitted _ v' (put_callval-Appends args) g'))

  call_unary-Post :
      (n child : Node) (v : Visit) → IsGood v → Post (After v) (call_unary r n child v)
  unfolding call_unary
  call_unary-Post n child v g =
      chain-Post v (chain-Post v (h.expr child v g) (λ v' g' _. visit_ident-Post n v' g'))
        (λ v' g' _. emitted _ v' (put_callval-Appends 1) g')

  negated :
      (v : Visit) (digits : List ℕ) (minus : Bool) (o : Option Visit)
      → Post (After v) o
      → IsGood v
      → Post (After v) (
          if minus
          then (compile_int digits >>? λ value.
              some (emit (λ b. bytecode_put_pushint b (pos 0 -ℤ value)) v))
          else o)
  negated v digits false o p g = p
  negated v digits true o p g =
      any-Post (compile_int digits) (λ value. emitted _ v (put_pushint-Appends (pos 0 -ℤ value)) g)

  pub visit_unary-Post : (n : Node) (v : Visit) → IsGood v → Post (After v) (visit_unary r n v)
  unfolding visit_unary
  visit_unary-Post (node type flag token nil) v g = post tt
  visit_unary-Post (node type flag token (cons (node n_int flag' token' children) ns)) v g =
      let n = node type flag token nil in
      negated v (token_string token') (is_minus n)
        (call_unary r n (node n_int flag' token' children) v)
        (call_unary-Post n (node n_int flag' token' children) v g) g
  visit_unary-Post (node type flag token (cons child ns)) v g =
      call_unary-Post (node type flag token nil) child v g

  -- The second arm, in its block, and the block that both arms end in.
  else_arm :
      (else_block : ℕ) (else_node : Node) (v : Visit)
      → else_block < count v
      → IsGood v
      → Post (After v) (
          let (cont_block, v₃) = new_block_after v.block v in
          r.expr else_node (record v₃ { block = else_block })
          >>? jump_to op_jump cont_block
          >>? λ v₄. some (record v₄ { block = cont_block }))
  else_arm else_block else_node v lt g =
      let (a, cont_in) = new_block_after-After v.block v g.block_in g in
      let (cont_block, v₃) = new_block_after v.block v in
      let v₃' = record v₃ { block = else_block } in
      mono-Post
        (chain-Post v₃'
          (chain-Post v₃'
            (h.expr else_node v₃' (at_block else_block v₃ (omega (arith, a.more)) a.good))
            (λ v' g' more. jump_to-Post op_jump cont_block v' tt (omega (arith, cont_in, more)) g'))
          (λ v₄ g₄ more. post (record {
            good = at_block cont_block v₄ (omega (arith, cont_in, more)) g₄;
            more = omega arith;
          })))
        (λ v' a'. After_trans v v₃' v' a.more a')

  pub visit_if-Post : (n : Node) (v : Visit) → IsGood v → Post (After v) (visit_if r n v)
  unfolding visit_if
  visit_if-Post (node type flag token (cons cond (cons then_node (cons else_node ns)))) v g =
      let (a, else_in) = new_block_after-After v.block v g.block_in g in
      let (else_block, v₁) = new_block_after v.block v in
      mono-Post
        (chain-Post v₁
          (chain-Post v₁
            (chain-Post v₁ (h.expr cond v₁ a.good) (λ v' g' more.
              jump_to-Post op_jumpifn else_block v' tt (omega (arith, else_in, more)) g'))
            (λ v' g' _. h.expr then_node v' g'))
          (λ v₂ g₂ more. else_arm else_block else_node v₂ (omega (arith, else_in, more)) g₂))
        (λ v' a'. After_trans v v₁ v' a.more a')
  visit_if-Post (node type flag token nil) v g = post tt
  visit_if-Post (node type flag token (cons cond nil)) v g = post tt
  visit_if-Post (node type flag token (cons cond (cons then_node nil))) v g = post tt

  end_part-Post :
      (ends : Bool) (parts part_len : ℕ) (v : Visit)
      → IsGood v
      → Post (λ x. After v x.1) (end_part ends parts part_len v)
  unfolding end_part
  end_part-Post true parts part_len v g =
      any-Post (checked_u16 part_len) (λ len. post (emit-After _ v (put_makelist-Appends len) g))
  end_part-Post false parts part_len v g = post (record { good = g; more = omega arith })

  concat_parts-After : (parts : ℕ) (v : Visit) → IsGood v → After v (concat_parts parts v).1
  unfolding concat_parts
  concat_parts-After parts v g =
      elim (ltb 2 parts)
        as (λ t.
          After v (if◌then◌else◌ {A = ℕ × Visit} t (parts - 1, emit_op op_concat v) (parts, v)).1) [
            | true ↦ emit_op-After op_concat v g
            | false ↦ record { good = g; more = omega arith }
          ]

  visit_element-Post :
      (n : Node) (parts part_len : ℕ) (v : Visit)
      → IsGood v
      → Post (λ x. After v x.1) (visit_element r n parts part_len v)
  visit_element-Post (node n_spread flag token (cons child ns)) parts part_len v g =
      bind-Post (h.expr child v g) (λ v' a. post a)
  visit_element-Post (node n_spread flag token nil) parts part_len v g = post tt
  visit_element-Post n parts part_len v g = bind-Post (h.expr n v g) (λ v' a. post a)

  visit_elements-Post :
      (ns : Nodes) (parts part_len : ℕ) (v : Visit)
      → IsGood v
      → Post (After v) (visit_elements r ns parts part_len v)
  unfolding visit_elements
  visit_elements-Post nil parts part_len v g = post (record { good = g; more = omega arith })
  visit_elements-Post (cons n ns) parts part_len v g =
      chain_with-Post v (visit_element-Post n parts part_len v g) (λ ((parts₁, len₁), v₁) g₁ _.
        chain_with-Post v₁
          (end_part-Post (if is_spread n then false else part_ends ns) parts₁ len₁ v₁ g₁)
          (λ ((parts₂, len₂), v₂) g₂ _.
            let a = concat_parts-After parts₂ v₂ g₂ in
            let (parts₃, v₃) = concat_parts parts₂ v₂ in
            mono-Post (visit_elements-Post ns parts₃ len₂ v₃ a.good)
              (λ v' a'. After_trans v₂ v₃ v' a.more a')))

  pub visit_list-Post : (n : Node) (v : Visit) → IsGood v → Post (After v) (visit_list r n v)
  unfolding visit_list
  visit_list-Post (node type flag token nil) v g = emitted _ v (put_makelist-Appends 0) g
  visit_list-Post (node type flag token (cons m ms)) v g = visit_elements-Post (cons m ms) 1 0 v g
