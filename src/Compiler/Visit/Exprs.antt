-- ===== src/Compiler/Visit/Exprs.antt =====
-- The visitors of expressions that make no function.
use chammer.Prelude.{
  ℕ, zero, suc, ◌+◌, ◌-◌, Bool, true, false, Option, none, some, [], ◌∷◌, ltb, if◌then◌else◌,
}
use chammer.Prelude.Int.{pos, ◌-ℤ◌}
use chammer.Text.{string_eq}
use chammer.Buffer.{buffer_clear}
use chammer.Bytes.{checked_u8, checked_u16}
use chammer.Ast.{Node, Nodes, node, nil, cons, token_of, first_child, n_int, n_spread}
use chammer.Lexer.{token_ident}
use chammer.Tokens.{token_string}
use chammer.Bytecode.{
  op_concat, op_jump, op_jumpifn, bytecode_put_load, bytecode_put_pushstr, bytecode_put_pushint,
  bytecode_put_maketuple, bytecode_put_makelist, bytecode_put_callval,
}
use chammer.StringMap.{string_pool_intern, string_pool_get_entry}
use chammer.Compiler.Scopes.{scope_resolve_symbol, resolved, panicked, unresolved}
use chammer.Compiler.Literals.{compile_string, compile_int}
use chammer.Compiler.Blocks.{◌>>?◌}
use chammer.Compiler.Visit.{Visit, Routines, emit, emit_op, new_block_after, jump_to, intern_ident}

unfoldable pub visit_ident : Node → Visit → Option Visit
unfolding intern_ident scope_resolve_symbol emit bytecode_put_load
visit_ident n v = token_ident (token_of n) >>? λ name. intern_ident name v >>? λ (sym, v').
    elim (scope_resolve_symbol v'.scopes sym.key_at) [
      | resolved scopes id ↦
          some (emit (λ b. bytecode_put_load b id) (record v' { scopes = scopes }))
      | panicked ↦ none
      | unresolved ↦ none
    ]

unfoldable pub visit_string : Node → Visit → Option Visit
unfolding compile_string string_pool_intern buffer_clear emit bytecode_put_pushstr
visit_string n v =
    let c = v.compiler in
    let text = compile_string (token_string (token_of n)) c.string_buffer in
    let (sym, strings) = string_pool_intern c.strings text.bytes in
    sym >>? λ e.
    let (offset, len) = string_pool_get_entry e in
    some (
      emit (λ b. bytecode_put_pushstr b offset len)
        (record v { compiler = record c { strings = strings; string_buffer = buffer_clear text } }))

unfoldable pub visit_int : Node → Visit → Option Visit
unfolding compile_int emit bytecode_put_pushint
visit_int n v = compile_int (token_string (token_of n)) >>? λ value.
    some (emit (λ b. bytecode_put_pushint b value) v)

-- Is the next sibling a spread, or none at all?
abbrev pub part_ends : Nodes → Bool
part_ends nil = true
part_ends (cons (node n_spread flag token children) ns) = true
part_ends (cons n ns) = false

abbrev pub is_spread : Node → Bool
is_spread (node n_spread flag token children) = true
is_spread n = false

-- A part of elements ends: they become a list.
unfoldable pub end_part : Bool → ℕ → ℕ → Visit → Option ((ℕ × ℕ) × Visit)
unfolding emit bytecode_put_makelist
end_part true parts part_len v =
    checked_u16 part_len >>? λ len. some ((parts + 1, 0), emit (λ b. bytecode_put_makelist b len) v)
end_part false parts part_len v = some ((parts, part_len), v)

unfoldable pub concat_parts : ℕ → Visit → ℕ × Visit
unfolding emit_op
concat_parts parts v = if ltb 2 parts then (parts - 1, emit_op op_concat v) else (parts, v)

-- `len - 1` of a `size_t`; that of 0 is no byte.
abbrev pub but_one : ℕ → Option ℕ
but_one zero = none
but_one (suc n) = some n

unfoldable pub is_minus : Node → Bool
unfolding string_eq
is_minus n = string_eq (token_string (token_of n)) (b'-' ∷ [])

module _ (r : Routines) where
  -- The last sibling first, and how many they are.
  unfoldable pub visit_reverse_siblings : Nodes → Visit → Option (ℕ × Visit)
  visit_reverse_siblings nil v = some (0, v)
  visit_reverse_siblings (cons n ns) v =
      visit_reverse_siblings ns v >>? λ (len, v'). r.expr n v' >>? λ v''. some (len + 1, v'')

  unfoldable pub visit_tuple : Node → Visit → Option Visit
  unfolding visit_reverse_siblings emit bytecode_put_maketuple
  visit_tuple n v = visit_reverse_siblings (first_child n) v >>? λ (len, v').
      checked_u16 len >>? λ len. some (emit (λ b. bytecode_put_maketuple b len) v')

  abbrev pub visit_element : Node → ℕ → ℕ → Visit → Option ((ℕ × ℕ) × Visit)
  visit_element (node n_spread flag token (cons child _)) parts part_len v =
      r.expr child v >>? λ v'. some ((parts + 1, part_len), v')
  visit_element (node n_spread flag token nil) parts part_len v = none
  visit_element n parts part_len v = r.expr n v >>? λ v'. some ((parts, part_len + 1), v')

  -- The loop of `visit_list`, with its counters.
  unfoldable pub visit_elements : Nodes → ℕ → ℕ → Visit → Option Visit
  unfolding end_part concat_parts
  visit_elements nil parts part_len v = some v
  visit_elements (cons n ns) parts part_len v =
      visit_element n parts part_len v >>? λ ((parts₁, len₁), v₁).
      end_part (if is_spread n then false else part_ends ns) parts₁ len₁ v₁
      >>? λ ((parts₂, len₂), v₂).
          let (parts₃, v₃) = concat_parts parts₂ v₂ in visit_elements ns parts₃ len₂ v₃

  unfoldable pub visit_list : Node → Visit → Option Visit
  unfolding visit_elements emit bytecode_put_makelist
  visit_list n v = elim (first_child n) [
    | nil ↦ some (emit (λ b. bytecode_put_makelist b 0) v)
    | cons m ms ↦ visit_elements (cons m ms) 1 0 v
  ]

  unfoldable pub call_unary : Node → Node → Visit → Option Visit
  unfolding visit_ident emit bytecode_put_callval
  call_unary n child v =
      r.expr child v >>? visit_ident n >>? λ v'. some (emit (λ b. bytecode_put_callval b 1) v')

  -- A minus before a number is part of it.
  unfoldable pub visit_unary : Node → Visit → Option Visit
  unfolding is_minus call_unary compile_int emit bytecode_put_pushint
  visit_unary (node type flag token nil) v = none
  visit_unary (node type flag token (cons (node n_int flag' token' children) ns)) v =
      if is_minus (node type flag token nil)
      then (compile_int (token_string token') >>? λ value.
          some (emit (λ b. bytecode_put_pushint b (pos 0 -ℤ value)) v))
      else call_unary (node type flag token nil) (node n_int flag' token' children) v
  visit_unary (node type flag token (cons child ns)) v =
      call_unary (node type flag token nil) child v

  unfoldable pub visit_binary : Node → Visit → Option Visit
  unfolding visit_reverse_siblings visit_ident emit bytecode_put_callval
  visit_binary n v = visit_reverse_siblings (first_child n) v >>? λ (len, v').
      visit_ident n v' >>? λ v''. some (emit (λ b. bytecode_put_callval b 2) v'')

  -- The callee is the first sibling, and not an argument.
  unfoldable pub visit_apply : Node → Visit → Option Visit
  unfolding visit_reverse_siblings emit bytecode_put_callval
  visit_apply n v = visit_reverse_siblings (first_child n) v >>? λ (len, v').
      but_one len >>? checked_u8 >>? λ args. some (emit (λ b. bytecode_put_callval b args) v')

  unfoldable pub visit_if : Node → Visit → Option Visit
  unfolding new_block_after jump_to
  visit_if (node type flag token (cons cond (cons then_node (cons else_node ns)))) v =
      let (else_block, v₁) = new_block_after v.block v in
      r.expr cond v₁ >>? jump_to op_jumpifn else_block >>? r.expr then_node >>? λ v₂.
      let (cont_block, v₃) = new_block_after v₂.block v₂ in
      r.expr else_node (record v₃ { block = else_block }) >>? jump_to op_jump cont_block >>? λ v₄.
      some (record v₄ { block = cont_block })
  visit_if n v = none
