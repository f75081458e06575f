-- ===== src/Parser/Total/Statements.antt =====
-- Statements, blocks and the simpler expressions of lib/parser.c.
use chammer.Prelude.{ℕ, zero, suc, ◌+◌, ◌*◌, ◌≤◌, ◌<◌, refl, true, false, [], ◌∷◌, arith, length}
use chammer.Tokens.{
  Token, TokenType, t_let, t_if, t_then, t_else, t_match, t_case, t_eq, t_larrow, t_rarrow,
  t_bslash, t_copen, t_cclose, t_semi, t_op, same_type,
}
use chammer.Ast.{Nodes, NodeType, append_node, nil, one}
use chammer.Parser.{Parser, Routine, parse_ok}
use chammer.Parser.Frames.{
  rest_of, Moved, Moved-refl, Moved-weaken, Moved-trans, Post, post, Failed,
}
use chammer.Parser.Frames.Rules.{bind_ok, try_token_ok, test_ok, nodes_ok, Stopped-here}
use chammer.Parser.Frames.Rules.Routines.{rebase, after_ok, push_ok, attempt_ok, then_ok}
use chammer.Parser.Total.{
  Total, rank, SelfOk, frame-Total, choice_ok, many_loop_ok, expect_one, expr_here, then_expr,
  then_pattern,
}
use chammer.Parser.Grammar.{
  Self, expr_all, no_binary, no_operation, parse_atom, parse_assign, parse_bind, parse_void,
  parse_stmt, block_loop, parse_block_body, parse_block, parse_if, match_loop, parse_match,
  parse_lambda, parse_apply, parse_unary, many_loop,
}

pub parse_atom_ok :
    {n : ℕ} (k : ℕ) (ty : TokenType) (nt : NodeType) → Total n k 1 (parse_atom ty nt)
unfolding parse_atom
parse_atom_ok k ty nt =
    frame-Total _ _
      (λ p t room. (bind_ok (expect_one ty (Moved-refl p t)) (λ tok q u m. push_ok _ m)))

module _ {n : ℕ} {self : Self} (ok : SelfOk n self) where
  parse_assign_ok : Total (suc n) 1 1 (parse_assign self)
  unfolding parse_assign
  parse_assign_ok = frame-Total _ _ (λ p t room.
      (bind_ok (expect_one t_let (Moved-refl p t)) (λ _ q u m.
        bind_ok (then_pattern ok true room m) (λ _ q u m. bind_ok (expect_one t_eq m) (λ _ q u m.
          bind_ok (then_expr ok expr_all room m)
            (λ _ q u m. bind_ok (expect_one t_semi m) (λ _ q u m. push_ok _ m)))))))

  parse_bind_ok : Total (suc n) 1 1 (parse_bind self)
  unfolding parse_bind
  parse_bind_ok = frame-Total _ _ (λ p t room.
      (bind_ok (expect_one t_let (Moved-refl p t)) (λ _ q u m.
        bind_ok (then_pattern ok true room m) (λ _ q u m.
          bind_ok (expect_one t_larrow m) (λ _ q u m.
            bind_ok (then_expr ok expr_all room m)
              (λ _ q u m. bind_ok (expect_one t_semi m) (λ _ q u m. push_ok _ m)))))))

  parse_void_ok : Total n 3 1 (parse_void self)
  unfolding parse_void
  parse_void_ok = frame-Total _ _ (λ p t room.
      (bind_ok
        (then_ok 1 (self.expr expr_all) (Moved-refl p t)
          (expr_here ok expr_all room (Moved-refl p t)))
        (λ _ q u m. bind_ok (expect_one t_semi m) (λ _ q u m. push_ok _ m))))

  parse_stmt_ok : Total n 3 1 (parse_stmt self)
  unfolding parse_stmt
  parse_stmt_ok = frame-Total _ _ (λ p t room.
      (choice_ok 3 (parse_bind self) (parse_assign self ∷ parse_void self ∷ []) parse_ok
        (
          (λ p t h. parse_bind_ok p t (omega arith)),
          ((λ p t h. parse_assign_ok p t (omega arith)), (parse_void_ok, tt)),
        )
        room))

  block_loop_ok :
      (fuel : ℕ) (items : Nodes) (p : Parser) (t : Token)
      → length (rest_of t) < fuel
      → 4 * length (rest_of t) + 3 ≤ n
      → Post (λ a. Moved 0 p t) p t (block_loop self fuel items p t)
  unfolding block_loop
  block_loop_ok zero items p t lt room = elim lt [ ]
  block_loop_ok (suc fuel) items p t lt room =
      attempt_ok 1 (parse_stmt self) _ (Moved-refl p t) (parse_stmt_ok p t room)
        (λ q u m. after_ok 0 0 m (omega arith) (
          block_loop_ok fuel (append_node items q.node) q u (omega (arith, m.taken))
            (omega (arith, m.taken))))
        (λ q u. post) (λ q u. post) (λ q u. post)

  -- The body of a block may be empty, so it may take no byte.
  pub parse_block_body_ok : Total n 3 0 (parse_block_body self)
  unfolding parse_block_body
  parse_block_body_ok = frame-Total _ _ (λ p t room.
      (bind_ok (block_loop_ok (suc (length (rest_of t))) nil p t (omega arith) room) (λ _ q u m.
        attempt_ok 1 (self.expr expr_all) _ m (expr_here ok expr_all room m)
          (λ q u m. push_ok _ (Moved-weaken 0 (omega arith) m)) (λ q u. push_ok _)
          (λ q u. push_ok _) (λ q u. push_ok _))))

  pub parse_block_ok : Total (suc n) 1 1 (parse_block self)
  unfolding parse_block
  parse_block_ok = frame-Total _ _ (λ p t room.
      (bind_ok (expect_one t_copen (Moved-refl p t)) (λ _ q u m.
        bind_ok
          (then_ok 0 (parse_block_body self) m (parse_block_body_ok q u (omega (arith, m.taken))))
          (λ _ q u m. bind_ok (expect_one t_cclose m) (λ _ q u. post)))))

  pub parse_if_ok : Total (suc n) 1 1 (parse_if self)
  unfolding parse_if
  parse_if_ok = frame-Total _ _ (λ p t room.
      (bind_ok (expect_one t_if (Moved-refl p t)) (λ _ q u m.
        bind_ok (then_expr ok expr_all room m) (λ _ q u m. bind_ok (expect_one t_then m) (λ _ q u m.
          bind_ok (then_expr ok expr_all room m) (λ _ q u m.
            bind_ok (expect_one t_else m)
              (λ _ q u m. bind_ok (then_expr ok expr_all room m) (λ _ q u m. push_ok _ m))))))))

  pub parse_unary_ok : Total (suc n) 1 1 (parse_unary self)
  unfolding parse_unary
  parse_unary_ok = frame-Total _ _ (λ p t room.
      (bind_ok (expect_one t_op (Moved-refl p t))
        (λ _ q u m. bind_ok (then_expr ok no_binary room m) (λ _ q u m. push_ok _ m))))

  -- A loop over one routine within a frame that has taken a byte.
  pub many_later :
      {p p' : Parser} {t t' : Token} (routine : Routine) (items : Nodes)
      → Total n 4 1 routine
      → 4 * length (rest_of t) + 1 ≤ suc n
      → Moved 1 p t p' t'
      → Post
          (λ a q u. Failed a.1 × Moved 1 p t q u)
          p
          t
          (many_loop routine (suc (length (rest_of t'))) items p' t')
  many_later {p' = p'} {t' = t'} routine items h room m =
      rebase m
        (many_loop_ok 4 routine (suc (length (rest_of t'))) items p' t' h (omega arith)
          (omega (arith, m.taken)))
        (λ a q u x. (x.0, Moved-trans m x.1))

  pub parse_lambda_ok : Total (suc n) 1 1 (parse_lambda self)
  unfolding parse_lambda
  parse_lambda_ok = frame-Total _ _ (λ p t room.
      bind_ok (expect_one t_bslash (Moved-refl p t)) (λ _ q u m.
        bind_ok (many_later (self.pattern false) nil (ok.pattern_ok false) room m) (λ a q u x.
          nodes_ok a.0 _ _ (post (Stopped-here x.1 q refl (omega arith) x.0)) (λ _ _.
            bind_ok (expect_one t_rarrow x.1)
              (λ _ q u m. bind_ok (then_expr ok expr_all room m) (λ _ q u m. push_ok _ m))))))

  pub parse_apply_ok : Total (suc n) 2 1 (parse_apply self)
  unfolding parse_apply rank
  parse_apply_ok = frame-Total _ _ (λ p t room.
      bind_ok
        (then_ok 1 (self.expr no_operation) (Moved-refl p t)
          (ok.expr_ok no_operation p t (omega arith)))
        (λ func q u m.
          bind_ok
            (many_later (self.expr no_operation) (one func)
              (λ p t h. ok.expr_ok no_operation p t (omega arith)) (omega arith) m)
            (λ a q u x. nodes_ok a.0 _ _ (post (Stopped-here x.1 q refl (omega arith) x.0)) (λ _ ns.
              nodes_ok ns _ _ (post (Stopped-here x.1 q refl (omega arith) x.0))
                (λ _ _. push_ok _ x.1)))))

  match_loop_ok :
      (fuel : ℕ) (items : Nodes) (p : Parser) (t : Token)
      → length (rest_of t) < fuel
      → 4 * length (rest_of t) + 1 ≤ suc n
      → Post (λ a. Moved 0 p t) p t (match_loop self fuel items p t)
  unfolding match_loop
  match_loop_ok zero items p t lt room = elim lt [ ]
  match_loop_ok (suc fuel) items p t lt room =
      try_token_ok _ (Moved-refl p t)
        (λ peek _ m.
          test_ok (same_type peek.type t_case) _ _
            (bind_ok (then_pattern ok false room m) (λ _ q u m.
              bind_ok (expect_one t_then m) (λ _ q u m.
                bind_ok (then_expr ok expr_all room m) (λ _ q u m.
                  after_ok 0 0 m (omega arith)
                    (match_loop_ok fuel _ q u (omega (arith, m.taken)) (omega (arith, m.taken)))))))
            (test_ok (same_type peek.type t_else) _ _
              (bind_ok (then_expr ok expr_all room m) (λ _ q u m.
                after_ok 0 0 m (omega arith)
                  (match_loop_ok fuel _ q u (omega (arith, m.taken)) (omega (arith, m.taken)))))
              (post (Moved-refl p t))))
        (λ _ _. post (Moved-refl p t)) (λ _ _. post (Moved-refl p t)) (λ _ _. post (Moved-refl p t))

  pub parse_match_ok : Total (suc n) 1 1 (parse_match self)
  unfolding parse_match
  parse_match_ok = frame-Total _ _ (λ p t room.
      bind_ok (expect_one t_match (Moved-refl p t)) (λ _ q u m.
        bind_ok (then_expr ok expr_all room m) (λ scrutinee q u m.
          bind_ok
            (after_ok 0 1 m (omega arith) (
              match_loop_ok (suc (length (rest_of u))) (one scrutinee) q u (omega arith)
                (omega (arith, m.taken))))
            (λ _ q u m. push_ok _ m))))
