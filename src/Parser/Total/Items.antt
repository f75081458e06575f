-- ===== src/Parser/Total/Items.antt =====
-- Tuples, parentheses and lists of lib/parser.c.
use chammer.Prelude.{ℕ, zero, suc, ◌+◌, ◌*◌, ◌≤◌, ◌<◌, refl, false, arith, length}
use chammer.Tokens.{Token, t_popen, t_pclose, t_sopen, t_sclose, t_comma, t_ellips, same_type}
use chammer.Ast.{node, Nodes, nil, cons, NodeType, no_token, append_node, one, n_tuple}
use chammer.Parser.{Parser, Routine}
use chammer.Parser.Frames.{rest_of, Moved, Moved-refl, Moved-weaken, Post, post}
use chammer.Parser.Frames.Rules.{bind_ok, next_token_ok, test_ok, nodes_ok, Stopped-here}
use chammer.Parser.Frames.Rules.Routines.{after_ok, push_ok, set_ok, attempt_ok, then_ok}
use chammer.Parser.Total.{Total, SelfOk, frame-Total, expect_one, expr_here, then_expr}
use chammer.Parser.Grammar.{Self, expr_all}
use chammer.Parser.Grammar.Sequences.{
  close_tuple, tuple_loop, list_loop, parse_spread, parse_list_or_tuple_item, parse_tuple_or_parens,
  parse_list,
}

close_tuple_ok :
    {d : ℕ} {p p' : Parser} {t t' : Token} (type : NodeType) (items : Nodes)
    → Moved d p t p' t'
    → Post (λ a. Moved d p t) p t (close_tuple type items p' t')
close_tuple_ok type nil m = push_ok (node type false no_token nil) m
close_tuple_ok type (cons n nil) m = set_ok n m
close_tuple_ok type (cons n (cons a as')) m =
    push_ok (node type false no_token (cons n (cons a as'))) m

pub tuple_loop_ok :
    {n : ℕ} (item : Routine) (type : NodeType) (fuel : ℕ) (items : Nodes) (p : Parser) (t : Token)
    → Total n 4 1 item
    → length (rest_of t) < fuel
    → 4 * length (rest_of t) + 4 ≤ n
    → Post (λ a. Moved 0 p t) p t (tuple_loop item type fuel items p t)
unfolding tuple_loop
tuple_loop_ok item type zero items p t h lt room = elim lt [ ]
tuple_loop_ok {n} item type (suc fuel) items p t h lt room =
    let again : (items : Nodes) (q : Parser) (u : Token)
        → Moved 1 p t q u
        → Post (λ a. Moved 0 p t) p t (tuple_loop item type fuel items q u) =
      λ items q u m. after_ok 0 0 m (omega arith) (
        tuple_loop_ok item type fuel items q u h (omega (arith, m.taken))
          (omega (arith, m.taken))) in
    bind_ok (next_token_ok (Moved-refl p t)) (λ peek q u x.
      let m = Moved-weaken 0 (omega arith) x.1 in
      test_ok (same_type peek.type t_pclose) _ _ (close_tuple_ok type items m) (
        test_ok (same_type peek.type t_comma) _ _
          (nodes_ok items _ _
            (post (Stopped-here m (record q { expected_token = t_pclose }) refl (omega arith) tt))
            (λ n ns. bind_ok (next_token_ok x.1) (λ behind q u y.
              test_ok (same_type behind.type t_pclose) _ _
                (push_ok _ (Moved-weaken 0 (omega arith) y.1)) (again (cons n ns) q u y.0))))
          (bind_ok (then_ok 1 item x.0 (h q u (omega (arith, x.0.taken))))
            (λ n q u m. again (append_node items n) q u m))))

pub list_loop_ok :
    {n : ℕ} (item : Routine) (fuel : ℕ) (items : Nodes) (p : Parser) (t : Token)
    → Total n 4 1 item
    → length (rest_of t) < fuel
    → 4 * length (rest_of t) + 4 ≤ n
    → Post (λ a. Moved 0 p t) p t (list_loop item fuel items p t)
unfolding list_loop
list_loop_ok item zero items p t h lt room = elim lt [ ]
list_loop_ok {n} item (suc fuel) items p t h lt room =
    let again : (items : Nodes) (q : Parser) (u : Token)
        → Moved 1 p t q u
        → Post (λ a. Moved 0 p t) p t (list_loop item fuel items q u) =
      λ items q u m.
        after_ok 0 0 m (omega arith)
          (list_loop_ok item fuel items q u h (omega (arith, m.taken)) (omega (arith, m.taken))) in
    bind_ok (next_token_ok (Moved-refl p t)) (λ peek q u x.
      let m = Moved-weaken 0 (omega arith) x.1 in
      test_ok (same_type peek.type t_sclose) _ _ (push_ok _ m) (
        test_ok (same_type peek.type t_comma) _ _
          (nodes_ok items _ _
            (post (Stopped-here m (record q { expected_token = t_sclose }) refl (omega arith) tt))
            (λ n ns. bind_ok (next_token_ok x.1) (λ behind q u y.
              test_ok (same_type behind.type t_sclose) _ _
                (push_ok _ (Moved-weaken 0 (omega arith) y.1))
                (bind_ok (then_ok 1 item y.0 (h q u (omega (arith, y.0.taken)))) (λ a q u m.
                  again (append_node (cons n ns) a) q u (Moved-weaken 1 (omega arith) m))))))
          (nodes_ok items _ _
            (bind_ok (then_ok 1 item x.0 (h q u (omega (arith, x.0.taken))))
              (λ a q u m. again (one a) q u m))
            (λ n ns.
              post
                (Stopped-here x.0 (record q { expected_token = t_comma }) refl (omega arith) tt)))))

module _ {n : ℕ} {self : Self} (ok : SelfOk n self) where
  parse_spread_ok : Total (suc n) 1 1 (parse_spread self)
  unfolding parse_spread
  parse_spread_ok = frame-Total _ _ (λ p t room.
      bind_ok (expect_one t_ellips (Moved-refl p t))
        (λ _ q u m. bind_ok (then_expr ok expr_all room m) (λ _ q u m. push_ok _ m)))

  parse_list_or_tuple_item_ok : Total n 4 1 (parse_list_or_tuple_item self)
  unfolding parse_list_or_tuple_item
  parse_list_or_tuple_item_ok = frame-Total _ _ (λ p t room.
      let other : (q : Parser) (u : Token) → Moved 0 p t q u → Post (λ a. Moved 1 p t) p t _ =
        λ q u m.
          bind_ok (then_ok 1 (self.expr expr_all) m (expr_here ok expr_all (omega arith) m))
            (λ _ q u. post) in
      attempt_ok 1 (parse_spread self) _ (Moved-refl p t) (parse_spread_ok p t (omega arith))
        (λ q u. post) other other other)

  pub parse_tuple_or_parens_ok : Total (suc n) 1 1 (parse_tuple_or_parens self)
  unfolding parse_tuple_or_parens
  parse_tuple_or_parens_ok = frame-Total _ _ (λ p t room.
      bind_ok (expect_one t_popen (Moved-refl p t)) (λ _ q u m. after_ok 0 1 m (omega arith) (
        tuple_loop_ok (parse_list_or_tuple_item self) n_tuple (suc (length (rest_of u))) nil q u
          parse_list_or_tuple_item_ok (omega arith) (omega (arith, m.taken)))))

  pub parse_list_ok : Total (suc n) 1 1 (parse_list self)
  unfolding parse_list
  parse_list_ok = frame-Total _ _ (λ p t room.
      bind_ok (expect_one t_sopen (Moved-refl p t)) (λ _ q u m. after_ok 0 1 m (omega arith) (
        list_loop_ok (parse_list_or_tuple_item self) (suc (length (rest_of u))) nil q u
          parse_list_or_tuple_item_ok (omega arith) (omega (arith, m.taken)))))
