-- ===== src/Parser/Total/Patterns.antt =====
-- Patterns of lib/parser.c.
use chammer.Prelude.{
  ℕ, zero, suc, ◌+◌, ◌*◌, ◌≤◌, ◌<◌, refl, Bool, true, false, [], ◌∷◌, if◌then◌else◌, arith, length,
}
use chammer.Tokens.{
  Token, t_ident, t_at, t_under, t_rec, t_popen, t_sopen, t_sclose, t_comma, t_ellips, same_type,
}
use chammer.Ast.{
  node, Nodes, nil, cons, no_token, append_node, one, n_pltail, n_ptuple, n_pident, n_pwild,
}
use chammer.Parser.{Parser, Routine, parse_ok}
use chammer.Parser.Frames.{rest_of, Moved, Moved-refl, Moved-weaken, Post, post}
use chammer.Parser.Frames.Rules.{
  bind_ok, same-Moved, next_token_ok, try_token_ok, test_ok, nodes_ok, Stopped-here,
}
use chammer.Parser.Frames.Rules.Routines.{after_ok, push_ok, set_ok, attempt_ok, then_ok}
use chammer.Parser.Total.{
  Total, AllTotal, AllTotal-append, SelfOk, frame-Total, choice_ok, expect_one, expr_here,
  then_pattern,
}
use chammer.Parser.Total.Statements.{parse_atom_ok, many_later}
use chammer.Parser.Total.Items.{tuple_loop_ok}
use chammer.Parser.Grammar.{Self, expr_all}
use chammer.Parser.Grammar.Patterns.{
  parse_pident, parse_pwild, parse_pltail, plist_loop, parse_palias, papply_rest, parse_papply,
  parse_ptuple_or_parens, parse_plist_item, parse_plist, parse_pconst, parse_pattern,
}

parse_pltail_ok : {n : ℕ} (k : ℕ) → Total n k 1 parse_pltail
unfolding parse_pltail
parse_pltail_ok k = frame-Total _ _ (λ p t room.
    bind_ok (expect_one t_ellips (Moved-refl p t)) (λ _ q u m.
      let pushed = record q {
        nodes_len = q.nodes_len + 1;
        node = node n_pltail false no_token nil;
      } in
      let m = same-Moved pushed m refl (omega arith) in
      try_token_ok _ m
        (λ peek _ m'.
          test_ok (same_type peek.type t_ident) _ _ (set_ok _ (Moved-weaken 1 (omega arith) m'))
            (post m))
        (λ _ _. post m) (λ _ _. post m) (λ _ _. post m)))

pub plist_loop_ok :
    {n : ℕ} (item : Routine) (fuel : ℕ) (items : Nodes) (p : Parser) (t : Token)
    → Total n 4 1 item
    → length (rest_of t) < fuel
    → 4 * length (rest_of t) + 4 ≤ n
    → Post (λ a. Moved 0 p t) p t (plist_loop item fuel items p t)
unfolding plist_loop
plist_loop_ok item zero items p t h lt room = elim lt [ ]
plist_loop_ok {n} item (suc fuel) items p t h lt room =
    let again : (items : Nodes) (q : Parser) (u : Token)
        → Moved 1 p t q u
        → Post (λ a. Moved 0 p t) p t (plist_loop item fuel items q u) =
      λ items q u m.
        after_ok 0 0 m (omega arith)
          (plist_loop_ok item fuel items q u h (omega (arith, m.taken)) (omega (arith, m.taken))) in
    bind_ok (next_token_ok (Moved-refl p t)) (λ peek q u x.
      let m = Moved-weaken 0 (omega arith) x.1 in
      test_ok (same_type peek.type t_sclose) _ _ (push_ok _ m) (
        test_ok (same_type peek.type t_comma) _ _
          (nodes_ok items _ _
            (post (Stopped-here m (record q { expected_token = t_sclose }) refl (omega arith) tt))
            (λ n ns.
              bind_ok (then_ok 1 item x.1 (h q peek (omega (arith, x.1.taken)))) (λ a q u m.
                again (append_node (cons n ns) a) q u (Moved-weaken 1 (omega arith) m))))
          (nodes_ok items _ _
            (bind_ok (then_ok 1 item x.0 (h q u (omega (arith, x.0.taken))))
              (λ a q u m. again (one a) q u m))
            (λ n ns.
              post
                (Stopped-here x.0 (record q { expected_token = t_comma }) refl (omega arith) tt)))))

module _ {n : ℕ} {self : Self} (ok : SelfOk n self) where
  parse_palias_ok : Total (suc n) 1 1 (parse_palias self)
  unfolding parse_palias
  parse_palias_ok = frame-Total _ _ (λ p t room.
      bind_ok (expect_one t_ident (Moved-refl p t)) (λ _ q u m.
        bind_ok (expect_one t_at m)
          (λ _ q u m. bind_ok (then_pattern ok false room m) (λ _ q u m. push_ok _ m))))

  papply_rest_ok :
      {d : ℕ} {p p' : Parser} {t t' : Token} (rec_flag : Bool)
      → 4 * length (rest_of t) + 1 ≤ suc n
      → Moved d p t p' t'
      → Post (λ a. Moved 1 p t) p t (papply_rest self rec_flag p' t')
  unfolding papply_rest
  papply_rest_ok rec_flag room m = bind_ok (expect_one t_ident m) (λ _ q u m.
      bind_ok (many_later ok (self.pattern false) nil (ok.pattern_ok false) room m) (λ a q u x.
        nodes_ok a.0 _ _ (post (Stopped-here x.1 q refl (omega arith) x.0)) (λ _ _. push_ok _ x.1)))

  parse_papply_ok : Total (suc n) 1 1 (parse_papply self)
  unfolding parse_papply
  parse_papply_ok = frame-Total _ _ (λ p t room.
      bind_ok (next_token_ok (Moved-refl p t)) (λ peek q u x.
        test_ok (same_type peek.type t_rec) _ _ (papply_rest_ok true room x.1)
          (papply_rest_ok false room x.0)))

  parse_ptuple_or_parens_ok : Total (suc n) 1 1 (parse_ptuple_or_parens self)
  unfolding parse_ptuple_or_parens
  parse_ptuple_or_parens_ok = frame-Total _ _ (λ p t room.
      bind_ok (expect_one t_popen (Moved-refl p t)) (λ _ q u m. after_ok 0 1 m (omega arith) (
        tuple_loop_ok (self.pattern true) n_ptuple (suc (length (rest_of u))) nil q u
          (ok.pattern_ok true) (omega arith) (omega (arith, m.taken)))))

  parse_plist_item_ok : Total n 4 1 (parse_plist_item self)
  unfolding parse_plist_item
  parse_plist_item_ok = frame-Total _ _ (λ p t room.
      let other : (q : Parser) (u : Token) → Moved 0 p t q u → Post (λ a. Moved 1 p t) p t _ =
        λ q u m.
          bind_ok
            (then_ok 1 (self.pattern true) m (ok.pattern_ok true q u (omega (arith, m.taken))))
            (λ _ q u. post) in
      attempt_ok 1 parse_pltail _ (Moved-refl p t) (parse_pltail_ok 4 p t room) (λ q u. post) other
        other other)

  parse_plist_ok : Total (suc n) 1 1 (parse_plist self)
  unfolding parse_plist
  parse_plist_ok = frame-Total _ _ (λ p t room.
      bind_ok (expect_one t_sopen (Moved-refl p t)) (λ _ q u m. after_ok 0 1 m (omega arith) (
        plist_loop_ok (parse_plist_item self) (suc (length (rest_of u))) nil q u parse_plist_item_ok
          (omega arith) (omega (arith, m.taken)))))

  parse_pconst_ok : Total (suc n) 4 1 (parse_pconst self)
  unfolding parse_pconst
  parse_pconst_ok = frame-Total _ _ (λ p t room.
      bind_ok
        (then_ok 1 (self.expr expr_all) (Moved-refl p t)
          (expr_here ok expr_all (omega arith) (Moved-refl p t)))
        (λ _ q u m. push_ok _ m))

  others_total : AllTotal (suc n) 4 (
      parse_ptuple_or_parens self
      ∷ parse_plist self
      ∷ parse_pident
      ∷ parse_pwild
      ∷ parse_pconst self
      ∷ [])
  others_total = (
    (λ p t h. parse_ptuple_or_parens_ok p t (omega arith)),
    (
      (λ p t h. parse_plist_ok p t (omega arith)),
      (parse_atom_ok 4 t_ident n_pident, (parse_atom_ok 4 t_under n_pwild, (parse_pconst_ok, tt))),
    ),
  )

  papply_total : (apply : Bool) → AllTotal (suc n) 4 (if apply then parse_papply self ∷ [] else [])
  papply_total true = ((λ p t h. parse_papply_ok p t (omega arith)), tt)
  papply_total false = tt

  pub parse_pattern_ok : (apply : Bool) → Total (suc n) 4 1 (parse_pattern self apply)
  unfolding parse_pattern
  parse_pattern_ok apply = frame-Total _ _ (λ p t room.
      choice_ok 4 (parse_palias self) _ parse_ok
        (
          (λ p t h. parse_palias_ok p t (omega arith)),
          AllTotal-append (suc n) 4 _ _ (papply_total apply) others_total,
        )
        room)
