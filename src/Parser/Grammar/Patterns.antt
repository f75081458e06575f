-- ===== src/Parser/Grammar/Patterns.antt =====
-- The routines of lib/parser.c for patterns.
use chammer.Prelude.{ℕ, zero, suc, Bool, true, false, [], ◌∷◌, ◌++◌, if◌then◌else◌}
use chammer.Tokens.{
  lex_ok, t_rec, t_ident, t_under, t_at, t_ellips, t_popen, t_sopen, t_sclose, t_comma, same_type,
}
use chammer.Ast.{
  node, Nodes, nil, cons, no_token, append_node, one, n_pident, n_pwild, n_papply, n_ptuple,
  n_plist, n_pltail, n_palias, n_pconst,
}
use chammer.Parser.{
  Routine, M, ◌>>=◌, ◌>>◌, pure, discard, frame, then_, attempt, set_node, push_node, choice,
  next_token, try_token, expect_token, set_current, set_expected, get_rounds, fail_with, exhausted,
  parse_ok, parse_expected_token,
}
use chammer.Parser.Grammar.{Self, expr_all, parse_atom, many_loop}
use chammer.Parser.Grammar.Sequences.{tuple_loop}

abbrev pub parse_pident : Routine
parse_pident = parse_atom t_ident n_pident

abbrev pub parse_pwild : Routine
parse_pwild = parse_atom t_under n_pwild

-- The tail's node is pushed first, and named if an identifier follows.
unfoldable pub parse_pltail : Routine
unfolding frame expect_token try_token
parse_pltail = frame do
  expect_token t_ellips
  push_node (node n_pltail false no_token nil)
  (r, peek) ← try_token
  elim r [
    | lex_ok ↦ elim (same_type peek.type t_ident) [
      | true ↦ do set_current peek; set_node (node n_pltail true peek nil)
      | false ↦ pure tt
    ]
    | _ ↦ pure tt
  ]

-- Unlike `parse_list` it takes no comma in front of the closing bracket.
unfoldable pub plist_loop : Routine → ℕ → Nodes → M (Unit {0})
unfolding next_token append_node
plist_loop item zero items = fail_with exhausted
plist_loop item (suc fuel) items = do
  peek ← next_token
  elim (same_type peek.type t_sclose) [
    | true ↦ do set_current peek; push_node (node n_plist false no_token items)
    | false ↦ elim (same_type peek.type t_comma) [
      | true ↦ do
        set_current peek
        elim items [
          | nil ↦ do set_expected t_sclose; discard parse_expected_token
          | cons n ns ↦ do m ← then_ item; plist_loop item fuel (append_node (cons n ns) m)
        ]
      | false ↦ elim items [
        | nil ↦ do m ← then_ item; plist_loop item fuel (one m)
        | cons _ _ ↦ do set_expected t_comma; discard parse_expected_token
      ]
    ]
  ]

module _ (self : Self) where
  unfoldable pub parse_palias : Routine
  unfolding frame expect_token
  parse_palias = frame do
    ident ← expect_token t_ident
    expect_token t_at
    inner ← then_ (self.pattern false)
    push_node (node n_palias false ident (one inner))

  -- The parameters behind the name; there is one at least.
  unfoldable pub papply_rest : Bool → M (Unit {0})
  unfolding expect_token many_loop
  papply_rest rec_flag = do
    ident ← expect_token t_ident
    fuel ← get_rounds
    (args, last) ← many_loop (self.pattern false) fuel nil
    elim args [
      | nil ↦ discard last
      | cons a r ↦ push_node (node n_papply rec_flag ident (cons a r))
    ]

  unfoldable pub parse_papply : Routine
  unfolding frame next_token papply_rest
  parse_papply = frame do
    peek ← next_token
    elim (same_type peek.type t_rec) [
      | true ↦ do set_current peek; papply_rest true
      | false ↦ papply_rest false
    ]

  unfoldable pub parse_ptuple_or_parens : Routine
  unfolding frame expect_token tuple_loop
  parse_ptuple_or_parens =
      frame
        do expect_token t_popen; fuel ← get_rounds; tuple_loop (self.pattern true) n_ptuple fuel nil

  unfoldable pub parse_plist_item : Routine
  unfolding parse_pltail
  parse_plist_item = frame do
    r ← attempt parse_pltail
    elim r [ parse_ok ↦ pure tt | _ ↦ then_ (self.pattern true) >>= λ _. pure tt ]

  unfoldable pub parse_plist : Routine
  unfolding parse_plist_item plist_loop expect_token
  parse_plist =
      frame do expect_token t_sopen; fuel ← get_rounds; plist_loop parse_plist_item fuel nil

  unfoldable pub parse_pconst : Routine
  unfolding frame
  parse_pconst =
      frame
        do expr ← then_ (self.expr expr_all); push_node (node n_pconst false no_token (one expr))

  -- The argument is the flag `PAT_APPLY`.
  unfoldable pub parse_pattern : Bool → Routine
  unfolding choice parse_atom parse_palias parse_papply parse_ptuple_or_parens parse_plist
      parse_pconst
  parse_pattern apply = frame (
      choice
        (parse_palias ∷ (if apply then parse_papply ∷ [] else [])
          ++ (parse_ptuple_or_parens ∷ parse_plist ∷ parse_pident ∷ parse_pwild ∷ parse_pconst
              ∷ []))
        parse_ok)
