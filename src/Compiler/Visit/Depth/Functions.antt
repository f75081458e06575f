-- ===== src/Compiler/Visit/Depth/Functions.antt =====
-- The visitors that make functions depend on lighter trees only.
use chammer.Prelude.{
  ℕ, suc, ◌≤◌, ◌<◌, ◌≡◌, refl, ◌∙◌, ap, Bool, true, false, Option, none, some, arith, if◌then◌else◌,
}
use mathlib.Core.Path.{fun_ext}
use chammer.Ast.{Node, Nodes, node, nil, cons, n_assign, n_bind, n_void, type_of, node_type_is_expr}
use chammer.StringMap.{Entry}
use chammer.Tokens.{Token}
use chammer.Compiler.Blocks.{◌>>?◌}
use chammer.Compiler.Blocks.Post.{Post, post, any-Post, mono-Post}
use chammer.Compiler.Visit.{Visit, Routines, emit_op}
use chammer.Bytecode.{op_pop}
use chammer.Compiler.Visit.Depth.{weight, weights, Agree}
use chammer.Compiler.Visit.Functions.{
  visit_args, split_body, visit_function, visit_lambda, visit_case, visit_cases, visit_match,
  visit_assigns, visit_rest, visit_assign_block, visit_block_body,
}

unsome : {A : Type 0} {a b : A} → some a ≡ some b → a ≡ b
unsome e = cc

-- The parameters and the body of a lambda are lighter than the children they are taken from.
split_body-lt :
    (ns params : Nodes) (body : Node)
    → split_body ns ≡ some (params, body)
    → (weights params ≤ weights ns) × (weight body < weights ns)
unfolding split_body weights
split_body-lt nil params body e = absurd (cc)
split_body-lt (cons n ns) params body e = at (split_body ns) (λ ps b. split_body-lt ns ps b) e
  where
    at :
        (o : Option (Nodes × Node))
        → ((ps : Nodes) (b : Node)
            → o ≡ some (ps, b)
            → (weights ps ≤ weights ns) × (weight b < weights ns))
        → ◌≡◌ {A = Option (Nodes × Node)}
            (elim o as (λ _. Option (Nodes × Node)) [
              | none ↦ some (nil, n)
              | some (ps, b) ↦ some (cons n ps, b)
            ])
            (some (params, body))
        → (weights params ≤ weights (cons n ns)) × (weight body < weights (cons n ns))
    at none ih e' =
        let p : nil ≡ params = ap (λ x. x.0) (unsome e') in
        let q : n ≡ body = ap (λ x. x.1) (unsome e') in
        (omega (arith, ap weights p), omega (arith, ap weight q))
    at (some (ps, b)) ih e' =
        let (le, lt) = ih ps b refl in
        let p : cons n ps ≡ params = ap (λ x. x.0) (unsome e') in
        let q : b ≡ body = ap (λ x. x.1) (unsome e') in
        (omega (arith, le, ap weights p), omega (arith, lt, ap weight q))

-- Two chains are equal, where their second parts agree on what the first may hand on.
pub bind-eq :
    {A B : Type 0} (Q : A → Type 0) {o o' : Option A} {f g : A → Option B}
    → Post Q o
    → o ≡ o'
    → ((x : A) → Q x → f x ≡ g x)
    → (o >>? f) ≡ (o' >>? g)
bind-eq Q {o = none} p same h = rw (← same) refl
bind-eq Q {o = some x} (post q) same h = rw (← same) (h x q)

pub any : {A : Type 0} (o : Option A) → Post (λ _. Unit) o
any none = post tt
any (some x) = post tt

module _ (m : ℕ) (r r' : Routines) (a : Agree m r r') where
  visit_args-same :
      (ns : Nodes) (args : ℕ) (v : Visit)
      → weights ns < m
      → visit_args r ns args v ≡ visit_args r' ns args v
  unfolding visit_args weights
  visit_args-same nil args v h = refl
  visit_args-same (cons n ns) args v h =
      rw
        (
          a.pattern n none (omega arith),
          fun_ext (λ x. fun_ext (λ w. visit_args-same ns x w (omega arith))),
        )
        refl

  pub visit_function-same :
      (params : Nodes) (body : Node) (name : Option (Entry Unit)) (is_rec : Bool) (v : Visit)
      → weights params < m
      → weight body < m
      → visit_function r params body name is_rec v ≡ visit_function r' params body name is_rec v
  unfolding visit_function
  visit_function-same params body name is_rec v h h' =
      rw (fun_ext (λ x. fun_ext (λ w. visit_args-same params x w h)), a.expr body h') refl

  pub visit_lambda-same :
      (n : Node) (name : Option (Entry Unit)) (v : Visit)
      → weight n ≤ m
      → visit_lambda r n name v ≡ visit_lambda r' n name v
  unfolding visit_lambda weight
  visit_lambda-same (node type flag token children) name v h =
      bind-eq (λ x. (weights x.0 < m) × (weight x.1 < m)) (light (split_body children) refl) refl
        (λ (params, body) (lt, lt'). visit_function-same params body name false v lt lt')
    where
      light :
          (o : Option (Nodes × Node))
          → split_body children ≡ o
          → Post (λ x. (weights x.0 < m) × (weight x.1 < m)) o
      light none e = post tt
      light (some (params, body)) e =
          let (le, lt) = split_body-lt children params body e in
          post (omega (arith, h, le), omega (arith, h, lt))

  visit_case-same :
      (cont_block : ℕ) (lhs rhs : Node) (v : Visit)
      → suc (weight lhs) < m
      → weight rhs < m
      → visit_case r cont_block lhs rhs v ≡ visit_case r' cont_block lhs rhs v
  unfolding visit_case
  visit_case-same cont_block lhs rhs v h h' =
      rw (a.pattern lhs none (omega arith), a.expr rhs h') refl

  visit_cases-same :
      (cont_block : ℕ) (ns : Nodes) (v : Visit)
      → weights ns < m
      → visit_cases r cont_block ns v ≡ visit_cases r' cont_block ns v
  unfolding visit_cases weights
  visit_cases-same cont_block nil v h = refl
  visit_cases-same cont_block (cons n nil) v h = rw (a.expr n (omega arith)) refl
  visit_cases-same cont_block (cons lhs (cons rhs ns)) v h =
      rw
        (
          visit_case-same cont_block lhs rhs v (omega arith) (omega arith),
          fun_ext (λ w. visit_cases-same cont_block ns w (omega arith)),
        )
        refl

  pub visit_match-same :
      (n : Node) (v : Visit) → weight n ≤ m → visit_match r n v ≡ visit_match r' n v
  unfolding visit_match weight weights
  visit_match-same (node type flag token nil) v h = refl
  visit_match-same (node type flag token (cons scrutinee cases)) v h =
      bind-eq (λ _. Unit) (any (r.expr scrutinee v))
        (ap (λ f. f v) (a.expr scrutinee (omega arith)))
        (λ v₁ _.
          bind-eq (λ _. Unit) (any _) (visit_cases-same _ cases _ (omega arith)) (λ v₃ _. refl))

  visit_assigns-same :
      (ns : Nodes) (v : Visit) → weights ns ≤ m → visit_assigns r ns v ≡ visit_assigns r' ns v
  unfolding visit_assigns weight weights
  visit_assigns-same nil v h = refl
  visit_assigns-same (cons (node n_assign flag token (cons lhs (cons rhs more))) ns) v h =
      rw
        (
          a.pattern lhs (some rhs) (omega arith),
          fun_ext (λ w. visit_assigns-same ns w (omega arith)),
        )
        refl
  visit_assigns-same (cons (node n_assign flag token nil) ns) v h = refl
  visit_assigns-same (cons (node n_assign flag token (cons lhs nil)) ns) v h = refl
  visit_assigns-same (cons n ns) v h = refl

  visit_rest-same :
      (begin_ : Visit → Option Visit) (rest : Nodes) (effect : Node) (v : Visit)
      → weights rest < m
      → weight effect < m
      → visit_rest r begin_ rest effect v ≡ visit_rest r' begin_ rest effect v
  unfolding visit_rest
  visit_rest-same begin_ rest effect v h h' = rw (a.block_body rest h, a.expr effect h') refl

  -- What stands behind the assignments is lighter.
  visit_assigns-lt :
      (ns : Nodes) (v : Visit) → Post (λ x. weights x.0 ≤ weights ns) (visit_assigns r ns v)
  unfolding visit_assigns weights
  visit_assigns-lt nil v = post tt
  visit_assigns-lt (cons (node n_assign flag token (cons lhs (cons rhs more))) ns) v =
      any-Post (r.pattern lhs (some rhs) v)
        (λ w. mono-Post (visit_assigns-lt ns w) (λ x le. omega (arith, le)))
  visit_assigns-lt (cons (node n_assign flag token nil) ns) v = post tt
  visit_assigns-lt (cons (node n_assign flag token (cons lhs nil)) ns) v = post tt
  visit_assigns-lt (cons n ns) v = post (omega arith)

  -- Behind one at least.
  visit_assigns-lt_first :
      (flag : Bool) (token : Token) (children ns : Nodes) (v : Visit)
      → weights (cons (node n_assign flag token children) ns) ≤ m
      → Post
          (λ x. weights x.0 < m)
          (visit_assigns r (cons (node n_assign flag token children) ns) v)
  unfolding visit_assigns weights
  visit_assigns-lt_first flag token nil ns v h = post tt
  visit_assigns-lt_first flag token (cons lhs nil) ns v h = post tt
  visit_assigns-lt_first flag token (cons lhs (cons rhs more)) ns v h =
      any-Post (r.pattern lhs (some rhs) v)
        (λ w. mono-Post (visit_assigns-lt ns w) (λ x le. omega (arith, le)))

  visit_assign_block-same :
      (flag : Bool) (token : Token) (children ns : Nodes) (v : Visit)
      → weights (cons (node n_assign flag token children) ns) ≤ m
      → visit_assign_block r (cons (node n_assign flag token children) ns) v
        ≡ visit_assign_block r' (cons (node n_assign flag token children) ns) v
  unfolding visit_assign_block
  visit_assign_block-same flag token children ns v h =
      bind-eq (λ x. weights x.0 < m) (visit_assigns-lt_first flag token children ns _ h)
        (visit_assigns-same (cons (node n_assign flag token children) ns) _ h)
        (λ (rest, v₂) lt. rw (a.block_body rest lt) refl)

  expr_if :
      (t : Bool) (n : Node) (v : Visit)
      → weight n < m
      → (if t then r.expr n v else none) ≡ (if t then r'.expr n v else none)
  expr_if true n v h = ap (λ f. f v) (a.expr n h)
  expr_if false n v h = refl

  pub visit_block_body-same :
      (ns : Nodes) (v : Visit) → weights ns ≤ m → visit_block_body r ns v ≡ visit_block_body r' ns v
  unfolding visit_block_body weight weights
  visit_block_body-same nil v h = refl
  visit_block_body-same (cons (node n_assign flag token children) ns) v h =
      visit_assign_block-same flag token children ns v h
  visit_block_body-same (cons (node n_bind flag token (cons lhs (cons rhs more))) ns) v h =
      visit_rest-same (r.pattern lhs none) ns rhs v (omega arith) (omega arith)
      ∙ rw (a.pattern lhs none (omega arith)) refl
  visit_block_body-same (cons (node n_bind flag token nil) ns) v h = refl
  visit_block_body-same (cons (node n_bind flag token (cons lhs nil)) ns) v h = refl
  visit_block_body-same (cons (node n_void flag token (cons effect more)) ns) v h =
      visit_rest-same (λ w. some (emit_op op_pop w)) ns effect v (omega arith) (omega arith)
  visit_block_body-same (cons (node n_void flag token nil) ns) v h = refl
  visit_block_body-same (cons n ns) v h = expr_if (node_type_is_expr (type_of n)) n v (omega arith)
