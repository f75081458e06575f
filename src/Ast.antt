-- ===== src/Ast.antt =====
-- lib/ast.h and lib/ast.c: the syntax tree. A node's siblings are the rest of the list that it
-- stands in, so `first_child` is a list of nodes; the arena that holds the nodes is not visible here.
use chammer.Prelude.{ℕ, suc, Bool, true, false, []}
use chammer.Tokens.{Token, t_bcomm}

pub data NodeType : Type 0 where
  n_ident n_string n_int n_dec : NodeType
  n_tuple n_list n_spread : NodeType
  n_unary n_binary n_apply : NodeType
  n_if n_match n_lambda n_block : NodeType
  n_assign n_bind n_void : NodeType
  n_pident n_pwild n_papply n_ptuple n_plist n_pltail n_palias n_pconst : NodeType

-- `flag` is the one flag that the node's type has: `NF_REC` or `NF_NAMED`.
mutual
  pub data Node : Type 0 where
    node : NodeType → Bool → Token → Nodes → Node

  pub data Nodes : Type 0 where
    nil : Nodes
    cons : Node → Nodes → Nodes

abbrev pub type_of : Node → NodeType
type_of (node type flag token children) = type

abbrev pub flag_of : Node → Bool
flag_of (node type flag token children) = flag

abbrev pub token_of : Node → Token
token_of (node type flag token children) = token

abbrev pub first_child : Node → Nodes
first_child (node type flag token children) = children

-- The token of a node that was only zeroed.
abbrev pub no_token : Token
no_token = record { type = t_bcomm; str = []; len = 0 }

abbrev pub node_type_is_expr : NodeType → Bool
node_type_is_expr n_ident = true
node_type_is_expr n_string = true
node_type_is_expr n_int = true
node_type_is_expr n_dec = true
node_type_is_expr n_tuple = true
node_type_is_expr n_list = true
node_type_is_expr n_unary = true
node_type_is_expr n_binary = true
node_type_is_expr n_apply = true
node_type_is_expr n_if = true
node_type_is_expr n_match = true
node_type_is_expr n_lambda = true
node_type_is_expr n_block = true
node_type_is_expr _ = false

abbrev pub node_has_token : Node → Bool
node_has_token (node n_ident flag token children) = true
node_has_token (node n_string flag token children) = true
node_has_token (node n_int flag token children) = true
node_has_token (node n_dec flag token children) = true
node_has_token (node n_pident flag token children) = true
node_has_token (node n_unary flag token children) = true
node_has_token (node n_binary flag token children) = true
node_has_token (node n_papply flag token children) = true
node_has_token (node n_palias flag token children) = true
node_has_token (node n_pltail flag token children) = flag
node_has_token (node _ flag token children) = false

-- One element behind a list of siblings.
unfoldable pub append_node : Nodes → Node → Nodes
append_node nil n = cons n nil
append_node (cons m ms) n = cons m (append_node ms n)

abbrev pub count_nodes : Nodes → ℕ
count_nodes nil = 0
count_nodes (cons n ns) = suc (count_nodes ns)

-- `node_add_children` on a node with no children yet.
abbrev pub one : Node → Nodes
one a = cons a nil

abbrev pub two : Node → Node → Nodes
two a b = cons a (cons b nil)

abbrev pub three : Node → Node → Node → Nodes
three a b c = cons a (cons b (cons c nil))
