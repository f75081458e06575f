-- ===== src/Parser/Operators.antt =====
-- The table of operators of lib/parser.c.
pub mod Laws
use chammer.Prelude.{ℕ, Option, none, some, List, [], ◌∷◌, ◌++◌, ltb, if◌then◌else◌, length}
use chammer.Prelude.Int.{ℤ, pos}
use chammer.Text.{string_eq}
use chammer.Parser.{OpDef, Assoc, Parser}

abbrev pub max_operators : ℕ
max_operators = 0x100

abbrev pub operator_max_len : ℕ
operator_max_len = 8

abbrev pub prec_default : ℤ
prec_default = pos 1000

-- Lengths are compared first, so `strncmp` is `string_eq`.
pub find_operator : List OpDef → List ℕ → Option OpDef
find_operator [] name = none
find_operator (op ∷ ops) name = if string_eq op.name name then some op else find_operator ops name

unfoldable pub parser_get_operator : Parser → List ℕ → Option OpDef
unfolding find_operator
parser_get_operator p name = find_operator p.operators name

-- The write to the entry that was found; its name is written again.
pub redefine : OpDef → List OpDef → List OpDef
redefine new [] = []
redefine new (op ∷ ops) = if string_eq op.name new.name then new ∷ ops else op ∷ redefine new ops

-- The two branches of `parser_define_operator`; `none` is one of the two panics.
pub define_found : Parser → OpDef → Option OpDef → Option Parser
define_found p new (some _) =
    if ltb operator_max_len (length new.name)
    then none
    else some (record p { operators = redefine new p.operators })
define_found p new none =
    if ltb (length p.operators) max_operators
    then if ltb operator_max_len (length new.name)
      then none
      else some (record p { operators = p.operators ++ new ∷ [] })
    else none

unfoldable pub parser_define_operator : Parser → List ℕ → ℤ → Assoc → Option Parser
unfolding parser_get_operator redefine define_found
parser_define_operator p name prec assoc =
    let new : OpDef = record { name = name; prec = prec; assoc = assoc } in
    define_found p new (parser_get_operator p name)
