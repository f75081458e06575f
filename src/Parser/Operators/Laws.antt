-- ===== src/Parser/Operators/Laws.antt =====
-- The table of operators of lib/parser.c: lookups after a definition, and its bounds.
use chammer.Prelude.{
  ℕ, suc, ◌+◌, ◌≤◌, ◌≡◌, refl, true, false, Option, none, some, List, [], ◌∷◌, ◌++◌, arith, length,
  All, if◌then◌else◌,
}
use chammer.Prelude.Int.{ℤ}
use chammer.Text.{string_eq}
use chammer.Text.Laws.{string_eq_refl, string_eq-euclid}
use chammer.Parser.{OpDef, Assoc, Parser}
use chammer.Parser.Operators.{
  find_operator, parser_get_operator, redefine, parser_define_operator, max_operators, define_found,
  operator_max_len,
}

find-append :
    (ops : List OpDef) (new : OpDef) (name : List ℕ)
    → find_operator ops name ≡ none
    → find_operator (ops ++ new ∷ []) name ≡ (if string_eq new.name name then some new else none)
unfolding find_operator
find-append [] new name h = refl
find-append (op ∷ ops) new name h = ground (arith, find-append ops new name)

find-append_other :
    (ops : List OpDef) (new : OpDef) (name : List ℕ)
    → string_eq new.name name ≡ false
    → find_operator (ops ++ new ∷ []) name ≡ find_operator ops name
unfolding find_operator
find-append_other [] new name h = rw h refl
find-append_other (op ∷ ops) new name h = ground (arith, find-append_other ops new name)

find-redefine :
    (ops : List OpDef) (new old : OpDef)
    → find_operator ops new.name ≡ some old
    → find_operator (redefine new ops) new.name ≡ some new
unfolding find_operator redefine
find-redefine [] new old h = ground arith
find-redefine (op ∷ ops) new old h =
    ground (arith, find-redefine ops new old, string_eq_refl new.name)

find-redefine_other :
    (ops : List OpDef) (new : OpDef) (name : List ℕ)
    → string_eq new.name name ≡ false
    → find_operator (redefine new ops) name ≡ find_operator ops name
unfolding find_operator redefine
find-redefine_other [] new name h = refl
find-redefine_other (op ∷ ops) new name h =
    ground (arith, find-redefine_other ops new name, string_eq-euclid op.name new.name name)

-- What is found after `define_found`: the new operator, and the others as before.
define_found-get :
    (p p' : Parser) (new : OpDef) (found : Option OpDef)
    → find_operator p.operators new.name ≡ found
    → define_found p new found ≡ some p'
    → find_operator p'.operators new.name ≡ some new
unfolding define_found
define_found-get p p' new (some old) e h = ground (arith, find-redefine p.operators new old e)
define_found-get p p' new none e h =
    ground (arith, find-append p.operators new new.name e, string_eq_refl new.name)

define_found-get_other :
    (p p' : Parser) (new : OpDef) (found : Option OpDef) (other : List ℕ)
    → string_eq new.name other ≡ false
    → define_found p new found ≡ some p'
    → find_operator p'.operators other ≡ find_operator p.operators other
unfolding define_found
define_found-get_other p p' new (some old) other n h =
    ground (arith, find-redefine_other p.operators new other n)
define_found-get_other p p' new none other n h =
    ground (arith, find-append_other p.operators new other n)

-- Within the bounds of the table and of its names.
pub record IsTable (ops : List OpDef) : Type 0 where
  pub bounded : length ops ≤ max_operators
  pub short : All (λ (op : OpDef). length op.name ≤ operator_max_len) ops

abbrev Short : OpDef → Type 0
Short op = length op.name ≤ operator_max_len

length-redefine : (ops : List OpDef) (new : OpDef) → length (redefine new ops) ≡ length ops
unfolding redefine
length-redefine [] new = refl
length-redefine (op ∷ ops) new =
    elim (string_eq op.name new.name)
      as (λ b. length (if b then new ∷ ops else op ∷ redefine new ops) ≡ suc (length ops)) [
        | true ↦ refl
        | false ↦ omega (arith, length-redefine ops new)
      ]

redefine-Short :
    (ops : List OpDef) (new : OpDef) → Short new → All Short ops → All Short (redefine new ops)
unfolding redefine
redefine-Short [] new s h = h
redefine-Short (op ∷ ops) new s (h, hs) =
    elim (string_eq op.name new.name)
      as (λ b. All Short (if b then new ∷ ops else op ∷ redefine new ops)) [
        | true ↦ (s, hs)
        | false ↦ (h, redefine-Short ops new s hs)
      ]

append-Short :
    (ops : List OpDef) (new : OpDef) → Short new → All Short ops → All Short (ops ++ new ∷ [])
append-Short [] new s h = (s, h)
append-Short (op ∷ ops) new s (h, hs) = (h, append-Short ops new s hs)

length-append_one : (ops : List OpDef) (new : OpDef) → length (ops ++ new ∷ []) ≡ length ops + 1
length-append_one [] new = refl
length-append_one (op ∷ ops) new = omega (arith, length-append_one ops new)

redefine-IsTable :
    (ops : List OpDef) (new : OpDef)
    → IsTable ops
    → length new.name ≤ operator_max_len
    → IsTable (redefine new ops)
redefine-IsTable ops new t s = record {
  bounded = rw (length-redefine ops new) t.bounded;
  short = redefine-Short ops new s t.short;
}

append-IsTable :
    (ops : List OpDef) (new : OpDef)
    → IsTable ops
    → length new.name ≤ operator_max_len
    → length ops + 1 ≤ max_operators
    → IsTable (ops ++ new ∷ [])
append-IsTable ops new t s le = record {
  bounded = rw (length-append_one ops new) le;
  short = append-Short ops new s t.short;
}

define_found-IsTable :
    (p p' : Parser) (new : OpDef) (found : Option OpDef)
    → IsTable p.operators
    → define_found p new found ≡ some p'
    → IsTable p'.operators
unfolding define_found
define_found-IsTable p p' new (some old) t h = ground (arith, redefine-IsTable p.operators new t)
define_found-IsTable p p' new none t h = ground (arith, append-IsTable p.operators new t)

-- What was defined last is found.
get_operator-define :
    (p p' : Parser) (name : List ℕ) (prec : ℤ) (assoc : Assoc)
    → parser_define_operator p name prec assoc ≡ some p'
    → parser_get_operator p' name ≡ some (record { name = name; prec = prec; assoc = assoc })
unfolding parser_define_operator
get_operator-define p p' name prec assoc h =
    define_found-get p p' (record { name = name; prec = prec; assoc = assoc })
      (find_operator p.operators name) refl h

-- A definition changes no other name.
get_operator-define_other :
    (p p' : Parser) (name other : List ℕ) (prec : ℤ) (assoc : Assoc)
    → string_eq name other ≡ false
    → parser_define_operator p name prec assoc ≡ some p'
    → parser_get_operator p' other ≡ parser_get_operator p other
unfolding parser_define_operator
get_operator-define_other p p' name other prec assoc n h =
    define_found-get_other p p' (record { name = name; prec = prec; assoc = assoc })
      (find_operator p.operators name) other n h

-- A definition is an update of what is found at each name: the operator is found with the precedence
-- and the associativity it was given last, whether its name was in the table or not, and at every
-- name that string_eq tells from it what is found stays.
pub get_operator-update :
    (p p' : Parser) (name : List ℕ) (prec : ℤ) (assoc : Assoc)
    → parser_define_operator p name prec assoc ≡ some p'
    → (parser_get_operator p' name ≡ some (record { name = name; prec = prec; assoc = assoc }))
      × ((other : List ℕ)
          → string_eq name other ≡ false
          → parser_get_operator p' other ≡ parser_get_operator p other)
get_operator-update p p' name prec assoc h = (
  get_operator-define p p' name prec assoc h,
  λ other differ. get_operator-define_other p p' name other prec assoc differ h,
)

-- A definition that does not panic keeps the table within its 256 entries, and every name within its
-- 8 bytes.
pub define_operator-IsTable :
    (p p' : Parser) (name : List ℕ) (prec : ℤ) (assoc : Assoc)
    → IsTable p.operators
    → parser_define_operator p name prec assoc ≡ some p'
    → IsTable p'.operators
unfolding parser_define_operator
define_operator-IsTable p p' name prec assoc t h =
    define_found-IsTable p p' (record { name = name; prec = prec; assoc = assoc })
      (find_operator p.operators name) t h
