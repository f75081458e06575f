-- ===== src/Machine/Modules.antt =====
-- lib/module.c and lib/builtin/prelude.c: the members of modules.
use chammer.Prelude.{ℕ, ◌≡◌, refl, true, false, Option, none, some, List, [], ◌∷◌, length}
use chammer.Prelude.Int.{ℤ, pos}
use chammer.Text.{string_eq}
use chammer.Text.Laws.{string_eq_refl}
use chammer.Parser.{Parser, assoc_left}
use chammer.Parser.Operators.{parser_define_operator}
use chammer.Value.{
  Value, NativeMeta, Heap, alloc, v_native, h_native, m_add, m_sub, m_mul, m_div, m_eq, m_id,
  m_const, m_return, m_print, m_get_time, m_each, m_error, m_repr, m_string_concat, m_substr,
}
use chammer.Value.Objects.{hvalue_make_native}
use chammer.Machine.{Module, module_define, module_get, member_value}
use chammer.Value.Repr.{native_name}

-- The members of the prelude, in their order; the names are those of the native values.
abbrev pub prelude_members : List NativeMeta
prelude_members =
    m_eq ∷ m_id ∷ m_const ∷ m_return ∷ m_print ∷ m_get_time ∷ m_each ∷ m_error ∷ m_add ∷ m_sub
    ∷ m_mul ∷ m_div ∷ m_repr ∷ m_string_concat ∷ m_substr ∷ []

unfoldable pub define_all : Module → List NativeMeta → Module
unfolding module_define
define_all m [] = m
define_all m (f ∷ fs) = define_all (module_define m (native_name f) f) fs

abbrev pub define_left : NativeMeta → ℤ → Option Parser → Option Parser
unfolding parser_define_operator
define_left f prec none = none
define_left f prec (some p) = parser_define_operator p (native_name f) prec assoc_left

-- An empty module is filled, and the parser learns the operators; `none` is a panic.
unfoldable pub module_make_prelude : Parser → Option (Module × Parser)
unfolding define_all define_left
module_make_prelude p =
    let operators = define_left m_string_concat (pos 500) (
      define_left m_div (pos 600) (
        define_left m_mul (pos 600)
          (define_left m_sub (pos 500) (define_left m_add (pos 500) (some p))))) in
    elim operators [ none ↦ none | some p' ↦ some (define_all [] prelude_members, p') ]

-- Lookups of `name` give `v`, from a module that they do not change and a heap that they leave.
abbrev pub Remembers : Module → List ℕ → Value → Type 0
Remembers m name v = (h : Heap) → module_get m name h ≡ some (v, m, h)

-- The first `module_get` of a name that was defined makes the native value, and each later one
-- gives the same value and makes nothing.
pub module_get-define :
    (m : Module) (name : List ℕ) (f : NativeMeta) (h : Heap)
    → (m' : Module) × (module_get (module_define m name f) name h
        ≡ some (v_native (length h), m', (alloc (h_native f [] []) h).1))
      × Remembers m' name (v_native (length h))
unfolding module_get module_define hvalue_make_native alloc member_value
module_get-define [] name f h = (
  record { name = name; factory = f; value = some (v_native (length h)) } ∷ [],
  rw (module_get, string_eq_refl name) refl,
  λ k. rw (module_get, string_eq_refl name) refl,
)
module_get-define (e ∷ m) name f h =
    elim (string_eq e.name name)
        as (λ b.
          string_eq e.name name ≡ b
          → (m' : Module) × (module_get
                (elim b [
                  | true ↦ record e { factory = f; value = none } ∷ m
                  | false ↦ e ∷ module_define m name f
                ])
                name h
              ≡ some (v_native (length h), m', (alloc (h_native f [] []) h).1))
            × Remembers m' name (v_native (length h))) [
              | true ↦ λ g. (
                record e { factory = f; value = some (v_native (length h)) } ∷ m,
                rw (module_get, g) refl,
                λ k. rw (module_get, g) refl,
              )
              | false ↦ λ g.
                  let (m', found, kept) = module_get-define m name f h in
                  (e ∷ m', rw (module_get, g, found) refl, λ k. rw (module_get, g, kept k) refl)
            ]
      refl
