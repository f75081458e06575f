-- ===== src/Compiler/Scopes.antt =====
-- The scopes of lib/compiler.c: locals, captures and the resolution of symbols. A symbol is the
-- number of its entry in the pool; a scope without an outer one is the root.
pub mod Laws
use chammer.Prelude.{
  ℕ, zero, suc, ◌+◌, ◌-◌, ◌%◌, ◌^◌, ◌≡◌, Bool, true, false, Option, none, some, List, [], ◌∷◌, ◌++◌,
  ◌==◌, ltb, length, if◌then◌else◌,
}
use chammer.Buffer.{Buffer}
use chammer.Bytecode.{bytecode_put_load, bytecode_put_store}

pub record Scope : Type 0 where
  pub locals : List ℕ
  pub captures : List ℕ

-- The innermost scope first.
pub data Scopes : Type 0 where
  root : Scope → Scopes
  inner : Scope → Scopes → Scopes

unfoldable pub scope_init : Scope
scope_init = record { locals = []; captures = [] }

-- The loop over the first `n` locals, the first of which has the number `i`.
pub find_local : ℕ → ℕ → List ℕ → ℕ → Option ℕ
find_local zero i locals name = none
find_local (suc n) i [] name = none
find_local (suc n) i (sym ∷ locals) name =
    if sym == name then some i else find_local n (suc i) locals name

-- The bound of the loop is `(uint8_t)s->locals.len`.
unfoldable pub scope_get_local : Scope → ℕ → Option ℕ
unfolding find_local
scope_get_local s name = find_local (length s.locals % 2 ^ 8) 0 s.locals name

-- `none` is the panic of `CHECKED_U8`.
unfoldable pub scope_put_local : Scope → ℕ → Option (Scope × ℕ)
scope_put_local s name =
    let id = length s.locals in
    if ltb id (2 ^ 8) then some (record s { locals = s.locals ++ name ∷ [] }, id) else none

unfoldable pub scope_get_or_put_local : Scope → ℕ → Option (Scope × ℕ)
unfolding scope_get_local scope_put_local
scope_get_or_put_local s name = elim (scope_get_local s name) [
  | some id ↦ some (s, id)
  | none ↦ scope_put_local s name
]

pub contains : List ℕ → ℕ → Bool
contains [] name = false
contains (sym ∷ captures) name = if sym == name then true else contains captures name

unfoldable pub scope_put_capture : Scope → ℕ → Scope
unfolding contains
scope_put_capture s name =
    if contains s.captures name then s else record s { captures = s.captures ++ name ∷ [] }

-- `unresolved` is the result `false`, and `panicked` a number of a local that is no byte.
pub data Resolved : Type 0 where
  panicked unresolved : Resolved
  resolved : Scopes → ℕ → Resolved

-- A symbol that an outer scope has is captured, and gets a local of its own.
pub capture : Scope → ℕ → (Scope → Scopes) → Resolved
unfolding scope_put_capture scope_put_local
capture s name rebuild = elim (scope_put_local (scope_put_capture s name) name) [
  | some (s', id) ↦ resolved (rebuild s') id
  | none ↦ panicked
]

unfoldable pub scope_resolve_symbol : Scopes → ℕ → Resolved
unfolding capture scope_get_local
scope_resolve_symbol (root s) name = elim (scope_get_local s name) [
  | some id ↦ resolved (root s) id
  | none ↦ capture s name root
]
scope_resolve_symbol (inner s outer) name =
    let rest = scope_resolve_symbol outer name in
    elim (scope_get_local s name) [
      | some id ↦ resolved (inner s outer) id
      | none ↦ elim rest [
        | resolved outer' _ ↦ capture s name (λ s'. inner s' outer')
        | other ↦ other
      ]
    ]

-- The loop over captures, in the order given; `none` is the panic.
unfoldable pub put_all : (Buffer → ℕ → Buffer) → Scope → List ℕ → Buffer → Option Buffer
unfolding scope_get_local
put_all put s [] b = some b
put_all put s (capture ∷ captures) b =
    let rest = λ (b' : Buffer). put_all put s captures b' in
    elim (scope_get_local s capture) [ some local ↦ rest (put b local) | none ↦ none ]

unfoldable pub reversed : List ℕ → List ℕ
reversed [] = []
reversed (x ∷ xs) = reversed xs ++ x ∷ []

unfoldable pub put_store_captures : Buffer → Scope → Option Buffer
unfolding put_all reversed
put_store_captures b inner_scope =
    put_all bytecode_put_store inner_scope (reversed inner_scope.captures) b

unfoldable pub put_load_captures : Buffer → Scope → Scope → Option Buffer
unfolding put_all
put_load_captures b inner_scope outer_scope =
    put_all bytecode_put_load outer_scope inner_scope.captures b
