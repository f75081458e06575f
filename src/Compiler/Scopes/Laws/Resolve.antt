-- ===== src/Compiler/Scopes/Laws/Resolve.antt =====
-- The resolution of symbols in lib/compiler.c, and the code for captures.
use chammer.Prelude.{
  ◌⊎◌, inl, inr, ℕ, zero, suc, ◌^◌, ◌<◌, ◌≡◌, ◌≢◌, ◌≤◌, refl, sym, ap, true, false, Option, none,
  some, List, [], ◌∷◌, ◌++◌, ◌==◌, ltb, length, arith, if◌then◌else◌, get_elem?,
}
use mathlib.Core.Path.{subst}
use chammer.Buffer.{Buffer}
use chammer.Bytecode.{bytecode_put_load, bytecode_put_store}
use chammer.Compiler.Scopes.{
  Scope, Scopes, root, inner, find_local, scope_get_local, scope_put_local, scope_put_capture,
  contains, Resolved, panicked, unresolved, resolved, capture, scope_resolve_symbol, put_all,
  reversed, put_store_captures, put_load_captures,
}
use chammer.Compiler.Scopes.Laws.{
  head_of, Within, IsLinked, contains-append_left, contains-append_last, contains-append_one,
  contains-head, contains-tail, contains-reversed, get_local-contains, get_local-get,
}

put_capture-locals : (s : Scope) (name : ℕ) → (scope_put_capture s name).locals ≡ s.locals
unfolding scope_put_capture
put_capture-locals s name =
    elim (contains s.captures name)
      as (λ b.
        (if b then s else record s { captures = s.captures ++ name ∷ [] }).locals ≡ s.locals) [
          | true ↦ refl
          | false ↦ refl
        ]

-- The name is a capture afterwards.
put_capture-contains :
    (s : Scope) (name : ℕ) → contains (scope_put_capture s name).captures name ≡ true
unfolding scope_put_capture
put_capture-contains s name =
    elim (contains s.captures name)
        as (λ b.
          contains s.captures name ≡ b
          → contains (if b then s else record s { captures = s.captures ++ name ∷ [] }).captures
              name
            ≡ true) [ true ↦ λ e. e | false ↦ λ e. contains-append_last s.captures name ]
      refl

-- A capture is the new one, or was there before.
put_capture-captures :
    (s : Scope) (name other : ℕ)
    → contains (scope_put_capture s name).captures other ≡ true
    → name ≢ other
    → contains s.captures other ≡ true
unfolding scope_put_capture
put_capture-captures s name other h n =
    elim (contains s.captures name)
        as (λ b.
          contains (if b then s else record s { captures = s.captures ++ name ∷ [] }).captures other
            ≡ true
          → contains s.captures other ≡ true) [
            | true ↦ λ f. f
            | false ↦ λ f. contains-append_one s.captures name other f n
          ]
      h

get-append_last : (xs : List ℕ) (x : ℕ) → get_elem? (xs ++ x ∷ []) (length xs) ≡ some x
get-append_last [] x = refl
get-append_last (y ∷ xs) x = get-append_last xs x

-- What `capture` leaves: a scope with the symbol behind its locals.
abbrev Captured : Scope → ℕ → (Scope → Scopes) → Resolved → Type 0
Captured s name rebuild r =
    (t : Scope) × (id : ℕ) × (r ≡ resolved (rebuild t) id)
    × (t.locals ≡ s.locals ++ name ∷ [])
    × (t.captures ≡ (scope_put_capture s name).captures)
    × (get_elem? t.locals id ≡ some name)

-- The panic of a scope that has as many locals as a byte has values.
abbrev NoRoom : Scope → Resolved → Type 0
NoRoom s r = (r ≡ panicked) × (2 ^ 8 ≤ length s.locals)

captured :
    (s : Scope) (name : ℕ) (rebuild : Scope → Scopes)
    → NoRoom s (capture s name rebuild) ⊎ Captured s name rebuild (capture s name rebuild)
unfolding capture scope_put_local
captured s name rebuild =
    let s₁ = scope_put_capture s name in
    let t = record s₁ { locals = s₁.locals ++ name ∷ [] } in
    let same = ap length (put_capture-locals s name) in
    elim (ltb (length s₁.locals) (2 ^ 8))
        as (λ b.
          ltb (length s₁.locals) (2 ^ 8) ≡ b
          → let put : Option (Scope × ℕ) = if b then some (t, length s₁.locals) else none in
            let r : Resolved = elim put [
              | some (s', id) ↦ resolved (rebuild s') id
              | none ↦ panicked
            ] in
            NoRoom s r ⊎ Captured s name rebuild r) [
              | true ↦ λ e. inr (
                t,
                length s₁.locals,
                refl,
                rw (put_capture-locals s name) refl,
                refl,
                get-append_last s₁.locals name,
              )
              | false ↦ λ e.
                  let full : 2 ^ 8 ≤ length s₁.locals = ground arith in
                  inl (refl, omega (arith, full, same))
            ]
      refl

-- A scope of the chain has as many locals as a byte has values.
abbrev pub HasFull : Scopes → Type 0
HasFull (root s) = 2 ^ 8 ≤ length s.locals
HasFull (inner s outer) = (2 ^ 8 ≤ length s.locals) ⊎ HasFull outer

-- What `scope_resolve_symbol` makes of linked scopes: a panic where a scope is full, or the number of
-- a local of that name, which the scope had or captures now.
abbrev pub ResolvedOk : Scopes → ℕ → Resolved → Type 0
ResolvedOk chain name panicked = HasFull chain
ResolvedOk chain name unresolved = ⊥
ResolvedOk chain name (resolved chain' id) =
    IsLinked chain'
    × Within (head_of chain).locals (head_of chain').locals
    × (get_elem? (head_of chain').locals id ≡ some name)
    × ((chain' ≡ chain) ⊎ (contains (head_of chain').captures name ≡ true))

captured-Within :
    (s : Scope) (name : ℕ) (ys : List ℕ)
    → Within s.captures ys
    → contains ys name ≡ true
    → Within (scope_put_capture s name).captures ys
captured-Within s name ys w c other h =
    elim (name == other) as (λ b. name == other ≡ b → contains ys other ≡ true) [
      | true ↦ λ e. ground (arith, c)
      | false ↦ λ e. w other (put_capture-captures s name other h (ground arith))
    ]
      refl

get-contains : (xs : List ℕ) (k name : ℕ) → get_elem? xs k ≡ some name → contains xs name ≡ true
unfolding contains
get-contains [] k name h = absurd (cc)
get-contains (x ∷ xs) zero name h = ground arith
get-contains (x ∷ xs) (suc k) name h = ground (arith, get-contains xs k name h)

-- The scope that `capture` leaves: its captures are in its locals, and in what holds the others.
captured-linked :
    (s t : Scope) (name : ℕ)
    → Within s.captures s.locals
    → t.locals ≡ s.locals ++ name ∷ []
    → t.captures ≡ (scope_put_capture s name).captures
    → Within t.captures t.locals × Within s.locals t.locals
captured-linked s t name w l c =
    rw (l, c)
      (
        captured-Within s name (s.locals ++ name ∷ [])
            (λ other h. contains-append_left s.locals (name ∷ []) other (w other h))
            (contains-append_last s.locals name),
        contains-append_left s.locals (name ∷ []),
      )

root-ResolvedOk :
    (s : Scope) (name : ℕ) (r : Resolved)
    → Within s.captures s.locals
    → NoRoom s r ⊎ Captured s name root r
    → ResolvedOk (root s) name r
root-ResolvedOk s name r w (inl (e, full)) = rw e full
root-ResolvedOk s name r w (inr (t, id, e, l, c, g)) =
    let (linked, grows) = captured-linked s t name w l c in
    rw e (linked, grows, g, inr (rw c (put_capture-contains s name)))

inner-ResolvedOk :
    (s : Scope) (outer outer' : Scopes) (name id' : ℕ) (r : Resolved)
    → IsLinked (inner s outer)
    → ResolvedOk outer name (resolved outer' id')
    → NoRoom s r ⊎ Captured s name (λ s'. inner s' outer') r
    → ResolvedOk (inner s outer) name r
inner-ResolvedOk s outer outer' name id' r w o (inl (e, full)) = rw e (inl full)
inner-ResolvedOk s outer outer' name id' r (w, v, u) (linked', grows', g', kept)
      (inr (t, id, e, l, c, g)) =
    let (linked, grows) = captured-linked s t name w l c in
    let out : Within t.captures (head_of outer').locals = rw c (
      captured-Within s name (head_of outer').locals (λ other h. grows' other (v other h))
        (get-contains (head_of outer').locals id' name g')) in
    rw e ((linked, out, linked'), grows, g, inr (rw c (put_capture-contains s name)))

-- An inner scope that has no local of the name, with the result in the outer scopes.
outer-ResolvedOk :
    (s : Scope) (outer : Scopes) (name : ℕ) (rest : Resolved)
    → IsLinked (inner s outer)
    → ResolvedOk outer name rest
    → ResolvedOk
        (inner s outer)
        name
        (elim rest [ resolved outer' _ ↦ capture s name (λ s'. inner s' outer') | other ↦ other ])
outer-ResolvedOk s outer name panicked w o = inr o
outer-ResolvedOk s outer name unresolved w o = o
outer-ResolvedOk s outer name (resolved outer' id) w o =
    inner-ResolvedOk s outer outer' name id (capture s name (λ s'. inner s' outer')) w o
      (captured s name (λ s'. inner s' outer'))

-- In scopes whose captures are locals of their own and of the next outer one, `scope_resolve_symbol`
-- never answers that there is no symbol: it panics, which it does only if a scope has 256 locals or
-- more; or it gives the number of a local of that name, no local is lost, the captures stay such
-- locals, and the scopes are as they were or the innermost one captures the symbol.
pub resolve_symbol-ResolvedOk :
    (chain : Scopes) (name : ℕ)
    → IsLinked chain
    → ResolvedOk chain name (scope_resolve_symbol chain name)
unfolding scope_resolve_symbol
resolve_symbol-ResolvedOk (root s) name w =
    elim (scope_get_local s name)
        as (λ f.
          scope_get_local s name ≡ f
          → ResolvedOk (root s) name
              (elim f [ some id ↦ resolved (root s) id | none ↦ capture s name root ])) [
                | some id ↦ λ e. (w, (λ other h. h), get_local-get s name id e, inl refl)
                | none ↦ λ e. root-ResolvedOk s name (capture s name root) w (captured s name root)
              ]
      refl
resolve_symbol-ResolvedOk (inner s outer) name (w, v, u) =
    let rest = scope_resolve_symbol outer name in
    let beyond : Resolved = elim rest [
      | resolved outer' _ ↦ capture s name (λ s'. inner s' outer')
      | other ↦ other
    ] in
    elim (scope_get_local s name)
        as (λ f.
          scope_get_local s name ≡ f
          → ResolvedOk (inner s outer) name
              (elim f [ some id ↦ resolved (inner s outer) id | none ↦ beyond ])) [
                | some id ↦ λ e. ((w, v, u), (λ other h. h), get_local-get s name id e, inl refl)
                | none ↦ λ e.
                    outer-ResolvedOk s outer name rest (w, v, u)
                      (resolve_symbol-ResolvedOk outer name u)
              ]
      refl

put_all-some :
    (put : Buffer → ℕ → Buffer) (s : Scope) (captures : List ℕ) (b : Buffer)
    → length s.locals < 2 ^ 8
    → Within captures s.locals
    → (b' : Buffer) × (put_all put s captures b ≡ some b')
unfolding put_all
put_all-some put s [] b lt w = (b, refl)
put_all-some put s (name ∷ captures) b lt w =
    let (id, found) = get_local-contains s name lt (w name (contains-head name captures)) in
    let (b', rest) =
      put_all-some put s captures (put b id) lt
        (λ other h. w other (contains-tail name captures other h)) in
    (
      b',
      subst
          (λ (f : Option ℕ).
            elim f [ some local ↦ put_all put s captures (put b local) | none ↦ none ] ≡ some b')
          (sym found) rest,
    )

-- The captures of a scope that resolution has linked to the outer one are loaded from the outer
-- scope and stored in the inner one without a panic, if both have fewer than 256 locals.
pub captures_put :
    (inner_scope : Scope) (outer : Scopes) (b prelude : Buffer)
    → IsLinked (inner inner_scope outer)
    → length inner_scope.locals < 2 ^ 8
    → length (head_of outer).locals < 2 ^ 8
    → ((b' : Buffer) × (put_load_captures b inner_scope (head_of outer) ≡ some b'))
      × ((p' : Buffer) × (put_store_captures prelude inner_scope ≡ some p'))
unfolding put_load_captures put_store_captures
captures_put inner_scope outer b prelude (w, v, u) lt lt' = (
  put_all-some bytecode_put_load (head_of outer) inner_scope.captures b lt' v,
  put_all-some bytecode_put_store inner_scope (reversed inner_scope.captures) prelude lt
      (λ name h. w name (contains-reversed inner_scope.captures name h)),
)

-- With 256 locals no local is found, whatever its name.
pub get_local-full :
    (s : Scope) (name : ℕ) → length s.locals ≡ 2 ^ 8 → scope_get_local s name ≡ none
unfolding scope_get_local find_local
get_local-full s name h = rw h refl
