-- ===== src/Compiler/Scopes/Laws.antt =====
-- Resolution of symbols: it succeeds unless a scope is full, and the captures are then loaded and
-- stored without a panic.
pub mod Resolve
use chammer.Prelude.{
  ◌⊎◌, inl, inr, ℕ, zero, suc, ◌+◌, ◌%◌, ◌^◌, ◌≤◌, ◌<◌, ◌≡◌, ◌≢◌, refl, sym, true, false, Option,
  none, some, List, [], ◌∷◌, ◌++◌, ◌==◌, ltb, length, arith, if◌then◌else◌, get_elem?,
}
use mathlib.Core.Path.{subst}
use chammer.Buffer.{Buffer}
use chammer.Bytecode.{bytecode_put_load, bytecode_put_store}
use chammer.Compiler.Scopes.{
  Scope, Scopes, root, inner, find_local, scope_get_local, scope_put_local, scope_put_capture,
  contains, Resolved, panicked, unresolved, resolved, capture, scope_resolve_symbol, put_all,
  reversed, put_store_captures, put_load_captures,
}

abbrev pub head_of : Scopes → Scope
head_of (root s) = s
head_of (inner s outer) = s

-- Is every symbol of the first list in the second?
abbrev pub Within : List ℕ → List ℕ → Type 0
Within xs ys = (name : ℕ) → contains xs name ≡ true → contains ys name ≡ true

-- Every capture is a local of its scope and of the next outer one.
abbrev pub IsLinked : Scopes → Type 0
IsLinked (root s) = Within s.captures s.locals
IsLinked (inner s outer) =
    Within s.captures s.locals × Within s.captures (head_of outer).locals × IsLinked outer

contains-append_left :
    (xs ys : List ℕ) (name : ℕ) → contains xs name ≡ true → contains (xs ++ ys) name ≡ true
unfolding contains
contains-append_left [] ys name h = absurd (cc)
contains-append_left (x ∷ xs) ys name h = ground (arith, contains-append_left xs ys name)

contains-append_last : (xs : List ℕ) (name : ℕ) → contains (xs ++ name ∷ []) name ≡ true
unfolding contains
contains-append_last [] name = ground arith
contains-append_last (x ∷ xs) name = ground (arith, contains-append_last xs name)

contains-append_one :
    (xs : List ℕ) (new name : ℕ)
    → contains (xs ++ new ∷ []) name ≡ true
    → new ≢ name
    → contains xs name ≡ true
unfolding contains
contains-append_one [] new name h n = ground arith
contains-append_one (x ∷ xs) new name h n = ground (arith, contains-append_one xs new name)

contains-head : (x : ℕ) (xs : List ℕ) → contains (x ∷ xs) x ≡ true
unfolding contains
contains-head x xs = ground arith

contains-tail :
    (x : ℕ) (xs : List ℕ) (name : ℕ) → contains xs name ≡ true → contains (x ∷ xs) name ≡ true
unfolding contains
contains-tail x xs name h = ground arith

contains-reversed :
    (xs : List ℕ) (name : ℕ) → contains (reversed xs) name ≡ true → contains xs name ≡ true
unfolding contains reversed
contains-reversed [] name h = h
contains-reversed (x ∷ xs) name h =
    elim (x == name) as (λ b. x == name ≡ b → (if b then true else contains xs name) ≡ true) [
      | true ↦ λ e. refl
      | false ↦
          λ e. contains-reversed xs name (contains-append_one (reversed xs) x name h (ground arith))
    ]
      refl

-- A local that is there is found, if the number of locals is a byte.
find_local-contains :
    (locals : List ℕ) (n i name : ℕ)
    → length locals ≤ n
    → contains locals name ≡ true
    → (id : ℕ) × (find_local n i locals name ≡ some id)
unfolding find_local contains
find_local-contains [] n i name le h = absurd (cc)
find_local-contains (x ∷ xs) zero i name le h = elim le [ ]
find_local-contains (x ∷ xs) (suc n) i name le h =
    let rest = find_local-contains xs n (suc i) name (omega (arith, le)) in
    elim (x == name)
        as (λ b.
          (if b then true else contains xs name) ≡ true
          → (id : ℕ) × ((if b then some i else find_local n (suc i) xs name) ≡ some id)) [
            | true ↦ λ _. (i, refl)
            | false ↦ rest
          ]
      h

pub get_local-contains :
    (s : Scope) (name : ℕ)
    → length s.locals < 2 ^ 8
    → contains s.locals name ≡ true
    → (id : ℕ) × (scope_get_local s name ≡ some id)
unfolding scope_get_local
get_local-contains s name lt h =
    find_local-contains s.locals (length s.locals % 2 ^ 8) 0 name (omega (arith, lt)) h

-- The number that is found is that of a local with the name.
find_local-get :
    (locals : List ℕ) (n i name id : ℕ)
    → find_local n i locals name ≡ some id
    → (k : ℕ) × (id ≡ i + k) × (get_elem? locals k ≡ some name)
unfolding find_local
find_local-get locals zero i name id h = absurd (cc)
find_local-get [] (suc n) i name id h = absurd (cc)
find_local-get (x ∷ xs) (suc n) i name id h =
    elim (x == name)
        as (λ b.
          x == name ≡ b
          → (if b then some i else find_local n (suc i) xs name) ≡ some id
          → (k : ℕ) × (id ≡ i + k) × (get_elem? (x ∷ xs) k ≡ some name)) [
            | true ↦ λ e f. (0, ground arith, ground arith)
            | false ↦ λ e f.
                let (k, here, there) = find_local-get xs n (suc i) name id f in
                (suc k, omega (arith, here), there)
          ]
      refl h

pub get_local-get :
    (s : Scope) (name id : ℕ) → scope_get_local s name ≡ some id → get_elem? s.locals id ≡ some name
unfolding scope_get_local
get_local-get s name id h =
    let (k, e, g) = find_local-get s.locals (length s.locals % 2 ^ 8) 0 name id h in
    let here : id ≡ k = omega (arith, e) in rw here g
