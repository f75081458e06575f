-- ===== src/Value/Sharing.antt =====
-- References of lib/value.c under the operations that make allocations and change what they hold.
use chammer.Prelude.{
  ℕ, zero, suc, ◌+◌, ◌≤◌, ◌≡◌, ◌≢◌, refl, sym, ap, Option, none, some, List, [], ◌∷◌, ◌++◌, length,
  get_elem?, arith, length-append,
}
use mathlib.Core.Path.{subst}
use native.Mathlib.Decide.{ℕ_discrete}
use chammer.Value.{Value, Object, Cell, Heap, Result, ◌>>=◌, address_of, load, loaded, store, alloc}
use chammer.Value.Counts.{
  points_to, occurrences, held, held_by, sum_cells, held_refs, refs, total, CountOk, Counted,
  occurrences-append, sum_cells-set, sum_cells-append, get-set, get-set_other,
}
use chammer.Value.Referencing.{
  referred, held_by-positive, IsReferred, points_to_self, points_to_other,
}
use chammer.Value.Safe.{Safe}

-- Roots in another order, or in another way put together.
abbrev pub SameRefs : List Value → List Value → Type 0
SameRefs vs ws = (p : ℕ) → occurrences p vs ≡ occurrences p ws

pub Counted-same : (h : Heap) (vs ws : List Value) → SameRefs vs ws → Counted h vs → Counted h ws
Counted-same h vs ws same counted p =
    let n : refs p h vs ≡ refs p h ws = omega (arith, same p) in
    subst (λ n. CountOk (get_elem? h p) n) n (counted p)

-- A read of an allocation that something refers to.
pub load-Safe :
    {A : Type 0} {Q : A → Type 0} (h : Heap) (roots : List Value) (p : ℕ) (f : Cell → Result A)
    → Counted h roots
    → 1 ≤ refs p h roots
    → ((c : Cell) → get_elem? h p ≡ some (some c) → c.rc ≡ refs p h roots → Safe Q (f c))
    → Safe Q (load p h >>= f)
unfolding load
load-Safe {Q = Q} h roots p f counted le k =
    let (c, e, n) = referred h roots p counted le in
    subst (λ (x : Option (Option Cell)). Safe Q (loaded x >>= f)) (sym e) (k c e n)

pub sum_cells-ge :
    (f : Option Cell → ℕ) (h : Heap) (p : ℕ) (c : Option Cell)
    → get_elem? h p ≡ some c
    → f c ≤ sum_cells f h
unfolding sum_cells
sum_cells-ge f [] p c e = absurd (cc)
sum_cells-ge f (d ∷ h) zero c e = let same : d ≡ c = cc in rw same (omega arith)
sum_cells-ge f (d ∷ h) (suc p) c e = omega (arith, sum_cells-ge f h p c e)

-- What a counted allocation holds is referred to.
pub held-IsReferred :
    (h : Heap) (roots : List Value) (p : ℕ) (c : Cell) (v : Value)
    → get_elem? h p ≡ some (some c)
    → 1 ≤ c.rc
    → ((q : ℕ) → points_to q (address_of v) ≤ occurrences q (held c.object))
    → IsReferred h roots (address_of v)
held-IsReferred h roots p c v e le within =
    elim (address_of v) as (λ a. address_of v ≡ a → IsReferred h roots a) [
      | none ↦ λ a. tt
      | some q ↦ λ a.
          let self : points_to q (address_of v) ≡ 1 = rw a (points_to_self q) in
          let here = ap (occurrences q) (held_by-positive c le) in
          omega (
            arith,
            self,
            within q,
            here,
            sum_cells-ge (λ d. occurrences q (held_by d)) h p (some c) e,
          )
    ]
      refl

pub root-IsReferred :
    (h : Heap) (roots : List Value) (v : Value)
    → ((q : ℕ) → points_to q (address_of v) ≤ occurrences q roots)
    → IsReferred h roots (address_of v)
root-IsReferred h roots v within =
    elim (address_of v) as (λ a. address_of v ≡ a → IsReferred h roots a) [
      | none ↦ λ a. tt
      | some q ↦ λ a.
          let self : points_to q (address_of v) ≡ 1 = rw a (points_to_self q) in
          omega (arith, self, within q)
    ]
      refl

pub get-append_here : (h : Heap) (c : Option Cell) → get_elem? (h ++ c ∷ []) (length h) ≡ some c
get-append_here [] c = refl
get-append_here (d ∷ h) c = get-append_here h c

get-append_other :
    (h : Heap) (c : Option Cell) (q : ℕ) → length h ≢ q → get_elem? (h ++ c ∷ []) q ≡ get_elem? h q
get-append_other [] c zero n = absurd (n refl)
get-append_other [] c (suc q) n = refl
get-append_other (d ∷ h) c zero n = refl
get-append_other (d ∷ h) c (suc q) n = get-append_other h c q (λ e. n (ap suc e))

get-length : (h : Heap) → get_elem? h (length h) ≡ none
get-length [] = refl
get-length (c ∷ h) = get-length h

-- The allocation takes over the references to what it holds, and has one reference itself.
pub alloc-Counted :
    (h : Heap) (roots : List Value) (o : Object) (v : Value)
    → address_of v ≡ some (length h)
    → Counted h (held o ++ roots)
    → Counted (alloc o h).1 (v ∷ roots)
unfolding alloc occurrences sum_cells
alloc-Counted h roots o v a counted =
    let cell : Option Cell = some (record { rc = 1; object = o }) in
    let share : (q : ℕ) → held_refs q (h ++ cell ∷ []) ≡ held_refs q h + occurrences q (held o) =
      λ q.
        let split = sum_cells-append (λ d. occurrences q (held_by d)) h (cell ∷ []) in
        omega (arith, split) in
    λ q. elim (ℕ_discrete (length h) q) [
      | yes same ↦
          subst (λ q. CountOk (get_elem? (h ++ cell ∷ []) q) (refs q (h ++ cell ∷ []) (v ∷ roots)))
            same
            (rw (get-append_here h cell) (
              let fresh : refs (length h) h (held o ++ roots) ≡ 0 =
                subst
                  (λ (x : Option (Option Cell)). CountOk x (refs (length h) h (held o ++ roots)))
                  (get-length h) (counted (length h)) in
              let self : points_to (length h) (address_of v) ≡ 1 =
                rw a (points_to_self (length h)) in
              omega (
                arith,
                share (length h),
                fresh,
                self,
                occurrences-append (length h) (held o) roots,
              )))
      | no other ↦
          let away : points_to q (address_of v) ≡ 0 = rw a (points_to_other (length h) q other) in
          let n : refs q (h ++ cell ∷ []) (v ∷ roots) ≡ refs q h (held o ++ roots) =
            omega (arith, share q, away, occurrences-append q (held o) roots) in
          rw (get-append_other h cell q other, n) (counted q)
    ]

pub total-alloc :
    (h : Heap) (roots : List Value) (o : Object) (v : Value)
    → total (alloc o h).1 (v ∷ roots) ≡ total h (held o ++ roots) + 1
unfolding alloc sum_cells
total-alloc h roots o v =
    let split =
      sum_cells-append (λ d. length (held_by d)) h (some (record { rc = 1; object = o }) ∷ []) in
    omega (arith, split, length-append (held o) roots)

-- An allocation in use gets another object, which shares the references in another way.
module _ (h : Heap) (roots roots' : List Value) (p : ℕ) (c : Cell) (o : Object)
    (e : get_elem? h p ≡ some (some c)) (used : 1 ≤ c.rc) (counted : Counted h roots) where
  pub put-Counted :
      ((q : ℕ)
        → occurrences q (held o) + occurrences q roots'
          ≡ occurrences q (held c.object) + occurrences q roots)
      → Counted (store p (record c { object = o }) h) roots'
  put-Counted balance =
      let new = record c { object = o } in
      let share : (q : ℕ) → refs q (store p new h) roots' ≡ refs q h roots = λ q.
        let swap = sum_cells-set (λ d. occurrences q (held_by d)) h p (some c) (some new) e in
        let was = ap (occurrences q) (held_by-positive c used) in
        let is = ap (occurrences q) (held_by-positive new used) in
        omega (arith, swap, was, is, balance q) in
      λ q. elim (ℕ_discrete p q) [
        | yes same ↦
            subst (λ q. CountOk (get_elem? (store p new h) q) (refs q (store p new h) roots')) same
              (rw (get-set h p (some c) (some new) e, share p)
                (subst (λ (x : Option (Option Cell)). CountOk x (refs p h roots)) e (counted p)))
        | no other ↦ rw (get-set_other h p q (some new) other, share q) (counted q)
      ]

  pub total-put :
      length (held o) + length roots' ≡ length (held c.object) + length roots
      → total (store p (record c { object = o }) h) roots' ≡ total h roots
  total-put balance =
      let new = record c { object = o } in
      let swap = sum_cells-set (λ d. length (held_by d)) h p (some c) (some new) e in
      let was = ap length (held_by-positive c used) in
      let is = ap length (held_by-positive new used) in omega (arith, swap, was, is, balance)
