-- ===== src/Value/Handling/Closures.antt =====
-- Closures of lib/value.c keep the counts exact.
use chammer.Prelude.{
  ℕ, suc, ◌+◌, ◌^◌, ◌≤◌, ◌<◌, ◌≡◌, refl, sym, ap, Bool, true, false, Option, none, some, List, [],
  ◌∷◌, ◌++◌, length, get_elem?, arith, length-append, ltb, leb, if◌then◌else◌,
}
use mathlib.Core.Path.{subst}
use chammer.Value.{
  Value, Object, address_of, Cell, Heap, Result, ok, err, confused, panicked, overrun, ◌>>=◌, store,
  alloc, h_closure, v_closure,
}
use chammer.Value.Counts.{
  points_to, occurrences, held, held_by, held_refs, held_total, refs, total, CountOk,
  occurrences-append,
}
use chammer.Value.Referencing.{held_by-positive, points_to_self}
use chammer.Value.Sharing.{load-Safe, sum_cells-ge, get-append_here}
use chammer.Value.Safe.{Safe, safe, bind-Safe}
use chammer.Value.Handling.{
  Balanced, Balanced-same, Balanced-le, ref-Balanced, drop_fewer-Balanced, alloc-Balanced,
  still-IsReferred, root_found, root_occurs, closure_in-Safe, put-Balanced, occurrences-snoc,
}
use chammer.Value.Objects.{
  ref_each, clone_object, hvalue_clone, hvalue_uniq, hvalue_is_uniq, uniq_or, is_of, at_address,
}
use chammer.Value.Access.{
  hvalue_closure_put_arg_mut, hvalue_closure_take_arg_mut, hvalue_closure_args_left,
  hvalue_closure_fnindex, split_last,
}

-- `hvalue_closure_put_arg_mut` moves a root into the closure.
pub put_arg-Balanced :
    (k : ℕ) (h : Heap) (roots : List Value) (v arg : Value)
    → Balanced k h (v ∷ arg ∷ roots)
    → Safe (λ h'. Balanced k h' (v ∷ roots)) (hvalue_closure_put_arg_mut v arg h)
unfolding hvalue_closure_put_arg_mut occurrences
put_arg-Balanced k h roots (v_closure p) arg b =
    let v = v_closure p in
    bind-Safe (root_found k h (arg ∷ roots) v p b refl) (λ (p', c) (at_p, e, used).
      bind-Safe (closure_in-Safe c) (λ (fnindex, argc, args) same.
        let o = h_closure fnindex argc (args ++ arg ∷ []) in
        let after : Balanced k (store p (record c { object = o }) h) (v ∷ roots) =
          put-Balanced k h (v ∷ arg ∷ roots) (v ∷ roots) p c o b e used
            (λ q. rw same (omega (arith, occurrences-snoc q args arg)))
            (rw same (omega (arith, length-append args (arg ∷ [])))) in
        elim (leb c.rc 1)
          as (λ u.
            Safe (λ h'. Balanced k h' (v ∷ roots))
              (if u
                then (if ltb (length args) argc
                    then ok (store p' (record c { object = o }) h)
                    else err overrun)
                else err panicked)) [
                  | true ↦
                      elim (ltb (length args) argc)
                        as (λ u.
                          Safe (λ h'. Balanced k h' (v ∷ roots))
                            (if u
                              then ok (store p' (record c { object = o }) h)
                              else err overrun)) [ true ↦ safe (rw at_p after) | false ↦ safe tt ]
                  | false ↦ safe tt
                ]))
put_arg-Balanced k h roots _ arg b = safe tt

pub split_last-none : (vs : List Value) → split_last vs ≡ none → vs ≡ []
unfolding split_last
split_last-none [] e = refl
split_last-none (v ∷ vs) e =
    elim (split_last vs)
        as (λ (x : Option (List Value × Value)).
          (elim x as (λ _. Option (List Value × Value)) [
            | none ↦ some ([], v)
            | some (us, u) ↦ some (v ∷ us, u)
          ])
            ≡ none
          → v ∷ vs ≡ []) [ none ↦ λ f. absurd (cc) | some (us, u) ↦ λ f. absurd (cc) ]
      e

pub split_last-snoc :
    (vs ws : List Value) (w : Value) → split_last vs ≡ some (ws, w) → vs ≡ ws ++ w ∷ []
unfolding split_last
split_last-snoc [] ws w e = absurd (cc)
split_last-snoc (v ∷ vs) ws w e =
    elim (split_last vs)
        as (λ (x : Option (List Value × Value)).
          split_last vs ≡ x
          → (elim x as (λ _. Option (List Value × Value)) [
            | none ↦ some ([], v)
            | some (us, u) ↦ some (v ∷ us, u)
          ])
            ≡ some (ws, w)
          → v ∷ vs ≡ ws ++ w ∷ []) [
            | none ↦ λ g f.
                let empty : vs ≡ [] = split_last-none vs g in
                let all : [] ≡ ws = cc in let last : v ≡ w = cc in rw (empty, sym all, last) refl
            | some (us, u) ↦ λ g f.
                let tail : vs ≡ us ++ u ∷ [] = split_last-snoc vs us u g in
                let all : v ∷ us ≡ ws = cc in let last : u ≡ w = cc in rw (tail, sym all, last) refl
          ]
      refl e

-- What `hvalue_closure_take_arg_mut` takes out becomes a root.
abbrev pub Taken : ℕ → List Value → Value → Option Value × Heap → Type 0
Taken k roots v (none, h) = Balanced k h (v ∷ roots)
Taken k roots v (some arg, h) = Balanced k h (v ∷ arg ∷ roots)

abbrev taken_of :
    ℕ → Cell → ℕ → ℕ → Option (List Value × Value) → Heap → Result (Option Value × Heap)
taken_of p c fnindex argc x h = elim x [
  | none ↦ ok (none, h)
  | some (rest, arg) ↦ ok (some arg, store p (record c { object = h_closure fnindex argc rest }) h)
]

pub take_arg-Balanced :
    (k : ℕ) (h : Heap) (roots : List Value) (v : Value)
    → Balanced k h (v ∷ roots)
    → Safe (Taken k roots v) (hvalue_closure_take_arg_mut v h)
unfolding hvalue_closure_take_arg_mut occurrences
take_arg-Balanced k h roots (v_closure p) b =
    let v = v_closure p in
    bind-Safe (root_found k h roots v p b refl) (λ (p', c) (at_p, e, used).
      bind-Safe (closure_in-Safe c) (λ (fnindex, argc, args) same.
        elim (leb c.rc 1)
          as (λ u.
            Safe (Taken k roots v)
              (if u then taken_of p' c fnindex argc (split_last args) h else err panicked)) [
                | true ↦
                    elim (split_last args)
                        as (λ x.
                          split_last args ≡ x
                          → Safe (Taken k roots v) (taken_of p' c fnindex argc x h)) [
                            | none ↦ λ g. safe b
                            | some (rest, arg) ↦ λ g.
                                let snoc = split_last-snoc args rest arg g in
                                safe (
                                  rw at_p (
                                    put-Balanced k h (v ∷ roots) (v ∷ arg ∷ roots) p c
                                      (h_closure fnindex argc rest) b e used
                                      (λ q.
                                        rw (same, snoc)
                                          (omega (arith, occurrences-snoc q rest arg)))
                                      (rw (same, snoc)
                                        (omega (arith, length-append rest (arg ∷ []))))))
                          ]
                      refl
                | false ↦ safe tt
              ]))
take_arg-Balanced k h roots _ b = safe tt

pub args_left-Safe :
    (k : ℕ) (h : Heap) (roots : List Value) (v : Value)
    → Balanced k h (v ∷ roots)
    → Safe (λ _. Unit) (hvalue_closure_args_left v h)
unfolding hvalue_closure_args_left
args_left-Safe k h roots (v_closure p) b =
    bind-Safe (root_found k h roots (v_closure p) p b refl)
      (λ (q, c) found. bind-Safe (closure_in-Safe c) (λ (fnindex, argc, args) same. safe tt))
args_left-Safe k h roots _ b = safe tt

pub fnindex-Safe :
    (k : ℕ) (h : Heap) (roots : List Value) (v : Value)
    → Balanced k h (v ∷ roots)
    → Safe (λ _. Unit) (hvalue_closure_fnindex v h)
unfolding hvalue_closure_fnindex
fnindex-Safe k h roots (v_closure p) b =
    bind-Safe (root_found k h roots (v_closure p) p b refl)
      (λ (q, c) found. bind-Safe (closure_in-Safe c) (λ (fnindex, argc, args) same. safe tt))
fnindex-Safe k h roots _ b = safe tt

-- References to values that the allocation `p` holds, while a root refers to it.
ref_each-Balanced :
    (vs : List Value) (k : ℕ) (h : Heap) (roots : List Value) (p : ℕ) (c : Cell)
    → Balanced (length vs + k) h roots
    → 1 ≤ occurrences p roots
    → get_elem? h p ≡ some (some c)
    → ((q : ℕ) → occurrences q vs ≤ occurrences q (held c.object))
    → Safe (λ (r : List Value × Heap). Balanced k r.1 (r.0 ++ roots)) (ref_each vs h)
unfolding ref_each occurrences
ref_each-Balanced [] k h roots p c b le e within =
    safe (Balanced-le (0 + k) k h roots (omega arith) b)
ref_each-Balanced (v ∷ vs) k h roots p c b le e within =
    bind-Safe
      (ref-Balanced (length vs + k) h roots v
        (Balanced-le (length (v ∷ vs) + k) (suc (length vs + k)) h roots (omega arith) b)
        (still-IsReferred h roots p c v b.counted le e (λ q. omega (arith, within q))))
      (λ (w, h₁) (same, b₁, keeps).
        let (rc, e₁) = keeps p c e in
        bind-Safe
          (ref_each-Balanced vs k h₁ (v ∷ roots) p (record c { rc = rc }) b₁ (omega (arith, le)) e₁
            (λ q. omega (arith, within q)))
          (λ (ws, h₂) b₂. safe (
            subst (λ x. Balanced k h₂ (x ∷ (ws ++ roots))) (sym same)
              (Balanced-same k h₂ (ws ++ v ∷ roots) (v ∷ (ws ++ roots))
                (λ q.
                  omega (arith, occurrences-append q ws (v ∷ roots), occurrences-append q ws roots))
                (omega (arith, length-append ws (v ∷ roots), length-append ws roots)) b₂))))

held-le :
    (h : Heap) (p : ℕ) (c : Cell)
    → get_elem? h p ≡ some (some c)
    → 1 ≤ c.rc
    → length (held c.object) ≤ held_total h
held-le h p c e used =
    let here = ap length (held_by-positive c used) in
    omega (arith, here, sum_cells-ge (λ d. length (held_by d)) h p (some c) e)

-- A closure that one value refers to, and nothing else.
abbrev pub IsOwned : Value → Heap → List Value → Type 0
IsOwned v h roots = (q : ℕ) × (v ≡ v_closure q) × (refs q h (v ∷ roots) ≡ 1)

fresh-IsOwned :
    (k : ℕ) (h : Heap) (roots : List Value) (o : Object)
    → Balanced k (alloc o h).1 (v_closure (length h) ∷ roots)
    → IsOwned (v_closure (length h)) (alloc o h).1 roots
unfolding alloc
fresh-IsOwned k h roots o b =
    let v = v_closure (length h) in
    (
      length h,
      refl,
      sym (
          subst
            (λ (x : Option (Option Cell)). CountOk x (refs (length h) (alloc o h).1 (v ∷ roots)))
            (get-append_here h (some (record { rc = 1; object = o }))) (b.counted (length h))),
    )

-- A clone of a closure, besides the closure.
clone-Balanced :
    (k : ℕ) (h : Heap) (roots : List Value) (p : ℕ)
    → Balanced k h (v_closure p ∷ roots)
    → total h (v_closure p ∷ roots) + total h (v_closure p ∷ roots) + suc k < 2 ^ 32
    → Safe
        (λ (r : Value × Heap).
          Balanced k r.1 (r.0 ∷ v_closure p ∷ roots) × IsOwned r.0 r.1 (v_closure p ∷ roots))
        (hvalue_clone (v_closure p) h)
unfolding hvalue_clone clone_object alloc occurrences
clone-Balanced k h roots p b few =
    let v = v_closure p in
    load-Safe h (v ∷ roots) p _ b.counted (omega (arith, root_occurs p v roots refl)) (λ c e n.
      elim c.object
          as (λ o.
            c.object ≡ o
            → Safe
                (λ (r : Value × Heap).
                  Balanced k r.1 (r.0 ∷ v ∷ roots) × IsOwned r.0 r.1 (v ∷ roots))
                (elim (is_of v o) [
                  | true ↦ clone_object o h >>= λ (q, h'). ok (at_address v q, h')
                  | false ↦ err confused
                ])) [
                  | h_closure fnindex argc args ↦ λ same.
                      let used : 1 ≤ c.rc = omega (arith, n, root_occurs p v roots refl) in
                      let size : length args ≤ held_total h =
                        subst (λ o. length (held o) ≤ held_total h) same (held-le h p c e used) in
                      bind-Safe
                        (bind-Safe
                          {R = λ (r : ℕ × Heap).
                            Balanced k r.1 (v_closure r.0 ∷ v ∷ roots)
                            × IsOwned (v_closure r.0) r.1 (v ∷ roots)}
                          (ref_each-Balanced args (suc k) h (v ∷ roots) p c
                            (record { counted = b.counted; room = omega (arith, few, size) })
                            (root_occurs p v roots refl) e (λ q. rw same (omega arith)))
                          (λ (vs, h₁) b₁.
                            let b₂ =
                              alloc-Balanced k h₁ (v ∷ roots) (h_closure fnindex argc vs)
                                (v_closure (length h₁)) refl b₁ in
                            safe
                              (b₂, fresh-IsOwned k h₁ (v ∷ roots) (h_closure fnindex argc vs) b₂)))
                        (λ (q, h₂) b₂. safe b₂)
                  | _ ↦ λ same. safe tt
                ]
        refl)

abbrev UniqOk : ℕ → Heap → List Value → Bool → Type 0
UniqOk p h roots true = refs p h (v_closure p ∷ roots) ≡ 1
UniqOk p h roots false = Unit

pub uniq-Balanced :
    (k : ℕ) (h : Heap) (roots : List Value) (p : ℕ)
    → Balanced k h (v_closure p ∷ roots)
    → total h (v_closure p ∷ roots) + total h (v_closure p ∷ roots) + suc k < 2 ^ 32
    → Safe
        (λ (r : Value × Heap). Balanced k r.1 (r.0 ∷ roots) × IsOwned r.0 r.1 roots)
        (hvalue_uniq (v_closure p) h)
unfolding hvalue_uniq hvalue_is_uniq occurrences
uniq-Balanced k h roots p b few =
    let v = v_closure p in
    bind-Safe {Q = UniqOk p h roots}
      (load-Safe h (v ∷ roots) p _ b.counted (omega (arith, root_occurs p v roots refl))
        (λ c e n. safe (alone c n)))
      (λ u one.
        elim u
            as (λ u.
              UniqOk p h roots u
              → Safe (λ (r : Value × Heap). Balanced k r.1 (r.0 ∷ roots) × IsOwned r.0 r.1 roots)
                  (uniq_or v h u)) [
                    | true ↦ λ one. safe (b, (p, refl, one))
                    | false ↦ λ _.
                        bind-Safe (clone-Balanced k h roots p b few) (λ (w, h₁) (b₁, owned).
                          bind-Safe
                            (drop_fewer-Balanced k h₁ (w ∷ roots) v (
                              Balanced-same k h₁ (w ∷ v ∷ roots) (v ∷ w ∷ roots) (λ q. omega arith)
                                refl b₁))
                            (λ h₂ (b₂, fewer). safe (b₂, still_owned w h₁ h₂ owned fewer)))
                  ]
          one)
  where
    alone : (c : Cell) → c.rc ≡ refs p h (v_closure p ∷ roots) → UniqOk p h roots (leb c.rc 1)
    alone c n =
        elim (leb c.rc 1) as (λ u. leb c.rc 1 ≡ u → UniqOk p h roots u) [
          | true ↦ λ few_refs.
              let le : c.rc ≤ 1 = ground arith in
              omega (arith, n, le, root_occurs p (v_closure p) roots refl)
          | false ↦ λ _. tt
        ]
          refl

    still_owned :
        (w : Value) (h₁ h₂ : Heap)
        → IsOwned w h₁ (v_closure p ∷ roots)
        → ((q : ℕ) → held_refs q h₂ ≤ held_refs q h₁)
        → IsOwned w h₂ roots
    still_owned w h₁ h₂ (q, same, one) fewer =
        let self : points_to q (address_of w) ≡ 1 = rw same (points_to_self q) in
        (q, same, omega (arith, one, self, fewer q))
