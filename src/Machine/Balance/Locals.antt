-- ===== src/Machine/Balance/Locals.antt =====
-- The handlers of lib/machine.c that move values between the stack and the locals of a frame.
use chammer.Prelude.{
  ℕ, zero, suc, ◌+◌, ◌≡◌, refl, Option, none, some, List, [], ◌∷◌, ◌++◌, length, get_elem?, set,
  arith, length-append,
}
use mathlib.Core.Path.{subst}
use chammer.Value.{Value, ok, ◌>>=◌, address_of}
use chammer.Value.Counts.{points_to, occurrences, occurrences-append}
use chammer.Value.Safe.{Safe, safe, bind-Safe}
use chammer.Value.Handling.{Balanced, Balanced-same, Within}
use chammer.Machine.{
  opstack_pop, pop_of, Machine, Frame, get_local, set_local, local_in, set_in, inside,
}
use chammer.Machine.Balance.{
  roots, some_values, frame_roots, module_roots, below, Steady, push_ref-Steady,
}
use chammer.Machine.Ops.{op_load, op_store}

some_values-get :
    (ls : List (Option Value)) (i : ℕ) (v : Value)
    → get_elem? ls i ≡ some (some v)
    → Within v (some_values ls)
unfolding some_values occurrences
some_values-get [] i v e q = absurd (cc)
some_values-get (none ∷ ls) zero v e q = absurd (cc)
some_values-get (some w ∷ ls) zero v e q = let same : w ≡ v = cc in rw same (omega arith)
some_values-get (none ∷ ls) (suc i) v e q = some_values-get ls i v e q
some_values-get (some w ∷ ls) (suc i) v e q = omega (arith, some_values-get ls i v e q)

-- The local with a number was set, if the frame has one.
abbrev pub IsStored : Option (Option Value) → Type 0
IsStored (some none) = ⊥
IsStored _ = Unit

abbrev pub HasSet : List Frame → ℕ → Type 0
HasSet [] i = Unit
HasSet (f ∷ fs) i = IsStored (get_elem? f.locals i)

locals-Within :
    (fs : List Frame) (i : ℕ)
    → HasSet fs i
    → Safe (λ v. Within v (frame_roots fs)) (local_in fs i >>= set_in)
unfolding frame_roots
locals-Within [] i has = safe tt
locals-Within (f ∷ fs) i has =
    elim (get_elem? f.locals i)
        as (λ (x : Option (Option Value)).
          get_elem? f.locals i ≡ x
          → IsStored x
          → Safe (λ v. Within v (frame_roots (f ∷ fs))) (inside x >>= set_in)) [
            | none ↦ λ e has. safe tt
            | some none ↦ λ e has. elim has [ ]
            | some (some v) ↦ λ e has. safe (λ q. omega (
              arith,
              some_values-get f.locals i v e q,
              occurrences-append q (some_values f.locals) (frame_roots fs),
            ))
          ]
      refl has

pub op_load-Steady :
    (k : ℕ) (leaks : List Value) (m : Machine) (i : ℕ)
    → HasSet m.fnstack i
    → Steady (suc k) leaks m
    → Safe (Steady k leaks) (op_load i m)
unfolding op_load get_local
op_load-Steady k leaks m i has b = bind-Safe (locals-Within m.fnstack i has) (λ v within.
    push_ref-Steady k leaks m v b (λ q. omega (
      arith,
      within q,
      occurrences-append q m.opstack (below m leaks),
      occurrences-append q (frame_roots m.fnstack) (module_roots m.modules ++ leaks),
    )))

abbrev pub was_set : Option Value → List Value
was_set none = []
was_set (some v) = v ∷ []

some_values-set :
    (q : ℕ) (ls : List (Option Value)) (i : ℕ) (old : Option Value) (v : Value)
    → get_elem? ls i ≡ some old
    → occurrences q (some_values (set ls i (some v))) + occurrences q (was_set old)
      ≡ points_to q (address_of v) + occurrences q (some_values ls)
unfolding some_values occurrences
some_values-set q [] i old v e = absurd (cc)
some_values-set q (none ∷ ls) zero none v e = omega arith
some_values-set q (none ∷ ls) zero (some w) v e = absurd (cc)
some_values-set q (some u ∷ ls) zero none v e = absurd (cc)
some_values-set q (some u ∷ ls) zero (some w) v e = let same : u ≡ w = cc in rw same (omega arith)
some_values-set q (none ∷ ls) (suc i) old v e = some_values-set q ls i old v e
some_values-set q (some u ∷ ls) (suc i) old v e = omega (arith, some_values-set q ls i old v e)

length-some_values-set :
    (ls : List (Option Value)) (i : ℕ) (old : Option Value) (v : Value)
    → get_elem? ls i ≡ some old
    → length (some_values (set ls i (some v))) + length (was_set old)
      ≡ suc (length (some_values ls))
unfolding some_values
length-some_values-set [] i old v e = absurd (cc)
length-some_values-set (none ∷ ls) zero none v e = omega arith
length-some_values-set (none ∷ ls) zero (some w) v e = absurd (cc)
length-some_values-set (some u ∷ ls) zero none v e = absurd (cc)
length-some_values-set (some u ∷ ls) zero (some w) v e = omega arith
length-some_values-set (none ∷ ls) (suc i) old v e = length-some_values-set ls i old v e
length-some_values-set (some u ∷ ls) (suc i) old v e =
    omega (arith, length-some_values-set ls i old v e)

-- What the local with a number holds.
abbrev pub held_at : Option (Option Value) → List Value
held_at none = []
held_at (some old) = was_set old

abbrev pub held_local : List Frame → ℕ → List Value
held_local [] i = []
held_local (f ∷ fs) i = held_at (get_elem? f.locals i)

stored :
    (k : ℕ) (leaks : List Value) (m : Machine) (i : ℕ) (v : Value) (f : Frame) (fs : List Frame)
    (old : Option Value)
    → get_elem? f.locals i ≡ some old
    → Balanced k m.heap
        (v ∷ (m.opstack ++ (frame_roots (f ∷ fs) ++ (module_roots m.modules ++ leaks))))
    → Steady k (was_set old ++ leaks) (record m { fnstack = set_local (f ∷ fs) i v })
unfolding frame_roots occurrences
stored k leaks m i v f fs old g b =
    let others = module_roots m.modules in
    let locals = some_values f.locals in
    let locals' = some_values (set f.locals i (some v)) in
    let tail = others ++ leaks in
    let tail' = others ++ (was_set old ++ leaks) in
    Balanced-same k m.heap (v ∷ (m.opstack ++ ((locals ++ frame_roots fs) ++ tail)))
      (m.opstack ++ ((locals' ++ frame_roots fs) ++ tail'))
      (λ q. omega (
        arith,
        some_values-set q f.locals i old v g,
        occurrences-append q m.opstack ((locals ++ frame_roots fs) ++ tail),
        occurrences-append q m.opstack ((locals' ++ frame_roots fs) ++ tail'),
        occurrences-append q (locals ++ frame_roots fs) tail,
        occurrences-append q (locals' ++ frame_roots fs) tail',
        occurrences-append q locals (frame_roots fs),
        occurrences-append q locals' (frame_roots fs),
        occurrences-append q others leaks,
        occurrences-append q others (was_set old ++ leaks),
        occurrences-append q (was_set old) leaks,
      ))
      (omega (
        arith,
        length-some_values-set f.locals i old v g,
        length-append m.opstack ((locals ++ frame_roots fs) ++ tail),
        length-append m.opstack ((locals' ++ frame_roots fs) ++ tail'),
        length-append (locals ++ frame_roots fs) tail,
        length-append (locals' ++ frame_roots fs) tail',
        length-append locals (frame_roots fs),
        length-append locals' (frame_roots fs),
        length-append others leaks,
        length-append others (was_set old ++ leaks),
        length-append (was_set old) leaks,
      ))
      b

-- What the local held is leaked.
pub op_store-Steady :
    (k : ℕ) (leaks : List Value) (m : Machine) (i : ℕ)
    → Steady k leaks m
    → Safe (Steady k (held_local m.fnstack i ++ leaks)) (op_store i m)
unfolding op_store opstack_pop frame_roots occurrences
op_store-Steady k leaks m i b =
    elim m.opstack
        as (λ (s : List Value).
          m.opstack ≡ s
          → Safe (Steady k (held_local m.fnstack i ++ leaks)) (
              pop_of s m >>= λ (v, m'). local_in m'.fnstack i >>= λ _.
              ok (record m' { fnstack = set_local m'.fnstack i v }))) [
                | [] ↦ λ e. safe tt
                | v ∷ s ↦ λ e.
                    put_in_frame v (record m { opstack = s })
                      (subst (λ (s : List Value). Balanced k m.heap (s ++ below m leaks)) e b)
              ]
      refl
  where
    put_in_frame :
        (v : Value) (m' : Machine)
        → Balanced k m'.heap (v ∷ roots m' leaks)
        → Safe
            (Steady k (held_local m'.fnstack i ++ leaks))
            (local_in m'.fnstack i >>= λ _. ok (record m' { fnstack = set_local m'.fnstack i v }))
    put_in_frame v m' b' =
        elim m'.fnstack
            as (λ (fs : List Frame).
              m'.fnstack ≡ fs
              → Safe (Steady k (held_local fs i ++ leaks))
                  (local_in fs i >>= λ _. ok (record m' { fnstack = set_local fs i v }))) [
                    | [] ↦ λ e. safe tt
                    | f ∷ fs ↦ λ e.
                        elim (get_elem? f.locals i)
                            as (λ (x : Option (Option Value)).
                              get_elem? f.locals i ≡ x
                              → Safe (Steady k (held_at x ++ leaks)) (
                                  inside x >>= λ _.
                                  ok (record m' { fnstack = set_local (f ∷ fs) i v }))) [
                                    | none ↦ λ g. safe tt
                                    | some old ↦ λ g. safe (
                                        stored k leaks m' i v f fs old g (
                                          subst
                                            (λ (fs : List Frame). Balanced k m'.heap (
                                              v
                                              ∷ (m'.opstack
                                                  ++ (frame_roots fs
                                                      ++ (module_roots m'.modules ++ leaks)))))
                                            e b'))
                                  ]
                          refl
                  ]
          refl
