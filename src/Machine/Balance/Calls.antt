-- ===== src/Machine/Balance/Calls.antt =====
-- The handlers of lib/machine.c that call, return, and build closures, tuples and lists.
use chammer.Prelude.{
  All, ℕ, zero, suc, ◌+◌, ◌%◌, ◌<◌, ◌^◌, ◌≡◌, refl, sym, true, false, Option, none, some, List, [],
  ◌∷◌, ◌++◌, length, arith, length-append, ltb, ◌==◌,
}
use mathlib.Core.Path.{subst}
use chammer.Value.{
  Value, ok, err, panicked, ◌>>=◌, alloc, h_closure, h_cons, v_nil, v_closure, v_cons, v_tuple,
}
use chammer.Value.Counts.{occurrences, occurrences-append, total}
use chammer.Value.Safe.{Safe, safe, bind-Safe}
use chammer.Value.Handling.{Balanced, Balanced-same, Balanced-le, drop-Balanced, alloc-Balanced}
use chammer.Machine.{
  Machine, Frame, World, opstack_push, drop_in, push_frame, pop_frame, pop_frame_of, drop_locals,
  unset, inside,
}
use chammer.Machine.Balance.{
  some_values, frame_roots, module_roots, roots, Holding, Steady, pop-Steady, drop_in-Steady,
  push-Steady,
}
use chammer.Machine.Ops.{
  make_closure, call_closure, enter_closure, apply_closure, put_args, take_args, put_items,
  cons_items, op_maketuple, op_makelist,
}
use chammer.Value.Objects.{hvalue_make_closure, hvalue_make_cons}
use chammer.Value.Access.{HTupleBuilder, htuple_begin}
use chammer.Value.Handling.Closures.{
  put_arg-Balanced, take_arg-Balanced, Taken, args_left-Safe, fnindex-Safe, uniq-Balanced,
}
use chammer.Value.Handling.Tuples.{begin-Balanced, tuple_put-Balanced, tuple_end-Balanced}
use chammer.Bytecode.Program.{FuncMeta, program_func_meta}

some_values-unset : (n : ℕ) → some_values (unset n) ≡ []
unfolding some_values unset
some_values-unset zero = refl
some_values-unset (suc n) = some_values-unset n

-- The locals of a new frame hold nothing.
pub push_frame-Steady :
    (w : World) (fnindex : ℕ) (vs : List Value) (k : ℕ) (leaks : List Value) (m : Machine)
    → Holding vs k leaks m
    → Safe (Holding vs k leaks) (push_frame w fnindex m)
unfolding push_frame frame_roots
push_frame-Steady w fnindex vs k leaks m b =
    elim (program_func_meta w.prog fnindex)
      as (λ (x : Option FuncMeta). Safe (Holding vs k leaks) (
        inside x >>= λ fn. ok (record m {
          fnstack =
              record { return_ip = m.ip; fnindex = fnindex; locals = unset fn.locals } ∷ m.fnstack;
          ip = fn.addr;
        }))) [
          | none ↦ safe tt
          | some fn ↦ safe (
              subst
                (λ ls. Balanced k m.heap (
                  vs
                  ++ (m.opstack
                      ++ ((ls ++ frame_roots m.fnstack) ++ (module_roots m.modules ++ leaks)))))
                (sym (some_values-unset fn.locals)) b)
        ]

-- Every local of the frame was set.
abbrev pub WasSet : Option Value → Type 0
WasSet none = ⊥
WasSet (some v) = Unit

abbrev pub HasAllSet : List Frame → Type 0
HasAllSet [] = Unit
HasAllSet (f ∷ fs) = All WasSet f.locals

drop_locals-Steady :
    (ls : List (Option Value)) (k : ℕ) (leaks : List Value) (m : Machine)
    → All WasSet ls
    → Holding (some_values ls) k leaks m
    → Safe (Steady k leaks) (drop_locals ls m)
unfolding drop_locals some_values drop_in
drop_locals-Steady [] k leaks m has b = safe b
drop_locals-Steady (none ∷ ls) k leaks m has b = elim has.0 [ ]
drop_locals-Steady (some v ∷ ls) k leaks m has b =
    bind-Safe
      (bind-Safe {R = Holding (some_values ls) k leaks}
        (drop-Balanced k m.heap (some_values ls ++ roots m leaks) v b) (λ h b'. safe b'))
      (λ m' b'. drop_locals-Steady ls k leaks m' has.1 b')

-- A return gives up the references of the frame's locals.
pub pop_frame-Steady :
    (k : ℕ) (leaks : List Value) (m : Machine)
    → HasAllSet m.fnstack
    → Steady k leaks m
    → Safe (Steady k leaks) (pop_frame m)
unfolding pop_frame pop_frame_of frame_roots occurrences
pop_frame-Steady k leaks m has b =
    elim m.fnstack
        as (λ (fs : List Frame).
          m.fnstack ≡ fs → HasAllSet fs → Safe (Steady k leaks) (pop_frame_of fs m)) [
            | [] ↦ λ e has. safe tt
            | f ∷ fs ↦ λ e has.
                let locals = some_values f.locals in
                let tail = module_roots m.modules ++ leaks in
                let before =
                  subst
                    (λ (fs : List Frame). Balanced k m.heap (m.opstack ++ (frame_roots fs ++ tail)))
                    e b in
                let locals_first =
                  Balanced-same k m.heap (m.opstack ++ ((locals ++ frame_roots fs) ++ tail))
                    (locals ++ (m.opstack ++ (frame_roots fs ++ tail)))
                    (λ q. omega (
                      arith,
                      occurrences-append q m.opstack ((locals ++ frame_roots fs) ++ tail),
                      occurrences-append q (locals ++ frame_roots fs) tail,
                      occurrences-append q locals (frame_roots fs),
                      occurrences-append q locals (m.opstack ++ (frame_roots fs ++ tail)),
                      occurrences-append q m.opstack (frame_roots fs ++ tail),
                      occurrences-append q (frame_roots fs) tail,
                    ))
                    (omega (
                      arith,
                      length-append m.opstack ((locals ++ frame_roots fs) ++ tail),
                      length-append (locals ++ frame_roots fs) tail,
                      length-append locals (frame_roots fs),
                      length-append locals (m.opstack ++ (frame_roots fs ++ tail)),
                      length-append m.opstack (frame_roots fs ++ tail),
                      length-append (frame_roots fs) tail,
                    ))
                    before in
                bind-Safe
                  (drop_locals-Steady f.locals k leaks (record m { fnstack = fs }) has locals_first)
                  (λ m' b'. safe b')
          ]
      refl has

put_args-Steady :
    (n : ℕ) (closure : Value) (k : ℕ) (leaks : List Value) (m : Machine)
    → Holding (closure ∷ []) k leaks m
    → Safe (Holding (closure ∷ []) k leaks) (put_args n closure m)
unfolding put_args
put_args-Steady zero closure k leaks m b = safe b
put_args-Steady (suc n) closure k leaks m b =
    bind-Safe (pop-Steady (closure ∷ []) k leaks m b) (λ (arg, m') b'.
      bind-Safe (put_arg-Balanced k m'.heap (roots m' leaks) closure arg b')
        (λ h b''. put_args-Steady n closure k leaks (record m' { heap = h }) b''))

pub make_closure-Steady :
    (w : World) (fnindex : ℕ) (k : ℕ) (leaks : List Value) (m : Machine)
    → Steady (suc k) leaks m
    → Safe (Steady k leaks) (make_closure w fnindex m)
unfolding make_closure hvalue_make_closure alloc
make_closure-Steady w fnindex k leaks m b =
    elim (program_func_meta w.prog fnindex)
      as (λ (x : Option FuncMeta). Safe (Steady k leaks) (
        inside x >>= λ fn.
        let (closure, h) = hvalue_make_closure fnindex ((fn.captures + fn.args) % 2 ^ 8) m.heap in
        put_args fn.captures closure (record m { heap = h }) >>= λ m'.
        ok (opstack_push closure m'))) [
          | none ↦ safe tt
          | some fn ↦
              let closure = v_closure (length m.heap) in
              let made =
                alloc-Balanced k m.heap (roots m leaks)
                  (h_closure fnindex ((fn.captures + fn.args) % 2 ^ 8) []) closure refl b in
              bind-Safe
                (put_args-Steady fn.captures closure k leaks
                  (record m {
                    heap =
                        (alloc (h_closure fnindex ((fn.captures + fn.args) % 2 ^ 8) []) m.heap).1;
                  })
                  made)
                (λ m' b'. safe b')
        ]

put_items-Steady :
    (n : ℕ) (tb : HTupleBuilder) (k : ℕ) (leaks : List Value) (m : Machine)
    → Holding (v_tuple tb.tuple ∷ []) k leaks m
    → Safe
        (λ (r : HTupleBuilder × Machine). Holding (v_tuple r.0.tuple ∷ []) k leaks r.1)
        (put_items n tb m)
unfolding put_items
put_items-Steady zero tb k leaks m b = safe b
put_items-Steady (suc n) tb k leaks m b =
    bind-Safe (pop-Steady (v_tuple tb.tuple ∷ []) k leaks m b) (λ (item, m') b'.
      bind-Safe (tuple_put-Balanced k m'.heap (roots m' leaks) tb item b')
        (λ (tb', h) b''. put_items-Steady n tb' k leaks (record m' { heap = h }) b''))

pub op_maketuple-Steady :
    (len : ℕ) (k : ℕ) (leaks : List Value) (m : Machine)
    → Steady (suc k) leaks m
    → Safe (Steady k leaks) (op_maketuple len m)
unfolding op_maketuple
op_maketuple-Steady len k leaks m b =
    let (tb, h) = htuple_begin len m.heap in
    bind-Safe
      (put_items-Steady len tb k leaks (record m { heap = h })
        (begin-Balanced k m.heap (roots m leaks) len b))
      (λ (tb', m') b'.
        bind-Safe (tuple_end-Balanced k m'.heap (roots m' leaks) tb' b') (λ v b''. safe b''))

cons_items-Steady :
    (n : ℕ) (k : ℕ) (leaks : List Value) (m : Machine)
    → Steady (n + k) leaks m
    → Safe (Steady k leaks) (cons_items n m)
unfolding cons_items hvalue_make_cons alloc occurrences
cons_items-Steady zero k leaks m b =
    safe (Balanced-le (0 + k) k m.heap (roots m leaks) (omega arith) b)
cons_items-Steady (suc n) k leaks m b =
    bind-Safe (pop-Steady [] (suc n + k) leaks m b) (λ (tail, m₁) b₁.
      bind-Safe (pop-Steady (tail ∷ []) (suc n + k) leaks m₁ b₁) (λ (head, m₂) b₂.
        let both =
          Balanced-same (suc n + k) m₂.heap (tail ∷ head ∷ roots m₂ leaks)
            (head ∷ tail ∷ roots m₂ leaks) (λ q. omega arith) refl b₂ in
        let room =
          Balanced-le (suc n + k) (suc (n + k)) m₂.heap (head ∷ tail ∷ roots m₂ leaks) (omega arith)
            both in
        cons_items-Steady n k leaks
          (opstack_push (v_cons (length m₂.heap))
            (record m₂ { heap = (alloc (h_cons head tail) m₂.heap).1 }))
          (alloc-Balanced (n + k) m₂.heap (roots m₂ leaks) (h_cons head tail)
            (v_cons (length m₂.heap)) refl room)))

pub op_makelist-Steady :
    (len : ℕ) (k : ℕ) (leaks : List Value) (m : Machine)
    → Steady (suc (len + k)) leaks m
    → Safe (Steady k leaks) (op_makelist len m)
unfolding op_makelist
op_makelist-Steady len k leaks m b =
    cons_items-Steady len k leaks (opstack_push v_nil m)
      (push-Steady (len + k) leaks m v_nil refl b)

take_args-Steady :
    (n : ℕ) (closure : Value) (k : ℕ) (leaks : List Value) (m : Machine)
    → Holding (closure ∷ []) k leaks m
    → Safe (Holding (closure ∷ []) k leaks) (take_args n closure m)
unfolding take_args
take_args-Steady zero closure k leaks m b = safe b
take_args-Steady (suc n) closure k leaks m b =
    bind-Safe (take_arg-Balanced k m.heap (roots m leaks) closure b) (λ (arg, h) taken.
      elim arg
          as (λ (x : Option Value).
            Taken k (roots m leaks) closure (x, h)
            → Safe (Holding (closure ∷ []) k leaks) (elim x [
              | none ↦ ok (record m { heap = h })
              | some v ↦ take_args n closure (opstack_push v (record m { heap = h }))
            ])) [
              | none ↦ λ t. safe t
              | some v ↦
                  λ t. take_args-Steady n closure k leaks (opstack_push v (record m { heap = h })) t
            ]
        taken)

apply_closure-Steady :
    (w : World) (closure : Value) (args left : ℕ) (k : ℕ) (leaks : List Value) (m : Machine)
    → Holding (closure ∷ []) k leaks m
    → Safe (Steady k leaks) (apply_closure w closure args left m)
unfolding apply_closure enter_closure
apply_closure-Steady w closure args left k leaks m b =
    elim (ltb args left)
      as (λ u. Safe (Steady k leaks) (elim u [
        | true ↦ put_args args closure m >>= λ m'. ok (opstack_push closure m')
        | false ↦ elim (args == left) [ true ↦ enter_closure w closure m | false ↦ err panicked ]
      ])) [
        | true ↦ bind-Safe (put_args-Steady args closure k leaks m b) (λ m' b'. safe b')
        | false ↦
            elim (args == left)
              as (λ u.
                Safe (Steady k leaks)
                  (elim u [ true ↦ enter_closure w closure m | false ↦ err panicked ])) [
                    | true ↦ bind-Safe (take_args-Steady (2 ^ 8) closure k leaks m b) (λ m₁ b₁.
                        bind-Safe (fnindex-Safe k m₁.heap (roots m₁ leaks) closure b₁) (λ fnindex _.
                          bind-Safe (push_frame-Steady w fnindex (closure ∷ []) k leaks m₁ b₁)
                            (λ m₂ b₂. drop_in-Steady k leaks m₂ closure b₂)))
                    | false ↦ safe tt
                  ]
      ]

pub call_closure-Steady :
    (w : World) (p args : ℕ) (k : ℕ) (leaks : List Value) (m : Machine)
    → Holding (v_closure p ∷ []) k leaks m
    → total m.heap (v_closure p ∷ roots m leaks)
        + total m.heap (v_closure p ∷ roots m leaks)
        + suc k
      < 2 ^ 32
    → Safe (Steady k leaks) (call_closure w (v_closure p) args m)
unfolding call_closure
call_closure-Steady w p args k leaks m b few =
    bind-Safe (uniq-Balanced k m.heap (roots m leaks) p b few) (λ (closure, h) (b', owned).
      bind-Safe (args_left-Safe k h (roots m leaks) closure b')
        (λ left _. apply_closure-Steady w closure args left k leaks (record m { heap = h }) b'))
