-- ===== src/Machine/Partial.antt =====
-- Closures of lib/machine.c that are given their arguments in parts.
use chammer.Prelude.{
  ℕ, zero, suc, ◌+◌, ◌-◌, ◌%◌, ◌≤◌, ◌<◌, ◌^◌, ◌≡◌, refl, sym, ap, ◌∙◌, true, false, Option, none,
  some, List, [], ◌∷◌, ◌++◌, length, get_elem?, set, arith, length-append, append_assoc, append-nil,
  ltb, ◌==◌, lt→ltb,
}
use mathlib.Core.Path.{subst}
use chammer.Value.{Value, Cell, Heap, Result, ok, ◌>>=◌, load, store, h_closure, v_closure}
use chammer.Value.Counts.{get-set}
use chammer.Value.Objects.{hvalue_uniq, hvalue_is_uniq}
use chammer.Value.Access.{
  split_last, hvalue_closure_put_arg_mut, hvalue_closure_take_arg_mut, hvalue_closure_args_left,
  hvalue_closure_fnindex,
}
use chammer.Value.Handling.Closures.{split_last-none, split_last-snoc}
use chammer.Machine.{Machine, World, opstack_pop, opstack_push, push_frame, drop_in}
use chammer.Machine.Ops.{put_args, take_args, call_closure, apply_closure, enter_closure}

set-set : (h : Heap) (p : ℕ) (c d : Option Cell) → set (set h p c) p d ≡ set h p d
set-set [] p c d = refl
set-set (e ∷ h) zero c d = refl
set-set (e ∷ h) (suc p) c d = ap (λ h. e ∷ h) (set-set h p c d)

set-same : (h : Heap) (p : ℕ) (c : Option Cell) → get_elem? h p ≡ some c → set h p c ≡ h
set-same [] p c e = absurd (cc)
set-same (d ∷ h) zero c e = let same : d ≡ c = cc in rw same refl
set-same (d ∷ h) (suc p) c e = ap (λ h. d ∷ h) (set-same h p c e)

-- The only reference to a closure, with some arguments.
abbrev pub closure : ℕ → ℕ → List Value → Cell
closure fnindex argc args = record { rc = 1; object = h_closure fnindex argc args }

abbrev pub with_stack : Machine → List Value → Heap → Machine
with_stack m s h = record m { opstack = s; heap = h }

module _ (p fnindex argc : ℕ) where
  abbrev ClosureAt : Heap → List Value → Type 0
  ClosureAt h args = get_elem? h p ≡ some (some (closure fnindex argc args))

  put_arg-runs :
      (h : Heap) (args : List Value) (v : Value)
      → ClosureAt h args
      → length args < argc
      → hvalue_closure_put_arg_mut (v_closure p) v h
        ≡ ok (store p (closure fnindex argc (args ++ v ∷ [])) h)
  unfolding hvalue_closure_put_arg_mut load
  put_arg-runs h args v e lt = rw (e, lt→ltb (length args) argc lt) refl

  -- Arguments go into the closure in the order in which they are popped.
  put_args-runs :
      (vs rest : List Value) (m : Machine) (h : Heap) (args : List Value)
      → ClosureAt h args
      → length args + length vs ≤ argc
      → put_args (length vs) (v_closure p) (with_stack m (vs ++ rest) h)
        ≡ ok (with_stack m rest (store p (closure fnindex argc (args ++ vs)) h))
  unfolding put_args opstack_pop
  put_args-runs [] rest m h args e le =
      ap (λ h. ok (with_stack m rest h))
        (sym (
          ap (λ args. store p (closure fnindex argc args) h) (append-nil args)
          ∙ set-same h p (some (closure fnindex argc args)) e))
  put_args-runs (v ∷ vs) rest m h args e le =
      let h' = store p (closure fnindex argc (args ++ v ∷ [])) h in
      let put = put_arg-runs h args v e (omega (arith, le)) in
      let step : put_args (length (v ∷ vs)) (v_closure p) (with_stack m (v ∷ vs ++ rest) h)
          ≡ put_args (length vs) (v_closure p) (with_stack m (vs ++ rest) h') =
        ap (λ r. r >>= λ h. put_args (length vs) (v_closure p) (with_stack m (vs ++ rest) h)) put in
      let rest_runs =
        put_args-runs vs rest m h' (args ++ v ∷ [])
          (get-set h p (some (closure fnindex argc args))
            (some (closure fnindex argc (args ++ v ∷ []))) e)
          (omega (arith, le, length-append args (v ∷ []))) in
      step
      ∙ (rest_runs
          ∙ ap (λ h. ok (with_stack m rest h))
              (set-set h p (some (closure fnindex argc (args ++ v ∷ [])))
                  (some (closure fnindex argc ((args ++ v ∷ []) ++ vs)))
                ∙ ap (λ args. store p (closure fnindex argc args) h)
                    (append_assoc args (v ∷ []) vs)))

  take_arg-runs :
      (h : Heap) (args : List Value) (rest : List Value) (v : Value)
      → ClosureAt h args
      → split_last args ≡ some (rest, v)
      → hvalue_closure_take_arg_mut (v_closure p) h
        ≡ ok (some v, store p (closure fnindex argc rest) h)
  unfolding hvalue_closure_take_arg_mut load
  take_arg-runs h args rest v e last = rw (e, last) refl

  take_arg-stops :
      (h : Heap) → ClosureAt h [] → hvalue_closure_take_arg_mut (v_closure p) h ≡ ok (none, h)
  unfolding hvalue_closure_take_arg_mut load split_last
  take_arg-stops h e = rw e refl

  -- They come back onto the stack in the same order.
  take_args-runs :
      (n : ℕ) (rest : List Value) (m : Machine) (h : Heap) (args : List Value)
      → ClosureAt h args
      → length args < n
      → take_args n (v_closure p) (with_stack m rest h)
        ≡ ok (with_stack m (args ++ rest) (store p (closure fnindex argc []) h))
  unfolding take_args
  take_args-runs zero rest m h args e lt = elim lt [ ]
  take_args-runs (suc n) rest m h args e lt =
      elim (split_last args)
          as (λ (x : Option (List Value × Value)).
            split_last args ≡ x
            → take_args (suc n) (v_closure p) (with_stack m rest h)
              ≡ ok (with_stack m (args ++ rest) (store p (closure fnindex argc []) h))) [
                | none ↦ λ g.
                    let empty : args ≡ [] = split_last-none args g in
                    let e' = subst (ClosureAt h) empty e in
                    ap (λ r. r >>= next n rest m) (take_arg-stops h e')
                    ∙ ap (λ x. ok x)
                        (ap (λ h. with_stack m rest h)
                            (sym (set-same h p (some (closure fnindex argc [])) e'))
                          ∙ ap
                              (λ (a : List Value).
                                with_stack m (a ++ rest) (store p (closure fnindex argc []) h))
                              (sym empty))
                | some (ws, w) ↦ λ g.
                    let snoc = split_last-snoc args ws w g in
                    let size = ap length snoc in
                    ap (λ r. r >>= next n rest m) (take_arg-runs h args ws w e g)
                    ∙ (take_args-runs n (w ∷ rest) m (store p (closure fnindex argc ws) h) ws
                          (get-set h p (some (closure fnindex argc args))
                            (some (closure fnindex argc ws)) e)
                          (omega (arith, lt, size, length-append ws (w ∷ [])))
                        ∙ ap (λ x. ok x)
                            (ap (λ h. with_stack m (ws ++ w ∷ rest) h)
                                (set-set h p (some (closure fnindex argc ws))
                                  (some (closure fnindex argc [])))
                              ∙ ap (λ s. with_stack m s (store p (closure fnindex argc []) h))
                                  (sym (
                                    ap (λ (a : List Value). a ++ rest) snoc
                                    ∙ append_assoc ws (w ∷ []) rest))))
              ]
        refl
    where
      next : (n : ℕ) (rest : List Value) (m : Machine) → Option Value × Heap → Result Machine
      next n rest m = λ (arg, h). elim arg [
        | none ↦ ok (with_stack m rest h)
        | some v ↦ take_args n (v_closure p) (with_stack m (v ∷ rest) h)
      ]

  uniq-runs :
      (h : Heap) (args : List Value)
      → ClosureAt h args
      → hvalue_uniq (v_closure p) h ≡ ok (v_closure p, h)
  unfolding hvalue_uniq hvalue_is_uniq load
  uniq-runs h args e = rw e refl

  args_left-runs :
      (h : Heap) (args : List Value) (n : ℕ)
      → ClosureAt h args
      → length args + n ≡ argc
      → argc < 2 ^ 8
      → hvalue_closure_args_left (v_closure p) h ≡ ok n
  unfolding hvalue_closure_args_left load
  args_left-runs h args n e size lt =
      let left : (argc + 2 ^ 8 - length args % 2 ^ 8) % 2 ^ 8 ≡ n = omega (arith, size, lt) in
      rw e (ap ok left)

  fnindex-runs :
      (h : Heap) (args : List Value)
      → ClosureAt h args
      → hvalue_closure_fnindex (v_closure p) h ≡ ok fnindex
  unfolding hvalue_closure_fnindex load
  fnindex-runs h args e = rw e refl

  call_closure-uniq :
      (w : World) (args : List Value) (n left : ℕ) (m : Machine) (s : List Value) (h : Heap)
      → ClosureAt h args
      → length args + left ≡ argc
      → argc < 2 ^ 8
      → call_closure w (v_closure p) n (with_stack m s h)
        ≡ apply_closure w (v_closure p) n left (with_stack m s h)
  unfolding call_closure
  call_closure-uniq w args n left m s h e size lt =
      ap
        (λ r. r >>= λ (c, h).
          hvalue_closure_args_left c h >>= λ left. apply_closure w c n left (with_stack m s h))
        (uniq-runs h args e)
      ∙ ap (λ r. r >>= λ left. apply_closure w (v_closure p) n left (with_stack m s h))
          (args_left-runs h args left e size lt)

  -- Too few arguments are stored in the closure, which is pushed.
  call_closure-stores :
      (w : World) (args vs rest : List Value) (left : ℕ) (m : Machine) (h : Heap)
      → ClosureAt h args
      → length args + left ≡ argc
      → argc < 2 ^ 8
      → length vs < left
      → call_closure w (v_closure p) (length vs) (with_stack m (vs ++ rest) h)
        ≡ ok (with_stack m (v_closure p ∷ rest) (store p (closure fnindex argc (args ++ vs)) h))
  unfolding apply_closure
  call_closure-stores w args vs rest left m h e size lt few =
      call_closure-uniq w args (length vs) left m (vs ++ rest) h e size lt
      ∙ rw (apply_closure, lt→ltb (length vs) left few)
          (ap (λ r. r >>= λ m'. ok (opstack_push (v_closure p) m'))
            (put_args-runs vs rest m h args e (omega (arith, size, few))))

  abbrev pub entered : World → Machine → Result Machine
  entered w m = push_frame w fnindex m >>= drop_in (v_closure p)

  -- The last arguments come on top of the stack behind the stored ones, and the function is entered.
  call_closure-enters :
      (w : World) (args rest : List Value) (n : ℕ) (m : Machine) (h : Heap)
      → ClosureAt h args
      → length args + n ≡ argc
      → argc < 2 ^ 8
      → call_closure w (v_closure p) n (with_stack m rest h)
        ≡ entered w (with_stack m (args ++ rest) (store p (closure fnindex argc []) h))
  unfolding apply_closure enter_closure
  call_closure-enters w args rest n m h e size lt =
      let not_less : ltb n n ≡ false = ground arith in
      let same : (n == n) ≡ true = ground arith in
      let h' = store p (closure fnindex argc []) h in
      call_closure-uniq w args n n m rest h e size lt
      ∙ (rw (apply_closure, not_less, same)
            (ap
              (λ r. r >>= λ m₁. hvalue_closure_fnindex (v_closure p) m₁.heap >>= λ fnindex.
                push_frame w fnindex m₁ >>= drop_in (v_closure p))
              (take_args-runs (2 ^ 8) rest m h args e (omega (arith, size, lt))))
          ∙ ap
              (λ r. r >>= λ fnindex.
                push_frame w fnindex (with_stack m (args ++ rest) h') >>= drop_in (v_closure p))
              (fnindex-runs h' [] (
                get-set h p (some (closure fnindex argc args)) (some (closure fnindex argc [])) e)))

-- A closure that is given its arguments in two parts, the first too few, ends in the same machine
-- as when it is given all of them at once, if nobody else refers to it.
pub call_closure-parts :
    (w : World) (m : Machine) (h : Heap) (p fnindex : ℕ) (vs us rest : List Value)
    → get_elem? h p ≡ some (some (closure fnindex (length vs + length us) []))
    → length vs + length us < 2 ^ 8
    → 1 ≤ length us
    → (call_closure w (v_closure p) (length vs) (with_stack m (vs ++ (us ++ rest)) h) >>= λ m'.
        opstack_pop m' >>= λ (c, m''). call_closure w c (length us) m'')
      ≡ call_closure w (v_closure p) (length vs + length us) (with_stack m (vs ++ (us ++ rest)) h)
unfolding opstack_pop
call_closure-parts w m h p fnindex vs us rest e lt some_left =
    let argc = length vs + length us in
    let stack = vs ++ (us ++ rest) in
    let h₁ = store p (closure fnindex argc vs) h in
    let stored =
      call_closure-stores p fnindex argc w [] vs (us ++ rest) argc m h e (omega arith) lt
        (omega (arith, some_left)) in
    let second =
      call_closure-enters p fnindex argc w vs (us ++ rest) (length us) m h₁
        (get-set h p (some (closure fnindex argc [])) (some (closure fnindex argc vs)) e) refl lt in
    let direct = call_closure-enters p fnindex argc w [] stack argc m h e (omega arith) lt in
    ap (λ r. r >>= λ m'. opstack_pop m' >>= λ (c, m''). call_closure w c (length us) m'') stored
    ∙ (second
        ∙ (ap (λ h. entered p fnindex argc w (with_stack m stack h))
              (set-set h p (some (closure fnindex argc vs)) (some (closure fnindex argc [])))
            ∙ sym direct))
