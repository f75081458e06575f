-- ===== src/Machine/Ops.antt =====
-- The handlers of lib/machine.c that run no code of the program.
use chammer.Prelude.{
  ℕ, zero, suc, ◌+◌, ◌%◌, ◌^◌, Bool, true, false, none, some, List, ◌∷◌, ◌==◌, ltb, leb, take, drop,
  if◌then◌else◌,
}
use chammer.Bytecode.Program.{program_func_meta}
use chammer.Value.{
  Value, Heap, Result, ok, err, panicked, overrun, ◌>>=◌, hvalue_ref, hvalue_drop, v_true, v_false,
  v_nil, v_tuple,
}
use chammer.Value.Objects.{
  hvalue_make_closure, hvalue_make_cons, hvalue_make_bool, hvalue_make_string, hvalue_uniq,
}
use chammer.Value.Access.{
  HTupleBuilder, htuple_begin, htuple_put, htuple_end, hvalue_tuple_len, hvalue_tuple_get,
  hvalue_uncons, concat_nested, hvalue_closure_put_arg_mut, hvalue_closure_args_left,
  hvalue_closure_take_arg_mut, hvalue_closure_fnindex,
}
use chammer.Value.Equality.{hvalue_eq}
use chammer.Machine.{
  Machine, World, opstack_push, opstack_pop, opstack_last, push_ref, drop_in, push_frame, get_local,
  set_local, local_in, inside,
}
use chammer.Prelude.{length}

unfoldable pub op_load : ℕ → Machine → Result Machine
unfolding get_local hvalue_ref
op_load i m = get_local m i >>= λ v. push_ref v m

-- What the local held is overwritten, and not dropped.
unfoldable pub op_store : ℕ → Machine → Result Machine
unfolding opstack_pop
op_store i m = opstack_pop m >>= λ (v, m').
    local_in m'.fnstack i >>= λ _. ok (record m' { fnstack = set_local m'.fnstack i v })

unfoldable pub op_dup : Machine → Result Machine
unfolding opstack_last hvalue_ref
op_dup m = opstack_last m >>= λ v. push_ref v m

unfoldable pub op_pop : Machine → Result Machine
unfolding opstack_pop hvalue_drop
op_pop m = opstack_pop m >>= λ (v, m'). drop_in v m'

abbrev pub swapped : List Value → Result (List Value)
swapped (v ∷ w ∷ vs) = ok (w ∷ v ∷ vs)
swapped _ = err panicked

unfoldable pub op_swap : Machine → Result Machine
op_swap m = swapped m.opstack >>= λ vs. ok (record m { opstack = vs })

unfoldable pub op_pushstr : World → ℕ → ℕ → Machine → Result Machine
unfolding hvalue_make_string
op_pushstr w offset len m =
    if leb (offset + len) (length w.prog.string_bytes)
    then (let (v, h) = hvalue_make_string (take len (drop offset w.prog.string_bytes)) m.heap in
        ok (opstack_push v (record m { heap = h })))
    else err overrun

-- `n` arguments from the stack into a closure.
unfoldable pub put_args : ℕ → Value → Machine → Result Machine
unfolding opstack_pop hvalue_closure_put_arg_mut
put_args zero closure m = ok m
put_args (suc n) closure m = opstack_pop m >>= λ (arg, m').
    hvalue_closure_put_arg_mut closure arg m'.heap >>= λ h.
    put_args n closure (record m' { heap = h })

unfoldable pub make_closure : World → ℕ → Machine → Result Machine
unfolding program_func_meta hvalue_make_closure put_args
make_closure w fnindex m = inside (program_func_meta w.prog fnindex) >>= λ fn.
    let (closure, h) = hvalue_make_closure fnindex ((fn.captures + fn.args) % 2 ^ 8) m.heap in
    put_args fn.captures closure (record m { heap = h }) >>= λ m'. ok (opstack_push closure m')

-- The arguments that a closure holds, back onto the stack; it holds fewer than 2 ^ 8.
unfoldable pub take_args : ℕ → Value → Machine → Result Machine
unfolding hvalue_closure_take_arg_mut
take_args zero closure m = ok m
take_args (suc n) closure m = hvalue_closure_take_arg_mut closure m.heap >>= λ (arg, h). (elim arg [
  | none ↦ ok (record m { heap = h })
  | some v ↦ take_args n closure (opstack_push v (record m { heap = h }))
])

-- With all its arguments there, the closure is emptied onto the stack and called.
unfoldable pub enter_closure : World → Value → Machine → Result Machine
unfolding take_args hvalue_closure_fnindex push_frame hvalue_drop
enter_closure w closure m = take_args (2 ^ 8) closure m >>= λ m₁.
    hvalue_closure_fnindex closure m₁.heap >>= λ fnindex.
    push_frame w fnindex m₁ >>= drop_in closure

unfoldable pub apply_closure : World → Value → ℕ → ℕ → Machine → Result Machine
unfolding put_args enter_closure
apply_closure w closure args left m = elim (ltb args left) [
  | true ↦ put_args args closure m >>= λ m'. ok (opstack_push closure m')
  | false ↦ elim (args == left) [ true ↦ enter_closure w closure m | false ↦ err panicked ]
]

unfoldable pub call_closure : World → Value → ℕ → Machine → Result Machine
unfolding hvalue_uniq hvalue_closure_args_left apply_closure
call_closure w v args m = hvalue_uniq v m.heap >>= λ (closure, h).
    hvalue_closure_args_left closure h >>= λ left.
    apply_closure w closure args left (record m { heap = h })

-- The value on top stays if the test holds; otherwise it is dropped. The outcome lies on top.
unfoldable pub check_last : Bool → Machine → Result Machine
unfolding opstack_pop hvalue_drop
check_last true m = ok (opstack_push v_true m)
check_last false m =
    opstack_pop m >>= λ (v, m'). drop_in v m' >>= λ m''. ok (opstack_push v_false m'')

unfoldable pub has_len : Value → ℕ → Heap → Result Bool
unfolding hvalue_tuple_len
has_len (v_tuple p) len h = hvalue_tuple_len (v_tuple p) h >>= λ n. ok (n == len)
has_len _ len h = ok false

unfoldable pub op_chktuple : ℕ → Machine → Result Machine
unfolding opstack_last has_len check_last
op_chktuple len m = opstack_last m >>= λ v. has_len v len m.heap >>= λ b. check_last b m

-- `op_check_type`, for the test of the value's type.
unfoldable pub op_check_type : (Value → Bool) → Machine → Result Machine
unfolding opstack_last check_last
op_check_type has_type m = opstack_last m >>= λ v. check_last (has_type v) m

unfoldable pub op_tupleget : ℕ → Machine → Result Machine
unfolding opstack_last hvalue_tuple_get
op_tupleget i m = opstack_last m >>= λ v.
    hvalue_tuple_get v i m.heap >>= λ (item, h). ok (opstack_push item (record m { heap = h }))

unfoldable pub put_items : ℕ → HTupleBuilder → Machine → Result (HTupleBuilder × Machine)
unfolding opstack_pop htuple_put
put_items zero tb m = ok (tb, m)
put_items (suc n) tb m = opstack_pop m >>= λ (item, m').
    htuple_put tb item m'.heap >>= λ (tb', h). put_items n tb' (record m' { heap = h })

unfoldable pub op_maketuple : ℕ → Machine → Result Machine
unfolding htuple_begin put_items htuple_end
op_maketuple len m =
    let (tb, h) = htuple_begin len m.heap in
    put_items len tb (record m { heap = h }) >>= λ (tb', m').
    htuple_end tb' m'.heap >>= λ v. ok (opstack_push v m')

unfoldable pub cons_items : ℕ → Machine → Result Machine
unfolding opstack_pop hvalue_make_cons
cons_items zero m = ok m
cons_items (suc n) m = opstack_pop m >>= λ (tail, m₁). opstack_pop m₁ >>= λ (head, m₂).
    let (v, h) = hvalue_make_cons head tail m₂.heap in
    cons_items n (opstack_push v (record m₂ { heap = h }))

unfoldable pub op_makelist : ℕ → Machine → Result Machine
unfolding cons_items
op_makelist len m = cons_items len (opstack_push v_nil m)

unfoldable pub op_uncons : Machine → Result Machine
unfolding opstack_pop hvalue_uncons
op_uncons m = opstack_pop m >>= λ (cons, m'). hvalue_uncons cons m'.heap >>= λ ((head, tail), h).
    ok (opstack_push head (opstack_push tail (record m' { heap = h })))

unfoldable pub op_concat : Machine → Result Machine
unfolding opstack_pop concat_nested
op_concat m = opstack_pop m >>= λ (b, m₁). opstack_pop m₁ >>= λ (a, m₂).
    concat_nested (suc (length m₂.heap)) a b m₂.heap >>= λ (v, h).
    ok (opstack_push v (record m₂ { heap = h }))

unfoldable pub op_eq : World → Machine → Result Machine
unfolding opstack_pop hvalue_eq hvalue_drop
op_eq w m = opstack_pop m >>= λ (a, m₁). opstack_pop m₁ >>= λ (b, m₂).
    hvalue_eq w.float_eq a b m₂.heap >>= λ e.
    drop_in a m₂ >>= drop_in b >>= λ m₃. ok (opstack_push (hvalue_make_bool e) m₃)
