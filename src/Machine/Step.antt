-- ===== src/Machine/Step.antt =====
-- `machine_step` and `machine_call_` of lib/machine.c.
use chammer.Prelude.{
  ℕ, zero, suc, ◌+◌, ◌-◌, Bool, true, false, Option, none, some, List, [], ◌∷◌, ◌++◌, ◌==◌, leb,
  length, drop, if◌then◌else◌,
}
use chammer.Prelude.Int.{ℤ, pos, negsuc}
use chammer.Bytecode.{
  Instr, fetch, find_opcode, all_opcodes, jump, jumpif, jumpifn, call, return, load, store, dup,
  pop, swap, pushint, pushstr, pushtrue, pushfalse, makecls, callval, bind, chktuple, tupleget,
  maketuple, makelist, chknil, chkcons, uncons, concat, eq, loadext, yield, halt,
}
use chammer.Value.{
  Value, Heap, Result, ok, err, panicked, undefined, overrun, exhausted, ◌>>=◌, hvalue_drop,
  v_empty, v_true, v_false, v_int, v_closure, v_native, v_error,
}
use chammer.Value as Values
use chammer.Value.Objects.{hvalue_uniq, hvalue_string_get}
use chammer.Value.Access.{
  hvalue_native_put_arg_mut, hvalue_native_args_left, native_in, is_nil, is_cons,
}
use chammer.Machine.{
  Machine, World, opstack_push, opstack_pop, drop_in, push_frame, pop_frame, load_extern,
}
use chammer.Machine.Ops.{
  op_load, op_store, op_dup, op_pop, op_swap, op_pushstr, make_closure, call_closure, op_chktuple,
  op_check_type, op_tupleget, op_maketuple, op_makelist, op_uncons, op_concat, op_eq,
}
use chammer.Machine.Natives.{native_call}
use chammer.Machine.Effects.{Call, yield_nested, bind_nested}

-- The result of a step: `true`, or `false` with the error if there is one.
pub data StepResult : Type 0 where
  running : Machine → StepResult
  stopped : Option Value → Machine → StepResult

abbrev pub goes_on : Result Machine → Result StepResult
goes_on r = r >>= λ m. ok (running m)

-- `n` arguments from the stack into a native value.
unfoldable pub put_native_args : ℕ → Value → Machine → Result Machine
unfolding opstack_pop hvalue_native_put_arg_mut
put_native_args zero native m = ok m
put_native_args (suc n) native m = opstack_pop m >>= λ (arg, m').
    hvalue_native_put_arg_mut native arg m'.heap >>= λ h.
    put_native_args n native (record m' { heap = h })

unfoldable pub args_of : Value → Heap → Result (Values.NativeMeta × List Value × List Value)
unfolding Values.load
args_of (v_native p) h = Values.load p h >>= native_in
args_of _ h = err panicked

-- An error is handed on, and the native value is then not dropped.
unfoldable pub called : Value → Value × Machine → Result StepResult
unfolding hvalue_drop
called native (v_error p, m) = ok (stopped (some (v_error p)) m)
called native (v, m) = goes_on (drop_in native (opstack_push v m))

unfoldable pub call_native : World → Value → ℕ → Machine → Result StepResult
unfolding hvalue_uniq put_native_args hvalue_native_args_left args_of native_call called
call_native w v args m = hvalue_uniq v m.heap >>= λ (native, h).
    put_native_args args native (record m { heap = h }) >>= λ m₁.
    hvalue_native_args_left native m₁.heap >>= λ left. (elim (left == 0) [
      | false ↦ ok (running (opstack_push native m₁))
      | true ↦ args_of native m₁.heap >>= λ (meta, payload, given).
          native_call w meta given m₁ >>= called native
    ])

unfoldable pub callval_of : World → ℕ → Value → Machine → Result StepResult
unfolding call_closure call_native
callval_of w args (v_closure p) m = goes_on (call_closure w (v_closure p) args m)
callval_of w args (v_native p) m = call_native w (v_native p) args m
callval_of w args _ m = err panicked

unfoldable pub op_callval : World → ℕ → Machine → Result StepResult
unfolding opstack_pop callval_of
op_callval w args m = opstack_pop m >>= λ (v, m'). callval_of w args v m'

unfoldable pub op_bind : Call → ℕ → Machine → Result Machine
unfolding opstack_pop bind_nested
op_bind call_ fuel m = opstack_pop m >>= λ (monad, m₁). opstack_pop m₁ >>= λ (then_value, m₂).
    bind_nested call_ fuel monad then_value m₂ >>= λ (v, m₃). ok (opstack_push v m₃)

-- Only an error is kept of what the effect yields.
abbrev pub error_of : Option Value → Option Value
error_of (some (v_error p)) = some (v_error p)
error_of _ = none

unfoldable pub op_yield : World → Call → ℕ → Machine → Result StepResult
unfolding opstack_pop yield_nested
op_yield w call_ fuel m = opstack_pop m >>= λ (effect, m₁).
    yield_nested w call_ fuel effect none m₁ >>= λ (result, m₂). ok (stopped (error_of result) m₂)

-- `op + offset`, which must not lie before the code.
abbrev pub jump_target : ℕ → ℤ → Result ℕ
jump_target op (pos n) = ok (op + n)
jump_target op (negsuc n) = if leb (suc n) op then ok (op - suc n) else err overrun

abbrev pub jump_by : ℕ → ℤ → Machine → Result Machine
jump_by op offset m = jump_target op offset >>= λ ip. ok (record m { ip = ip })

-- A value that must be a Boolean.
abbrev pub bool_of : Value → Result Bool
bool_of v_true = ok true
bool_of v_false = ok false
bool_of _ = err panicked

unfoldable pub jump_when : Bool → ℕ → ℤ → Machine → Result Machine
unfolding opstack_pop hvalue_drop
jump_when when op offset m = opstack_pop m >>= λ (v, m'). bool_of v >>= λ b.
    (if b
      then (if when then jump_by op offset m' else ok m')
      else (if when then ok m' else jump_by op offset m'))
    >>= drop_in v

unfoldable pub op_loadext : Machine → Result Machine
unfolding opstack_pop hvalue_string_get load_extern hvalue_drop
op_loadext m = opstack_pop m >>= λ (v, m').
    hvalue_string_get v m'.heap >>= λ name. load_extern name m' >>= drop_in v

-- The switch of `machine_step`; `op` is where the instruction stands, and the pointer lies behind
-- it. Effects may call each other `fuel` deep.
unfoldable pub execute : World → Call → ℕ → ℕ → Instr → Machine → Result StepResult
unfolding jump_when op_loadext push_frame pop_frame op_load op_store op_dup op_pop op_swap
    op_pushstr make_closure op_callval op_bind op_chktuple op_tupleget op_maketuple op_makelist
    op_check_type op_uncons op_concat op_eq op_yield
execute w call_ fuel op (jump offset) m = goes_on (jump_by op offset m)
execute w call_ fuel op (jumpif offset) m = goes_on (jump_when true op offset m)
execute w call_ fuel op (jumpifn offset) m = goes_on (jump_when false op offset m)
execute w call_ fuel op (call fnindex) m = goes_on (push_frame w fnindex m)
execute w call_ fuel op return m = goes_on (pop_frame m)
execute w call_ fuel op (load i) m = goes_on (op_load i m)
execute w call_ fuel op (store i) m = goes_on (op_store i m)
execute w call_ fuel op dup m = goes_on (op_dup m)
execute w call_ fuel op pop m = goes_on (op_pop m)
execute w call_ fuel op swap m = goes_on (op_swap m)
execute w call_ fuel op (pushint i) m = ok (running (opstack_push (v_int i) m))
execute w call_ fuel op (pushstr offset len) m = goes_on (op_pushstr w offset len m)
execute w call_ fuel op pushtrue m = ok (running (opstack_push v_true m))
execute w call_ fuel op pushfalse m = ok (running (opstack_push v_false m))
execute w call_ fuel op (makecls fnindex) m = goes_on (make_closure w fnindex m)
execute w call_ fuel op (callval args) m = op_callval w args m
execute w call_ fuel op bind m = goes_on (op_bind call_ fuel m)
execute w call_ fuel op (chktuple len) m = goes_on (op_chktuple len m)
execute w call_ fuel op (tupleget i) m = goes_on (op_tupleget i m)
execute w call_ fuel op (maketuple len) m = goes_on (op_maketuple len m)
execute w call_ fuel op (makelist len) m = goes_on (op_makelist len m)
execute w call_ fuel op chknil m = goes_on (op_check_type is_nil m)
execute w call_ fuel op chkcons m = goes_on (op_check_type is_cons m)
execute w call_ fuel op uncons m = goes_on (op_uncons m)
execute w call_ fuel op concat m = goes_on (op_concat m)
execute w call_ fuel op eq m = goes_on (op_eq w m)
execute w call_ fuel op loadext m = goes_on (op_loadext m)
execute w call_ fuel op yield m = op_yield w call_ fuel m
execute w call_ fuel op halt m = ok (stopped none m)

-- An opcode that is known lacks its operands; another one is refused.
abbrev pub no_instr : List ℕ → Result StepResult
no_instr [] = err overrun
no_instr (byte ∷ bs) = elim (find_opcode all_opcodes byte) [
  | none ↦ err panicked
  | some op ↦ err overrun
]

unfoldable pub machine_step : World → Call → ℕ → Machine → Result StepResult
unfolding fetch execute find_opcode
machine_step w call_ fuel m =
    let code = w.prog.bytecode in
    elim (fetch (drop m.ip code)) [
      | none ↦ no_instr (drop m.ip code)
      | some (instr, rest) ↦
          execute w call_ fuel m.ip instr (record m { ip = length code - length rest })
    ]

-- The loop of `machine_call_`, at most `n` steps: until the frames above `sp` are gone, or a step
-- says to stop.
unfoldable pub call_loop : World → Call → ℕ → ℕ → ℕ → Machine → Result (Option Value × Machine)
unfolding machine_step
call_loop w call_ fuel zero sp m = err exhausted
call_loop w call_ fuel (suc n) sp m = elim (leb (length m.fnstack) sp) [
  | true ↦ ok (none, m)
  | false ↦ machine_step w call_ fuel m >>= λ o. (elim o [
    | running m' ↦ call_loop w call_ fuel n sp m'
    | stopped error m' ↦ ok (error, m')
  ])
]

-- An error takes the place of the result.
abbrev pub call_result : Option Value × Machine → Result (Value × Machine)
unfolding opstack_pop
call_result (some error, m) = ok (error, m)
call_result (none, m) = opstack_pop m

-- Calls of `machine_call_` nested at most `n` deep, each of at most `n` steps.
unfoldable pub machine_call : World → ℕ → Call
unfolding op_callval call_loop opstack_pop
machine_call w zero callee args m = err exhausted
machine_call w (suc n) callee args m =
    op_callval w (length args) (record m { opstack = callee ∷ args ++ m.opstack }) >>= λ o.
    (elim o [
      | stopped error m' ↦ ok (error, m')
      | running m' ↦ call_loop w (machine_call w n) n n (length m.fnstack) m'
    ])
    >>= call_result

-- The loop of `main`, at most `n` steps: until a step says to stop.
unfoldable pub run : World → ℕ → ℕ → Machine → Result (Option Value × Machine)
unfolding machine_step machine_call
run w fuel zero m = err exhausted
run w fuel (suc n) m = machine_step w (machine_call w fuel) fuel m >>= λ o. (elim o [
  | running m' ↦ run w fuel n m'
  | stopped error m' ↦ ok (error, m')
])
