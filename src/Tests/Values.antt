-- ===== src/Tests/Values.antt =====
-- lib/value.c and lib/machine.c on concrete inputs.
use chammer.Prelude.{ℕ, zero, suc, ◌^◌, ◌≡◌, refl, Option, none, some, List, [], ◌∷◌, arith, ◌==◌}
use chammer.Prelude.Int.{pos, negsuc, pattern_of}
use chammer.Bytecode.{
  opcode_byte, op_pushint, op_pushstr, op_loadext, op_callval, op_uncons, op_halt,
}
use chammer.Value.{
  Value, Heap, Result, ok, err, ◌>>=◌, alloc, hvalue_drop, hvalue_ref, h_closure, h_string, h_cons,
  h_native, v_string, v_cons, v_nil, v_int, v_closure, v_true, v_native, m_add,
}
use chammer.Value.Counts.{occurrences, sum_cells, refs, total, Counted}
use chammer.Value.Safe.{Safe}
use chammer.Value.Referencing.{hvalue_ref-Safe, Referenced}
use chammer.Value.Release.{hvalue_drop-Safe}
use chammer.Value.Freeing.{Dropped}
use chammer.Value.Handling.{Balanced, uncons-Balanced, IsConsOf}
use chammer.Value.Digits.{decimal_from, decimal_from-print_int}
use chammer.Value.Access.{hvalue_uncons}
use chammer.Value.Repr.{print_int}
use chammer.Machine.{Machine, World, Module, opstack_pop, module_define, module_get, member_value}
use chammer.Machine.Ops.{call_closure}
use chammer.Machine.Partial.{closure, with_stack, call_closure-parts}
use chammer.Machine.Modules.{module_get-define, Remembers}
use chammer.Machine.Effects.{Call}
use chammer.Machine.Modules.{define_all, prelude_members}
use chammer.Machine.Step.{run}

-- A string that a list holds, and that is referred to once more.
abbrev shared : Heap
shared =
    some (record { rc = 2; object = h_string (b'a' ∷ []) })
    ∷ some (record { rc = 1; object = h_cons (v_string 0) v_nil })
    ∷ []

shared-Counted : Counted shared (v_cons 1 ∷ v_string 0 ∷ [])
unfolding occurrences sum_cells
shared-Counted zero = refl
shared-Counted (suc zero) = refl
shared-Counted (suc (suc p)) = ground arith

shared-total : total shared (v_cons 1 ∷ v_string 0 ∷ []) ≡ 4
unfolding sum_cells
shared-total = refl

hvalue_drop-Safe_example : Safe (Dropped shared (v_string 0 ∷ [])) (hvalue_drop (v_cons 1) shared)
hvalue_drop-Safe_example =
    hvalue_drop-Safe (v_cons 1) shared (v_string 0 ∷ []) shared-Counted
      (omega (arith, shared-total))

-- The list is freed, and the string has one reference left.
hvalue_drop-shared :
    hvalue_drop (v_cons 1) shared
    ≡ ok (some (record { rc = 1; object = h_string (b'a' ∷ []) }) ∷ none ∷ [])
unfolding hvalue_drop
hvalue_drop-shared = refl

shared-refs : refs 0 shared (v_cons 1 ∷ v_string 0 ∷ []) ≡ 2
unfolding occurrences sum_cells
shared-refs = refl

hvalue_ref-Safe_example :
    Safe
      (λ (r : Value × Heap).
        (r.0 ≡ v_string 0) × Referenced shared (v_cons 1 ∷ v_string 0 ∷ []) (v_string 0) r.1)
      (hvalue_ref (v_string 0) shared)
hvalue_ref-Safe_example =
    hvalue_ref-Safe shared (v_cons 1 ∷ v_string 0 ∷ []) (v_string 0) shared-Counted
      (omega (arith, shared-refs)) (omega (arith, shared-total))

uncons-Balanced_example :
    Safe
      (λ (r : (Value × Value) × Heap).
        Balanced 0 r.1 (r.0.0 ∷ r.0.1 ∷ v_string 0 ∷ []) × IsConsOf (v_cons 1) shared r.0.0 r.0.1)
      (hvalue_uncons (v_cons 1) shared)
uncons-Balanced_example =
    uncons-Balanced 0 shared (v_string 0 ∷ []) (v_cons 1)
      (record { counted = shared-Counted; room = omega (arith, shared-total) })

-- A closure of two arguments.
abbrev waiting : Heap
waiting = some (closure 0 2 []) ∷ []

waiting-Counted : Counted waiting (v_closure 0 ∷ [])
unfolding occurrences sum_cells
waiting-Counted zero = refl
waiting-Counted (suc p) = ground arith

waiting-total : total waiting (v_closure 0 ∷ []) ≡ 1
unfolding sum_cells
waiting-total = refl

-- Two values refer to the closure, which is cloned.
abbrev shared_closure : Heap
shared_closure = some (record { rc = 2; object = h_closure 0 2 [] }) ∷ []

-- "40 + 2", with the symbol `+` of the prelude.
abbrev sum_code : List ℕ
sum_code =
    opcode_byte op_pushint
    ∷ 0
    ∷ 0
    ∷ 0
    ∷ 0
    ∷ 0
    ∷ 0
    ∷ 0
    ∷ 2
    ∷ opcode_byte op_pushint
    ∷ 0
    ∷ 0
    ∷ 0
    ∷ 0
    ∷ 0
    ∷ 0
    ∷ 0
    ∷ 40
    ∷ opcode_byte op_pushstr
    ∷ 0
    ∷ 0
    ∷ 0
    ∷ 0
    ∷ 0
    ∷ 0
    ∷ 0
    ∷ 1
    ∷ opcode_byte op_loadext
    ∷ opcode_byte op_callval
    ∷ 2
    ∷ opcode_byte op_halt
    ∷ []

abbrev sum_world : World
sum_world = record {
  prog = record {
    version = 1;
    string_bytes_len = 1;
    string_bytes = b'+' ∷ [];
    funcs_len = 1;
    funcs = 0 ∷ 0 ∷ 0 ∷ 0 ∷ 0 ∷ 2 ∷ 0 ∷ 0 ∷ 0 ∷ 0 ∷ 0 ∷ 0 ∷ 0 ∷ [];
    bytecode = sum_code;
  };
  localtime = [];
  float_eq = λ a b. a == b;
  float_text = λ _. [];
}

abbrev start : Machine
start = record {
  fnstack = [];
  opstack = [];
  ip = 0;
  modules = define_all [] prelude_members ∷ [];
  shared_buffer = record { bytes = []; spare = λ _. 0; capacity = 1 };
  heap = [];
  output = [];
}

abbrev stack_of : Result (Option Value × Machine) → List Value
stack_of (ok (error, m)) = m.opstack
stack_of (err e) = []

run-sum : stack_of (run sum_world 1 9 start) ≡ v_int (pos 42) ∷ []
unfolding run define_all member_value
run-sum = refl

call_closure-parts_example :
    (call_closure sum_world (v_closure 0) 1 (with_stack start (v_true ∷ v_nil ∷ []) waiting)
      >>= λ m'. opstack_pop m' >>= λ (c, m''). call_closure sum_world c 1 m'')
    ≡ call_closure sum_world (v_closure 0) 2 (with_stack start (v_true ∷ v_nil ∷ []) waiting)
call_closure-parts_example =
    call_closure-parts sum_world start waiting 0 0 (v_true ∷ []) (v_nil ∷ []) [] refl (omega arith)
      (omega arith)

module_get-define_example :
    (m' : Module) × (module_get (module_define [] (b'+' ∷ []) m_add) (b'+' ∷ []) waiting
      ≡ some (v_native 1, m', (alloc (h_native m_add [] []) waiting).1))
    × Remembers m' (b'+' ∷ []) (v_native 1)
module_get-define_example = module_get-define [] (b'+' ∷ []) m_add waiting

decimal_from-print_int_example :
    decimal_from 0 (print_int (negsuc 0)) ≡ pattern_of (2 ^ 32) (negsuc 0)
decimal_from-print_int_example = decimal_from-print_int (negsuc 0)

-- -1 is printed as an unsigned word.
print_int-minus_one :
    print_int (negsuc 0) ≡ b'4' ∷ b'2' ∷ b'9' ∷ b'4' ∷ b'9' ∷ b'6' ∷ b'7' ∷ b'2' ∷ b'9' ∷ b'5' ∷ []
unfolding print_int
print_int-minus_one = refl

abbrev no_call : Call
no_call callee args m = ok (callee, m)

-- The list's parts are about to be pushed.
abbrev uncons_world : World
uncons_world = record sum_world {
  prog = record {
    version = 1;
    string_bytes_len = 0;
    string_bytes = [];
    funcs_len = 0;
    funcs = [];
    bytecode = opcode_byte op_uncons ∷ opcode_byte op_halt ∷ [];
  };
}

abbrev listing : Machine
listing = record start { opstack = v_cons 1 ∷ v_string 0 ∷ []; heap = shared; modules = [] }
