-- ===== src/Machine/Balance/Steps.antt =====
-- `machine_step` of lib/machine.c keeps the counts exact.
use chammer.Prelude.{
  ℕ, suc, ◌+◌, ◌-◌, ◌≤◌, ◌<◌, ◌^◌, ◌≡◌, refl, Bool, true, false, Option, none, some, List, [], ◌∷◌,
  ◌++◌, arith, if◌then◌else◌, leb,
}
use chammer.Prelude.Int.{ℤ, pos, negsuc}
use mathlib.Core.Path.{subst}
use chammer.Bytecode.{
  Instr, jump, jumpif, jumpifn, call, return, load, store, dup, pop, swap, pushint, pushstr,
  pushtrue, pushfalse, makecls, callval, bind, chktuple, tupleget, maketuple, makelist, chknil,
  chkcons, uncons, concat, eq, loadext, yield, halt,
}
use chammer.Value.{
  Value, Result, ok, err, overrun, ◌>>=◌, v_true, v_false, v_int, v_closure, v_native,
}
use chammer.Value.Access.{is_nil, is_cons}
use chammer.Value.Counts.{total}
use chammer.Value.Safe.{Safe, safe, bind-Safe}
use chammer.Value.Handling.{Balanced, Balanced-le}
use chammer.Machine.{Machine, Frame, World, opstack_pop, pop_of}
use chammer.Machine.Effects.{Call}
use chammer.Machine.Ops.{call_closure}
use chammer.Machine.Step.{
  StepResult, running, stopped, goes_on, execute, op_callval, callval_of, jump_by, jump_when,
  bool_of,
}
use chammer.Machine.Balance.{roots, below, Holding, Steady, pop-Steady, drop_in-Steady, push-Steady}
use chammer.Machine.Balance.Moves.{
  op_dup-Steady, op_pop-Steady, op_swap-Steady, op_pushstr-Steady, op_check_type-Steady,
  op_chktuple-Steady, op_tupleget-Steady, op_uncons-Steady,
}
use chammer.Machine.Balance.Locals.{op_load-Steady, op_store-Steady}
use chammer.Machine.Balance.Externs.{op_loadext-Steady}
use chammer.Machine.Balance.Locals.{HasSet, held_local}
use chammer.Machine.Balance.Calls.{
  HasAllSet, push_frame-Steady, pop_frame-Steady, make_closure-Steady, op_maketuple-Steady,
  op_makelist-Steady, call_closure-Steady,
}

-- Is the value on top of the stack none that a native operation made?
abbrev pub NoNative : List Value → Type 0
NoNative (v_native p ∷ vs) = ⊥
NoNative vs = Unit

-- Native values run code of their own. Lists are joined and values compared by walks as long as what
-- they meet. A local that is loaded, and every local of a frame that returns, must have been set.
abbrev pub IsPlain : Instr → List Frame → List Value → Type 0
IsPlain (callval args) fs vs = NoNative vs
IsPlain (load i) fs vs = HasSet fs i
IsPlain return fs vs = HasAllSet fs
IsPlain bind fs vs = ⊥
IsPlain concat fs vs = ⊥
IsPlain eq fs vs = ⊥
IsPlain yield fs vs = ⊥
IsPlain _ fs vs = Unit

-- What a step leaks: a store, what the local held before.
abbrev pub leaked : Instr → List Frame → List Value
leaked (store i) fs = held_local fs i
leaked _ fs = []

-- How many references an instruction may add.
abbrev pub growth : Instr → ℕ
growth (makelist len) = suc len
growth _ = 2

abbrev pub machine_of : StepResult → Machine
machine_of (running m) = m
machine_of (stopped error m) = m

abbrev pub StillSteady : List Value → StepResult → Type 0
StillSteady leaks o = Steady 0 leaks (machine_of o)

module _ (leaks : List Value) where
  going_on : (r : Result Machine) → Safe (Steady 0 leaks) r → Safe (StillSteady leaks) (goes_on r)
  going_on r s = bind-Safe s (λ m b. safe b)

  jump-Steady :
      (k : ℕ) (op : ℕ) (offset : ℤ) (vs : List Value) (m : Machine)
      → Holding vs k leaks m
      → Safe (Holding vs k leaks) (jump_by op offset m)
  jump-Steady k op (pos n) vs m b = safe b
  jump-Steady k op (negsuc n) vs m b =
      elim (leb (suc n) op)
        as (λ u.
          Safe (Holding vs k leaks)
            ((if u then ok (op - suc n) else err overrun) >>= λ ip. ok (record m { ip = ip }))) [
              | true ↦ safe b
              | false ↦ safe tt
            ]

  branch-Steady :
      (k : ℕ) (op : ℕ) (offset : ℤ) (vs : List Value) (u : Bool) (m : Machine)
      → Holding vs k leaks m
      → Safe (Holding vs k leaks) (if u then jump_by op offset m else ok m)
  branch-Steady k op offset vs true m b = jump-Steady k op offset vs m b
  branch-Steady k op offset vs false m b = safe b

  jump_when-Steady :
      (k : ℕ) (when : Bool) (op : ℕ) (offset : ℤ) (m : Machine)
      → Steady k leaks m
      → Safe (Steady k leaks) (jump_when when op offset m)
  unfolding jump_when
  jump_when-Steady k when op offset m b = bind-Safe (pop-Steady [] k leaks m b) (λ (v, m') b'.
      bind-Safe {Q = λ _. Unit} (bool_of-Safe v) (λ u _.
        bind-Safe (either_jump k when u op offset v m' b')
          (λ m'' b''. drop_in-Steady k leaks m'' v b'')))
    where
      bool_of-Safe : (v : Value) → Safe (λ _. Unit) (bool_of v)
      bool_of-Safe v_true = safe tt
      bool_of-Safe v_false = safe tt
      bool_of-Safe _ = safe tt

      either_jump :
          (k : ℕ) (when u : Bool) (op : ℕ) (offset : ℤ) (v : Value) (m : Machine)
          → Holding (v ∷ []) k leaks m
          → Safe (Holding (v ∷ []) k leaks) (
              if u
              then (if when then jump_by op offset m else ok m)
              else (if when then ok m else jump_by op offset m))
      either_jump k true true op offset v m b = jump-Steady k op offset (v ∷ []) m b
      either_jump k true false op offset v m b = safe b
      either_jump k false true op offset v m b = safe b
      either_jump k false false op offset v m b = jump-Steady k op offset (v ∷ []) m b

  callval-Steady :
      (w : World) (args : ℕ) (m : Machine)
      → Steady 2 leaks m
      → NoNative m.opstack
      → total m.heap (roots m leaks) + total m.heap (roots m leaks) + 2 < 2 ^ 32
      → Safe (StillSteady leaks) (op_callval w args m)
  unfolding op_callval callval_of opstack_pop
  callval-Steady w args m b plain few =
      elim m.opstack
          as (λ (s : List Value).
            m.opstack ≡ s
            → NoNative s
            → Safe (StillSteady leaks) (pop_of s m >>= λ (v, m'). callval_of w args v m')) [
              | [] ↦ λ e _. safe tt
              | v ∷ s ↦ λ e.
                  let top =
                    subst (λ (s : List Value). Balanced 2 m.heap (s ++ below m leaks)) e b in
                  let room =
                    subst
                      (λ (s : List Value).
                        total m.heap (s ++ below m leaks) + total m.heap (s ++ below m leaks) + 2
                        < 2 ^ 32)
                      e few in
                  called_value w args v s m top room
            ]
        refl plain
    where
      called_value :
          (w : World) (args : ℕ) (v : Value) (s : List Value) (m : Machine)
          → Balanced 2 m.heap (v ∷ (s ++ below m leaks))
          → total m.heap (v ∷ (s ++ below m leaks)) + total m.heap (v ∷ (s ++ below m leaks)) + 2
            < 2 ^ 32
          → NoNative (v ∷ s)
          → Safe (StillSteady leaks) (callval_of w args v (record m { opstack = s }))
      called_value w args (v_closure p) s m b few plain =
          going_on (call_closure w (v_closure p) args (record m { opstack = s })) (
            call_closure-Steady w p args 0 leaks (record m { opstack = s })
              (Balanced-le 2 0 m.heap (v_closure p ∷ (s ++ below m leaks)) (omega arith) b)
              (omega (arith, few)))
      called_value w args (v_native p) s m b few plain = elim plain [ ]
      called_value w args _ s m b few plain = safe tt

lower : (k n : ℕ) (m : Machine) (leaks : List Value) → Steady k leaks m → n ≤ k → Steady n leaks m
lower k n m leaks b le = Balanced-le k n m.heap (roots m leaks) le b

-- While there is room for twice the references, an instruction that is plain ends in counts that
-- are exact, and uses no freed memory and no more than the fuel.
pub execute-Steady :
    (w : World) (call_ : Call) (fuel op : ℕ) (i : Instr) (m : Machine) (leaks : List Value)
    → Steady (growth i) leaks m
    → IsPlain i m.fnstack m.opstack
    → total m.heap (roots m leaks) + total m.heap (roots m leaks) + 2 < 2 ^ 32
    → Safe (StillSteady (leaked i m.fnstack ++ leaks)) (execute w call_ fuel op i m)
unfolding execute
execute-Steady w call_ fuel op i m leaks b plain few =
    elim i
        as (λ i.
          Steady (growth i) leaks m
          → IsPlain i m.fnstack m.opstack
          → Safe (StillSteady (leaked i m.fnstack ++ leaks)) (execute w call_ fuel op i m)) [
            | jump offset ↦ λ b _.
                going_on leaks _
                  (jump-Steady leaks 0 op offset [] m (lower 2 0 m leaks b (omega arith)))
            | jumpif offset ↦ λ b _.
                going_on leaks _
                  (jump_when-Steady leaks 0 true op offset m (lower 2 0 m leaks b (omega arith)))
            | jumpifn offset ↦ λ b _.
                going_on leaks _
                  (jump_when-Steady leaks 0 false op offset m (lower 2 0 m leaks b (omega arith)))
            | call fnindex ↦ λ b _.
                going_on leaks _
                  (push_frame-Steady w fnindex [] 0 leaks m (lower 2 0 m leaks b (omega arith)))
            | return ↦ λ b has.
                going_on leaks _
                  (pop_frame-Steady 0 leaks m has (lower 2 0 m leaks b (omega arith)))
            | load i ↦ λ b has.
                going_on leaks _
                  (op_load-Steady 0 leaks m i has (lower 2 1 m leaks b (omega arith)))
            | store i ↦ λ b _.
                going_on (held_local m.fnstack i ++ leaks) _
                  (op_store-Steady 0 leaks m i (lower 2 0 m leaks b (omega arith)))
            | dup ↦ λ b _.
                going_on leaks _ (op_dup-Steady 0 leaks m (lower 2 1 m leaks b (omega arith)))
            | pop ↦ λ b _.
                going_on leaks _ (op_pop-Steady 0 leaks m (lower 2 0 m leaks b (omega arith)))
            | swap ↦ λ b _.
                going_on leaks _ (op_swap-Steady 0 leaks m (lower 2 0 m leaks b (omega arith)))
            | pushint i ↦ λ b _.
                safe (push-Steady 0 leaks m (v_int i) refl (lower 2 1 m leaks b (omega arith)))
            | pushstr offset len ↦ λ b _.
                going_on leaks _
                  (op_pushstr-Steady w 0 leaks m offset len (lower 2 1 m leaks b (omega arith)))
            | pushtrue ↦
                λ b _. safe (push-Steady 0 leaks m v_true refl (lower 2 1 m leaks b (omega arith)))
            | pushfalse ↦
                λ b _. safe (push-Steady 0 leaks m v_false refl (lower 2 1 m leaks b (omega arith)))
            | makecls fnindex ↦ λ b _.
                going_on leaks _
                  (make_closure-Steady w fnindex 0 leaks m (lower 2 1 m leaks b (omega arith)))
            | callval args ↦ λ b plain. callval-Steady leaks w args m b plain few
            | bind ↦ λ b plain. elim plain [ ]
            | chktuple len ↦ λ b _.
                going_on leaks _
                  (op_chktuple-Steady 0 leaks m len (lower 2 1 m leaks b (omega arith)))
            | tupleget i ↦ λ b _.
                going_on leaks _
                  (op_tupleget-Steady 0 leaks m i (lower 2 1 m leaks b (omega arith)))
            | maketuple len ↦ λ b _.
                going_on leaks _
                  (op_maketuple-Steady len 0 leaks m (lower 2 1 m leaks b (omega arith)))
            | makelist len ↦ λ b _. going_on leaks _ (
                op_makelist-Steady len 0 leaks m
                  (lower (suc len) (suc (len + 0)) m leaks b (omega arith)))
            | chknil ↦ λ b _.
                going_on leaks _
                  (op_check_type-Steady 0 leaks m is_nil (lower 2 1 m leaks b (omega arith)))
            | chkcons ↦ λ b _.
                going_on leaks _
                  (op_check_type-Steady 0 leaks m is_cons (lower 2 1 m leaks b (omega arith)))
            | uncons ↦ λ b _. going_on leaks _ (op_uncons-Steady 0 leaks m b)
            | concat ↦ λ b plain. elim plain [ ]
            | eq ↦ λ b plain. elim plain [ ]
            | loadext ↦ λ b _. going_on leaks _ (op_loadext-Steady 0 leaks m b)
            | yield ↦ λ b plain. elim plain [ ]
            | halt ↦ λ b _. safe (lower 2 0 m leaks b (omega arith))
          ]
      b plain

-- What is asked of a machine before a step: exact counts and room, with the instruction at the
-- pointer a plain one.
abbrev pub Ready : Option (Instr × List ℕ) → List Value → Machine → Type 0
Ready none leaks m = Unit
Ready (some (i, rest)) leaks m = Steady (growth i) leaks m × IsPlain i m.fnstack m.opstack

-- The leaks before a step, and what it leaks itself.
abbrev pub leaked_with : Option (Instr × List ℕ) → Machine → List Value → List Value
leaked_with none m leaks = leaks
leaked_with (some (i, rest)) m leaks = leaked i m.fnstack ++ leaks
