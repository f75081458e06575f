-- ===== src/Machine.antt =====
-- lib/machine.c and lib/module.c: the state of the virtual machine, its stacks, and the modules
-- that external symbols come from.
pub mod Ops
pub mod Natives
pub mod Effects
pub mod Step
pub mod Balance
pub mod Partial
pub mod Modules
use chammer.Prelude.{
  ℕ, zero, suc, ◌+◌, Bool, true, false, Option, none, some, List, [], ◌∷◌, ◌++◌, get_elem?, set,
  reverse,
}
use chammer.Prelude.Int.{ℤ}
use chammer.Text.{string_eq}
use chammer.Buffer.{Buffer, buffer_init}
use chammer.Bytecode.Program.{Program, FuncMeta, program_func_meta, program_func_name}
use chammer.Value.{
  Value, NativeMeta, Heap, Result, ok, err, overrun, undefined, panicked, ◌>>=◌, hvalue_ref,
  hvalue_drop,
}
use chammer.Value.Objects.{hvalue_make_native}

-- The factory of a module's member, and its value once somebody asked for it.
pub record ModuleMember : Type 0 where
  pub name : List ℕ
  pub factory : NativeMeta
  pub value : Option Value

abbrev pub Module : Type 0
Module = List ModuleMember

-- A call in progress. `none` is a local that was not set.
pub record Frame : Type 0 where
  pub return_ip : ℕ
  pub fnindex : ℕ
  pub locals : List (Option Value)

-- Both stacks have their top first. `output` is what was printed.
pub record Machine : Type 0 where
  pub fnstack : List Frame
  pub opstack : List Value
  pub ip : ℕ
  pub modules : List Module
  pub shared_buffer : Buffer
  pub heap : Heap
  pub output : List ℕ

-- What does not change: the program, the local time that the system reports, and the system's
-- comparison and text of doubles.
pub record World : Type 0 where
  pub prog : Program
  pub localtime : List ℤ
  pub float_eq : ℕ → ℕ → Bool
  pub float_text : ℕ → List ℕ

-- A read past the end of the program's arrays.
abbrev pub inside : {A : Type 0} → Option A → Result A
inside none = err overrun
inside (some a) = ok a

abbrev pub opstack_push : Value → Machine → Machine
opstack_push v m = record m { opstack = v ∷ m.opstack }

-- An empty stack fails an assertion.
abbrev pub pop_of : List Value → Machine → Result (Value × Machine)
pop_of [] m = err panicked
pop_of (v ∷ vs) m = ok (v, record m { opstack = vs })

unfoldable pub opstack_pop : Machine → Result (Value × Machine)
opstack_pop m = pop_of m.opstack m

-- `vector_last`; of an empty stack it reads before the stack.
abbrev pub last_of : List Value → Result Value
last_of [] = err overrun
last_of (v ∷ vs) = ok v

unfoldable pub opstack_last : Machine → Result Value
opstack_last m = last_of m.opstack

-- `hvalue_ref` of a value, onto the stack.
abbrev pub push_ref : Value → Machine → Result Machine
unfolding hvalue_ref
push_ref v m = hvalue_ref v m.heap >>= λ (w, h). ok (opstack_push w (record m { heap = h }))

abbrev pub drop_in : Value → Machine → Result Machine
unfolding hvalue_drop
drop_in v m = hvalue_drop v m.heap >>= λ h. ok (record m { heap = h })

pub unset : ℕ → List (Option Value)
unset zero = []
unset (suc n) = none ∷ unset n

unfoldable pub push_frame : World → ℕ → Machine → Result Machine
unfolding program_func_meta unset
push_frame w fnindex m = inside (program_func_meta w.prog fnindex) >>= λ fn. ok (record m {
  fnstack = record { return_ip = m.ip; fnindex = fnindex; locals = unset fn.locals } ∷ m.fnstack;
  ip = fn.addr;
})

-- A local behind the frame's is part of what stands under it.
abbrev pub local_in : List Frame → ℕ → Result (Option Value)
local_in [] i = err overrun
local_in (f ∷ fs) i = inside (get_elem? f.locals i)

abbrev pub set_in : Option Value → Result Value
set_in none = err undefined
set_in (some v) = ok v

unfoldable pub get_local : Machine → ℕ → Result Value
get_local m i = local_in m.fnstack i >>= set_in

abbrev pub set_local : List Frame → ℕ → Value → List Frame
set_local [] i v = []
set_local (f ∷ fs) i v = record f { locals = set f.locals i (some v) } ∷ fs

pub drop_locals : List (Option Value) → Machine → Result Machine
unfolding hvalue_drop
drop_locals [] m = ok m
drop_locals (l ∷ ls) m = set_in l >>= λ v. drop_in v m >>= drop_locals ls

abbrev pub pop_frame_of : List Frame → Machine → Result Machine
unfolding drop_locals
pop_frame_of [] m = err overrun
pop_frame_of (f ∷ fs) m =
    drop_locals f.locals (record m { fnstack = fs }) >>= λ m'. ok (record m' { ip = f.return_ip })

-- Every local must have been set.
unfoldable pub pop_frame : Machine → Result Machine
unfolding drop_locals
pop_frame m = pop_frame_of m.fnstack m

unfoldable pub machine_func_name : World → ℕ → Result (List ℕ)
unfolding program_func_meta program_func_name
machine_func_name w fnindex = inside (program_func_meta w.prog fnindex) >>= λ fn.
    (elim (program_func_name w.prog fn) [ none ↦ err undefined | some name ↦ ok name ])

-- A later definition of a name takes the place of the earlier one.
unfoldable pub module_define : Module → List ℕ → NativeMeta → Module
unfolding string_eq
module_define [] name factory = record { name = name; factory = factory; value = none } ∷ []
module_define (e ∷ es) name factory = elim (string_eq e.name name) [
  | true ↦ record e { factory = factory; value = none } ∷ es
  | false ↦ e ∷ module_define es name factory
]

-- The member's value, made when it is first asked for.
unfoldable pub member_value : ModuleMember → Heap → Value × ModuleMember × Heap
unfolding hvalue_make_native
member_value e h = elim e.value [
  | some v ↦ (v, e, h)
  | none ↦ let (v, h') = hvalue_make_native e.factory [] h in (v, record e { value = some v }, h')
]

-- `none` is the result NULL.
unfoldable pub module_get : Module → List ℕ → Heap → Option (Value × Module × Heap)
unfolding string_eq hvalue_make_native
module_get [] name h = none
module_get (e ∷ es) name h = elim (string_eq e.name name) [
  | true ↦ let (v, e', h') = member_value e h in some (v, e' ∷ es, h')
  | false ↦ elim (module_get es name h) [ none ↦ none | some (v, es', h') ↦ some (v, e ∷ es', h') ]
]

-- The first module that has the name.
pub load_extern_from : List Module → List ℕ → Heap → Option (Value × List Module × Heap)
unfolding module_get
load_extern_from [] name h = none
load_extern_from (es ∷ ms) name h = elim (module_get es name h) [
  | some (v, es', h') ↦ some (v, es' ∷ ms, h')
  | none ↦ elim (load_extern_from ms name h) [
    | none ↦ none
    | some (v, ms', h') ↦ some (v, es ∷ ms', h')
  ]
]

unfoldable pub load_extern : List ℕ → Machine → Result Machine
unfolding load_extern_from hvalue_ref
load_extern name m = elim (load_extern_from m.modules name m.heap) [
  | none ↦ err panicked
  | some (v, ms, h) ↦ push_ref v (record m { modules = ms; heap = h })
]

-- The values that modules hold are dropped.
pub module_free : Module → Heap → Result Heap
unfolding hvalue_drop
module_free [] h = ok h
module_free (e ∷ es) h = elim e.value [
  | none ↦ module_free es h
  | some v ↦ hvalue_drop v h >>= module_free es
]

unfoldable pub machine_init : (ℕ → ℕ) → Machine
unfolding buffer_init
machine_init memory = record {
  fnstack = [];
  opstack = [];
  ip = 0;
  modules = [];
  shared_buffer = buffer_init memory;
  heap = [];
  output = [];
}

unfoldable pub machine_add_module : Machine → Module → Machine
machine_add_module m es = record m { modules = m.modules ++ es ∷ [] }

pub pop_frames : List Frame → Machine → Result Machine
unfolding drop_locals
pop_frames [] m = ok m
pop_frames (f ∷ fs) m = pop_frame_of (f ∷ fs) m >>= pop_frames fs

pub drop_values : List Value → Heap → Result Heap
unfolding hvalue_drop
drop_values [] h = ok h
drop_values (v ∷ vs) h = hvalue_drop v h >>= drop_values vs

pub free_modules : List Module → Heap → Result Heap
unfolding module_free
free_modules [] h = ok h
free_modules (es ∷ ms) h = module_free es h >>= free_modules ms

-- What is left of the heap: frames, the stack from its bottom, and modules give up their values.
unfoldable pub machine_free : Machine → Result Heap
unfolding pop_frames drop_values free_modules
machine_free m = pop_frames m.fnstack m >>= λ m'.
    drop_values (reverse m'.opstack) m'.heap >>= free_modules m'.modules
