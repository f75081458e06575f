-- ===== src/Value.antt =====
-- lib/value.h and lib/value.c: values, the heap with its reference counts, and the release of
-- references. An address is the number of an allocation; `malloc` gives the next one.
pub mod Safe
pub mod Counts
pub mod Referencing
pub mod Release
pub mod Freeing
pub mod Sharing
pub mod Handling
pub mod Objects
pub mod Access
pub mod Equality
pub mod Repr
pub mod Digits
use chammer.Prelude.{
  ℕ, zero, suc, ◌+◌, ◌-◌, ◌%◌, ◌^◌, Bool, true, false, Option, none, some, List, [], ◌∷◌, ◌++◌,
  ◌==◌, ltb, length, get_elem?, set, if◌then◌else◌,
}
use chammer.Prelude.Int.{ℤ}

-- A double is its bits. A substring and an error carry the address of the string.
pub data Value : Type 0 where
  v_empty v_true v_false v_nil : Value
  v_int : ℤ → Value
  v_float v_string v_closure v_cons v_native v_binding v_error : ℕ → Value
  v_substr : ℕ → ℕ → ℕ → Value
  v_tuple : Option ℕ → Value

-- The native values of lib/builtin.
pub data NativeMeta : Type 0 where
  m_add m_sub m_mul m_div m_eq m_id m_const m_return m_print m_get_time m_each m_error : NativeMeta
  m_repr m_string_concat m_substr m_return_effect m_print_effect m_each_effect : NativeMeta

-- What an allocation holds. The items of a tuple are those put so far, its length is declared. The
-- values behind a native's data stand before the arguments that it was applied to.
pub data Object : Type 0 where
  h_string : List ℕ → Object
  h_closure : ℕ → ℕ → List Value → Object
  h_cons : Value → Value → Object
  h_tuple : ℕ → List Value → Object
  h_native : NativeMeta → List Value → List Value → Object
  h_binding : Value → Value → Object

pub record Cell : Type 0 where
  pub rc : ℕ
  pub object : Object

-- `none` is an allocation that was freed.
abbrev pub Heap : Type 0
Heap = List (Option Cell)

-- How a routine can end besides its result: a read or a write through a dangling pointer, or a
-- second `free`; a write behind an allocation; an object of another type than the value says; a
-- panic or a failed assertion; a loop that does not end; signed overflow, division by 0 or a use of a
-- variable that was never set; the end of the fuel.
pub data Fault : Type 0 where
  dangling overrun confused panicked endless undefined exhausted : Fault

pub data Result (A : Type 0) : Type 0 where
  ok : A → Result A
  err : Fault → Result A

infixl 5 ◌>>=◌
abbrev pub ◌>>=◌ : {A B : Type 0} → Result A → (A → Result B) → Result B
ok a >>= f = f a
err e >>= f = err e

-- `v_any`, for the types that are counted.
abbrev pub address_of : Value → Option ℕ
address_of v_empty = none
address_of v_true = none
address_of v_false = none
address_of v_nil = none
address_of (v_int i) = none
address_of (v_float f) = none
address_of (v_string p) = some p
address_of (v_closure p) = some p
address_of (v_cons p) = some p
address_of (v_native p) = some p
address_of (v_binding p) = some p
address_of (v_error p) = some p
address_of (v_substr p offset len) = some p
address_of (v_tuple p) = p

abbrev pub loaded : Option (Option Cell) → Result Cell
loaded (some (some c)) = ok c
loaded (some none) = err dangling
loaded none = err dangling

unfoldable pub load : ℕ → Heap → Result Cell
load p h = loaded (get_elem? h p)

abbrev pub store : ℕ → Cell → Heap → Heap
store p c h = set h p (some c)

-- `free`, of an allocation that is there.
unfoldable pub free : ℕ → Heap → Result Heap
unfolding load
free p h = load p h >>= λ _. ok (set h p none)

unfoldable pub alloc : Object → Heap → ℕ × Heap
alloc o h = (length h, h ++ some (record { rc = 1; object = o }) ∷ [])

abbrev pub ref_at : Value → Option ℕ → Heap → Result (Value × Heap)
ref_at v none h = ok (v, h)
ref_at v (some p) h = load p h >>= λ c. ok (v, store p (record c { rc = (c.rc + 1) % 2 ^ 32 }) h)

unfoldable pub hvalue_ref : Value → Heap → Result (Value × Heap)
unfolding load
hvalue_ref v_empty h = err panicked
hvalue_ref v h = ref_at v (address_of v) h

-- Does the `free` of a native's data drop the values in it? That of `return` does not.
abbrev pub drops_payload : NativeMeta → Bool
drops_payload m_print_effect = true
drops_payload m_each_effect = true
drops_payload _ = false

-- What `hvalue_free` drops. Nobody drops the arguments of a native value. The loop over a tuple
-- counts in a byte.
abbrev pub released : Object → Result (List Value)
released (h_string s) = ok []
released (h_closure fnindex argc args) = ok args
released (h_cons head tail) = ok (head ∷ tail ∷ [])
released (h_tuple len items) = if ltb len (2 ^ 8) then ok items else err endless
released (h_native meta payload args) = ok (if drops_payload meta then payload else [])
released (h_binding effect then_value) = ok (effect ∷ then_value ∷ [])

pub drop_each : (Value → Heap → Result Heap) → List Value → Heap → Result Heap
drop_each f [] h = ok h
drop_each f (v ∷ vs) h = f v h >>= drop_each f vs

-- `hvalue_free` on an allocation whose count is 0: what it holds is dropped, then it is freed.
unfoldable pub hvalue_free : (Value → Heap → Result Heap) → ℕ → Object → Heap → Result Heap
unfolding drop_each free
hvalue_free f p o h = released o >>= λ vs. drop_each f vs h >>= free p

pub drop_counted : (Value → Heap → Result Heap) → ℕ → Cell → Heap → Result Heap
unfolding hvalue_free
drop_counted f p c h =
    let rc = (c.rc + 2 ^ 32 - 1) % 2 ^ 32 in
    let h' = store p (record c { rc = rc }) h in
    elim (rc == 0) [ true ↦ hvalue_free f p c.object h' | false ↦ ok h' ]

abbrev pub drop_at : (Value → Heap → Result Heap) → Option ℕ → Heap → Result Heap
drop_at f none h = ok h
drop_at f (some p) h = load p h >>= λ c. drop_counted f p c h

-- Calls of `hvalue_drop` nested at most `n` deep.
unfoldable pub drop_nested : ℕ → Value → Heap → Result Heap
unfolding drop_counted load
drop_nested zero v h = err exhausted
drop_nested (suc n) v h = drop_at (drop_nested n) (address_of v) h

-- Every nested call has emptied one more allocation.
unfoldable pub hvalue_drop : Value → Heap → Result Heap
unfolding drop_nested
hvalue_drop v h = drop_nested (suc (length h)) v h
