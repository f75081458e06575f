-- ===== src/Value/Access.antt =====
-- The operations of lib/value.c on closures, lists, tuples and natives, and equality.
use chammer.Prelude.{
  ℕ, zero, suc, ◌+◌, ◌-◌, ◌%◌, ◌^◌, Bool, true, false, Option, none, some, List, [], ◌∷◌, ◌++◌,
  ◌==◌, ltb, leb, length, get_elem?, if◌then◌else◌, ◌&&◌,
}
use chammer.Value.{
  Value, NativeMeta, Cell, Heap, confused, panicked, overrun, exhausted, Result, ok, err, ◌>>=◌,
  load, store, alloc, hvalue_ref, hvalue_drop, h_closure, h_cons, h_tuple, h_native, v_nil,
  v_closure, v_cons, v_native, v_tuple, m_add, m_sub, m_mul, m_div, m_eq, m_id, m_const, m_return,
  m_print, m_get_time, m_each, m_error, m_repr, m_string_concat, m_substr, m_return_effect,
  m_print_effect, m_each_effect,
}
use chammer.Value.Objects.{hvalue_make_cons}

-- `hvalue_expect`, with what the object of the expected type holds.
abbrev pub closure_in : Cell → Result (ℕ × ℕ × List Value)
closure_in c = elim c.object [
  | h_closure fnindex argc args ↦ ok (fnindex, argc, args)
  | _ ↦ err confused
]

abbrev pub cons_in : Cell → Result (Value × Value)
cons_in c = elim c.object [ h_cons head tail ↦ ok (head, tail) | _ ↦ err confused ]

abbrev pub tuple_in : Cell → Result (ℕ × List Value)
tuple_in c = elim c.object [ h_tuple len items ↦ ok (len, items) | _ ↦ err confused ]

abbrev pub native_in : Cell → Result (NativeMeta × List Value × List Value)
native_in c = elim c.object [
  | h_native meta payload args ↦ ok (meta, payload, args)
  | _ ↦ err confused
]

-- The address and the cell of a value of the expected type.
abbrev pub expect_closure : Value → Heap → Result (ℕ × Cell)
expect_closure (v_closure p) h = load p h >>= λ c. ok (p, c)
expect_closure _ h = err panicked

abbrev pub expect_cons : Value → Heap → Result (ℕ × Cell)
expect_cons (v_cons p) h = load p h >>= λ c. ok (p, c)
expect_cons _ h = err panicked

abbrev pub expect_native : Value → Heap → Result (ℕ × Cell)
expect_native (v_native p) h = load p h >>= λ c. ok (p, c)
expect_native _ h = err panicked

unfoldable pub hvalue_closure_args_left : Value → Heap → Result ℕ
unfolding load
hvalue_closure_args_left v h = expect_closure v h >>= λ (p, c).
    closure_in c >>= λ (fnindex, argc, args). ok ((argc + 2 ^ 8 - length args % 2 ^ 8) % 2 ^ 8)

unfoldable pub hvalue_closure_fnindex : Value → Heap → Result ℕ
unfolding load
hvalue_closure_fnindex v h =
    expect_closure v h >>= λ (p, c). closure_in c >>= λ (fnindex, argc, args). ok fnindex

-- The closure must be the only reference, and have room for the argument.
unfoldable pub hvalue_closure_put_arg_mut : Value → Value → Heap → Result Heap
unfolding load
hvalue_closure_put_arg_mut v arg h = expect_closure v h >>= λ (p, c).
    closure_in c >>= λ (fnindex, argc, args).
    if leb c.rc 1
    then if ltb (length args) argc
      then ok (store p (record c { object = h_closure fnindex argc (args ++ arg ∷ []) }) h)
      else err overrun
    else err panicked

-- The last of some values, and those before it.
unfoldable pub split_last : List Value → Option (List Value × Value)
split_last [] = none
split_last (v ∷ vs) = elim (split_last vs) [ none ↦ some ([], v) | some (ws, w) ↦ some (v ∷ ws, w) ]

-- The last argument, if there is one.
unfoldable pub hvalue_closure_take_arg_mut : Value → Heap → Result (Option Value × Heap)
unfolding load split_last
hvalue_closure_take_arg_mut v h = expect_closure v h >>= λ (p, c).
    closure_in c >>= λ (fnindex, argc, args).
    if leb c.rc 1
    then elim (split_last args) [
      | none ↦ ok (none, h)
      | some (rest, arg) ↦
          ok (some arg, store p (record c { object = h_closure fnindex argc rest }) h)
    ]
    else err panicked

-- Head and tail, each with a reference of its own.
unfoldable pub hvalue_uncons : Value → Heap → Result ((Value × Value) × Heap)
unfolding load hvalue_ref hvalue_drop
hvalue_uncons v h = expect_cons v h >>= λ (p, c). cons_in c >>= λ (head, tail).
    hvalue_ref head h >>= λ (hd, h₁).
    hvalue_ref tail h₁ >>= λ (tl, h₂). hvalue_drop v h₂ >>= λ h₃. ok ((hd, tl), h₃)

abbrev pub is_nil : Value → Bool
is_nil v_nil = true
is_nil _ = false

abbrev pub is_cons : Value → Bool
is_cons (v_cons p) = true
is_cons _ = false

-- The copy of `a`'s first cell, in front of what stands behind it, and the release of `a`.
pub concat_cons :
    (Value → Value → Heap → Result (Value × Heap)) → Value → Value → Heap → Result (Value × Heap)
unfolding load hvalue_ref hvalue_drop hvalue_make_cons
concat_cons again a b h = expect_cons a h >>= λ (p, c). cons_in c >>= λ (head, tail).
    (elim (is_cons tail) [
      | true ↦ hvalue_ref tail h >>= λ (t, h₁). again t b h₁
      | false ↦ ok (b, h)
    ])
    >>= λ (rest, h₂). hvalue_ref head h₂ >>= λ (hd, h₃).
        let (result, h₄) = hvalue_make_cons hd rest h₃ in hvalue_drop a h₄ >>= λ h₅. ok (result, h₅)

-- Calls of `hvalue_list_concat` nested at most `n` deep.
unfoldable pub concat_nested : ℕ → Value → Value → Heap → Result (Value × Heap)
unfolding concat_cons
concat_nested zero a b h = err exhausted
concat_nested (suc n) a b h = elim (is_nil a) [
  | true ↦ ok (b, h)
  | false ↦ elim (is_nil b) [ true ↦ ok (a, h) | false ↦ concat_cons (concat_nested n) a b h ]
]

-- A tuple under construction; the empty one has no allocation.
pub record HTupleBuilder : Type 0 where
  pub tuple : Option ℕ
  pub len : ℕ

unfoldable pub htuple_begin : ℕ → Heap → HTupleBuilder × Heap
unfolding alloc
htuple_begin len h = elim (len == 0) [
  | true ↦ (record { tuple = none; len = 0 }, h)
  | false ↦ let (p, h') = alloc (h_tuple len []) h in (record { tuple = some p; len = 0 }, h')
]

-- There must be room in the tuple.
abbrev pub put_in : HTupleBuilder → Value → ℕ → Heap → Cell → Result (HTupleBuilder × Heap)
put_in tb item p h c = tuple_in c >>= λ (len, items).
    if ltb tb.len len
    then ok (
      record tb { len = tb.len + 1 },
      store p (record c { object = h_tuple len (items ++ item ∷ []) }) h,
    )
    else err panicked

abbrev pub put_at : HTupleBuilder → Value → Option ℕ → Heap → Result (HTupleBuilder × Heap)
unfolding load
put_at tb item none h = err panicked
put_at tb item (some p) h = load p h >>= put_in tb item p h

unfoldable pub htuple_put : HTupleBuilder → Value → Heap → Result (HTupleBuilder × Heap)
unfolding load
htuple_put tb item h = put_at tb item tb.tuple h

-- All items must have been put.
abbrev pub end_in : HTupleBuilder → ℕ → Cell → Result Value
end_in tb p c =
    tuple_in c >>= λ (len, items). if tb.len == len then ok (v_tuple (some p)) else err panicked

abbrev pub end_at : HTupleBuilder → Option ℕ → Heap → Result Value
unfolding load
end_at tb none h = ok (v_tuple none)
end_at tb (some p) h = load p h >>= end_in tb p

unfoldable pub htuple_end : HTupleBuilder → Heap → Result Value
unfolding load
htuple_end tb h = end_at tb tb.tuple h

abbrev pub tuple_at : Value → Heap → Result (ℕ × List Value)
tuple_at (v_tuple (some p)) h = load p h >>= tuple_in
tuple_at (v_tuple none) h = ok (0, [])
tuple_at _ h = err panicked

unfoldable pub hvalue_tuple_len : Value → Heap → Result ℕ
unfolding load
hvalue_tuple_len v h = tuple_at v h >>= λ (len, items). ok len

-- The index must be below the length.
unfoldable pub hvalue_tuple_get : Value → ℕ → Heap → Result (Value × Heap)
unfolding load hvalue_ref
hvalue_tuple_get v index h = tuple_at v h >>= λ (len, items). elim (get_elem? items index) [
  | none ↦ err panicked
  | some item ↦ hvalue_ref item h
]

abbrev pub native_argc : NativeMeta → ℕ
native_argc m_add = 2
native_argc m_sub = 2
native_argc m_mul = 2
native_argc m_div = 2
native_argc m_eq = 2
native_argc m_id = 1
native_argc m_const = 2
native_argc m_return = 1
native_argc m_print = 1
native_argc m_get_time = 0
native_argc m_each = 1
native_argc m_error = 1
native_argc m_repr = 1
native_argc m_string_concat = 2
native_argc m_substr = 3
native_argc m_return_effect = 0
native_argc m_print_effect = 0
native_argc m_each_effect = 0

abbrev pub is_generic_effect : NativeMeta → Bool
is_generic_effect m_return_effect = true
is_generic_effect m_print_effect = true
is_generic_effect m_each_effect = true
is_generic_effect m_get_time = true
is_generic_effect _ = false

unfoldable pub hvalue_native_args_left : Value → Heap → Result ℕ
unfolding load
hvalue_native_args_left v h = expect_native v h >>= λ (p, c).
    native_in c >>= λ (meta, payload, args). ok (native_argc meta - length args)

unfoldable pub hvalue_native_put_arg_mut : Value → Value → Heap → Result Heap
unfolding load
hvalue_native_put_arg_mut v arg h = expect_native v h >>= λ (p, c).
    native_in c >>= λ (meta, payload, args).
    if leb c.rc 1 && ltb (length args) (native_argc meta)
    then ok (store p (record c { object = h_native meta payload (args ++ arg ∷ []) }) h)
    else err panicked
