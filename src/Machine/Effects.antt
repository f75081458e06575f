-- ===== src/Machine/Effects.antt =====
-- The effects of lib/builtin, and `hvalue_yield` and `hvalue_bind` of lib/value.c. `call` stands
-- for `machine_call`.
use chammer.Prelude.{
  ℕ, zero, suc, true, false, Option, none, some, List, [], ◌∷◌, ◌++◌, length, if◌then◌else◌,
}
use chammer.Prelude.Int.{ℤ}
use chammer.Buffer.{buffer_clear}
use chammer.Value.{
  Value, NativeMeta, Cell, Heap, Result, ok, err, panicked, dangling, exhausted, confused, ◌>>=◌,
  load, hvalue_ref, hvalue_drop, h_binding, v_int, v_string, v_substr, v_cons, v_nil, v_native,
  v_binding, m_get_time, m_return_effect, m_print_effect, m_each_effect,
}
use chammer.Value.Objects.{hvalue_make_binding, hvalue_make_unit, hvalue_string_get}
use chammer.Value.Access.{
  htuple_begin, htuple_put, htuple_end, HTupleBuilder, hvalue_uncons, concat_nested, native_in,
  is_generic_effect, is_cons,
}
use chammer.Value.Repr.{hvalue_print_repr}
use chammer.Machine.{Machine, World, drop_in, machine_func_name}
use chammer.Machine.Natives.{names, with_value, ref_in}

abbrev pub Call : Type 0
Call = Value → List Value → Machine → Result (Value × Machine)

-- A reference to `then`, called with a value.
unfoldable pub call_then : Call → Value → Value → Machine → Result (Value × Machine)
unfolding hvalue_ref
call_then call then_value v m = ref_in then_value m >>= λ (t, m'). call t (v ∷ []) m'

-- With no `then`, the value itself.
unfoldable pub continue : Call → Option Value → Value → Machine → Result (Value × Machine)
unfolding hvalue_ref
continue call none v m = ok (v, m)
continue call (some then_value) v m = call_then call then_value v m

abbrev pub print_line : List ℕ → Machine → Machine
print_line s m = record m { output = m.output ++ s ++ b'\n' ∷ [] }

-- Text is printed as it is, any other value by its representation.
unfoldable pub print_value : World → Value → Machine → Result Machine
unfolding hvalue_string_get hvalue_print_repr buffer_clear machine_func_name
print_value w (v_string p) m = hvalue_string_get (v_string p) m.heap >>= λ s. ok (print_line s m)
print_value w (v_substr p offset len) m =
    hvalue_string_get (v_substr p offset len) m.heap >>= λ s. ok (print_line s m)
print_value w v m = hvalue_print_repr (names w) v m.heap (buffer_clear m.shared_buffer) >>= λ b.
    ok (print_line b.bytes (record m { shared_buffer = b }))

abbrev pub Yield : Type 0
Yield = Value → Option Value → Machine → Result (Option Value × Machine)

-- A yield that must have a result.
abbrev pub must_yield : Option Value × Machine → Result (Value × Machine)
must_yield (none, m) = err panicked
must_yield (some v, m) = ok (v, m)

-- The loop of `each_effect_yield`, over at most `n` cells.
unfoldable pub each_loop : Call → Yield → ℕ → Value → Value → Machine → Result (Value × Machine)
unfolding hvalue_uncons hvalue_ref hvalue_drop
each_loop call yield zero then_value tail m = err exhausted
each_loop call yield (suc n) then_value tail m = elim (is_cons tail) [
  | true ↦ hvalue_uncons tail m.heap >>= λ ((head, tail'), h).
      call_then call then_value head (record m { heap = h }) >>= λ (effect, m₁).
      yield effect none m₁ >>= must_yield >>= λ (result, m₂).
      drop_in effect m₂ >>= drop_in result >>= each_loop call yield n then_value tail'
  | false ↦ drop_in tail m >>= λ m'. ok (hvalue_make_unit, m')
]

unfoldable pub put_ints : List ℤ → HTupleBuilder → Heap → Result (HTupleBuilder × Heap)
unfolding htuple_put
put_ints [] tb h = ok (tb, h)
put_ints (i ∷ is) tb h = htuple_put tb (v_int i) h >>= λ (tb', h'). put_ints is tb' h'

unfoldable pub make_time : World → Heap → Result (Value × Heap)
unfolding htuple_begin put_ints htuple_end
make_time w h =
    let (tb, h₁) = htuple_begin 6 h in
    put_ints w.localtime tb h₁ >>= λ (tb', h₂). htuple_end tb' h₂ >>= λ v. ok (v, h₂)

-- `then` is read without a test for NULL.
unfoldable pub return_effect_yield :
    Call → List Value → Option Value → Machine → Result (Value × Machine)
unfolding ref_in call_then
return_effect_yield call payload none m = err dangling
return_effect_yield call [] (some t) m = err panicked
return_effect_yield call (v ∷ vs) (some t) m = ref_in v m >>= λ (v', m₁). call_then call t v' m₁

unfoldable pub stdio_print_yield :
    World → Call → List Value → Option Value → Machine → Result (Value × Machine)
unfolding print_value continue
stdio_print_yield w call [] then_value m = err panicked
stdio_print_yield w call (v ∷ vs) then_value m =
    print_value w v m >>= continue call then_value hvalue_make_unit

unfoldable pub get_time_yield : World → Call → Option Value → Machine → Result (Value × Machine)
unfolding make_time call_then
get_time_yield w call none m = ok (hvalue_make_unit, m)
get_time_yield w call (some t) m =
    make_time w m.heap >>= λ (v, h). call_then call t v (record m { heap = h })

unfoldable pub each_effect_yield :
    Call → Yield → List Value → Option Value → Machine → Result (Value × Machine)
unfolding ref_in each_loop
each_effect_yield call yield payload none m = ok (hvalue_make_unit, m)
each_effect_yield call yield [] (some t) m = err panicked
each_effect_yield call yield (v ∷ vs) (some t) m =
    ref_in v m >>= λ (tail, m'). each_loop call yield (suc (length m'.heap)) t tail m'

-- A native value's `yield`, if it has one.
unfoldable pub native_yield :
    World
    → Call
    → Yield
    → NativeMeta
    → List Value
    → Option Value
    → Machine
    → Result (Value × Machine)
unfolding return_effect_yield stdio_print_yield get_time_yield each_effect_yield
native_yield w call yield m_return_effect payload then_value m =
    return_effect_yield call payload then_value m
native_yield w call yield m_print_effect payload then_value m =
    stdio_print_yield w call payload then_value m
native_yield w call yield m_get_time payload then_value m = get_time_yield w call then_value m
native_yield w call yield m_each_effect payload then_value m =
    each_effect_yield call yield payload then_value m
native_yield w call yield _ payload then_value m = err panicked

abbrev pub binding_in : Cell → Result (Value × Value)
binding_in c = elim c.object [
  | h_binding effect then_value ↦ ok (effect, then_value)
  | _ ↦ err confused
]

abbrev pub some_of : Value × Machine → Result (Option Value × Machine)
some_of (v, m) = ok (some v, m)

-- Calls of `hvalue_yield_impl` nested at most `n` deep; `none` is the result `false`.
unfoldable pub yield_nested : World → Call → ℕ → Yield
unfolding load native_yield hvalue_ref
yield_nested w call zero v then_value m = err exhausted
yield_nested w call (suc n) (v_native p) then_value m = load p m.heap >>= λ c.
    native_in c >>= λ (meta, payload, args).
    native_yield w call (yield_nested w call n) meta payload then_value m >>= some_of
yield_nested w call (suc n) (v_binding p) then_value m = load p m.heap >>= λ c.
    binding_in c >>= λ (effect, next).
    yield_nested w call n effect (some next) m >>= must_yield >>= λ (result, m₁).
    yield_nested w call n result then_value m₁ >>= λ (outcome, m₂). (elim outcome [
      | some v ↦ ok (some v, m₂)
      | none ↦ continue call then_value result m₂ >>= some_of
    ])
yield_nested w call (suc n) _ then_value m = ok (none, m)

unfoldable pub bind_native : Value → Value → NativeMeta → Machine → Result (Value × Machine)
unfolding hvalue_make_binding
bind_native effect then_value meta m =
    if is_generic_effect meta
    then ok (with_value m (hvalue_make_binding effect then_value m.heap))
    else err panicked

-- Calls of `hvalue_bind` nested at most `n` deep.
unfoldable pub bind_nested : Call → ℕ → Value → Value → Machine → Result (Value × Machine)
unfolding load hvalue_uncons hvalue_ref concat_nested hvalue_make_binding
bind_nested call zero effect then_value m = err exhausted
bind_nested call (suc n) v_nil then_value m = ok (v_nil, m)
bind_nested call (suc n) (v_cons p) then_value m =
    hvalue_uncons (v_cons p) m.heap >>= λ ((head, tail), h).
    call_then call then_value head (record m { heap = h }) >>= λ (first, m₁).
    bind_nested call n tail then_value m₁ >>= λ (rest, m₂).
    concat_nested (suc (length m₂.heap)) first rest m₂.heap >>= λ r. ok (with_value m₂ r)
bind_nested call (suc n) (v_native p) then_value m = load p m.heap >>= λ c.
    native_in c >>= λ (meta, payload, args). bind_native (v_native p) then_value meta m
bind_nested call (suc n) (v_binding p) then_value m =
    ok (with_value m (hvalue_make_binding (v_binding p) then_value m.heap))
bind_nested call (suc n) _ then_value m = err panicked
