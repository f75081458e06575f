-- ===== src/Machine/Natives.antt =====
-- The native values of lib/builtin: what a call of them with all their arguments does.
use chammer.Prelude.{ℕ, zero, suc, ◌+◌, ◌*◌, ◌/◌, ◌^◌, List, [], ◌∷◌, if◌then◌else◌}
use chammer.Prelude.Int.{ℤ, pos, negsuc, ◌+ℤ◌, ◌-ℤ◌, pos_part, neg_part, pattern_of, is_signed}
use chammer.Buffer.{Buffer, buffer_clear}
use chammer.Value.{
  Value, NativeMeta, Heap, Result, ok, err, panicked, undefined, ◌>>=◌, hvalue_ref, v_int, v_string,
  v_cons, v_nil, m_add, m_sub, m_mul, m_div, m_eq, m_id, m_const, m_return, m_print, m_each,
  m_error, m_repr, m_string_concat, m_substr, m_return_effect, m_print_effect, m_each_effect,
}
use chammer.Value.Objects.{
  hvalue_make_string, hvalue_make_error, hvalue_make_native, hvalue_make_bool, hvalue_make_substr,
  hvalue_string_get,
}
use chammer.Value.Equality.{hvalue_eq}
use chammer.Value.Repr.{Names, hvalue_print_repr, puts}
use chammer.Machine.{Machine, World, machine_func_name}

-- A result of `int64_t` arithmetic, which must not overflow.
abbrev pub hvalue_make_int64 : ℤ → Result Value
hvalue_make_int64 i = if is_signed (2 ^ 64) i then ok (v_int i) else err undefined

abbrev pub mul_ℤ : ℤ → ℤ → ℤ
mul_ℤ a b =
    pos (pos_part a * pos_part b + neg_part a * neg_part b)
    -ℤ pos (pos_part a * neg_part b + neg_part a * pos_part b)

abbrev pub quotient : ℕ → ℕ → ℤ
quotient a b = pos (a / b)

abbrev pub negated : ℤ → ℤ
negated i = pos 0 -ℤ i

-- Division towards 0.
abbrev pub div_ℤ : ℤ → ℤ → Result ℤ
div_ℤ a (pos zero) = err undefined
div_ℤ (pos a) (pos (suc b)) = ok (quotient a (suc b))
div_ℤ (negsuc a) (pos (suc b)) = ok (negated (quotient (suc a) (suc b)))
div_ℤ (pos a) (negsuc b) = ok (negated (quotient a (suc b)))
div_ℤ (negsuc a) (negsuc b) = ok (quotient (suc a) (suc b))

abbrev pub two_ints : (ℤ → ℤ → Result Value) → List Value → Result Value
two_ints f (v_int a ∷ v_int b ∷ []) = f a b
two_ints f _ = err panicked

unfoldable pub names : World → Names
unfolding machine_func_name
names w = record { func_name = machine_func_name w; float_text = w.float_text }

abbrev pub with_value : Machine → Value × Heap → Value × Machine
with_value m (v, h) = (v, record m { heap = h })

unfoldable pub ref_in : Value → Machine → Result (Value × Machine)
unfolding hvalue_ref
ref_in v m = hvalue_ref v m.heap >>= λ r. ok (with_value m r)

-- An effect with a reference to its value.
unfoldable pub make_effect : NativeMeta → Value → Machine → Result (Value × Machine)
unfolding hvalue_ref hvalue_make_native
make_effect meta v m =
    hvalue_ref v m.heap >>= λ (w, h). ok (with_value m (hvalue_make_native meta (w ∷ []) h))

-- The text in the shared buffer, as a new string.
unfoldable pub make_from_buffer : Buffer → Machine → Value × Machine
unfolding hvalue_make_string
make_from_buffer b m =
    with_value (record m { shared_buffer = b }) (hvalue_make_string b.bytes m.heap)

unfoldable pub add_call : List Value → Result Value
add_call = two_ints (λ a b. hvalue_make_int64 (a +ℤ b))

unfoldable pub sub_call : List Value → Result Value
sub_call = two_ints (λ a b. hvalue_make_int64 (a -ℤ b))

unfoldable pub mul_call : List Value → Result Value
mul_call = two_ints (λ a b. hvalue_make_int64 (mul_ℤ a b))

unfoldable pub div_call : List Value → Result Value
div_call = two_ints (λ a b. div_ℤ a b >>= hvalue_make_int64)

unfoldable pub eq_call : World → List Value → Heap → Result Value
unfolding hvalue_eq
eq_call w (a ∷ b ∷ []) h = hvalue_eq w.float_eq a b h >>= λ e. ok (hvalue_make_bool e)
eq_call w _ h = err panicked

-- `id_call` and `const_call`: the first argument.
unfoldable pub id_call : List Value → Machine → Result (Value × Machine)
unfolding hvalue_ref
id_call [] m = err panicked
id_call (a ∷ args) m = ref_in a m

unfoldable pub return_call : List Value → Machine → Result (Value × Machine)
unfolding make_effect
return_call [] m = err panicked
return_call (a ∷ args) m = make_effect m_return_effect a m

unfoldable pub print_call : List Value → Machine → Result (Value × Machine)
unfolding make_effect
print_call [] m = err panicked
print_call (a ∷ args) m = make_effect m_print_effect a m

unfoldable pub each_call : List Value → Machine → Result (Value × Machine)
unfolding make_effect
each_call (v_nil ∷ []) m = make_effect m_each_effect v_nil m
each_call (v_cons p ∷ []) m = make_effect m_each_effect (v_cons p) m
each_call _ m = err panicked

unfoldable pub error_call : List Value → Machine → Result (Value × Machine)
unfolding hvalue_string_get hvalue_make_error
error_call (v_string p ∷ []) m =
    hvalue_string_get (v_string p) m.heap >>= λ s. ok (with_value m (hvalue_make_error s m.heap))
error_call _ m = err panicked

unfoldable pub repr_call : World → List Value → Machine → Result (Value × Machine)
unfolding hvalue_print_repr make_from_buffer buffer_clear names
repr_call w (a ∷ []) m =
    hvalue_print_repr (names w) a m.heap (buffer_clear m.shared_buffer) >>= λ b.
    ok (make_from_buffer b m)
repr_call w _ m = err panicked

unfoldable pub string_concat_call : List Value → Machine → Result (Value × Machine)
unfolding hvalue_string_get make_from_buffer buffer_clear puts
string_concat_call (a ∷ b ∷ []) m = hvalue_string_get a m.heap >>= λ s.
    hvalue_string_get b m.heap >>= λ t.
    ok (make_from_buffer (puts (puts (buffer_clear m.shared_buffer) s) t) m)
string_concat_call _ m = err panicked

unfoldable pub substr_call : List Value → Machine → Result (Value × Machine)
unfolding hvalue_ref hvalue_make_substr
substr_call (a ∷ v_int offset ∷ v_int len ∷ []) m = hvalue_ref a m.heap >>= λ (v, h).
    hvalue_make_substr v (pattern_of (2 ^ 64) offset) (pattern_of (2 ^ 64) len) h >>= λ s.
    ok (s, record m { heap = h })
substr_call _ m = err panicked

abbrev pub with_machine : Machine → Result Value → Result (Value × Machine)
with_machine m r = r >>= λ v. ok (v, m)

-- `hvalue_native_call`, of all arguments; the effects and `get_time` have no `call`.
unfoldable pub native_call : World → NativeMeta → List Value → Machine → Result (Value × Machine)
unfolding add_call sub_call mul_call div_call eq_call id_call return_call print_call each_call
    error_call repr_call string_concat_call substr_call
native_call w m_add args m = with_machine m (add_call args)
native_call w m_sub args m = with_machine m (sub_call args)
native_call w m_mul args m = with_machine m (mul_call args)
native_call w m_div args m = with_machine m (div_call args)
native_call w m_eq args m = with_machine m (eq_call w args m.heap)
native_call w m_id args m = id_call args m
native_call w m_const args m = id_call args m
native_call w m_return args m = return_call args m
native_call w m_print args m = print_call args m
native_call w m_each args m = each_call args m
native_call w m_error args m = error_call args m
native_call w m_repr args m = repr_call w args m
native_call w m_string_concat args m = string_concat_call args m
native_call w m_substr args m = substr_call args m
native_call w _ args m = err panicked
