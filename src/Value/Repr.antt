-- ===== src/Value/Repr.antt =====
-- `hvalue_print_repr` of lib/value.c, with those of lib/builtin.
use chammer.Prelude.{
  ℕ, zero, suc, ◌/◌, ◌%◌, ◌+◌, ◌^◌, true, false, none, some, List, [], ◌∷◌, ◌++◌, ◌==◌, length,
  if◌then◌else◌,
}
use chammer.Prelude.Int.{ℤ, pattern_of}
use chammer.Buffer.{Buffer, buffer_putc, buffer_puts, buffer_printf}
use chammer.Buffer.Literal.{buffer_print_string_literal}
use chammer.Value.{
  Value, NativeMeta, Object, Heap, confused, panicked, exhausted, Result, ok, err, ◌>>=◌, load,
  h_closure, h_native, h_binding, h_cons, h_tuple, v_empty, v_true, v_false, v_nil, v_int, v_float,
  v_string, v_closure, v_cons, v_native, v_binding, v_error, v_substr, v_tuple, m_add, m_sub, m_mul,
  m_div, m_eq, m_id, m_const, m_return, m_print, m_get_time, m_each, m_error, m_repr,
  m_string_concat, m_substr, m_return_effect, m_print_effect, m_each_effect,
}
use chammer.Value.Objects.{hvalue_string_get, hstring_get}
use chammer.Value.Access.{cons_in}

-- The digits of a number, at most `n + 1` of them.
unfoldable pub digits : ℕ → ℕ → List ℕ
digits zero i = (b'0' + i % 10) ∷ []
digits (suc n) i = elim (i / 10 == 0) [
  | true ↦ (b'0' + i % 10) ∷ []
  | false ↦ digits n (i / 10) ++ (b'0' + i % 10) ∷ []
]

-- An integer is printed by the format for unsigned words of 32 bits.
unfoldable pub print_int : ℤ → List ℕ
unfolding digits
print_int i = digits 9 (pattern_of (2 ^ 32) i)

abbrev pub native_name : NativeMeta → List ℕ
native_name m_add = b'+' ∷ []
native_name m_sub = b'-' ∷ []
native_name m_mul = b'*' ∷ []
native_name m_div = b'/' ∷ []
native_name m_eq = b'=' ∷ b'=' ∷ []
native_name m_id = b'i' ∷ b'd' ∷ []
native_name m_const = b'c' ∷ b'o' ∷ b'n' ∷ b's' ∷ b't' ∷ []
native_name m_return = b'r' ∷ b'e' ∷ b't' ∷ b'u' ∷ b'r' ∷ b'n' ∷ []
native_name m_print = b'p' ∷ b'r' ∷ b'i' ∷ b'n' ∷ b't' ∷ []
native_name m_get_time = b'g' ∷ b'e' ∷ b't' ∷ b'_' ∷ b't' ∷ b'i' ∷ b'm' ∷ b'e' ∷ []
native_name m_each = b'e' ∷ b'a' ∷ b'c' ∷ b'h' ∷ []
native_name m_error = b'e' ∷ b'r' ∷ b'r' ∷ b'o' ∷ b'r' ∷ []
native_name m_repr = b'r' ∷ b'e' ∷ b'p' ∷ b'r' ∷ []
native_name m_string_concat = b'+' ∷ b'+' ∷ []
native_name m_substr = b's' ∷ b'u' ∷ b'b' ∷ b's' ∷ b't' ∷ b'r' ∷ []
native_name m_return_effect = b'r' ∷ b'e' ∷ b't' ∷ b'u' ∷ b'r' ∷ b'n' ∷ []
native_name m_print_effect = b'p' ∷ b'r' ∷ b'i' ∷ b'n' ∷ b't' ∷ []
native_name m_each_effect = b'e' ∷ b'a' ∷ b'c' ∷ b'h' ∷ []

-- The effects of `print` and `each` print their value in place of arguments.
abbrev pub shown_args : NativeMeta → List Value → List Value → List Value
shown_args m_print_effect payload args = payload
shown_args m_each_effect payload args = payload
shown_args meta payload args = args

-- What a print of values is given: the name of a function, and the text of a double.
pub record Names : Type 0 where
  pub func_name : ℕ → Result (List ℕ)
  pub float_text : ℕ → List ℕ

unfoldable pub puts : Buffer → List ℕ → Buffer
unfolding buffer_puts
puts b str = (buffer_puts b str).1

abbrev pub Printer : Type 0
Printer = Value → Buffer → Result Buffer

pub print_args : Printer → List Value → Buffer → Result Buffer
unfolding buffer_putc
print_args print [] b = ok b
print_args print (v ∷ vs) b = print v (buffer_putc b b' ') >>= print_args print vs

-- The items of a tuple, with ", " between them.
pub print_items : Printer → List Value → Buffer → Result Buffer
unfolding puts
print_items print [] b = ok b
print_items print (v ∷ []) b = print v b
print_items print (v ∷ w ∷ vs) b =
    print v b >>= λ b'. print_items print (w ∷ vs) (puts b' (b',' ∷ b' ' ∷ []))

abbrev pub malformed : List ℕ
malformed =
    b' ' ∷ b'(' ∷ b'm' ∷ b'a' ∷ b'l' ∷ b'f' ∷ b'o' ∷ b'r' ∷ b'm' ∷ b'e' ∷ b'd' ∷ b' ' ∷ b'l' ∷ b'i'
    ∷ b's' ∷ b't' ∷ b')' ∷ b']' ∷ []

-- The loop of `hcons_print_repr`, at most `n` cells long.
pub print_cells : Printer → ℕ → Heap → Value × Value → Buffer → Result Buffer
unfolding load buffer_putc puts
print_cells print zero h cons b = err exhausted
print_cells print (suc n) h (head, tail) b = print head b >>= λ b₁.
    let as_malformed : Result Buffer = print tail b₁ >>= λ b₂. ok (puts b₂ malformed) in
    elim tail [
      | v_cons q ↦ load q h >>= λ c.
          cons_in c >>= λ cons. print_cells print n h cons (puts b₁ (b',' ∷ b' ' ∷ []))
      | v_nil ↦ ok (buffer_putc b₁ b']')
      | _ ↦ as_malformed
    ]

abbrev pub print_tuple : Printer → List Value → Buffer → Result Buffer
unfolding print_items buffer_putc
print_tuple print items b =
    print_items print items b >>= λ b'. ok (if length items == 1 then buffer_putc b' b',' else b')

-- What stands in an allocation.
unfoldable pub print_object : Printer → Names → Object → Heap → Buffer → Result Buffer
unfolding print_args print_cells print_items buffer_putc puts buffer_printf
print_object print names (h_closure fnindex argc args) h b = names.func_name fnindex >>= λ name.
    print_args print args (buffer_printf b (b'(' ∷ name)) >>= λ b'. ok (buffer_putc b' b')')
print_object print names (h_cons head tail) h b =
    print_cells print (suc (length h)) h (head, tail) (buffer_putc b b'[')
print_object print names (h_tuple len items) h b =
    print_tuple print items (buffer_putc b b'(') >>= λ b'. ok (buffer_putc b' b')')
print_object print names (h_native meta payload args) h b =
    print_args print (shown_args meta payload args) (buffer_printf b (b'(' ∷ native_name meta))
    >>= λ b'. ok (buffer_putc b' b')')
print_object print names (h_binding effect then_value) h b =
    print effect (puts b (b'<' ∷ b'b' ∷ b'i' ∷ b'n' ∷ b'd' ∷ b'i' ∷ b'n' ∷ b'g' ∷ b' ' ∷ []))
    >>= λ b₁. print then_value (buffer_putc b₁ b' ') >>= λ b₂. ok (buffer_putc b₂ b'>')
print_object print names _ h b = err confused

abbrev pub print_at : Printer → Names → ℕ → Heap → Buffer → Result Buffer
unfolding load print_object
print_at print names p h b = load p h >>= λ c. print_object print names c.object h b

-- Calls of `hvalue_print_repr` nested at most `n` deep.
unfoldable pub repr_nested : ℕ → Names → Heap → Printer
unfolding print_object load buffer_putc puts buffer_print_string_literal hvalue_string_get
    hstring_get print_int buffer_printf
repr_nested zero names h v b = err exhausted
repr_nested (suc n) names h v_empty b = err panicked
repr_nested (suc n) names h (v_int i) b = ok (buffer_printf b (print_int i))
repr_nested (suc n) names h (v_float f) b = ok (buffer_printf b (names.float_text f))
repr_nested (suc n) names h (v_string p) b =
    hvalue_string_get (v_string p) h >>= λ s. ok (buffer_print_string_literal b s)
repr_nested (suc n) names h (v_substr p offset len) b =
    hvalue_string_get (v_substr p offset len) h >>= λ s. ok (buffer_print_string_literal b s)
repr_nested (suc n) names h v_true b = ok (puts b (b't' ∷ b'r' ∷ b'u' ∷ b'e' ∷ []))
repr_nested (suc n) names h v_false b = ok (puts b (b'f' ∷ b'a' ∷ b'l' ∷ b's' ∷ b'e' ∷ []))
repr_nested (suc n) names h v_nil b = ok (puts b (b'[' ∷ b']' ∷ []))
repr_nested (suc n) names h (v_closure p) b = print_at (repr_nested n names h) names p h b
repr_nested (suc n) names h (v_cons p) b = print_at (repr_nested n names h) names p h b
repr_nested (suc n) names h (v_native p) b = print_at (repr_nested n names h) names p h b
repr_nested (suc n) names h (v_binding p) b = print_at (repr_nested n names h) names p h b
repr_nested (suc n) names h (v_tuple (some p)) b = print_at (repr_nested n names h) names p h b
repr_nested (suc n) names h (v_tuple none) b = ok (buffer_putc (buffer_putc b b'(') b')')
repr_nested (suc n) names h (v_error p) b = hstring_get p h >>= λ s. ok (
    buffer_putc
      (buffer_print_string_literal (puts b (b'<' ∷ b'e' ∷ b'r' ∷ b'r' ∷ b'o' ∷ b'r' ∷ b' ' ∷ [])) s)
      b'>')

unfoldable pub hvalue_print_repr : Names → Value → Heap → Buffer → Result Buffer
unfolding repr_nested
hvalue_print_repr names v h b = repr_nested (suc (length h)) names h v b
