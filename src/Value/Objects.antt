-- ===== src/Value/Objects.antt =====
-- The objects of lib/value.c: strings, closures, lists, tuples, natives and bindings.
use chammer.Prelude.{
  ℕ, ◌+◌, ◌-◌, Bool, true, false, Option, none, some, List, [], ◌∷◌, leb, min, length, take, drop,
  if◌then◌else◌,
}
use chammer.Value.{
  Value, NativeMeta, Object, Cell, Heap, confused, panicked, Result, ok, err, ◌>>=◌, load, alloc,
  address_of, hvalue_ref, hvalue_drop, h_string, h_closure, h_cons, h_tuple, h_native, h_binding,
  m_each_effect, v_empty, v_true, v_false, v_string, v_closure, v_cons, v_native, v_binding,
  v_error, v_substr, v_tuple,
}

abbrev pub made : (ℕ → Value) → ℕ × Heap → Value × Heap
made v (p, h) = (v p, h)

unfoldable pub hvalue_make_string : List ℕ → Heap → Value × Heap
unfolding alloc
hvalue_make_string s h = made v_string (alloc (h_string s) h)

unfoldable pub hvalue_make_error : List ℕ → Heap → Value × Heap
unfolding alloc
hvalue_make_error s h = made v_error (alloc (h_string s) h)

unfoldable pub hvalue_make_closure : ℕ → ℕ → Heap → Value × Heap
unfolding alloc
hvalue_make_closure fnindex argc h = made v_closure (alloc (h_closure fnindex argc []) h)

unfoldable pub hvalue_make_cons : Value → Value → Heap → Value × Heap
unfolding alloc
hvalue_make_cons head tail h = made v_cons (alloc (h_cons head tail) h)

unfoldable pub hvalue_make_native : NativeMeta → List Value → Heap → Value × Heap
unfolding alloc
hvalue_make_native meta payload h = made v_native (alloc (h_native meta payload []) h)

unfoldable pub hvalue_make_binding : Value → Value → Heap → Value × Heap
unfolding alloc
hvalue_make_binding effect then_value h = made v_binding (alloc (h_binding effect then_value) h)

abbrev pub hvalue_make_unit : Value
hvalue_make_unit = v_tuple none

abbrev pub hvalue_make_bool : Bool → Value
hvalue_make_bool b = if b then v_true else v_false

-- The text of a string object.
abbrev pub string_in : Cell → Result (List ℕ)
string_in c = elim c.object [ h_string s ↦ ok s | _ ↦ err confused ]

unfoldable pub hstring_get : ℕ → Heap → Result (List ℕ)
unfolding load
hstring_get p h = load p h >>= string_in

unfoldable pub hvalue_string_get : Value → Heap → Result (List ℕ)
unfolding hstring_get
hvalue_string_get (v_string p) h = hstring_get p h
hvalue_string_get (v_substr p offset len) h = hstring_get p h >>= λ s. ok (take len (drop offset s))
hvalue_string_get (v_error p) h = hstring_get p h
hvalue_string_get _ h = err panicked

-- The substring takes over the reference; its ends are moved into the string.
abbrev pub cut : ℕ → ℕ → ℕ → ℕ → ℕ → Value
cut p start size offset len =
    v_substr p (start + min offset size) (min (size - min offset size) len)

unfoldable pub hvalue_make_substr : Value → ℕ → ℕ → Heap → Result Value
unfolding hstring_get
hvalue_make_substr (v_string p) offset len h =
    hstring_get p h >>= λ s. ok (cut p 0 (length s) offset len)
hvalue_make_substr (v_substr p start size) offset len h = ok (cut p start size offset len)
hvalue_make_substr _ offset len h = err panicked

-- References to each of some values, in order.
unfoldable pub ref_each : List Value → Heap → Result (List Value × Heap)
ref_each [] h = ok ([], h)
ref_each (v ∷ vs) h = hvalue_ref v h >>= λ (w, h'). ref_each vs h' >>= λ (ws, h''). ok (w ∷ ws, h'')

-- The `clone` of a native's data: that of `each` takes a reference, the others copy the value.
abbrev pub clone_payload : NativeMeta → List Value → Heap → Result (List Value × Heap)
clone_payload m_each_effect payload h = ref_each payload h
clone_payload meta payload h = ok (payload, h)

-- The copy of an object, whose own values are shared. That of a native leaves `args_len` at 0.
unfoldable pub clone_object : Object → Heap → Result (ℕ × Heap)
unfolding ref_each alloc
clone_object (h_string s) h = ok (alloc (h_string s) h)
clone_object (h_closure fnindex argc args) h =
    ref_each args h >>= λ (vs, h'). ok (alloc (h_closure fnindex argc vs) h')
clone_object (h_cons head tail) h =
    hvalue_ref head h >>= λ (v, h'). hvalue_ref tail h' >>= λ (w, h''). ok (alloc (h_cons v w) h'')
clone_object (h_tuple len items) h = ref_each items h >>= λ (vs, h'). ok (alloc (h_tuple len vs) h')
clone_object (h_native meta payload args) h = clone_payload meta payload h >>= λ (vs, h').
    ref_each args h' >>= λ (_, h''). ok (alloc (h_native meta vs []) h'')
clone_object (h_binding effect then_value) h = hvalue_ref effect h >>= λ (v, h').
    hvalue_ref then_value h' >>= λ (w, h''). ok (alloc (h_binding v w) h'')

-- The value with another address; a substring keeps its ends, for they lie in the string.
abbrev pub at_address : Value → ℕ → Value
at_address (v_string _) p = v_string p
at_address (v_closure _) p = v_closure p
at_address (v_cons _) p = v_cons p
at_address (v_native _) p = v_native p
at_address (v_binding _) p = v_binding p
at_address (v_error _) p = v_error p
at_address (v_substr _ offset len) p = v_substr p offset len
at_address (v_tuple _) p = v_tuple (some p)
at_address v p = v

-- Is the allocation of the type that the value says?
abbrev pub is_of : Value → Object → Bool
is_of (v_string p) (h_string s) = true
is_of (v_error p) (h_string s) = true
is_of (v_substr p offset len) (h_string s) = true
is_of (v_closure p) (h_closure fnindex argc args) = true
is_of (v_cons p) (h_cons head tail) = true
is_of (v_tuple p) (h_tuple len items) = true
is_of (v_native p) (h_native meta payload args) = true
is_of (v_binding p) (h_binding effect then_value) = true
is_of _ _ = false

abbrev pub clone_at : Value → Option ℕ → Heap → Result (Value × Heap)
clone_at v none h = ok (v, h)
clone_at v (some p) h = load p h >>= λ c. (elim (is_of v c.object) [
  | true ↦ clone_object c.object h >>= λ (q, h'). ok (at_address v q, h')
  | false ↦ err confused
])

unfoldable pub hvalue_clone : Value → Heap → Result (Value × Heap)
unfolding clone_object load
hvalue_clone v_empty h = err panicked
hvalue_clone v h = clone_at v (address_of v) h

abbrev pub uniq_at : Option ℕ → Heap → Result Bool
uniq_at none h = ok true
uniq_at (some p) h = load p h >>= λ c. ok (leb c.rc 1)

unfoldable pub hvalue_is_uniq : Value → Heap → Result Bool
unfolding load
hvalue_is_uniq v_empty h = err panicked
hvalue_is_uniq v h = uniq_at (address_of v) h

abbrev pub uniq_or : Value → Heap → Bool → Result (Value × Heap)
uniq_or v h true = ok (v, h)
uniq_or v h false = hvalue_clone v h >>= λ (w, h'). hvalue_drop v h' >>= λ h''. ok (w, h'')

unfoldable pub hvalue_uniq : Value → Heap → Result (Value × Heap)
unfolding hvalue_is_uniq hvalue_clone hvalue_drop
hvalue_uniq v h = hvalue_is_uniq v h >>= uniq_or v h
