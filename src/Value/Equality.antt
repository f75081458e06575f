-- ===== src/Value/Equality.antt =====
-- `hvalue_eq` of lib/value.c.
use chammer.Prelude.{ℕ, zero, suc, Bool, true, false, Option, none, some, List, ◌∷◌, ◌==◌, length}
use chammer.Prelude.Int.{ℤ, pos, negsuc}
use chammer.Text.{string_eq}
use chammer.Value.{
  Value, Heap, panicked, exhausted, Result, ok, err, ◌>>=◌, load, v_empty, v_true, v_false, v_nil,
  v_int, v_float, v_string, v_closure, v_cons, v_native, v_binding, v_error, v_substr, v_tuple,
}
use chammer.Value.Objects.{hvalue_string_get}
use chammer.Value.Access.{cons_in, tuple_in}

abbrev pub eq_ℤ : ℤ → ℤ → Bool
eq_ℤ (pos a) (pos b) = a == b
eq_ℤ (negsuc a) (negsuc b) = a == b
eq_ℤ _ _ = false

abbrev pub is_text : Value → Bool
is_text (v_string p) = true
is_text (v_substr p offset len) = true
is_text _ = false

-- The comparison of two parts, and that of the items of two tuples, which stop at a difference.
abbrev pub and_then : Result Bool → Result Bool → Result Bool
and_then (ok true) r = r
and_then (ok false) r = ok false
and_then (err e) r = err e

pub all_eq : (Value → Value → Result Bool) → List Value → List Value → Result Bool
all_eq eq (v ∷ vs) (w ∷ ws) = and_then (eq v w) (all_eq eq vs ws)
all_eq eq _ _ = ok true

abbrev pub hcons_eq : (Value → Value → Result Bool) → Value × Value → Value × Value → Result Bool
hcons_eq eq (v, vs) (w, ws) = and_then (eq v w) (eq vs ws)

-- Both empty, or as many items, and the same ones.
abbrev pub htuple_eq : (Value → Value → Result Bool) → Option ℕ → Option ℕ → Heap → Result Bool
unfolding load all_eq
htuple_eq eq none none h = ok true
htuple_eq eq none (some q) h = ok false
htuple_eq eq (some p) none h = ok false
htuple_eq eq (some p) (some q) h = load p h >>= λ c. tuple_in c >>= λ (len, items).
    load q h >>= λ d.
    tuple_in d >>= λ (len', items'). and_then (ok (len == len')) (all_eq eq items items')

abbrev pub texts_eq : Value → Value → Heap → Result Bool
unfolding hvalue_string_get string_eq
texts_eq v w h = hvalue_string_get v h >>= λ s. hvalue_string_get w h >>= λ t. ok (string_eq s t)

-- Calls of `hvalue_eq` nested at most `n` deep. `==` on doubles is a parameter.
unfoldable pub eq_nested : (ℕ → ℕ → Bool) → ℕ → Heap → Value → Value → Result Bool
unfolding load all_eq hvalue_string_get string_eq
eq_nested float_eq zero h v w = err exhausted
eq_nested float_eq (suc n) h v_empty w = err panicked
eq_nested float_eq (suc n) h (v_int i) w = elim w [ v_int j ↦ ok (eq_ℤ i j) | _ ↦ ok false ]
eq_nested float_eq (suc n) h (v_float a) w = elim w [ v_float b ↦ ok (float_eq a b) | _ ↦ ok false ]
eq_nested float_eq (suc n) h (v_string p) w = elim (is_text w) [
  | true ↦ texts_eq (v_string p) w h
  | false ↦ ok false
]
eq_nested float_eq (suc n) h (v_substr p offset len) w = elim (is_text w) [
  | true ↦ texts_eq (v_substr p offset len) w h
  | false ↦ ok false
]
eq_nested float_eq (suc n) h (v_cons p) w = elim w [
  | v_cons q ↦ load p h >>= λ c.
      cons_in c >>= λ a. load q h >>= λ d. cons_in d >>= λ b. hcons_eq (eq_nested float_eq n h) a b
  | _ ↦ ok false
]
eq_nested float_eq (suc n) h (v_tuple p) w = elim w [
  | v_tuple q ↦ htuple_eq (eq_nested float_eq n h) p q h
  | _ ↦ ok false
]
eq_nested float_eq (suc n) h (v_native p) w = ok false
eq_nested float_eq (suc n) h (v_closure p) w = ok false
eq_nested float_eq (suc n) h (v_binding p) w = ok false
eq_nested float_eq (suc n) h (v_error p) w = ok false
eq_nested float_eq (suc n) h v_true w = elim w [ v_true ↦ ok true | _ ↦ ok false ]
eq_nested float_eq (suc n) h v_false w = elim w [ v_false ↦ ok true | _ ↦ ok false ]
eq_nested float_eq (suc n) h v_nil w = elim w [ v_nil ↦ ok true | _ ↦ ok false ]

-- Every nested call goes to an allocation further from the first.
unfoldable pub hvalue_eq : (ℕ → ℕ → Bool) → Value → Value → Heap → Result Bool
unfolding eq_nested
hvalue_eq float_eq v w h = eq_nested float_eq (suc (length h)) h v w
