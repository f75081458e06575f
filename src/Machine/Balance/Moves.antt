-- ===== src/Machine/Balance/Moves.antt =====
-- The handlers of lib/machine.c that move values between the stacks.
use chammer.Prelude.{
  ℕ, suc, ◌+◌, ◌≡◌, refl, sym, Bool, true, false, List, [], ◌∷◌, ◌++◌, length, arith, leb,
  if◌then◌else◌, take, drop,
}
use mathlib.Core.Path.{subst}
use chammer.Value.{
  Value, Heap, ok, err, overrun, ◌>>=◌, alloc, h_string, v_true, v_false, v_string, v_tuple,
}
use chammer.Value.Counts.{occurrences}
use chammer.Value.Safe.{Safe, safe, bind-Safe}
use chammer.Value.Handling.{Balanced, Balanced-same, alloc-Balanced, uncons-Balanced}
use chammer.Machine.{Machine, World, opstack_push, opstack_last, last_of}
use chammer.Machine.Balance.{
  below, roots, Steady, pop-Steady, last-Steady, push_ref-Steady, drop_in-Steady, push-Steady,
}
use chammer.Machine.Ops.{
  op_dup, op_pop, op_swap, swapped, op_pushstr, op_check_type, op_chktuple, check_last, has_len,
  op_tupleget, op_uncons,
}
use chammer.Value.Handling.Tuples.{tuple_get-Balanced, tuple_len-Safe}
use chammer.Value.Objects.{hvalue_make_string}
use chammer.Value.Access.{hvalue_tuple_get}

pub op_dup-Steady :
    (k : ℕ) (leaks : List Value) (m : Machine)
    → Steady (suc k) leaks m
    → Safe (Steady k leaks) (op_dup m)
unfolding op_dup
op_dup-Steady k leaks m b =
    bind-Safe (last-Steady m leaks) (λ v within. push_ref-Steady k leaks m v b within)

pub op_pop-Steady :
    (k : ℕ) (leaks : List Value) (m : Machine) → Steady k leaks m → Safe (Steady k leaks) (op_pop m)
unfolding op_pop
op_pop-Steady k leaks m b =
    bind-Safe (pop-Steady [] k leaks m b) (λ (v, m') b'. drop_in-Steady k leaks m' v b')

pub op_swap-Steady :
    (k : ℕ) (leaks : List Value) (m : Machine)
    → Steady k leaks m
    → Safe (Steady k leaks) (op_swap m)
unfolding op_swap occurrences
op_swap-Steady k leaks m b =
    elim m.opstack
        as (λ (s : List Value).
          m.opstack ≡ s
          → Safe (Steady k leaks) (swapped s >>= λ vs. ok (record m { opstack = vs }))) [
            | [] ↦ λ e. safe tt
            | v ∷ s ↦ λ e.
                elim s
                    as (λ (s : List Value).
                      m.opstack ≡ v ∷ s
                      → Safe (Steady k leaks)
                          (swapped (v ∷ s) >>= λ vs. ok (record m { opstack = vs }))) [
                            | [] ↦ λ e. safe tt
                            | w ∷ s ↦ λ e. safe (
                                Balanced-same k m.heap (v ∷ w ∷ s ++ below m leaks)
                                  (w ∷ v ∷ s ++ below m leaks) (λ q. omega arith) refl
                                  (subst
                                    (λ (s : List Value). Balanced k m.heap (s ++ below m leaks)) e
                                    b))
                          ]
                  e
          ]
      refl

pub op_pushstr-Steady :
    (w : World) (k : ℕ) (leaks : List Value) (m : Machine) (offset len : ℕ)
    → Steady (suc k) leaks m
    → Safe (Steady k leaks) (op_pushstr w offset len m)
unfolding op_pushstr hvalue_make_string alloc
op_pushstr-Steady w k leaks m offset len b =
    let str = take len (drop offset w.prog.string_bytes) in
    elim (leb (offset + len) (length w.prog.string_bytes))
      as (λ u. Safe (Steady k leaks) (
        if u
        then (let (v, h) = hvalue_make_string str m.heap in
            ok (opstack_push v (record m { heap = h })))
        else err overrun)) [
          | true ↦ safe (
              alloc-Balanced k m.heap (roots m leaks) (h_string str) (v_string (length m.heap)) refl
                b)
          | false ↦ safe tt
        ]

check_last-Steady :
    (k : ℕ) (leaks : List Value) (m : Machine) (u : Bool)
    → Steady (suc k) leaks m
    → Safe (Steady k leaks) (check_last u m)
unfolding check_last
check_last-Steady k leaks m true b = safe (push-Steady k leaks m v_true refl b)
check_last-Steady k leaks m false b = bind-Safe (pop-Steady [] (suc k) leaks m b) (λ (v, m') b'.
    bind-Safe (drop_in-Steady (suc k) leaks m' v b')
      (λ m'' b''. safe (push-Steady k leaks m'' v_false refl b'')))

pub op_check_type-Steady :
    (k : ℕ) (leaks : List Value) (m : Machine) (test : Value → Bool)
    → Steady (suc k) leaks m
    → Safe (Steady k leaks) (op_check_type test m)
unfolding op_check_type
op_check_type-Steady k leaks m test b =
    bind-Safe (last-Steady m leaks) (λ v within. check_last-Steady k leaks m (test v) b)

pub op_uncons-Steady :
    (k : ℕ) (leaks : List Value) (m : Machine)
    → Steady (suc (suc k)) leaks m
    → Safe (Steady k leaks) (op_uncons m)
unfolding op_uncons
op_uncons-Steady k leaks m b = bind-Safe (pop-Steady [] (suc (suc k)) leaks m b) (λ (v, m') b'.
    bind-Safe (uncons-Balanced k m'.heap (roots m' leaks) v b')
      (λ ((head, tail), h) (b'', parts). safe b''))

has_len-Safe :
    (k : ℕ) (h : Heap) (rest : List Value) (v : Value) (len : ℕ)
    → Balanced k h (v ∷ rest)
    → Safe (λ _. Unit) (has_len v len h)
unfolding has_len
has_len-Safe k h rest (v_tuple p) len b =
    bind-Safe (tuple_len-Safe k h rest (v_tuple p) b) (λ n _. safe tt)
has_len-Safe k h rest _ len b = safe tt

pub op_chktuple-Steady :
    (k : ℕ) (leaks : List Value) (m : Machine) (len : ℕ)
    → Steady (suc k) leaks m
    → Safe (Steady k leaks) (op_chktuple len m)
unfolding op_chktuple opstack_last
op_chktuple-Steady k leaks m len b =
    elim m.opstack
        as (λ (s : List Value).
          m.opstack ≡ s
          → Safe (Steady k leaks)
              (last_of s >>= λ v. has_len v len m.heap >>= λ u. check_last u m)) [
                | [] ↦ λ e. safe tt
                | v ∷ s ↦ λ e.
                    let top =
                      subst (λ (s : List Value). Balanced (suc k) m.heap (s ++ below m leaks)) e
                        b in
                    bind-Safe (has_len-Safe (suc k) m.heap (s ++ below m leaks) v len top)
                      (λ u _. check_last-Steady k leaks m u b)
              ]
      refl

pub op_tupleget-Steady :
    (k : ℕ) (leaks : List Value) (m : Machine) (i : ℕ)
    → Steady (suc k) leaks m
    → Safe (Steady k leaks) (op_tupleget i m)
unfolding op_tupleget opstack_last
op_tupleget-Steady k leaks m i b =
    elim m.opstack
        as (λ (s : List Value).
          m.opstack ≡ s
          → Safe (Steady k leaks) (
              last_of s >>= λ v. hvalue_tuple_get v i m.heap >>= λ (item, h).
              ok (opstack_push item (record m { heap = h })))) [
                | [] ↦ λ e. safe tt
                | v ∷ s ↦ λ e.
                    let top =
                      subst (λ (s : List Value). Balanced (suc k) m.heap (s ++ below m leaks)) e
                        b in
                    bind-Safe (tuple_get-Balanced k m.heap (s ++ below m leaks) v i top)
                      (λ (item, h) b'. safe (
                        subst (λ (s : List Value). Balanced k h (item ∷ (s ++ below m leaks)))
                          (sym e) b'))
              ]
      refl
