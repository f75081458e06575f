-- ===== src/Machine/Balance.antt =====
-- The references that the machine of lib/machine.c holds: those of its stacks, of the locals of its
-- frames and of its modules. The leaks are references that nobody will give up any more.
pub mod Moves
pub mod Locals
pub mod Calls
pub mod Externs
pub mod Steps
use chammer.Prelude.{
  ℕ, zero, suc, ◌+◌, ◌≤◌, ◌<◌, ◌^◌, ◌≡◌, refl, sym, ap, Option, none, some, List, [], ◌∷◌, ◌++◌,
  length, get_elem?, set, arith, length-append,
}
use mathlib.Core.Path.{subst}
use chammer.Value.{Value, Heap, Result, ok, err, ◌>>=◌, address_of, hvalue_ref, hvalue_drop}
use chammer.Value.Counts.{points_to, occurrences, occurrences-append, total}
use chammer.Value.Referencing.{IsReferred}
use chammer.Value.Sharing.{SameRefs, Counted-same, root-IsReferred}
use chammer.Value.Safe.{Safe, safe, bind-Safe, mono-Safe}
use chammer.Value.Handling.{Balanced, Balanced-same, ref-Balanced, drop-Balanced, Within}
use chammer.Machine.{
  Machine, Frame, Module, ModuleMember, World, opstack_push, opstack_pop, opstack_last, pop_of,
  last_of, push_ref, drop_in,
}

unfoldable pub some_values : List (Option Value) → List Value
some_values [] = []
some_values (none ∷ ls) = some_values ls
some_values (some v ∷ ls) = v ∷ some_values ls

unfoldable pub frame_roots : List Frame → List Value
frame_roots [] = []
frame_roots (f ∷ fs) = some_values f.locals ++ frame_roots fs

unfoldable pub member_roots : Module → List Value
member_roots [] = []
member_roots (e ∷ es) = some_values (e.value ∷ []) ++ member_roots es

unfoldable pub module_roots : List Module → List Value
module_roots [] = []
module_roots (es ∷ ms) = member_roots es ++ module_roots ms

abbrev pub below : Machine → List Value → List Value
below m leaks = frame_roots m.fnstack ++ (module_roots m.modules ++ leaks)

abbrev pub roots : Machine → List Value → List Value
roots m leaks = m.opstack ++ below m leaks

-- The counts are exact for what the machine holds, besides `vs`.
abbrev pub Holding : List Value → ℕ → List Value → Machine → Type 0
Holding vs k leaks m = Balanced k m.heap (vs ++ roots m leaks)

abbrev pub Steady : ℕ → List Value → Machine → Type 0
Steady k leaks m = Holding [] k leaks m

-- A value popped is held by the caller.
pub pop-Steady :
    (vs : List Value) (k : ℕ) (leaks : List Value) (m : Machine)
    → Holding vs k leaks m
    → Safe
        (λ (r : Value × Machine). Balanced k r.1.heap (vs ++ (r.0 ∷ roots r.1 leaks)))
        (opstack_pop m)
unfolding opstack_pop
pop-Steady vs k leaks m b =
    elim m.opstack
        as (λ (s : List Value).
          m.opstack ≡ s
          → Safe (λ (r : Value × Machine). Balanced k r.1.heap (vs ++ (r.0 ∷ roots r.1 leaks)))
              (pop_of s m)) [
                | [] ↦ λ e. safe tt
                | v ∷ rest ↦ λ e.
                    safe (
                      subst (λ (s : List Value). Balanced k m.heap (vs ++ (s ++ below m leaks))) e
                        b)
              ]
      refl

-- The top of the stack is a root.
pub last-Steady :
    (m : Machine) (leaks : List Value) → Safe (λ v. Within v (roots m leaks)) (opstack_last m)
unfolding opstack_last occurrences
last-Steady m leaks =
    elim m.opstack
        as (λ (s : List Value). m.opstack ≡ s → Safe (λ v. Within v (roots m leaks)) (last_of s)) [
          | [] ↦ λ e. safe tt
          | v ∷ rest ↦ λ e. safe (λ q. rw e (omega arith))
        ]
      refl

pub push_ref-Steady :
    (k : ℕ) (leaks : List Value) (m : Machine) (v : Value)
    → Steady (suc k) leaks m
    → Within v (roots m leaks)
    → Safe (Steady k leaks) (push_ref v m)
unfolding push_ref
push_ref-Steady k leaks m v b within =
    bind-Safe
      (ref-Balanced k m.heap (roots m leaks) v b (root-IsReferred m.heap (roots m leaks) v within))
      (λ (w, h) (same, b', keeps).
        safe (subst (λ w. Balanced k h (w ∷ roots m leaks)) (sym same) b'))

pub drop_in-Steady :
    (k : ℕ) (leaks : List Value) (m : Machine) (v : Value)
    → Holding (v ∷ []) k leaks m
    → Safe (Steady k leaks) (drop_in v m)
unfolding drop_in
drop_in-Steady k leaks m v b =
    bind-Safe (drop-Balanced k m.heap (roots m leaks) v b) (λ h b'. safe b')

-- A value that is not counted is pushed.
pub push-Steady :
    (k : ℕ) (leaks : List Value) (m : Machine) (v : Value)
    → address_of v ≡ none
    → Steady (suc k) leaks m
    → Steady k leaks (opstack_push v m)
unfolding occurrences
push-Steady k leaks m v a b = record {
  counted =
      Counted-same m.heap (roots m leaks) (v ∷ roots m leaks)
        (λ p. let none : points_to p (address_of v) ≡ 0 = rw a refl in omega (arith, none))
        b.counted;
  room = omega (arith, b.room);
}
