-- ===== src/Value/Handling.antt =====
-- The operations of lib/value.c on lists, tuples and closures keep the counts exact.
pub mod Closures
pub mod Tuples
use chammer.Prelude.{
  ℕ, zero, suc, ◌+◌, ◌%◌, ◌^◌, ◌≤◌, ◌<◌, ◌≡◌, refl, sym, ap, ◌∙◌, Bool, true, false, Option, none,
  some, List, [], ◌∷◌, ◌++◌, length, get_elem?, arith, length-append, ltb, leb, if◌then◌else◌,
}
use mathlib.Core.Path.{subst}
use chammer.Value.{
  Value, Object, Cell, Heap, Result, ok, err, confused, panicked, overrun, ◌>>=◌, address_of, load,
  store, alloc, hvalue_ref, hvalue_drop, h_string, h_closure, h_cons, h_tuple, h_native, h_binding,
  v_empty, v_true, v_false, v_nil, v_int, v_float, v_string, v_closure, v_cons, v_native, v_binding,
  v_error, v_substr, v_tuple,
}
use chammer.Value.Objects.{hvalue_make_cons, ref_each}
use chammer.Value.Access.{
  cons_in, tuple_in, closure_in, hvalue_uncons, hvalue_tuple_get, hvalue_closure_put_arg_mut,
  hvalue_closure_take_arg_mut, hvalue_closure_args_left, hvalue_closure_fnindex, split_last,
  tuple_at,
}
use chammer.Value.Counts.{
  points_to, occurrences, held, held_refs, held_total, refs, total, Counted, occurrences-append,
}
use chammer.Value.Referencing.{referred, IsReferred, Keeps, hvalue_ref-Safe, points_to_self}
use chammer.Value.Release.{hvalue_drop-Safe}
use chammer.Value.Sharing.{
  SameRefs, Counted-same, load-Safe, held-IsReferred, root-IsReferred, alloc-Counted, total-alloc,
  put-Counted, total-put,
}
use chammer.Value.Safe.{Safe, safe, bind-Safe, mono-Safe}

-- The counts are exact, and there is room for `k` more references.
pub record Balanced (k : ℕ) (h : Heap) (roots : List Value) : Type 0 where
  pub counted : Counted h roots
  pub room : total h roots + k < 2 ^ 32

pub Balanced-same :
    (k : ℕ) (h : Heap) (vs ws : List Value)
    → SameRefs vs ws
    → length vs ≡ length ws
    → Balanced k h vs
    → Balanced k h ws
Balanced-same k h vs ws same lengths b = record {
  counted = Counted-same h vs ws same b.counted;
  room = omega (arith, b.room, lengths);
}

pub Balanced-le : (k n : ℕ) (h : Heap) (vs : List Value) → n ≤ k → Balanced k h vs → Balanced n h vs
Balanced-le k n h vs le b = record { counted = b.counted; room = omega (arith, b.room, le) }

pub ref-Balanced :
    (k : ℕ) (h : Heap) (roots : List Value) (v : Value)
    → Balanced (suc k) h roots
    → IsReferred h roots (address_of v)
    → Safe (λ r. (r.0 ≡ v) × Balanced k r.1 (v ∷ roots) × Keeps h r.1) (hvalue_ref v h)
ref-Balanced k h roots v b r =
    mono-Safe (hvalue_ref-Safe h roots v b.counted r (omega (arith, b.room))) (λ (w, h') (same, d).
      (same, record { counted = d.counted; room = omega (arith, d.one_more, b.room) }, d.keeps))

-- Allocations hold fewer references to any other afterwards.
pub drop_fewer-Balanced :
    (k : ℕ) (h : Heap) (roots : List Value) (v : Value)
    → Balanced k h (v ∷ roots)
    → Safe
        (λ h'. Balanced k h' roots × ((q : ℕ) → held_refs q h' ≤ held_refs q h))
        (hvalue_drop v h)
drop_fewer-Balanced k h roots v b =
    mono-Safe (hvalue_drop-Safe v h roots b.counted (omega (arith, b.room))) (λ h' d.
      (record { counted = d.counted; room = omega (arith, d.fewer, b.room) }, d.fewer_held))

pub drop-Balanced :
    (k : ℕ) (h : Heap) (roots : List Value) (v : Value)
    → Balanced k h (v ∷ roots)
    → Safe (λ h'. Balanced k h' roots) (hvalue_drop v h)
drop-Balanced k h roots v b = mono-Safe (drop_fewer-Balanced k h roots v b) (λ h' d. d.0)

pub alloc-Balanced :
    (k : ℕ) (h : Heap) (roots : List Value) (o : Object) (v : Value)
    → address_of v ≡ some (length h)
    → Balanced (suc k) h (held o ++ roots)
    → Balanced k (alloc o h).1 (v ∷ roots)
alloc-Balanced k h roots o v a b = record {
  counted = alloc-Counted h roots o v a b.counted;
  room = omega (arith, total-alloc h roots o v, b.room);
}

pub make_cons-Balanced :
    (k : ℕ) (h : Heap) (roots : List Value) (head tail : Value)
    → Balanced (suc k) h (head ∷ tail ∷ roots)
    → Balanced k (hvalue_make_cons head tail h).1 ((hvalue_make_cons head tail h).0 ∷ roots)
unfolding hvalue_make_cons alloc
make_cons-Balanced k h roots head tail b =
    alloc-Balanced k h roots (h_cons head tail) (v_cons (length h)) refl b

-- An allocation in use gets another object, with roots that share its references anew.
pub put-Balanced :
    (k : ℕ) (h : Heap) (roots roots' : List Value) (p : ℕ) (c : Cell) (o : Object)
    → Balanced k h roots
    → get_elem? h p ≡ some (some c)
    → 1 ≤ c.rc
    → ((q : ℕ)
        → occurrences q (held o) + occurrences q roots'
          ≡ occurrences q (held c.object) + occurrences q roots)
    → length (held o) + length roots' ≡ length (held c.object) + length roots
    → Balanced k (store p (record c { object = o }) h) roots'
put-Balanced k h roots roots' p c o b e used moved lengths = record {
  counted = put-Counted h roots roots' p c o e used b.counted moved;
  room = omega (arith, b.room, total-put h roots roots' p c o e used b.counted lengths);
}

pub occurrences-snoc :
    (q : ℕ) (vs : List Value) (v : Value)
    → occurrences q (vs ++ v ∷ []) ≡ occurrences q vs + points_to q (address_of v)
unfolding occurrences
occurrences-snoc q vs v = omega (arith, occurrences-append q vs (v ∷ []))

-- A value that an allocation holds stays referred to while a root refers to the allocation.
abbrev pub Within : Value → List Value → Type 0
Within v vs = (q : ℕ) → points_to q (address_of v) ≤ occurrences q vs

pub still-IsReferred :
    (h : Heap) (roots : List Value) (p : ℕ) (c : Cell) (v : Value)
    → Counted h roots
    → 1 ≤ occurrences p roots
    → get_elem? h p ≡ some (some c)
    → Within v (held c.object)
    → IsReferred h roots (address_of v)
still-IsReferred h roots p c v counted le e within =
    let (d, f, n) = referred h roots p counted (omega (arith, le)) in
    let g : some (some c) ≡ some (some d) = sym e ∙ f in
    let same : c.rc ≡ d.rc = cc in
    held-IsReferred h roots p c v e (omega (arith, same, n, le)) within

-- The cell of a root that refers to an allocation.
pub root_occurs :
    (p : ℕ) (v : Value) (roots : List Value) → address_of v ≡ some p → 1 ≤ occurrences p (v ∷ roots)
unfolding occurrences
root_occurs p v roots a =
    let self : points_to p (address_of v) ≡ 1 = rw a (points_to_self p) in omega (arith, self)

-- A read of the cell of a root.
pub root_found :
    (k : ℕ) (h : Heap) (roots : List Value) (v : Value) (p : ℕ)
    → Balanced k h (v ∷ roots)
    → address_of v ≡ some p
    → Safe
        (λ (r : ℕ × Cell). (r.0 ≡ p) × (get_elem? h p ≡ some (some r.1)) × (1 ≤ r.1.rc))
        (load p h >>= λ c. ok (p, c))
root_found k h roots v p b a =
    load-Safe h (v ∷ roots) p (λ c. ok (p, c)) b.counted (omega (arith, root_occurs p v roots a))
      (λ c e n. safe (refl, e, omega (arith, n, root_occurs p v roots a)))

cons_in-Safe : (c : Cell) → Safe (λ (r : Value × Value). c.object ≡ h_cons r.0 r.1) (cons_in c)
cons_in-Safe c =
    elim c.object
        as (λ o.
          c.object ≡ o
          → Safe (λ (r : Value × Value). c.object ≡ h_cons r.0 r.1)
              (elim o [ h_cons head tail ↦ ok (head, tail) | _ ↦ err confused ])) [
                | h_cons head tail ↦ λ same. safe same
                | _ ↦ λ same. safe tt
              ]
      refl

pub tuple_in-Safe :
    (c : Cell) → Safe (λ (r : ℕ × List Value). c.object ≡ h_tuple r.0 r.1) (tuple_in c)
tuple_in-Safe c =
    elim c.object
        as (λ o.
          c.object ≡ o
          → Safe (λ (r : ℕ × List Value). c.object ≡ h_tuple r.0 r.1)
              (elim o [ h_tuple len items ↦ ok (len, items) | _ ↦ err confused ])) [
                | h_tuple len items ↦ λ same. safe same
                | _ ↦ λ same. safe tt
              ]
      refl

pub closure_in-Safe :
    (c : Cell) → Safe (λ (r : ℕ × ℕ × List Value). c.object ≡ h_closure r.0 r.1 r.2) (closure_in c)
closure_in-Safe c =
    elim c.object
        as (λ o.
          c.object ≡ o
          → Safe (λ (r : ℕ × ℕ × List Value). c.object ≡ h_closure r.0 r.1 r.2)
              (elim o [
                | h_closure fnindex argc args ↦ ok (fnindex, argc, args)
                | _ ↦ err confused
              ])) [ h_closure fnindex argc args ↦ λ same. safe same | _ ↦ λ same. safe tt ]
      refl

-- Both parts of a cell that a root refers to get a reference, and the root gives up its own.
parts-Balanced :
    (k : ℕ) (h : Heap) (roots : List Value) (v : Value) (p : ℕ) (c : Cell) (head tail : Value)
    → Balanced (suc (suc k)) h (v ∷ roots)
    → address_of v ≡ some p
    → get_elem? h p ≡ some (some c)
    → c.object ≡ h_cons head tail
    → Safe
        (λ (r : (Value × Value) × Heap).
          Balanced k r.1 (r.0.0 ∷ r.0.1 ∷ roots) × (r.0.0 ≡ head) × (r.0.1 ≡ tail))
        (hvalue_ref head h >>= λ (hd, h₁).
          hvalue_ref tail h₁ >>= λ (tl, h₂). hvalue_drop v h₂ >>= λ h₃. ok ((hd, tl), h₃))
unfolding occurrences
parts-Balanced k h roots v p c head tail b a e same =
    let parts : (q : ℕ)
        → occurrences q (held c.object)
          ≡ points_to q (address_of head) + (points_to q (address_of tail) + 0) =
      λ q. rw same refl in
    let root = root_occurs p v roots a in
    bind-Safe
      (ref-Balanced (suc k) h (v ∷ roots) head b
        (still-IsReferred h (v ∷ roots) p c head b.counted root e (λ q. omega (arith, parts q))))
      (λ (hd, h₁) (hd_same, b₁, keeps).
        let (rc, e₁) = keeps p c e in
        let d = record c { rc = rc } in
        bind-Safe
          (ref-Balanced k h₁ (head ∷ v ∷ roots) tail b₁ (
            still-IsReferred h₁ (head ∷ v ∷ roots) p d tail b₁.counted (omega (arith, root)) e₁
              (λ q. omega (arith, parts q))))
          (λ (tl, h₂) (tl_same, b₂, keeps').
            bind-Safe
              (drop-Balanced k h₂ (head ∷ tail ∷ roots) v (
                Balanced-same k h₂ (tail ∷ head ∷ v ∷ roots) (v ∷ head ∷ tail ∷ roots)
                  (λ q. omega arith) refl b₂))
              (λ h₃ b₃. safe (
                subst (λ x. Balanced k h₃ (x ∷ tl ∷ roots)) (sym hd_same)
                    (subst (λ x. Balanced k h₃ (head ∷ x ∷ roots)) (sym tl_same) b₃),
                hd_same,
                tl_same,
              ))))

-- The list cell that a value is, with its parts.
abbrev pub IsConsOf : Value → Heap → Value → Value → Type 0
IsConsOf v h head tail =
    (p : ℕ) × (c : Cell) × (v ≡ v_cons p)
    × (get_elem? h p ≡ some (some c))
    × (c.object ≡ h_cons head tail)

-- With room for two more references, `hvalue_uncons` of a root gives the head and the tail of its
-- cell, in this order and each with a reference of its own, for that to the cell; the counts stay
-- exact, and no freed memory is used.
pub uncons-Balanced :
    (k : ℕ) (h : Heap) (roots : List Value) (v : Value)
    → Balanced (suc (suc k)) h (v ∷ roots)
    → Safe
        (λ r. Balanced k r.1 (r.0.0 ∷ r.0.1 ∷ roots) × IsConsOf v h r.0.0 r.0.1)
        (hvalue_uncons v h)
unfolding hvalue_uncons
uncons-Balanced k h roots (v_cons p) b =
    bind-Safe (root_found (suc (suc k)) h roots (v_cons p) p b refl) (λ (q, c) (at_p, e, used).
      bind-Safe (cons_in-Safe c) (λ (head, tail) same.
        mono-Safe (parts-Balanced k h roots (v_cons p) p c head tail b refl e same)
          (λ r (b', hd, tl). (
            b',
            (
              p,
              c,
              refl,
              e,
              subst (λ x. c.object ≡ h_cons x r.0.1) (sym hd)
                  (subst (λ x. c.object ≡ h_cons head x) (sym tl) same),
            ),
          ))))
uncons-Balanced k h roots _ b = safe tt
