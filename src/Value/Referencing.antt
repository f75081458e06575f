-- ===== src/Value/Referencing.antt =====
-- `hvalue_ref` of lib/value.c takes one more reference.
use chammer.Prelude.{
  ℕ, ◌+◌, ◌%◌, ◌^◌, ◌≤◌, ◌<◌, ◌≡◌, ◌≢◌, refl, sym, ap, ◌∙◌, Option, none, some, List, ◌∷◌, length,
  get_elem?, set, arith, length-set,
}
use mathlib.Core.Path.{subst}
use native.Mathlib.Decide.{ℕ_discrete}
use chammer.Value.{
  Value, Cell, Heap, ok, ◌>>=◌, address_of, load, loaded, store, ref_at, hvalue_ref, v_empty,
  v_true, v_false, v_nil, v_int, v_float, v_string, v_closure, v_cons, v_native, v_binding, v_error,
  v_substr, v_tuple,
}
use chammer.Value.Counts.{
  points_to, occurrences, held, held_by, lives, sum_cells, held_refs, held_total, live_cells, refs,
  total, CountOk, Counted, refs-le, sum_cells-set, get-set, get-set_other,
}
use chammer.Value.Safe.{Safe, safe}

-- An allocation that something refers to is there.
pub found :
    (x : Option (Option Cell)) (n : ℕ)
    → CountOk x n
    → 1 ≤ n
    → (c : Cell) × (x ≡ some (some c)) × (c.rc ≡ n)
found (some (some c)) n h le = (c, refl, h)
found (some none) n h le = absurd (omega (arith, h, le))
found none n h le = absurd (omega (arith, h, le))

pub referred :
    (h : Heap) (roots : List Value) (p : ℕ)
    → Counted h roots
    → 1 ≤ refs p h roots
    → (c : Cell) × (get_elem? h p ≡ some (some c)) × (c.rc ≡ refs p h roots)
referred h roots p counted le = found (get_elem? h p) (refs p h roots) (counted p) le

-- A new count, and new roots, that agree again.
pub recounted :
    (h : Heap) (roots roots' : List Value) (p : ℕ) (c : Cell) (rc : ℕ)
    → Counted h roots
    → get_elem? h p ≡ some (some c)
    → refs p (store p (record c { rc = rc }) h) roots' ≡ rc
    → ((q : ℕ) → p ≢ q → refs q (store p (record c { rc = rc }) h) roots' ≡ refs q h roots)
    → Counted (store p (record c { rc = rc }) h) roots'
recounted h roots roots' p c rc counted e here there q = elim (ℕ_discrete p q) [
  | yes same ↦
      subst
        (λ q.
          CountOk (get_elem? (store p (record c { rc = rc }) h) q)
            (refs q (store p (record c { rc = rc }) h) roots'))
        same (rw (get-set h p (some c) (some (record c { rc = rc })) e) (sym here))
  | no other ↦
      rw (get-set_other h p q (some (record c { rc = rc })) other, there q other) (counted q)
]

pub sum_cells-same :
    (f : Option Cell → ℕ) (h : Heap) (p : ℕ) (old new : Option Cell)
    → get_elem? h p ≡ some old
    → f new ≡ f old
    → sum_cells f (set h p new) ≡ sum_cells f h
sum_cells-same f h p old new e same = omega (arith, sum_cells-set f h p old new e, same)

pub held_by-positive : (c : Cell) → 1 ≤ c.rc → held_by (some c) ≡ held c.object
held_by-positive c le = ground arith

pub lives-positive : (c : Cell) → 1 ≤ c.rc → lives (some c) ≡ 1
lives-positive c le = ground arith

module _ (h : Heap) (p : ℕ) (c : Cell) (rc : ℕ) (e : get_elem? h p ≡ some (some c)) (old : 1 ≤ c.rc)
    (new : 1 ≤ rc) where
  same_held : held_by (some (record c { rc = rc })) ≡ held_by (some c)
  same_held = held_by-positive (record c { rc = rc }) new ∙ sym (held_by-positive c old)

  pub held_refs-store : (q : ℕ) → held_refs q (store p (record c { rc = rc }) h) ≡ held_refs q h
  held_refs-store q =
      sum_cells-same (λ d. occurrences q (held_by d)) h p (some c) (some (record c { rc = rc })) e
        (ap (occurrences q) same_held)

  pub held_total-store : held_total (store p (record c { rc = rc }) h) ≡ held_total h
  held_total-store =
      sum_cells-same (λ d. length (held_by d)) h p (some c) (some (record c { rc = rc })) e
        (ap length same_held)

  pub live_cells-store : live_cells (store p (record c { rc = rc }) h) ≡ live_cells h
  live_cells-store =
      sum_cells-same lives h p (some c) (some (record c { rc = rc })) e
        (lives-positive (record c { rc = rc }) new ∙ sym (lives-positive c old))

-- Every allocation stays, with its object.
abbrev pub Keeps : Heap → Heap → Type 0
Keeps h h' =
    (q : ℕ) (c : Cell)
    → get_elem? h q ≡ some (some c)
    → (rc : ℕ) × (get_elem? h' q ≡ some (some (record c { rc = rc })))

pub record Referenced (h : Heap) (roots : List Value) (v : Value) (h' : Heap) : Type 0 where
  pub counted : Counted h' (v ∷ roots)
  pub one_more : total h' (v ∷ roots) ≡ total h roots + 1
  pub same_length : length h' ≡ length h
  pub same_live : live_cells h' ≡ live_cells h
  pub keeps : Keeps h h'

abbrev pub IsReferred : Heap → List Value → Option ℕ → Type 0
IsReferred h roots none = Unit
IsReferred h roots (some p) = 1 ≤ refs p h roots

store-Keeps :
    (h : Heap) (p : ℕ) (c : Cell) (rc : ℕ)
    → get_elem? h p ≡ some (some c)
    → Keeps h (store p (record c { rc = rc }) h)
store-Keeps h p c rc e q d f = elim (ℕ_discrete p q) [
  | yes same ↦
      let g : some (some c) ≡ some (some d) = sym e ∙ (ap (get_elem? h) same ∙ f) in
      let there : c ≡ d = cc in
      (
        rc,
        subst
            (λ q.
              get_elem? (store p (record c { rc = rc }) h) q ≡ some (some (record d { rc = rc })))
            same
            (subst
              (λ (d : Cell).
                get_elem? (store p (record c { rc = rc }) h) p ≡ some (some (record d { rc = rc })))
              there (get-set h p (some c) (some (record c { rc = rc })) e)),
      )
  | no other ↦ (d.rc, get-set_other h p q (some (record c { rc = rc })) other ∙ f)
]

pub points_to_self : (p : ℕ) → points_to p (some p) ≡ 1
points_to_self p = ground arith

pub points_to_other : (p q : ℕ) → p ≢ q → points_to q (some p) ≡ 0
points_to_other p q n = ground arith

ref-Counted :
    (h : Heap) (roots : List Value) (v : Value) (p : ℕ) (c : Cell)
    → address_of v ≡ some p
    → Counted h roots
    → get_elem? h p ≡ some (some c)
    → c.rc ≡ refs p h roots
    → 1 ≤ refs p h roots
    → total h roots + 1 < 2 ^ 32
    → Referenced h roots v (store p (record c { rc = (c.rc + 1) % 2 ^ 32 }) h)
unfolding occurrences
ref-Counted h roots v p c a counted e n le few =
    let rc = (c.rc + 1) % 2 ^ 32 in
    let more : rc ≡ refs p h roots + 1 = omega (arith, n, refs-le p h roots, few) in
    let old : 1 ≤ c.rc = omega (arith, n, le) in
    let new : 1 ≤ rc = omega (arith, more) in
    record {
      counted =
          recounted h roots (v ∷ roots) p c rc counted e
            (rw (a, held_refs-store h p c rc e old new p) (omega (arith, points_to_self p, more)))
            (λ q other.
              rw (a, held_refs-store h p c rc e old new q)
                (omega (arith, points_to_other p q other)));
      one_more = omega (arith, held_total-store h p c rc e old new);
      same_length = length-set h p (some (record c { rc = rc }));
      same_live = live_cells-store h p c rc e old new;
      keeps = store-Keeps h p c rc e;
    }

pub refs-none :
    (h : Heap) (roots : List Value) (v : Value) (p : ℕ)
    → address_of v ≡ none
    → refs p h (v ∷ roots) ≡ refs p h roots
unfolding occurrences
refs-none h roots v p a =
    let none : points_to p (address_of v) ≡ 0 = rw a refl in omega (arith, none)

ref_at-Safe :
    (h : Heap) (roots : List Value) (v : Value) (a : Option ℕ)
    → address_of v ≡ a
    → Counted h roots
    → IsReferred h roots a
    → total h roots + 1 < 2 ^ 32
    → Safe (λ r. (r.0 ≡ v) × Referenced h roots v r.1) (ref_at v a h)
unfolding load occurrences
ref_at-Safe h roots v none a counted r few = safe (
  refl,
  record {
    counted =
        λ p. subst (λ n. CountOk (get_elem? h p) n) (sym (refs-none h roots v p a)) (counted p);
    one_more = omega arith;
    same_length = refl;
    same_live = refl;
    keeps = λ q c e. (c.rc, e);
  },
)
ref_at-Safe h roots v (some p) a counted r few =
    let (c, e, n) = referred h roots p counted r in
    subst
      (λ (x : Option (Option Cell)).
        Safe (λ (r : Value × Heap). (r.0 ≡ v) × Referenced h roots v r.1)
          (loaded x >>= λ c. ok (v, store p (record c { rc = (c.rc + 1) % 2 ^ 32 }) h)))
      (sym e) (safe (refl, ref-Counted h roots v p c a counted e n r few))

-- `hvalue_ref` of a value that is referred to is the value, counted once more.
pub hvalue_ref-Safe :
    (h : Heap) (roots : List Value) (v : Value)
    → Counted h roots
    → IsReferred h roots (address_of v)
    → total h roots + 1 < 2 ^ 32
    → Safe (λ r. (r.0 ≡ v) × Referenced h roots v r.1) (hvalue_ref v h)
unfolding hvalue_ref
hvalue_ref-Safe h roots v_empty counted r few = safe tt
hvalue_ref-Safe h roots v_true counted r few = ref_at-Safe h roots v_true none refl counted r few
hvalue_ref-Safe h roots v_false counted r few = ref_at-Safe h roots v_false none refl counted r few
hvalue_ref-Safe h roots v_nil counted r few = ref_at-Safe h roots v_nil none refl counted r few
hvalue_ref-Safe h roots (v_int i) counted r few =
    ref_at-Safe h roots (v_int i) none refl counted r few
hvalue_ref-Safe h roots (v_float f) counted r few =
    ref_at-Safe h roots (v_float f) none refl counted r few
hvalue_ref-Safe h roots (v_string p) counted r few =
    ref_at-Safe h roots (v_string p) (some p) refl counted r few
hvalue_ref-Safe h roots (v_closure p) counted r few =
    ref_at-Safe h roots (v_closure p) (some p) refl counted r few
hvalue_ref-Safe h roots (v_cons p) counted r few =
    ref_at-Safe h roots (v_cons p) (some p) refl counted r few
hvalue_ref-Safe h roots (v_native p) counted r few =
    ref_at-Safe h roots (v_native p) (some p) refl counted r few
hvalue_ref-Safe h roots (v_binding p) counted r few =
    ref_at-Safe h roots (v_binding p) (some p) refl counted r few
hvalue_ref-Safe h roots (v_error p) counted r few =
    ref_at-Safe h roots (v_error p) (some p) refl counted r few
hvalue_ref-Safe h roots (v_substr p o l) counted r few =
    ref_at-Safe h roots (v_substr p o l) (some p) refl counted r few
hvalue_ref-Safe h roots (v_tuple a) counted r few =
    ref_at-Safe h roots (v_tuple a) a refl counted r few
