-- ===== src/Value/Release.antt =====
-- `hvalue_drop` of lib/value.c gives up a reference.
use chammer.Prelude.{
  ℕ, zero, suc, ◌+◌, ◌-◌, ◌%◌, ◌^◌, ◌≤◌, ◌<◌, ◌≡◌, ◌≢◌, refl, sym, ap, ◌∙◌, true, false, Option,
  none, some, List, [], ◌∷◌, ◌++◌, ◌==◌, ltb, length, get_elem?, set, arith, length-append,
  length-set, if◌then◌else◌,
}
use mathlib.Core.Path.{subst}
use chammer.Value.{
  Value, Object, Cell, Heap, ok, err, endless, ◌>>=◌, h_string, h_closure, h_cons, h_tuple,
  h_native, h_binding, address_of, released, load, loaded, store, free, drop_each, hvalue_free,
  drop_counted, drop_at, drop_nested, hvalue_drop,
}
use chammer.Value.Counts.{
  points_to, occurrences, held, live_cells, refs, total, CountOk, Counted, refs-le, get-set,
  get-set_other, live_cells-le,
}
use chammer.Value.Safe.{Safe, safe, bind-Safe, mono-Safe}
use chammer.Value.Referencing.{referred, points_to_self, refs-none}
use chammer.Value.Freeing.{Dropped, drop_positive, emptied, freed}

released-Safe : (o : Object) → Safe (λ vs. vs ≡ held o) (released o)
released-Safe (h_string s) = safe refl
released-Safe (h_closure fnindex argc args) = safe refl
released-Safe (h_cons head tail) = safe refl
released-Safe (h_tuple len items) =
    elim (ltb len (2 ^ 8)) as (λ b. Safe (λ vs. vs ≡ items) (if b then ok items else err endless)) [
      | true ↦ safe refl
      | false ↦ safe tt
    ]
released-Safe (h_native meta payload args) = safe refl
released-Safe (h_binding effect then_value) = safe refl

-- What is shown of nested drops by induction on their depth.
abbrev DropsOk : ℕ → Type 0
DropsOk n =
    (v : Value) (h : Heap) (roots : List Value)
    → Counted h (v ∷ roots)
    → total h (v ∷ roots) < 2 ^ 32
    → live_cells h < n
    → Safe (Dropped h roots) (drop_nested n v h)

Dropped-refl : (h : Heap) (roots : List Value) → Counted h roots → Dropped h roots h
Dropped-refl h roots counted = record {
  counted = counted;
  fewer = omega arith;
  fewer_held = λ q. omega arith;
  same_length = refl;
  no_more_live = omega arith;
  keeps_dying = λ q c e z. refl;
}

Dropped-trans :
    (h h' h'' : Heap) (vs roots : List Value)
    → Dropped h vs h'
    → Dropped h' roots h''
    → Dropped h roots h''
Dropped-trans h h' h'' vs roots d e = record {
  counted = e.counted;
  fewer = omega (arith, d.fewer, e.fewer);
  fewer_held = λ q. omega (arith, d.fewer_held q, e.fewer_held q);
  same_length = e.same_length ∙ d.same_length;
  no_more_live = omega (arith, d.no_more_live, e.no_more_live);
  keeps_dying =
      λ q c f z. let first = d.keeps_dying q c f z in e.keeps_dying q c (first ∙ f) z ∙ first;
}

drop_each-Safe :
    (n : ℕ) (vs : List Value) (h : Heap) (roots : List Value)
    → DropsOk n
    → Counted h (vs ++ roots)
    → total h (vs ++ roots) < 2 ^ 32
    → live_cells h < n
    → Safe (Dropped h roots) (drop_each (drop_nested n) vs h)
unfolding drop_each
drop_each-Safe n [] h roots ih counted few lt = safe (Dropped-refl h roots counted)
drop_each-Safe n (v ∷ vs) h roots ih counted few lt =
    bind-Safe (ih v h (vs ++ roots) counted few lt) (λ h' d.
      mono-Safe
        (drop_each-Safe n vs h' roots ih d.counted (omega (arith, few, d.fewer))
          (omega (arith, lt, d.no_more_live)))
        (λ h'' e. Dropped-trans h h' h'' (vs ++ roots) roots d e))

-- The last reference: what the allocation holds is dropped, and it is freed.
free-Safe :
    (n : ℕ) (h : Heap) (roots : List Value) (v : Value) (p : ℕ) (c : Cell)
    → DropsOk n
    → address_of v ≡ some p
    → Counted h (v ∷ roots)
    → get_elem? h p ≡ some (some c)
    → c.rc ≡ refs p h (v ∷ roots)
    → c.rc ≡ 1
    → total h (v ∷ roots) < 2 ^ 32
    → live_cells h < suc n
    → Safe
        (Dropped h roots)
        (hvalue_free (drop_nested n) p c.object (store p (record c { rc = 0 }) h))
unfolding hvalue_free free load
free-Safe n h roots v p c ih a counted e count one few lt =
    let dead = record c { rc = 0 } in
    let h₁ = store p dead h in
    let (counted₁, held₁, live₁, refs₁) = emptied h roots v p c a counted e count one in
    let at_p : get_elem? h₁ p ≡ some (some dead) = get-set h p (some c) (some dead) e in
    let many = length-append (held c.object) roots in
    bind-Safe (released-Safe c.object) (λ vs same.
      let ready : Counted h₁ (vs ++ roots) = rw same counted₁ in
      let lengths : length vs ≡ length (held c.object) = ap length same in
      bind-Safe
        (drop_each-Safe n vs h₁ roots ih ready
          (omega (arith, few, held₁, length-append vs roots, lengths)) (omega (arith, lt, live₁)))
        (λ h₂ d.
          let still : get_elem? h₂ p ≡ some (some dead) = d.keeps_dying p dead at_p refl ∙ at_p in
          let (counted₃, held₃, live₃, refs₃) = freed h₂ roots p dead d.counted still refl in
          subst
            (λ (x : Option (Option Cell)).
              Safe (Dropped h roots) (loaded x >>= λ _. ok (set h₂ p none)))
            (sym still)
            (safe (record {
              counted = counted₃;
              fewer = omega (arith, held₃, d.fewer, held₁);
              fewer_held = λ q. omega (arith, refs₃ q, d.fewer_held q, refs₁ q);
              same_length = length-set h₂ p none ∙ (d.same_length ∙ length-set h p (some dead));
              no_more_live = omega (arith, live₃, d.no_more_live, live₁);
              keeps_dying = λ q f g z.
                  let other : p ≢ q = λ same.
                    let g' : some (some c) ≡ some (some f) = sym e ∙ (ap (get_elem? h) same ∙ g) in
                    let there : c.rc ≡ f.rc = cc in omega (arith, there, z, one) in
                  let before : get_elem? h₁ q ≡ get_elem? h q =
                    get-set_other h p q (some dead) other in
                  get-set_other h₂ p q none other ∙ (d.keeps_dying q f (before ∙ g) z ∙ before);
            }))))

drop_counted-Safe :
    (n : ℕ) (h : Heap) (roots : List Value) (v : Value) (p : ℕ) (c : Cell)
    → DropsOk n
    → address_of v ≡ some p
    → Counted h (v ∷ roots)
    → get_elem? h p ≡ some (some c)
    → c.rc ≡ refs p h (v ∷ roots)
    → 1 ≤ refs p h (v ∷ roots)
    → total h (v ∷ roots) < 2 ^ 32
    → live_cells h < suc n
    → Safe (Dropped h roots) (drop_counted (drop_nested n) p c h)
unfolding drop_counted
drop_counted-Safe n h roots v p c ih a counted e count some_ref few lt =
    let rc = (c.rc + 2 ^ 32 - 1) % 2 ^ 32 in
    let less : c.rc ≡ rc + 1 = omega (arith, count, some_ref, few, refs-le p h (v ∷ roots)) in
    elim (rc == 0)
        as (λ b.
          rc == 0 ≡ b
          → Safe (Dropped h roots) (elim b [
            | true ↦ hvalue_free (drop_nested n) p c.object (store p (record c { rc = rc }) h)
            | false ↦ ok (store p (record c { rc = rc }) h)
          ])) [
            | true ↦ λ z.
                let gone : rc ≡ 0 = ground arith in
                rw gone (
                  free-Safe n h roots v p c ih a counted e count (omega (arith, less, gone)) few lt)
            | false ↦
                λ nz. safe (drop_positive h roots v p c rc a counted e count less (ground arith))
          ]
      refl

drop_nested-Safe : (n : ℕ) → DropsOk n
unfolding drop_nested load occurrences
drop_nested-Safe zero v h roots counted few lt = elim lt [ ]
drop_nested-Safe (suc n) v h roots counted few lt =
    elim (address_of v)
        as (λ a. address_of v ≡ a → Safe (Dropped h roots) (drop_at (drop_nested n) a h)) [
          | none ↦ λ a. safe (
              Dropped-refl h roots
                (λ p. subst (λ k. CountOk (get_elem? h p) k) (refs-none h roots v p a) (counted p)))
          | some p ↦ λ a.
              let self : points_to p (address_of v) ≡ 1 = rw a (points_to_self p) in
              let some_ref : 1 ≤ refs p h (v ∷ roots) = omega (arith, self) in
              let (c, e, count) = referred h (v ∷ roots) p counted some_ref in
              subst
                (λ (x : Option (Option Cell)).
                  Safe (Dropped h roots) (loaded x >>= λ c. drop_counted (drop_nested n) p c h))
                (sym e)
                (drop_counted-Safe n h roots v p c (drop_nested-Safe n) a counted e count some_ref
                  few lt)
        ]
      refl

-- While fewer than 2 ^ 32 references are counted, `hvalue_drop` of a value that a root refers to
-- ends, uses no freed memory and frees nothing twice, and leaves every count exact for the roots
-- that remain; a tuple of 256 items or more is the exception, whose release does not end.
pub hvalue_drop-Safe :
    (v : Value) (h : Heap) (roots : List Value)
    → Counted h (v ∷ roots)
    → total h (v ∷ roots) < 2 ^ 32
    → Safe (Dropped h roots) (hvalue_drop v h)
unfolding hvalue_drop
hvalue_drop-Safe v h roots counted few =
    drop_nested-Safe (suc (length h)) v h roots counted few (omega (arith, live_cells-le h))
