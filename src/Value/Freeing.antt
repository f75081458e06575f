-- ===== src/Value/Freeing.antt =====
-- What is given up by `hvalue_drop` of lib/value.c: one reference, or an allocation.
use chammer.Prelude.{
  ℕ, ◌+◌, ◌≤◌, ◌≡◌, sym, ap, ◌∙◌, Option, none, some, List, [], ◌∷◌, ◌++◌, length, get_elem?, set,
  arith, length-set,
}
use mathlib.Core.Path.{subst}
use native.Mathlib.Decide.{ℕ_discrete}
use chammer.Value.{Value, Cell, Heap, address_of, store}
use chammer.Value.Counts.{
  points_to, occurrences, held, held_by, lives, held_refs, held_total, live_cells, refs, CountOk,
  Counted, occurrences-append, sum_cells-set, get-set, get-set_other,
}
use chammer.Value.Referencing.{
  recounted, sum_cells-same, held_by-positive, lives-positive, held_refs-store, held_total-store,
  live_cells-store, points_to_self, points_to_other,
}

-- What a drop leaves.
pub record Dropped (h : Heap) (roots : List Value) (h' : Heap) : Type 0 where
  pub counted : Counted h' roots
  pub fewer : held_total h' ≤ held_total h
  pub fewer_held : (q : ℕ) → held_refs q h' ≤ held_refs q h
  pub same_length : length h' ≡ length h
  pub no_more_live : live_cells h' ≤ live_cells h
  pub keeps_dying :
      (q : ℕ) (c : Cell) → get_elem? h q ≡ some (some c) → c.rc ≡ 0 → get_elem? h' q ≡ get_elem? h q

-- A count that stays above 0.
pub drop_positive :
    (h : Heap) (roots : List Value) (v : Value) (p : ℕ) (c : Cell) (rc : ℕ)
    → address_of v ≡ some p
    → Counted h (v ∷ roots)
    → get_elem? h p ≡ some (some c)
    → c.rc ≡ refs p h (v ∷ roots)
    → c.rc ≡ rc + 1
    → 1 ≤ rc
    → Dropped h roots (store p (record c { rc = rc }) h)
unfolding occurrences
drop_positive h roots v p c rc a counted e n less new =
    let old : 1 ≤ c.rc = omega (arith, less) in
    let one : points_to p (address_of v) ≡ 1 = rw a (points_to_self p) in
    record {
      counted =
          recounted h (v ∷ roots) roots p c rc counted e
            (omega (arith, held_refs-store h p c rc e old new p, n, less, one))
            (λ q other.
              let none : points_to q (address_of v) ≡ 0 = rw a (points_to_other p q other) in
              omega (arith, held_refs-store h p c rc e old new q, none));
      fewer = omega (arith, held_total-store h p c rc e old new);
      fewer_held = λ q. omega (arith, held_refs-store h p c rc e old new q);
      same_length = length-set h p (some (record c { rc = rc }));
      no_more_live = omega (arith, live_cells-store h p c rc e old new);
      keeps_dying = λ q d f zero_rc. get-set_other h p q (some (record c { rc = rc })) (λ same.
          let g : some (some c) ≡ some (some d) = sym e ∙ (ap (get_elem? h) same ∙ f) in
          let there : c.rc ≡ d.rc = cc in omega (arith, there, zero_rc, old));
    }

-- A count that reaches 0: what the allocation holds becomes a root.
pub emptied :
    (h : Heap) (roots : List Value) (v : Value) (p : ℕ) (c : Cell)
    → address_of v ≡ some p
    → Counted h (v ∷ roots)
    → get_elem? h p ≡ some (some c)
    → c.rc ≡ refs p h (v ∷ roots)
    → c.rc ≡ 1
    → let h' = store p (record c { rc = 0 }) h in
      Counted h' (held c.object ++ roots)
      × (held_total h' + length (held c.object) ≡ held_total h)
      × (live_cells h' + 1 ≡ live_cells h)
      × ((q : ℕ) → held_refs q h' ≤ held_refs q h)
unfolding occurrences
emptied h roots v p c a counted e n one =
    let old : 1 ≤ c.rc = omega (arith, one) in
    let dead = record c { rc = 0 } in
    let share : (q : ℕ)
        → held_refs q (store p dead h) + occurrences q (held c.object) ≡ held_refs q h =
      λ q.
        let set_sum = sum_cells-set (λ d. occurrences q (held_by d)) h p (some c) (some dead) e in
        let was = ap (occurrences q) (held_by-positive c old) in omega (arith, set_sum, was) in
    (
      recounted h (v ∷ roots) (held c.object ++ roots) p c 0 counted e
          (let one_here : points_to p (address_of v) ≡ 1 = rw a (points_to_self p) in
            omega (arith, share p, occurrences-append p (held c.object) roots, n, one, one_here))
          (λ q other.
            let none : points_to q (address_of v) ≡ 0 = rw a (points_to_other p q other) in
            omega (arith, share q, occurrences-append q (held c.object) roots, none)),
      (let set_sum = sum_cells-set (λ d. length (held_by d)) h p (some c) (some dead) e in
          let was = ap length (held_by-positive c old) in omega (arith, set_sum, was)),
      (let set_sum = sum_cells-set lives h p (some c) (some dead) e in
          let was = lives-positive c old in omega (arith, set_sum, was)),
      (λ q. omega (arith, share q)),
    )

held_by-dead : (c : Cell) → c.rc ≡ 0 → held_by (some c) ≡ []
held_by-dead c zero_rc = ground arith

lives-dead : (c : Cell) → c.rc ≡ 0 → lives (some c) ≡ 0
lives-dead c zero_rc = ground arith

-- An allocation whose count is 0 is freed.
pub freed :
    (h : Heap) (roots : List Value) (p : ℕ) (c : Cell)
    → Counted h roots
    → get_elem? h p ≡ some (some c)
    → c.rc ≡ 0
    → Counted (set h p none) roots
      × (held_total (set h p none) ≡ held_total h)
      × (live_cells (set h p none) ≡ live_cells h)
      × ((q : ℕ) → held_refs q (set h p none) ≡ held_refs q h)
freed h roots p c counted e zero_rc =
    let same : (q : ℕ) → held_refs q (set h p none) ≡ held_refs q h = λ q.
      sum_cells-same (λ d. occurrences q (held_by d)) h p (some c) none e
        (sym (ap (occurrences q) (held_by-dead c zero_rc))) in
    (
      (λ q. elim (ℕ_discrete p q) [
        | yes here ↦
            subst (λ q. CountOk (get_elem? (set h p none) q) (refs q (set h p none) roots)) here
              (rw (get-set h p (some c) none e) (
                let n : c.rc ≡ refs p h roots =
                  subst (λ (x : Option (Option Cell)). CountOk x (refs p h roots)) e (counted p) in
                omega (arith, same p, n, zero_rc)))
        | no other ↦
            let n : refs q (set h p none) roots ≡ refs q h roots = omega (arith, same q) in
            rw (get-set_other h p q none other, n) (counted q)
      ]),
      sum_cells-same (λ d. length (held_by d)) h p (some c) none e
          (sym (ap length (held_by-dead c zero_rc))),
      sum_cells-same lives h p (some c) none e (sym (lives-dead c zero_rc)),
      same,
    )
