-- ===== src/Value/Handling/Tuples.antt =====
-- Tuples of lib/value.c keep the counts exact.
use chammer.Prelude.{
  ℕ, zero, suc, ◌+◌, ◌≤◌, ◌≡◌, refl, sym, true, false, Option, none, some, List, [], ◌∷◌, ◌++◌,
  length, get_elem?, arith, length-append, ltb, if◌then◌else◌, ◌==◌,
}
use mathlib.Core.Path.{subst}
use chammer.Value.{
  Value, Cell, Heap, Result, ok, err, panicked, store, alloc, hvalue_ref, h_tuple, v_tuple,
}
use chammer.Value.Counts.{occurrences, held}
use chammer.Value.Sharing.{Counted-same, load-Safe}
use chammer.Value.Safe.{Safe, safe, bind-Safe, mono-Safe}
use chammer.Value.Handling.{
  Balanced, ref-Balanced, alloc-Balanced, Within, still-IsReferred, root_occurs, tuple_in-Safe,
  put-Balanced, occurrences-snoc,
}
use chammer.Value.Access.{
  HTupleBuilder, htuple_begin, htuple_put, htuple_end, tuple_in, hvalue_tuple_get, hvalue_tuple_len,
  put_in, put_at, end_in, end_at,
}

get-Within : (items : List Value) (i : ℕ) (v : Value) → get_elem? items i ≡ some v → Within v items
unfolding occurrences
get-Within [] i v e q = absurd (cc)
get-Within (w ∷ items) zero v e q = let same : w ≡ v = cc in rw same (omega arith)
get-Within (w ∷ items) (suc i) v e q = omega (arith, get-Within items i v e q)

abbrev item_at : List Value → ℕ → Heap → Result (Value × Heap)
unfolding hvalue_ref
item_at items index h = elim (get_elem? items index) [
  | none ↦ err panicked
  | some item ↦ hvalue_ref item h
]

item-Balanced :
    (k : ℕ) (h : Heap) (roots : List Value) (p : ℕ) (c : Cell) (len : ℕ) (items : List Value)
    (index : ℕ)
    → Balanced (suc k) h roots
    → 1 ≤ occurrences p roots
    → get_elem? h p ≡ some (some c)
    → c.object ≡ h_tuple len items
    → Safe (λ (r : Value × Heap). Balanced k r.1 (r.0 ∷ roots)) (item_at items index h)
unfolding item_at
item-Balanced k h roots p c len items index b le e same =
    elim (get_elem? items index)
        as (λ (x : Option Value).
          get_elem? items index ≡ x
          → Safe (λ (r : Value × Heap). Balanced k r.1 (r.0 ∷ roots))
              (elim x [ none ↦ err panicked | some item ↦ hvalue_ref item h ])) [
                | none ↦ λ g. safe tt
                | some item ↦ λ g.
                    let inside : Within item (held c.object) =
                      rw same (get-Within items index item g) in
                    mono-Safe
                      (ref-Balanced k h roots item b
                        (still-IsReferred h roots p c item b.counted le e inside))
                      (λ (v, h') (v_same, b', keeps).
                        subst (λ x. Balanced k h' (x ∷ roots)) (sym v_same) b')
              ]
      refl

-- `hvalue_tuple_get` of a root gives an item with a reference of its own.
pub tuple_get-Balanced :
    (k : ℕ) (h : Heap) (roots : List Value) (v : Value) (index : ℕ)
    → Balanced (suc k) h (v ∷ roots)
    → Safe (λ (r : Value × Heap). Balanced k r.1 (r.0 ∷ v ∷ roots)) (hvalue_tuple_get v index h)
unfolding hvalue_tuple_get
tuple_get-Balanced k h roots (v_tuple none) index b = safe tt
tuple_get-Balanced k h roots (v_tuple (some p)) index b =
    let v = v_tuple (some p) in
    bind-Safe
      (load-Safe h (v ∷ roots) p tuple_in b.counted (omega (arith, root_occurs p v roots refl))
        (λ c e n.
          mono-Safe {Q = λ (r : ℕ × List Value). c.object ≡ h_tuple r.0 r.1}
            {R = λ (r : ℕ × List Value).
              (c : Cell) × (get_elem? h p ≡ some (some c)) × (c.object ≡ h_tuple r.0 r.1)}
            (tuple_in-Safe c) (λ r same. (c, e, same))))
      (λ (len, items) (c, e, same).
        item-Balanced k h (v ∷ roots) p c len items index b (root_occurs p v roots refl) e same)
tuple_get-Balanced k h roots _ index b = safe tt

pub tuple_len-Safe :
    (k : ℕ) (h : Heap) (roots : List Value) (v : Value)
    → Balanced k h (v ∷ roots)
    → Safe (λ _. Unit) (hvalue_tuple_len v h)
unfolding hvalue_tuple_len
tuple_len-Safe k h roots (v_tuple none) b = safe tt
tuple_len-Safe k h roots (v_tuple (some p)) b =
    let v = v_tuple (some p) in
    bind-Safe
      (load-Safe h (v ∷ roots) p tuple_in b.counted (omega (arith, root_occurs p v roots refl))
        (λ c e n. mono-Safe {R = λ _. Unit} (tuple_in-Safe c) (λ _ _. tt)))
      (λ r same. safe tt)
tuple_len-Safe k h roots _ b = safe tt

-- A tuple under construction is a root like the finished one.
pub begin-Balanced :
    (k : ℕ) (h : Heap) (roots : List Value) (len : ℕ)
    → Balanced (suc k) h roots
    → Balanced k (htuple_begin len h).1 (v_tuple (htuple_begin len h).0.tuple ∷ roots)
unfolding htuple_begin alloc occurrences
begin-Balanced k h roots len b =
    elim (len == 0)
      as (λ z.
        let r : HTupleBuilder × Heap = elim z [
          | true ↦ (record { tuple = none; len = 0 }, h)
          | false ↦
              let (p, h') = alloc (h_tuple len []) h in (record { tuple = some p; len = 0 }, h')
        ] in
        Balanced k r.1 (v_tuple r.0.tuple ∷ roots)) [
          | true ↦ record {
            counted = Counted-same h roots (v_tuple none ∷ roots) (λ q. omega arith) b.counted;
            room = omega (arith, b.room);
          }
          | false ↦ alloc-Balanced k h roots (h_tuple len []) (v_tuple (some (length h))) refl b
        ]

-- `htuple_put` moves a root into the tuple.
pub tuple_put-Balanced :
    (k : ℕ) (h : Heap) (roots : List Value) (tb : HTupleBuilder) (item : Value)
    → Balanced k h (v_tuple tb.tuple ∷ item ∷ roots)
    → Safe
        (λ (r : HTupleBuilder × Heap). Balanced k r.1 (v_tuple r.0.tuple ∷ roots))
        (htuple_put tb item h)
unfolding htuple_put occurrences
tuple_put-Balanced k h roots tb item b =
    elim tb.tuple
        as (λ t.
          tb.tuple ≡ t
          → Safe (λ (r : HTupleBuilder × Heap). Balanced k r.1 (v_tuple r.0.tuple ∷ roots))
              (put_at tb item t h)) [
                | none ↦ λ a. safe tt
                | some p ↦ λ a.
                    let v = v_tuple tb.tuple in
                    load-Safe h (v ∷ item ∷ roots) p (put_in tb item p h) b.counted
                      (omega (arith, root_occurs p v (item ∷ roots) a))
                      (λ c e n. bind-Safe (tuple_in-Safe c) (λ (len, items) same.
                        elim (ltb tb.len len)
                          as (λ u.
                            Safe
                              (λ (r : HTupleBuilder × Heap).
                                Balanced k r.1 (v_tuple r.0.tuple ∷ roots))
                              (if u
                                then ok (
                                  record tb { len = tb.len + 1 },
                                  store p (record c { object = h_tuple len (items ++ item ∷ []) })
                                      h,
                                )
                                else err panicked)) [
                                  | true ↦ safe (
                                      put-Balanced k h (v ∷ item ∷ roots) (v ∷ roots) p c
                                        (h_tuple len (items ++ item ∷ [])) b e
                                        (omega (arith, n, root_occurs p v (item ∷ roots) a))
                                        (λ q.
                                          rw same (omega (arith, occurrences-snoc q items item)))
                                        (rw same (omega (arith, length-append items (item ∷ [])))))
                                  | false ↦ safe tt
                                ]))
              ]
      refl

-- `htuple_end` gives the tuple.
pub tuple_end-Balanced :
    (k : ℕ) (h : Heap) (roots : List Value) (tb : HTupleBuilder)
    → Balanced k h (v_tuple tb.tuple ∷ roots)
    → Safe (λ v. Balanced k h (v ∷ roots)) (htuple_end tb h)
unfolding htuple_end
tuple_end-Balanced k h roots tb b =
    elim tb.tuple as (λ t. tb.tuple ≡ t → Safe (λ v. Balanced k h (v ∷ roots)) (end_at tb t h)) [
      | none ↦ λ a. safe (subst (λ t. Balanced k h (v_tuple t ∷ roots)) a b)
      | some p ↦ λ a.
          let v = v_tuple tb.tuple in
          load-Safe h (v ∷ roots) p (end_in tb p) b.counted (omega (arith, root_occurs p v roots a))
            (λ c e n. bind-Safe (tuple_in-Safe c) (λ (len, items) same.
              elim (tb.len == len)
                as (λ u.
                  Safe (λ v. Balanced k h (v ∷ roots))
                    (if u then ok (v_tuple (some p)) else err panicked)) [
                      | true ↦ safe (subst (λ t. Balanced k h (v_tuple t ∷ roots)) a b)
                      | false ↦ safe tt
                    ]))
    ]
      refl
