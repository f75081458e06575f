-- ===== src/Value/Counts.antt =====
-- The references to an allocation of lib/value.c: those of the roots, and those that allocations
-- hold. An allocation whose count is 0 is about to be freed, and holds nothing any more.
use chammer.Prelude.{
  ℕ, zero, suc, ◌+◌, ◌≤◌, ◌≡◌, ◌≢◌, refl, ap, Option, none, some, List, [], ◌∷◌, ◌++◌, ◌==◌, length,
  get_elem?, set, arith, if◌then◌else◌,
}
use chammer.Value.{
  Value, Object, Cell, Heap, h_string, h_closure, h_cons, h_tuple, h_native, h_binding, address_of,
  drops_payload,
}

abbrev pub points_to : ℕ → Option ℕ → ℕ
points_to p none = 0
points_to p (some q) = if q == p then 1 else 0

-- How many of the values refer to `p`.
unfoldable pub occurrences : ℕ → List Value → ℕ
occurrences p [] = 0
occurrences p (v ∷ vs) = points_to p (address_of v) + occurrences p vs

-- What an object holds, as `hvalue_free` drops it.
abbrev pub held : Object → List Value
held (h_string s) = []
held (h_closure fnindex argc args) = args
held (h_cons head tail) = head ∷ tail ∷ []
held (h_tuple len items) = items
held (h_native meta payload args) = if drops_payload meta then payload else []
held (h_binding effect then_value) = effect ∷ then_value ∷ []

abbrev pub held_by : Option Cell → List Value
held_by none = []
held_by (some c) = if c.rc == 0 then [] else held c.object

abbrev pub rc_of : Option Cell → ℕ
rc_of none = 0
rc_of (some c) = c.rc

abbrev pub lives : Option Cell → ℕ
lives none = 0
lives (some c) = if c.rc == 0 then 0 else 1

unfoldable pub sum_cells : (Option Cell → ℕ) → Heap → ℕ
sum_cells f [] = 0
sum_cells f (c ∷ h) = f c + sum_cells f h

-- References to `p` from allocations, references from all of them, and allocations in use.
abbrev pub held_refs : ℕ → Heap → ℕ
held_refs p h = sum_cells (λ c. occurrences p (held_by c)) h

abbrev pub held_total : Heap → ℕ
held_total h = sum_cells (λ c. length (held_by c)) h

abbrev pub live_cells : Heap → ℕ
live_cells h = sum_cells lives h

abbrev pub refs : ℕ → Heap → List Value → ℕ
refs p h roots = occurrences p roots + held_refs p h

abbrev pub total : Heap → List Value → ℕ
total h roots = length roots + held_total h

abbrev pub CountOk : Option (Option Cell) → ℕ → Type 0
CountOk (some (some c)) n = c.rc ≡ n
CountOk (some none) n = n ≡ 0
CountOk none n = n ≡ 0

-- The count of an allocation is the number of references to it; nothing refers to one that was
-- freed, or to no allocation at all.
abbrev pub Counted : Heap → List Value → Type 0
Counted h roots = (p : ℕ) → CountOk (get_elem? h p) (refs p h roots)

pub occurrences-append :
    (p : ℕ) (vs ws : List Value) → occurrences p (vs ++ ws) ≡ occurrences p vs + occurrences p ws
unfolding occurrences
occurrences-append p [] ws = omega arith
occurrences-append p (v ∷ vs) ws = omega (arith, occurrences-append p vs ws)

points_to-le : (p : ℕ) (a : Option ℕ) → points_to p a ≤ 1
points_to-le p none = omega arith
points_to-le p (some q) = ground arith

pub occurrences-le : (p : ℕ) (vs : List Value) → occurrences p vs ≤ length vs
unfolding occurrences
occurrences-le p [] = omega arith
occurrences-le p (v ∷ vs) = omega (arith, occurrences-le p vs, points_to-le p (address_of v))

pub sum_cells-le :
    (f g : Option Cell → ℕ) (h : Heap)
    → ((c : Option Cell) → f c ≤ g c)
    → sum_cells f h ≤ sum_cells g h
unfolding sum_cells
sum_cells-le f g [] le = omega arith
sum_cells-le f g (c ∷ h) le = omega (arith, le c, sum_cells-le f g h le)

pub refs-le : (p : ℕ) (h : Heap) (roots : List Value) → refs p h roots ≤ total h roots
refs-le p h roots = omega (
  arith,
  occurrences-le p roots,
  sum_cells-le (λ c. occurrences p (held_by c)) (λ c. length (held_by c)) h
      (λ c. occurrences-le p (held_by c)),
)

-- A write to a cell takes its old share from a sum and adds the new one.
pub sum_cells-set :
    (f : Option Cell → ℕ) (h : Heap) (p : ℕ) (old new : Option Cell)
    → get_elem? h p ≡ some old
    → sum_cells f (set h p new) + f old ≡ sum_cells f h + f new
unfolding sum_cells
sum_cells-set f [] p old new e = absurd (cc)
sum_cells-set f (c ∷ h) zero old new e = let same : c ≡ old = cc in rw same (omega arith)
sum_cells-set f (c ∷ h) (suc p) old new e = omega (arith, sum_cells-set f h p old new e)

pub get-set :
    (h : Heap) (p : ℕ) (old new : Option Cell)
    → get_elem? h p ≡ some old
    → get_elem? (set h p new) p ≡ some new
get-set [] p old new e = absurd (cc)
get-set (c ∷ h) zero old new e = refl
get-set (c ∷ h) (suc p) old new e = get-set h p old new e

pub get-set_other :
    (h : Heap) (p q : ℕ) (new : Option Cell) → p ≢ q → get_elem? (set h p new) q ≡ get_elem? h q
get-set_other [] p q new n = refl
get-set_other (c ∷ h) zero zero new n = absurd (n refl)
get-set_other (c ∷ h) zero (suc q) new n = refl
get-set_other (c ∷ h) (suc p) zero new n = refl
get-set_other (c ∷ h) (suc p) (suc q) new n = get-set_other h p q new (λ e. n (ap suc e))

pub sum_cells-append :
    (f : Option Cell → ℕ) (h k : Heap) → sum_cells f (h ++ k) ≡ sum_cells f h + sum_cells f k
unfolding sum_cells
sum_cells-append f [] k = omega arith
sum_cells-append f (c ∷ h) k = omega (arith, sum_cells-append f h k)

pub live_cells-le : (h : Heap) → live_cells h ≤ length h
unfolding sum_cells
live_cells-le [] = omega arith
live_cells-le (none ∷ h) = omega (arith, live_cells-le h)
live_cells-le (some c ∷ h) = ground (arith, live_cells-le h)
