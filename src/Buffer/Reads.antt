-- ===== src/Buffer/Reads.antt =====
-- What stands in the contents of lib/buffer.c's buffer from an offset on.
use chammer.Prelude.{
  ℕ, zero, suc, ◌+◌, ◌≤◌, ◌<◌, ◌≡◌, refl, ◌∙◌, ◌⊎◌, inl, inr, ap, some, List, [], ◌∷◌, ◌++◌, length,
  drop, get_elem?, get_elem?-append_left, length-append, length-drop, append-nil, arith,
}
use mathlib.Core.Path.{subst}
use chammer.Buffer.{write_at}

abbrev pub Reads : List ℕ → ℕ → List ℕ → Type 0
Reads code off [] = Unit
Reads code off (x ∷ xs) = (get_elem? code off ≡ some x) × Reads code (suc off) xs

get_elem?-some_lt : (code : List ℕ) (i x : ℕ) → get_elem? code i ≡ some x → i < length code
get_elem?-some_lt [] i x e = absurd (cc)
get_elem?-some_lt (c ∷ code) zero x e = omega arith
get_elem?-some_lt (c ∷ code) (suc i) x e = omega (arith, get_elem?-some_lt code i x e)

pub Reads-within :
    (code : List ℕ) (off : ℕ) (x : ℕ) (xs : List ℕ)
    → Reads code off (x ∷ xs)
    → off + length (x ∷ xs) ≤ length code
Reads-within code off x [] (e, r) = omega (arith, get_elem?-some_lt code off x e)
Reads-within code off x (y ∷ ys) (e, r) = omega (arith, Reads-within code (suc off) y ys r)

pub Reads-append :
    (code more : List ℕ) (off : ℕ) (w : List ℕ) → Reads code off w → Reads (code ++ more) off w
Reads-append code more off [] r = tt
Reads-append code more off (x ∷ w) (e, r) = (
  get_elem?-append_left code more off (get_elem?-some_lt code off x e) ∙ e,
  Reads-append code more (suc off) w r,
)

Reads-shift :
    (c : ℕ) (code : List ℕ) (off : ℕ) (w : List ℕ) → Reads code off w → Reads (c ∷ code) (suc off) w
Reads-shift c code off [] r = tt
Reads-shift c code off (x ∷ w) (e, r) = (e, Reads-shift c code (suc off) w r)

Reads-self : (w more : List ℕ) → Reads (w ++ more) 0 w
Reads-self [] more = tt
Reads-self (x ∷ w) more = (refl, Reads-shift x (w ++ more) 0 w (Reads-self w more))

-- What was put at the end stands there.
pub Reads-end : (code w : List ℕ) → Reads (code ++ w) (length code) w
Reads-end [] w = subst (λ (c : List ℕ). Reads c 0 w) (append-nil w) (Reads-self w [])
Reads-end (c ∷ code) w = Reads-shift c (code ++ w) (length code) w (Reads-end code w)

-- What is written stands where it was written.
pub Reads-write_at :
    (at : ℕ) (new code : List ℕ)
    → at + length new ≤ length code
    → Reads (write_at at new code) at new
unfolding write_at
Reads-write_at zero new code h = Reads-self new (drop (length new) code)
Reads-write_at (suc at) new [] h = absurd (omega arith)
Reads-write_at (suc at) new (c ∷ code) h =
    Reads-shift c (write_at at new code) at new (Reads-write_at at new code (omega arith))

get_elem?-write_before :
    (at : ℕ) (new code : List ℕ) (i : ℕ)
    → i < at
    → at + length new ≤ length code
    → get_elem? (write_at at new code) i ≡ get_elem? code i
unfolding write_at
get_elem?-write_before zero new code i lt h = absurd (omega arith)
get_elem?-write_before (suc at) new [] i lt h = absurd (omega arith)
get_elem?-write_before (suc at) new (c ∷ code) zero lt h = refl
get_elem?-write_before (suc at) new (c ∷ code) (suc i) lt h =
    get_elem?-write_before at new code i (omega arith) (omega arith)

get_elem?-over :
    (new code : List ℕ) (i : ℕ)
    → length new ≤ i
    → length new ≤ length code
    → get_elem? (new ++ drop (length new) code) i ≡ get_elem? code i
get_elem?-over [] code i le h = refl
get_elem?-over (n ∷ new) [] i le h = absurd (omega arith)
get_elem?-over (n ∷ new) (c ∷ code) zero le h = absurd (omega arith)
get_elem?-over (n ∷ new) (c ∷ code) (suc i) le h =
    get_elem?-over new code i (omega arith) (omega arith)

get_elem?-write_behind :
    (at : ℕ) (new code : List ℕ) (i : ℕ)
    → at + length new ≤ i
    → at + length new ≤ length code
    → get_elem? (write_at at new code) i ≡ get_elem? code i
unfolding write_at
get_elem?-write_behind zero new code i le h = get_elem?-over new code i (omega arith) (omega arith)
get_elem?-write_behind (suc at) new [] i le h = absurd (omega arith)
get_elem?-write_behind (suc at) new (c ∷ code) zero le h = absurd (omega arith)
get_elem?-write_behind (suc at) new (c ∷ code) (suc i) le h =
    get_elem?-write_behind at new code i (omega arith) (omega arith)

-- And nothing else is changed.
pub Reads-write_at_other :
    (at : ℕ) (new code : List ℕ) (off : ℕ) (w : List ℕ)
    → at + length new ≤ length code
    → (off + length w ≤ at) ⊎ (at + length new ≤ off)
    → Reads code off w
    → Reads (write_at at new code) off w
Reads-write_at_other at new code off [] h apart r = tt
Reads-write_at_other at new code off (x ∷ w) h (inl before) (e, r) = (
  get_elem?-write_before at new code off (omega arith) h ∙ e,
  Reads-write_at_other at new code (suc off) w h (inl (omega arith)) r,
)
Reads-write_at_other at new code off (x ∷ w) h (inr behind) (e, r) = (
  get_elem?-write_behind at new code off behind h ∙ e,
  Reads-write_at_other at new code (suc off) w h (inr (omega arith)) r,
)

pub length-write_at :
    (at : ℕ) (new code : List ℕ)
    → at + length new ≤ length code
    → length (write_at at new code) ≡ length code
unfolding write_at
length-write_at zero new code h =
    omega (arith, length-append new (drop (length new) code), length-drop (length new) code)
length-write_at (suc at) new [] h = absurd (omega arith)
length-write_at (suc at) new (c ∷ code) h = omega (arith, length-write_at at new code (omega arith))

drop-get :
    (code : List ℕ) (i x : ℕ) → get_elem? code i ≡ some x → drop i code ≡ x ∷ drop (suc i) code
drop-get [] i x e = absurd (cc)
drop-get (c ∷ code) zero x e = cc
drop-get (c ∷ code) (suc i) x e = drop-get code i x e

pub Reads-drop :
    (code : List ℕ) (off : ℕ) (w : List ℕ)
    → Reads code off w
    → (rest : List ℕ) × (drop off code ≡ w ++ rest)
Reads-drop code off [] r = (drop off code, refl)
Reads-drop code off (x ∷ w) (e, r) =
    let (rest, same) = Reads-drop code (suc off) w r in
    (rest, drop-get code off x e ∙ ap (λ (l : List ℕ). x ∷ l) same)

pub Reads-prepend :
    (before code : List ℕ) (off : ℕ) (w : List ℕ)
    → Reads code off w
    → Reads (before ++ code) (length before + off) w
Reads-prepend [] code off w r = subst (λ (at : ℕ). Reads code at w) (omega arith) r
Reads-prepend (c ∷ before) code off w r =
    subst (λ (at : ℕ). Reads (c ∷ before ++ code) at w) (omega arith)
      (Reads-shift c (before ++ code) (length before + off) w (Reads-prepend before code off w r))
