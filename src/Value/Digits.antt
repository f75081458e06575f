-- ===== src/Value/Digits.antt =====
-- The digits that lib/value.c prints for an integer.
use chammer.Prelude.{
  ℕ, zero, suc, ◌+◌, ◌-◌, ◌*◌, ◌/◌, ◌%◌, ◌<◌, ◌^◌, ◌≡◌, refl, ◌∙◌, true, false, List, [], ◌∷◌, ◌++◌,
  ◌==◌, arith,
}
use chammer.Prelude.Int.{ℤ, pos, negsuc, pattern_of}
use native.Mathlib.Omega.{pow_step}
use chammer.Value.Repr.{digits, print_int}

-- A reader of decimal numbers, that goes on from `n`.
unfoldable pub decimal_from : ℕ → List ℕ → ℕ
decimal_from n [] = n
decimal_from n (d ∷ ds) = decimal_from (n * 10 + (d - b'0')) ds

decimal_from-snoc :
    (n : ℕ) (ds : List ℕ) (d : ℕ)
    → decimal_from n (ds ++ d ∷ []) ≡ decimal_from n ds * 10 + (d - b'0')
unfolding decimal_from
decimal_from-snoc n [] d = refl
decimal_from-snoc n (e ∷ ds) d = decimal_from-snoc (n * 10 + (e - b'0')) ds d

decimal_from-digits : (n i : ℕ) → i < 10 ^ suc n → decimal_from 0 (digits n i) ≡ i
unfolding decimal_from digits
decimal_from-digits zero i lt = omega (arith, lt)
decimal_from-digits (suc n) i lt =
    elim (i / 10 == 0)
        as (λ u.
          (i / 10 == 0) ≡ u
          → decimal_from 0 (elim u [
            | true ↦ (b'0' + i % 10) ∷ []
            | false ↦ digits n (i / 10) ++ (b'0' + i % 10) ∷ []
          ])
            ≡ i) [
              | true ↦ λ e. ground arith
              | false ↦ λ e.
                  let power = pow_step 10 (suc n) in
                  let before : decimal_from 0 (digits n (i / 10)) ≡ i / 10 =
                    decimal_from-digits n (i / 10) (omega (arith, lt, power)) in
                  decimal_from-snoc 0 (digits n (i / 10)) (b'0' + i % 10) ∙ omega (arith, before)
            ]
      refl

-- The digits printed for an integer are those of its pattern of 32 bits.
pub decimal_from-print_int : (i : ℤ) → decimal_from 0 (print_int i) ≡ pattern_of (2 ^ 32) i
unfolding print_int
decimal_from-print_int (pos n) = decimal_from-digits 9 (n % 2 ^ 32) (omega arith)
decimal_from-print_int (negsuc n) = decimal_from-digits 9 (2 ^ 32 - 1 - n % 2 ^ 32) (omega arith)
