-- ===== src/Text/Laws.antt =====
-- `string_eq` and equality.
use mathlib.Core.Path.{subst}
use chammer.Prelude.{
  ℕ, ◌≡◌, refl, ◌≢◌, ◌⊎◌, inl, inr, Bool-cases, true, false, List, [], ◌∷◌, ◌++◌, arith, length,
  All,
}
use chammer.Text.{strncmp_eq, string_eq}

strncmp_eq_refl : (a : List ℕ) → strncmp_eq a a ≡ true
unfolding strncmp_eq
strncmp_eq_refl [] = refl
strncmp_eq_refl (c ∷ a) = ground (arith, strncmp_eq_refl a)

pub string_eq_refl : (a : List ℕ) → string_eq a a ≡ true
unfolding string_eq
string_eq_refl a = ground (arith, strncmp_eq_refl a)

strncmp_eq-eq : (a b : List ℕ) → All (λ c. c ≢ 0) a → strncmp_eq a b ≡ true → a ≡ b
unfolding strncmp_eq
strncmp_eq-eq [] [] h e = refl
strncmp_eq-eq [] (d ∷ b) h e = absurd (cc)
strncmp_eq-eq (c ∷ a) [] h e = absurd (cc)
strncmp_eq-eq (c ∷ a) (d ∷ b) h e = ground (arith, strncmp_eq-eq a b, h.0)

string_eq_sound : (a b : List ℕ) → All (λ c. c ≢ 0) a → string_eq a b ≡ true → a ≡ b
unfolding string_eq
string_eq_sound a b h e = ground (arith, strncmp_eq-eq a b)

-- On a string that holds no NUL, `string_eq` decides equality with any other: it answers true and
-- the two are equal, or it answers false and they are not.
pub string_eq-eq :
    (a b : List ℕ)
    → All (λ c. c ≢ 0) a
    → ((string_eq a b ≡ true) × (a ≡ b)) ⊎ ((string_eq a b ≡ false) × (a ≢ b))
string_eq-eq a b h = elim (Bool-cases (string_eq a b)) [
  | inl yes_eq ↦ inl (yes_eq, string_eq_sound a b h yes_eq)
  | inr no_eq ↦ inr (
    no_eq,
    λ same.
        let refl_eq : string_eq a b ≡ true =
          subst (λ (x : List ℕ). string_eq a x ≡ true) same (string_eq_refl a) in
        cc,
  )
]

-- What stands behind a common NUL is not compared.
pub string_eq-after_nul :
    (a b c : List ℕ) → length b ≡ length c → string_eq (a ++ 0 ∷ b) (a ++ 0 ∷ c) ≡ true
unfolding string_eq
string_eq-after_nul [] b c h = ground arith
string_eq-after_nul (x ∷ a) b c h = ground (arith, string_eq-after_nul a b c)

strncmp_eq-euclid :
    (a b c : List ℕ) → strncmp_eq a b ≡ true → strncmp_eq a c ≡ true → strncmp_eq b c ≡ true
unfolding strncmp_eq
strncmp_eq-euclid [] [] c h e = e
strncmp_eq-euclid [] (y ∷ b) c h e = absurd (cc)
strncmp_eq-euclid (x ∷ a) [] c h e = absurd (cc)
strncmp_eq-euclid (x ∷ a) (y ∷ b) [] h e = absurd (cc)
strncmp_eq-euclid (x ∷ a) (y ∷ b) (z ∷ c) h e = ground (arith, strncmp_eq-euclid a b c)

-- Two strings that equal a third equal one another.
pub string_eq-euclid :
    (a b c : List ℕ) → string_eq a b ≡ true → string_eq a c ≡ true → string_eq b c ≡ true
unfolding string_eq
string_eq-euclid a b c h e = ground (arith, strncmp_eq-euclid a b c)
