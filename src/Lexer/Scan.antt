-- ===== src/Lexer/Scan.antt =====
-- The loops of the lexer stay within the text.
use chammer.Prelude.{
  ap, ◌∙◌, drop-drop, length-drop, ℕ, suc, ◌+◌, ◌≤◌, ◌≡◌, ◌≢◌, refl, Bool, true, false, none, some,
  List, [], ◌∷◌, arith, length, drop, if◌then◌else◌,
}
use chammer.Lexer.{count_while, block_comment_loop, string_loop, skip_space}
use chammer.Tokens.{lex_none, lex_ok, isspace}

pub count_while-le : (p : ℕ → Bool) (s : List ℕ) → count_while p s ≤ length s
unfolding count_while
count_while-le p [] = omega arith
count_while-le p (c ∷ s) = ground (arith, count_while-le p s)

-- A block comment that is closed lies within the text, and only an empty text is overrun.
pub block_comment_loop-bounds :
    (s : List ℕ) (len : ℕ)
    → (block_comment_loop s len ≡ none → s ≡ [])
      × ((n : ℕ)
          → block_comment_loop s len ≡ some (lex_ok, n)
          → (len + 2 ≤ n) × (n ≤ len + length s))
      × ((n : ℕ) → block_comment_loop s len ≢ some (lex_none, n))
unfolding block_comment_loop
block_comment_loop-bounds [] len = (λ _. refl, λ n e. absurd (cc), λ n e. cc)
block_comment_loop-bounds (a ∷ []) len = (λ e. absurd (cc), λ n e. absurd (cc), λ n e. cc)
block_comment_loop-bounds (a ∷ b ∷ s) len =
    let (over, closed, some_result) = block_comment_loop-bounds (b ∷ s) (len + 1) in
    (
      λ e. absurd (ground (arith, over)),
      λ n e. ground (arith, closed n),
      λ n e. ground (arith, some_result n),
    )

pub string_loop-bounds :
    (escape : Bool) (s : List ℕ) (len n : ℕ)
    → string_loop escape s len ≡ (lex_ok, n)
    → (len + 1 ≤ n) × (n ≤ len + length s)
unfolding string_loop
string_loop-bounds escape [] len n e = absurd (cc)
string_loop-bounds escape (c ∷ s) len n e =
    ground (arith, string_loop-bounds true s (len + 1) n, string_loop-bounds false s (len + 1) n)

-- `string_loop` finds the end or an unexpected end of input.
pub string_loop-ne-none :
    (escape : Bool) (s : List ℕ) (len n : ℕ) → string_loop escape s len ≢ (lex_none, n)
unfolding string_loop
string_loop-ne-none escape [] len n e = cc
string_loop-ne-none escape (c ∷ s) len n e =
    ground (arith, string_loop-ne-none true s (len + 1) n, string_loop-ne-none false s (len + 1) n)

-- What skipping spaces leaves is a suffix.
abbrev pub IsSuffix : List ℕ → List ℕ → Type 0
IsSuffix r s = (k : ℕ) × (r ≡ drop k s) × (k + length r ≡ length s)

pub skip_space-IsSuffix : (s : List ℕ) → IsSuffix (skip_space s) s
unfolding skip_space
skip_space-IsSuffix [] = (0, refl, omega arith)
skip_space-IsSuffix (c ∷ s) =
    let (k, e, l) = skip_space-IsSuffix s in
    elim (isspace c) as (λ b. IsSuffix (if b then skip_space s else c ∷ s) (c ∷ s)) [
      | true ↦ (suc k, e, omega arith)
      | false ↦ (0, refl, omega arith)
    ]

pub IsSuffix-trans : (r s u : List ℕ) → IsSuffix r s → IsSuffix s u → IsSuffix r u
IsSuffix-trans r s u (k, e, l) (j, f, m) = (k + j, e ∙ ap (drop k) f ∙ drop-drop k j u, omega arith)

pub drop-IsSuffix : (n : ℕ) (s : List ℕ) → n ≤ length s → IsSuffix (drop n s) s
drop-IsSuffix n s h = (n, refl, rw (length-drop n s) (omega arith))
