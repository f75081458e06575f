-- ===== src/Text.antt =====
-- lib/string.c and lib/string.h. A string is the list of its bytes, a C text the list of the bytes
-- in front of its terminator.
pub mod Laws
use chammer.Prelude.{
  ℕ, zero, suc, ◌+◌, Bool, true, false, List, [], ◌∷◌, ◌==◌, ◌&&◌, ◌||◌, if◌then◌else◌, length,
  drop,
}

-- `strncmp(a, b, n) == 0` on strings of `n` bytes: it stops at a NUL that both have.
pub strncmp_eq : List ℕ → List ℕ → Bool
strncmp_eq [] [] = true
strncmp_eq [] (b ∷ bs) = false
strncmp_eq (a ∷ s) [] = false
strncmp_eq (a ∷ s) (b ∷ r) = a == b && (a == 0 || strncmp_eq s r)

unfoldable pub string_eq : List ℕ → List ℕ → Bool
unfolding strncmp_eq
string_eq a b = length a == length b && strncmp_eq a b

-- `strcspn(s, "\r\n")`
pub line_len : List ℕ → ℕ
line_len [] = 0
line_len (c ∷ s) = if c == 0x0d || c == 0x0a then 0 else suc (line_len s)

skip_one : ℕ → List ℕ → List ℕ
skip_one c [] = []
skip_one c (d ∷ s) = if d == c then s else d ∷ s

-- `line` is the text from the line on and `len` its length; the next line follows.
unfoldable pub next_line : List ℕ → ℕ → List ℕ × ℕ
unfolding line_len skip_one
next_line line len = let s = skip_one 0x0a (skip_one 0x0d (drop len line)) in (s, line_len s)
