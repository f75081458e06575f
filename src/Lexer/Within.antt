-- ===== src/Lexer/Within.antt =====
-- What the branches of `token_next` of lib/lexer.c leave is an end of the text.
use chammer.Prelude.{
  ℕ, suc, ◌+◌, ◌≤◌, ◌≡◌, refl, Bool, true, false, ◌||◌, not, Option, none, some, List, [], ◌∷◌,
  arith, length, drop, ◌==◌, if◌then◌else◌, length-drop,
}
use mathlib.Core.Path.{subst}
use chammer.Text.{string_eq}
use chammer.Lexer.{
  count_while, block_comment_loop, block_comment_token, string_loop, string_token, number_token,
  is_word, token_next_block_comment, token_next_line_comment, token_next_string, token_next_word,
  token_next_glyph, token_next_char, token_next_infix, token_next_number, token_at, otherwise,
  otherwise_lexed, last_of,
}
use chammer.Tokens.{
  TokenType, Token, LexResult, lex_none, lex_ok, lex_eeoi, lex_enum, Lexed, lexed, out_of_bounds,
  stuck, isdigit, strchr, op_charset, isalnum, token_find_keyword,
}
use chammer.Lexer.Scan.{count_while-le, block_comment_loop-bounds, string_loop-bounds}

-- An attempt at the text `s` leaves the token there; a token that it finds has a byte at least and
-- lies within the text.
abbrev pub Within : List ℕ → LexResult × Token → Type 0
Within s (lex_ok, t) = (t.str ≡ s) × (1 ≤ t.len) × (t.len ≤ length s)
Within s (r, t) = t.str ≡ s

abbrev pub WithinLexed : List ℕ → Lexed → Type 0
WithinLexed s (lexed r t) = Within s (r, t)
WithinLexed s out_of_bounds = s ≡ 0x7b ∷ b'-' ∷ []
WithinLexed s stuck = ⊥

otherwise-Within :
    (s : List ℕ) (x : LexResult × Token) (k : Token → Lexed)
    → Within s x
    → ((t : Token) → WithinLexed t.str (k t))
    → WithinLexed s (otherwise x k)
otherwise-Within s (lex_none, t) k h f = subst (λ r. WithinLexed r (k t)) h (f t)
otherwise-Within s (lex_ok, t) k h f = h
otherwise-Within s (lex_eeoi, t) k h f = h
otherwise-Within s (lex_enum, t) k h f = h

otherwise_lexed-Within :
    (s : List ℕ) (x : Lexed) (k : Token → Lexed)
    → WithinLexed s x
    → ((t : Token) → WithinLexed t.str (k t))
    → WithinLexed s (otherwise_lexed x k)
otherwise_lexed-Within s (lexed r t) k h f = otherwise-Within s (r, t) k h f
otherwise_lexed-Within s out_of_bounds k h f = h
otherwise_lexed-Within s stuck k h f = elim h [ ]

-- Keywords change the type of a token only.
find_keyword-Within :
    (kws : List (List ℕ × TokenType)) (t : Token)
    → 1 ≤ t.len
    → t.len ≤ length t.str
    → Within t.str (token_find_keyword kws t)
      × (((token_find_keyword kws t).1.str ≡ t.str) × ((token_find_keyword kws t).1.len ≡ t.len))
unfolding token_find_keyword
find_keyword-Within kws t lo hi = ground arith

word-Within :
    (t : TokenType) (s : List ℕ) (n : ℕ)
    → Within s (token_next_word (record { type = t; str = s; len = n }))
unfolding token_next_word
word-Within t [] n = refl
word-Within t (c ∷ s) n = ground (arith, count_while-le is_word s)

glyph-Within :
    (t : TokenType) (s : List ℕ) (n : ℕ)
    → Within s (token_next_glyph (record { type = t; str = s; len = n }))
unfolding token_next_glyph
glyph-Within t [] n = refl
glyph-Within t (c ∷ s) n = ground (arith, count_while-le (strchr op_charset) s)

infix-Within :
    (t : TokenType) (s : List ℕ) (n : ℕ)
    → Within s (token_next_infix (record { type = t; str = s; len = n }))
unfolding token_next_infix
infix-Within t [] n = refl
infix-Within t (c ∷ s) n = ground (arith, count_while-le isalnum s)

char-Within :
    (t : TokenType) (s : List ℕ) (n : ℕ)
    → Within s (token_next_char (record { type = t; str = s; len = n }))
unfolding token_next_char string_eq
char-Within t [] n = refl
char-Within t (c ∷ s) n = ground arith

number_token-Within :
    (t : TokenType) (c : ℕ) (s r : List ℕ) (n whole : ℕ)
    → 1 ≤ whole
    → whole + length r ≡ suc (length s)
    → Within (c ∷ s) (number_token (record { type = t; str = c ∷ s; len = n }) whole r)
unfolding number_token
number_token-Within t c s [] n whole lo e = ground arith
number_token-Within t c s (d ∷ r) n whole lo e = ground (arith, count_while-le isdigit r)

number-Within :
    (t : TokenType) (s : List ℕ) (n : ℕ)
    → Within s (token_next_number (record { type = t; str = s; len = n }))
unfolding token_next_number
number-Within t [] n = refl
number-Within t (c ∷ s) n =
    elim (isdigit c)
      as (λ b. Within (c ∷ s) (
        if b
        then number_token (record { type = t; str = c ∷ s; len = n }) (1 + count_while isdigit s)
            (drop (count_while isdigit s) s)
        else (lex_none, record { type = t; str = c ∷ s; len = n }))) [
          | true ↦
              number_token-Within t c s (drop (count_while isdigit s) s) n
                (1 + count_while isdigit s) (omega arith)
                (rw (length-drop (count_while isdigit s) s)
                  (omega (arith, count_while-le isdigit s)))
          | false ↦ refl
        ]

string_token-Within :
    (t : Token) (r : LexResult × ℕ)
    → ((n : ℕ) → r ≡ (lex_ok, n) → (1 ≤ n) × (n ≤ length t.str))
    → Within t.str (string_token t r)
unfolding string_token
string_token-Within t (lex_ok, n) h = (refl, (h n refl).0, (h n refl).1)
string_token-Within t (lex_none, n) h = refl
string_token-Within t (lex_eeoi, n) h = refl
string_token-Within t (lex_enum, n) h = refl

string-Within :
    (t : TokenType) (s : List ℕ) (n : ℕ)
    → Within s (token_next_string (record { type = t; str = s; len = n }))
unfolding token_next_string
string-Within t [] n = refl
string-Within t (c ∷ s) n =
    let h : Within (c ∷ s)
        (string_token (record { type = t; str = c ∷ s; len = n }) (string_loop false s 1)) =
      string_token-Within (record { type = t; str = c ∷ s; len = n }) (string_loop false s 1)
        (λ m e. omega (arith, string_loop-bounds false s 1 m e)) in
    elim (c == 0x22)
      as (λ b. Within (c ∷ s) (
        if b
        then string_token (record { type = t; str = c ∷ s; len = n }) (string_loop false s 1)
        else (lex_none, record { type = t; str = c ∷ s; len = n }))) [ true ↦ h | false ↦ refl ]

line_comment-Within :
    (t : TokenType) (s : List ℕ) (n : ℕ)
    → Within s (token_next_line_comment (record { type = t; str = s; len = n }))
unfolding token_next_line_comment string_eq
line_comment-Within t [] n = refl
line_comment-Within t (a ∷ []) n = ground arith
line_comment-Within t (a ∷ b ∷ s) n =
    ground (arith, count_while-le (λ c. not (c == 0x0a || c == 0x0d)) s)

block_token-Within :
    (t : Token) (r : Option (LexResult × ℕ))
    → (r ≡ none → t.str ≡ 0x7b ∷ b'-' ∷ [])
    → ((n : ℕ) → r ≡ some (lex_ok, n) → (1 ≤ n) × (n ≤ length t.str))
    → WithinLexed t.str (block_comment_token t r)
unfolding block_comment_token
block_token-Within t none over h = over refl
block_token-Within t (some (lex_ok, n)) over h = (refl, (h n refl).0, (h n refl).1)
block_token-Within t (some (lex_none, n)) over h = refl
block_token-Within t (some (lex_eeoi, n)) over h = refl
block_token-Within t (some (lex_enum, n)) over h = refl

if_WithinLexed :
    (s : List ℕ) (b : Bool) (x y : Lexed)
    → (b ≡ true → WithinLexed s x)
    → WithinLexed s y
    → WithinLexed s (if b then x else y)
if_WithinLexed s true x y h k = h refl
if_WithinLexed s false x y h k = k

block_comment-Within :
    (t : TokenType) (s : List ℕ) (n : ℕ)
    → WithinLexed s (token_next_block_comment (record { type = t; str = s; len = n }))
unfolding token_next_block_comment string_eq
block_comment-Within t [] n = refl
block_comment-Within t (a ∷ []) n = ground arith
block_comment-Within t (a ∷ b ∷ s) n =
    if_WithinLexed (a ∷ b ∷ s) (string_eq (a ∷ b ∷ []) (0x7b ∷ b'-' ∷ [])) _ _
      (λ opens.
        let (over, closed, _) = block_comment_loop-bounds s 2 in
        block_token-Within (record { type = t; str = a ∷ b ∷ s; len = n }) (block_comment_loop s 2)
          (λ e. ground (arith, over e)) (λ m e. omega (arith, closed m e)))
      refl

last_of-Within : (s : List ℕ) (x : LexResult × Token) → Within s x → WithinLexed s (last_of x)
last_of-Within s (r, t) h = h

pub token_at-Within : (t : Token) → WithinLexed t.str (token_at t)
unfolding token_at
token_at-Within t =
    otherwise_lexed-Within t.str (token_next_block_comment t) _
      (block_comment-Within t.type t.str t.len)
      λ t₁.
        otherwise-Within t₁.str (token_next_line_comment t₁) _
          (line_comment-Within t₁.type t₁.str t₁.len)
          λ t₂.
            otherwise-Within t₂.str (token_next_string t₂) _ (string-Within t₂.type t₂.str t₂.len)
              λ t₃.
                otherwise-Within t₃.str (token_next_word t₃) _ (word-Within t₃.type t₃.str t₃.len)
                  λ t₄.
                    otherwise-Within t₄.str (token_next_glyph t₄) _
                      (glyph-Within t₄.type t₄.str t₄.len)
                      λ t₅.
                        otherwise-Within t₅.str (token_next_char t₅) _
                          (char-Within t₅.type t₅.str t₅.len)
                          λ t₆.
                            otherwise-Within t₆.str (token_next_infix t₆) _
                              (infix-Within t₆.type t₆.str t₆.len)
                              λ t₇.
                                last_of-Within t₇.str (token_next_number t₇)
                                  (number-Within t₇.type t₇.str t₇.len)
