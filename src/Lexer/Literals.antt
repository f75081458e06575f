-- ===== src/Lexer/Literals.antt =====
-- Where the string literals of `token_next_string` end.
use chammer.Prelude.{
  ℕ, ◌+◌, ◌≡◌, ◌≢◌, refl, Bool, true, false, ◌&&◌, not, List, [], ◌∷◌, ◌++◌, arith, length, ◌==◌,
  if◌then◌else◌, All,
}
use chammer.Lexer.{string_loop, string_token, token_next_string}
use chammer.Tokens.{TokenType, t_string, Token, LexResult, lex_none, lex_ok, lex_eeoi, lex_enum}

-- Each quote in the body stands behind a backslash, and the body does not end with one. `after`
-- says whether a backslash stands in front of the body.
unfoldable pub is_body : Bool → List ℕ → Bool
is_body after [] = not after
is_body after (c ∷ s) =
    let quote = is_body false s in
    let other = is_body (c == b'\\') s in if c == 0x22 then after && quote else other

string_loop-body :
    (after : Bool) (s rest : List ℕ) (len : ℕ)
    → is_body after s ≡ true
    → string_loop after (s ++ 0x22 ∷ rest) len ≡ (lex_ok, len + length s + 1)
unfolding string_loop is_body
string_loop-body after [] rest len h = ground arith
string_loop-body after (c ∷ s) rest len h =
    ground (arith, string_loop-body true s rest (len + 1), string_loop-body false s rest (len + 1))

-- A literal whose body has every quote behind a backslash and does not end with a backslash is
-- one token, with both its quotes, whatever follows.
pub token_next_string-body :
    (t : TokenType) (n : ℕ) (s rest : List ℕ)
    → is_body false s ≡ true
    → token_next_string (record { type = t; str = 0x22 ∷ (s ++ 0x22 ∷ rest); len = n })
      ≡ (lex_ok, record { type = t_string; str = 0x22 ∷ (s ++ 0x22 ∷ rest); len = length s + 2 })
unfolding token_next_string
token_next_string-body t n s rest h = ground (arith, string_loop-body false s rest 1)

abbrev pub NoQuote : List ℕ → Type 0
NoQuote = All (λ c. c ≢ 0x22)

string_loop-open :
    (after : Bool) (s : List ℕ) (len : ℕ) → NoQuote s → (string_loop after s len).0 ≡ lex_eeoi
unfolding string_loop
string_loop-open after [] len h = refl
string_loop-open after (c ∷ s) len h =
    ground (arith, h.0, string_loop-open true s (len + 1), string_loop-open false s (len + 1))

string_loop-backslashes :
    (after : Bool) (s rest : List ℕ) (len : ℕ)
    → NoQuote s
    → NoQuote rest
    → (string_loop after (s ++ b'\\' ∷ b'\\' ∷ 0x22 ∷ rest) len).0 ≡ lex_eeoi
unfolding string_loop
string_loop-backslashes after [] rest len h k =
    ground (arith, string_loop-open false rest (len + 1 + 1 + 1))
string_loop-backslashes after (c ∷ s) rest len h k = ground (
  arith,
  string_loop-backslashes true s rest (len + 1),
  string_loop-backslashes false s rest (len + 1),
)

string_token-eeoi :
    (t : Token) (r : LexResult × ℕ) → r.0 ≡ lex_eeoi → (string_token t r).0 ≡ lex_eeoi
unfolding string_token
string_token-eeoi t (lex_ok, n) e = cc
string_token-eeoi t (lex_none, n) e = e
string_token-eeoi t (lex_eeoi, n) e = e
string_token-eeoi t (lex_enum, n) e = e

-- A literal that ends with an escaped backslash is not closed by its quote: where the text has no
-- later quote, the lexer reports the end of input.
pub token_next_string-backslashes :
    (t : TokenType) (n : ℕ) (s rest : List ℕ)
    → NoQuote s
    → NoQuote rest
    → (token_next_string
        (record { type = t; str = 0x22 ∷ (s ++ b'\\' ∷ b'\\' ∷ 0x22 ∷ rest); len = n })).0
      ≡ lex_eeoi
unfolding token_next_string
token_next_string-backslashes t n s rest h k =
    string_token-eeoi
      (record { type = t; str = 0x22 ∷ (s ++ b'\\' ∷ b'\\' ∷ 0x22 ∷ rest); len = n })
      (string_loop false (s ++ b'\\' ∷ b'\\' ∷ 0x22 ∷ rest) 1)
      (string_loop-backslashes false s rest 1 h k)
