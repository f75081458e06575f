-- ===== src/Tokens.antt =====
-- lib/lexer.h and lib/lexer.c: tokens, their types, the tables of keywords, and the classes of
-- characters.
use chammer.Prelude.{
  ℕ, Bool, false, Option, none, some, List, [], ◌∷◌, ◌==◌, ◌&&◌, ◌||◌, leb, if◌then◌else◌, take,
}
use chammer.Text.{string_eq}

pub data TokenType : Type 0 where
  t_bcomm t_lcomm : TokenType
  t_let t_if t_then t_else t_match t_case t_rec : TokenType
  t_ident t_under t_infix t_string t_int t_dec t_op : TokenType
  t_at t_eq t_larrow t_rarrow t_ellips t_bslash : TokenType
  t_popen t_pclose t_sopen t_sclose t_copen t_cclose t_comma t_semi : TokenType

-- The constants of the enumeration are numbered in this order.
abbrev pub type_number : TokenType → ℕ
type_number t_bcomm = 0
type_number t_lcomm = 1
type_number t_let = 2
type_number t_if = 3
type_number t_then = 4
type_number t_else = 5
type_number t_match = 6
type_number t_case = 7
type_number t_rec = 8
type_number t_ident = 9
type_number t_under = 10
type_number t_infix = 11
type_number t_string = 12
type_number t_int = 13
type_number t_dec = 14
type_number t_op = 15
type_number t_at = 16
type_number t_eq = 17
type_number t_larrow = 18
type_number t_rarrow = 19
type_number t_ellips = 20
type_number t_bslash = 21
type_number t_popen = 22
type_number t_pclose = 23
type_number t_sopen = 24
type_number t_sclose = 25
type_number t_copen = 26
type_number t_cclose = 27
type_number t_comma = 28
type_number t_semi = 29

abbrev pub same_type : TokenType → TokenType → Bool
same_type a b = type_number a == type_number b

-- `len` bytes from `str` on.
pub record Token : Type 0 where
  pub type : TokenType
  pub str : List ℕ
  pub len : ℕ

pub data LexResult : Type 0 where
  lex_none lex_ok lex_eeoi lex_enum : LexResult

-- How a run of the lexer ends. `out_of_bounds` is a read behind the terminator, and `stuck` the end
-- of the fuel of `token_next`'s loop.
pub data Lexed : Type 0 where
  lexed : LexResult → Token → Lexed
  out_of_bounds stuck : Lexed

-- The classes of <ctype.h> in the C locale.
abbrev pub isdigit : ℕ → Bool
isdigit c = leb b'0' c && leb c b'9'

abbrev pub isalpha : ℕ → Bool
isalpha c = (leb b'a' c && leb c b'z') || (leb b'A' c && leb c b'Z')

abbrev pub isalnum : ℕ → Bool
isalnum c = isalpha c || isdigit c

abbrev pub isspace : ℕ → Bool
isspace c = c == 0x20 || (leb 9 c && leb c 13)

-- `strchr` on a character other than NUL.
unfoldable pub strchr : List ℕ → ℕ → Bool
strchr [] c = false
strchr (d ∷ s) c = d == c || strchr s c

abbrev pub op_charset : List ℕ
op_charset =
    b'~' ∷ b'!' ∷ b'@' ∷ b'#' ∷ b'$' ∷ b'%' ∷ b'^' ∷ b'&' ∷ b'*' ∷ b'-' ∷ b'+' ∷ b'=' ∷ b'|' ∷ b':'
    ∷ b'<' ∷ b'>' ∷ b'.' ∷ b'/' ∷ b'?' ∷ []

abbrev pub keywords : List (List ℕ × TokenType)
keywords =
    (b'l' ∷ b'e' ∷ b't' ∷ [], t_let)
    ∷ (b'i' ∷ b'f' ∷ [], t_if)
    ∷ (b't' ∷ b'h' ∷ b'e' ∷ b'n' ∷ [], t_then)
    ∷ (b'e' ∷ b'l' ∷ b's' ∷ b'e' ∷ [], t_else)
    ∷ (b'm' ∷ b'a' ∷ b't' ∷ b'c' ∷ b'h' ∷ [], t_match)
    ∷ (b'c' ∷ b'a' ∷ b's' ∷ b'e' ∷ [], t_case)
    ∷ (b'r' ∷ b'e' ∷ b'c' ∷ [], t_rec)
    ∷ (b'_' ∷ [], t_under)
    ∷ []

abbrev pub keyword_glyphs : List (List ℕ × TokenType)
keyword_glyphs =
    (b'@' ∷ [], t_at)
    ∷ (b'=' ∷ [], t_eq)
    ∷ (b'<' ∷ b'-' ∷ [], t_larrow)
    ∷ (b'-' ∷ b'>' ∷ [], t_rarrow)
    ∷ (b'.' ∷ b'.' ∷ b'.' ∷ [], t_ellips)
    ∷ []

abbrev pub keyword_chars : List (List ℕ × TokenType)
keyword_chars =
    (b'\\' ∷ [], t_bslash)
    ∷ (0x28 ∷ [], t_popen)
    ∷ (0x29 ∷ [], t_pclose)
    ∷ (0x5b ∷ [], t_sopen)
    ∷ (0x5d ∷ [], t_sclose)
    ∷ (0x7b ∷ [], t_copen)
    ∷ (0x7d ∷ [], t_cclose)
    ∷ (0x2c ∷ [], t_comma)
    ∷ (0x3b ∷ [], t_semi)
    ∷ []

abbrev pub token_string : Token → List ℕ
token_string t = take t.len t.str

-- The type of the keyword that a string is.
unfoldable pub lookup_keyword : List (List ℕ × TokenType) → List ℕ → Option TokenType
lookup_keyword [] s = none
lookup_keyword ((kw, type) ∷ kws) s = if string_eq s kw then some type else lookup_keyword kws s

unfoldable pub token_find_keyword : List (List ℕ × TokenType) → Token → LexResult × Token
unfolding lookup_keyword
token_find_keyword kws t = elim (lookup_keyword kws (token_string t)) [
  | some type ↦ (lex_ok, record t { type = type })
  | none ↦ (lex_none, t)
]
