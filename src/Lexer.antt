-- ===== src/Lexer.antt =====
-- lib/lexer.h and lib/lexer.c: the lexer. A pointer into the source text is the list of the bytes
-- from it to the terminator, which `[]` stands for; the text itself holds no NUL.
pub mod Scan
pub mod Progress
pub mod Within
pub mod Literals
use chammer.Prelude.{
  ℕ, zero, suc, ◌+◌, ◌-◌, ◌%◌, ◌^◌, Bool, true, false, Option, none, some, List, [], ◌∷◌, ◌==◌,
  ◌&&◌, ◌||◌, leb, if◌then◌else◌, not, length, take, drop,
}
use chammer.Text.{string_eq}
use chammer.Tokens.{
  LexResult, Lexed, Token, isalnum, isalpha, isdigit, isspace, keyword_chars, keyword_glyphs,
  keywords, lex_eeoi, lex_enum, lex_none, lex_ok, lexed, op_charset, out_of_bounds, strchr, stuck,
  t_bcomm, t_dec, t_ident, t_infix, t_int, t_lcomm, t_op, t_string, token_find_keyword,
  token_string,
}

-- `while (p(t->str[t->len])) t->len++` from the text at `t->len` on; no `p` holds of NUL.
pub count_while : (ℕ → Bool) → List ℕ → ℕ
count_while p [] = 0
count_while p (c ∷ s) = if p c then suc (count_while p s) else 0

-- The loop of `token_next_block_comment` over the text at `t->len`, where `c` points one further.
pub block_comment_loop : List ℕ → ℕ → Option (LexResult × ℕ)
block_comment_loop [] len = none
block_comment_loop (a ∷ []) len = some (lex_eeoi, len)
block_comment_loop (a ∷ b ∷ s) len =
    let rest = block_comment_loop (b ∷ s) (len + 1) in
    if a == b'-' && b == 0x7d then some (lex_ok, len + 2) else rest

block_comment_token : Token → Option (LexResult × ℕ) → Lexed
block_comment_token t none = out_of_bounds
block_comment_token t (some (lex_ok, len)) = lexed lex_ok (record t { len = len; type = t_bcomm })
block_comment_token t (some (r, len)) = lexed r (record t { len = len })

unfoldable pub token_next_block_comment : Token → Lexed
unfolding block_comment_loop block_comment_token
token_next_block_comment t =
    if string_eq (take 2 t.str) (0x7b ∷ b'-' ∷ [])
    then block_comment_token t (block_comment_loop (drop 2 t.str) 2)
    else lexed lex_none t

unfoldable pub token_next_line_comment : Token → LexResult × Token
unfolding count_while
token_next_line_comment t =
    if string_eq (take 2 t.str) (b'-' ∷ b'-' ∷ [])
    then (
      lex_ok,
      record t {
        len = 2 + count_while (λ c. not (c == 0x0a || c == 0x0d)) (drop 2 t.str);
        type = t_lcomm;
      },
    )
    else (lex_none, t)

-- The loop of `token_next_string` over the text at `t->len`.
pub string_loop : Bool → List ℕ → ℕ → LexResult × ℕ
string_loop escape [] len = (lex_eeoi, len + 1)
string_loop escape (c ∷ s) len =
    let escaped = string_loop true s (len + 1) in
    let next = string_loop false s (len + 1) in
    if c == b'\\' then escaped else if c == 0x22 && not escape then (lex_ok, len + 1) else next

string_token : Token → LexResult × ℕ → LexResult × Token
string_token t (lex_ok, len) = (lex_ok, record t { len = len; type = t_string })
string_token t (r, len) = (r, record t { len = len })

unfoldable pub token_next_string : Token → LexResult × Token
unfolding string_loop string_token
token_next_string t = elim t.str [
  | [] ↦ (lex_none, t)
  | c ∷ s ↦ if c == 0x22 then string_token t (string_loop false s 1) else (lex_none, t)
]

abbrev pub is_word : ℕ → Bool
is_word c = isalnum c || c == b'_'

-- The result of `token_find_keyword` is not used here: a word that is no keyword stays as it is.
unfoldable pub token_next_word : Token → LexResult × Token
unfolding count_while token_find_keyword
token_next_word t = elim t.str [
  | [] ↦ (lex_none, t)
  | c ∷ s ↦
      if isalpha c || c == b'_'
      then (
        lex_ok,
        (token_find_keyword keywords
            (record t { len = 1 + count_while is_word s; type = t_ident })).1,
      )
      else (lex_none, t)
]

unfoldable pub token_next_glyph : Token → LexResult × Token
unfolding count_while token_find_keyword strchr
token_next_glyph t = elim t.str [
  | [] ↦ (lex_none, t)
  | c ∷ s ↦
      if strchr op_charset c
      then (
        lex_ok,
        (token_find_keyword keyword_glyphs
            (record t { len = 1 + count_while (strchr op_charset) s; type = t_op })).1,
      )
      else (lex_none, t)
]

unfoldable pub token_next_infix : Token → LexResult × Token
unfolding count_while
token_next_infix t = elim t.str [
  | [] ↦ (lex_none, t)
  | c ∷ s ↦
      if c == 0x60
      then (lex_ok, record t { len = 1 + count_while isalnum s; type = t_infix })
      else (lex_none, t)
]

-- Behind the digits `whole` there may be a point and a fraction; a point alone is malformed.
number_token : Token → ℕ → List ℕ → LexResult × Token
unfolding count_while
number_token t whole [] = (lex_ok, record t { len = whole; type = t_int })
number_token t whole (c ∷ s) =
    if c == b'.'
    then if count_while isdigit s == 0
      then (lex_enum, record t { len = whole + 1; type = t_dec })
      else (lex_ok, record t { len = whole + 1 + count_while isdigit s; type = t_dec })
    else (lex_ok, record t { len = whole; type = t_int })

unfoldable pub token_next_number : Token → LexResult × Token
unfolding number_token
token_next_number t = elim t.str [
  | [] ↦ (lex_none, t)
  | c ∷ s ↦
      if isdigit c
      then number_token t (1 + count_while isdigit s) (drop (count_while isdigit s) s)
      else (lex_none, t)
]

unfoldable pub token_next_char : Token → LexResult × Token
unfolding token_find_keyword
token_next_char t = token_find_keyword keyword_chars (record t { len = 1 })

-- `if ((result = f(t)) != LEX_NONE) return result;`, with the token as `f` left it.
abbrev pub otherwise : LexResult × Token → (Token → Lexed) → Lexed
otherwise (lex_none, t) k = k t
otherwise (r, t) k = lexed r t

abbrev pub otherwise_lexed : Lexed → (Token → Lexed) → Lexed
otherwise_lexed (lexed r t) k = otherwise (r, t) k
otherwise_lexed out_of_bounds k = out_of_bounds
otherwise_lexed stuck k = stuck

abbrev pub last_of : LexResult × Token → Lexed
last_of (r, t) = lexed r t

-- `while (isspace(*t->str)) t->str++`
pub skip_space : List ℕ → List ℕ
skip_space [] = []
skip_space (c ∷ s) = if isspace c then skip_space s else c ∷ s

-- The eight routines in their order, at a text that does not begin with a space.
pub token_at : Token → Lexed
unfolding token_next_block_comment token_next_line_comment token_next_string token_next_word
    token_next_glyph token_next_char token_next_infix token_next_number
token_at t = otherwise_lexed (token_next_block_comment t) λ t₁.
    otherwise (token_next_line_comment t₁) λ t₂. otherwise (token_next_string t₂) λ t₃.
      otherwise (token_next_word t₃) λ t₄. otherwise (token_next_glyph t₄) λ t₅.
        otherwise (token_next_char t₅)
          λ t₆. otherwise (token_next_infix t₆) λ t₇. last_of (token_next_number t₇)

unfoldable pub token_begin : Token → List ℕ → Token
token_begin t buffer = record t { str = buffer; len = 0 }

-- `token_next_` of the source, of a token that lies within its text: `t->str += t->len` is `drop`
-- as long as `t.len ≤ length t.str`.
unfoldable pub token_next_once : Token → Lexed
unfolding skip_space token_at
token_next_once t = elim (skip_space (drop t.len t.str)) [
  | [] ↦ lexed lex_none (record t { str = [] })
  | c ∷ s ↦ token_at (record t { str = c ∷ s })
]

abbrev pub token_is_comment : Token → Bool
token_is_comment t = elim t.type [ t_bcomm ↦ true | t_lcomm ↦ true | _ ↦ false ]

abbrev pub token_is_binary_op : Token → Bool
token_is_binary_op t = elim t.type [ t_op ↦ true | t_infix ↦ true | _ ↦ false ]

-- After a round of the loop: `again` if it found a comment that is not wanted. `comments` is the
-- flag `LEX_COMMENTS`.
after_round : (Token → Lexed) → Bool → Lexed → Lexed
after_round again comments (lexed lex_ok t) = elim (token_is_comment t && not comments) [
  | true ↦ again t
  | false ↦ lexed lex_ok t
]
after_round again comments x = x

pub next_loop : ℕ → Bool → Token → Lexed
unfolding token_next_once after_round
next_loop zero comments t = stuck
next_loop (suc fuel) comments t = after_round (next_loop fuel comments) comments (token_next_once t)

-- Every round but the last takes a byte at least.
unfoldable pub token_next : Bool → Token → Lexed
unfolding next_loop
token_next comments t = next_loop (suc (length (drop t.len t.str))) comments t

-- `none` is the panic on a token that is no identifier.
abbrev pub token_ident : Token → Option (List ℕ)
token_ident t = elim t.type [
  | t_ident ↦ some (token_string t)
  | t_op ↦ some (token_string t)
  | t_infix ↦ some (take (t.len - 1) (drop 1 t.str))
  | _ ↦ none
]

pub record Loc : Type 0 where
  pub line : ℕ
  pub col : ℕ

-- One character of the loop of `token_loc`; both counters are 16 bits wide.
abbrev pub loc_step : Loc → ℕ → Loc
loc_step l c =
    if c == 0x0a
    then record { line = (l.line + 1) % 2 ^ 16; col = 0 }
    else record l { col = (l.col + 1) % 2 ^ 16 }

pub loc_loop : Loc → List ℕ → Loc
loc_loop l [] = l
loc_loop l (c ∷ s) = loc_loop (loc_step l c) s

-- `buffer` is the text from its start, of which the token's text is a suffix.
unfoldable pub token_loc : Token → List ℕ → Loc
unfolding loc_loop
token_loc t buffer =
    loc_loop (record { line = 0; col = 0 }) (take (length buffer - length t.str) buffer)
