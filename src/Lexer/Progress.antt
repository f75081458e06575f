-- ===== src/Lexer/Progress.antt =====
-- A token that is found is not empty and lies within the text; the lexer never loops, and never
-- reads behind the terminator but at an opening `{-` that the text ends with.
use chammer.Prelude.{
  ℕ, zero, suc, ◌<◌, ◌≤◌, ◌≡◌, refl, sym, Bool, true, false, ◌&&◌, not, List, [], ◌∷◌, arith,
  length, drop, inl, inr, length-drop, Bool-cases,
}
use mathlib.Core.Path.{subst}
use chammer.Lexer.{
  token_at, token_next_once, skip_space, token_is_comment, next_loop, token_next, after_round,
}
use chammer.Tokens.{Token, lex_none, lex_ok, lex_eeoi, lex_enum, Lexed, lexed, out_of_bounds, stuck}
use chammer.Lexer.Scan.{skip_space-IsSuffix, IsSuffix, IsSuffix-trans, drop-IsSuffix}
use chammer.Lexer.Within.{WithinLexed, token_at-Within}

-- What a run from the text `start` on may end with.
abbrev pub Outcome : Bool → List ℕ → Lexed → Type 0
Outcome comments start (lexed lex_ok t) =
    IsSuffix t.str start
    × (1 ≤ t.len)
    × (t.len ≤ length t.str)
    × ((token_is_comment t && not comments) ≡ false)
Outcome comments start (lexed r t) = IsSuffix t.str start
Outcome comments start out_of_bounds = IsSuffix (0x7b ∷ b'-' ∷ []) start
Outcome comments start stuck = ⊥

token_next_once-WithinLexed :
    (t : Token) → WithinLexed (skip_space (drop t.len t.str)) (token_next_once t)
unfolding token_next_once
token_next_once-WithinLexed t =
    elim (skip_space (drop t.len t.str))
      as (λ s. WithinLexed s (elim s [
        | [] ↦ lexed lex_none (record t { str = [] })
        | c ∷ s ↦ token_at (record t { str = c ∷ s })
      ])) [ [] ↦ refl | c ∷ s ↦ token_at-Within (record t { str = c ∷ s }) ]

Outcome-weaken :
    (comments : Bool) (r s : List ℕ) (x : Lexed)
    → IsSuffix r s
    → Outcome comments r x
    → Outcome comments s x
Outcome-weaken c r s (lexed lex_ok t) i (j, lo, hi, e) = (IsSuffix-trans t.str r s j i, lo, hi, e)
Outcome-weaken c r s (lexed lex_none t) i j = IsSuffix-trans t.str r s j i
Outcome-weaken c r s (lexed lex_eeoi t) i j = IsSuffix-trans t.str r s j i
Outcome-weaken c r s (lexed lex_enum t) i j = IsSuffix-trans t.str r s j i
Outcome-weaken c r s out_of_bounds i j = IsSuffix-trans (0x7b ∷ b'-' ∷ []) r s j i
Outcome-weaken c r s stuck i j = j

after_round-Outcome :
    (again : Token → Lexed) (comments : Bool) (start s : List ℕ) (x : Lexed)
    → IsSuffix s start
    → WithinLexed s x
    → ((t : Token)
        → IsSuffix t.str start
        → length (drop t.len t.str) < length s
        → Outcome comments (drop t.len t.str) (again t))
    → Outcome comments start (after_round again comments x)
unfolding after_round
after_round-Outcome again comments start s (lexed lex_ok t) i (e, lo, hi) f =
    let here : IsSuffix t.str start = rw e i in
    let inside : t.len ≤ length t.str = rw e hi in
    let more : Outcome comments start (again t) =
      Outcome-weaken comments (drop t.len t.str) start (again t)
        (IsSuffix-trans (drop t.len t.str) t.str start (drop-IsSuffix t.len t.str inside) here)
        (f t here (rw (length-drop t.len t.str, e) (omega arith))) in
    elim (Bool-cases (token_is_comment t && not comments)) [
      | inl skip ↦
          subst (λ b. Outcome comments start (elim b [ true ↦ again t | false ↦ lexed lex_ok t ]))
            (sym skip) more
      | inr keep ↦
          subst (λ b. Outcome comments start (elim b [ true ↦ again t | false ↦ lexed lex_ok t ]))
            (sym keep) (here, lo, inside, keep)
    ]
after_round-Outcome again comments start s (lexed lex_none t) i e f = rw e i
after_round-Outcome again comments start s (lexed lex_eeoi t) i e f = rw e i
after_round-Outcome again comments start s (lexed lex_enum t) i e f = rw e i
after_round-Outcome again comments start s out_of_bounds i e f = subst (λ r. IsSuffix r start) e i
after_round-Outcome again comments start s stuck i e f = elim e [ ]

next_loop-Outcome :
    (fuel : ℕ) (comments : Bool) (t : Token)
    → length (drop t.len t.str) < fuel
    → Outcome comments (drop t.len t.str) (next_loop fuel comments t)
unfolding next_loop
next_loop-Outcome zero comments t h = elim h [ ]
next_loop-Outcome (suc fuel) comments t h =
    let sub = skip_space-IsSuffix (drop t.len t.str) in
    after_round-Outcome (next_loop fuel comments) comments (drop t.len t.str)
      (skip_space (drop t.len t.str)) (token_next_once t) sub (token_next_once-WithinLexed t)
      (λ t' i lt. next_loop-Outcome fuel comments t' (omega (arith, sub.2)))

pub token_next-Outcome_any :
    (comments : Bool) (t : Token) → Outcome comments (drop t.len t.str) (token_next comments t)
unfolding token_next
token_next-Outcome_any comments t =
    next_loop-Outcome (suc (length (drop t.len t.str))) comments t (omega arith)

-- From a token that lies within its text the lexer ends, with enough fuel for its loop: in a token
-- that begins at a suffix of what stands behind the first, has a byte at least, lies within its text,
-- and is no comment unless comments are asked for; or at a suffix with an error or with no token; or
-- reading behind the terminator, which it does only where a suffix of the text is just an opening
-- `{-`.
pub token_next-Outcome :
    (comments : Bool) (t : Token)
    → t.len ≤ length t.str
    → Outcome comments (drop t.len t.str) (token_next comments t)
token_next-Outcome comments t inside = token_next-Outcome_any comments t
