-- ===== src/Prelude/Int.antt =====
-- Signed integers over the native numbers (the library's ℤ stands on another ℕ), and the
-- two's complement patterns by which the C types hold them.
use chammer.Prelude.Tests.{ltb, leb, if◌then◌else◌}
use Prim.Native.Nat.{ℕ, suc, ◌+◌, ◌-◌, ◌*◌, ◌/◌, ◌%◌, ◌<◌}
use mathlib.Core.Bool.{Bool}

-- `negsuc n` is -(n + 1).
pub data ℤ : Type 0 where
  pos : ℕ → ℤ
  negsuc : ℕ → ℤ

abbrev pub pos_part : ℤ → ℕ
pos_part (pos n) = n
pos_part (negsuc n) = 0

abbrev pub neg_part : ℤ → ℕ
neg_part (pos n) = 0
neg_part (negsuc n) = suc n

-- a - b, as an integer.
abbrev pub sub_ℕ : ℕ → ℕ → ℤ
sub_ℕ a b = if leb b a then pos (a - b) else negsuc (b - a - 1)

infixl 65 ◌+ℤ◌ ◌-ℤ◌
abbrev pub ◌+ℤ◌ : ℤ → ℤ → ℤ
a +ℤ b = sub_ℕ (pos_part a + pos_part b) (neg_part a + neg_part b)

abbrev pub ◌-ℤ◌ : ℤ → ℤ → ℤ
a -ℤ b = sub_ℕ (pos_part a + neg_part b) (neg_part a + pos_part b)

-- The value that a pattern of modulus `m` stands for, and the pattern of a value.
abbrev pub signed : ℕ → ℕ → ℤ
signed m w = if ltb (w * 2) m then pos w else negsuc (m - w - 1)

abbrev pub pattern_of : ℕ → ℤ → ℕ
pattern_of m (pos n) = n % m
pattern_of m (negsuc n) = m - 1 - n % m

-- The values that a signed type of modulus `m` has.
abbrev pub IsSigned : ℕ → ℤ → Type 0
IsSigned m (pos n) = n * 2 < m
IsSigned m (negsuc n) = n * 2 < m

abbrev pub is_signed : ℕ → ℤ → Bool
is_signed m (pos n) = ltb (n * 2) m
is_signed m (negsuc n) = ltb (n * 2) m

-- `v >> k` with `p = 2 ^ k` rounds down, and `& 0xff` keeps the low byte of the pattern.
abbrev pub shr : ℤ → ℕ → ℤ
shr (pos n) p = pos (n / p)
shr (negsuc n) p = negsuc (n / p)

abbrev pub low_byte : ℤ → ℕ
low_byte (pos n) = n % 256
low_byte (negsuc n) = 255 - n % 256

abbrev pub lt_ℤ : ℤ → ℤ → Bool
lt_ℤ a b = ltb (pos_part a + neg_part b) (pos_part b + neg_part a)
