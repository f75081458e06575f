-- ===== src/Buffer/Growth.antt =====
-- The doubling loop of `buffer_grow` ends by its test.
use chammer.Prelude.{ℕ, zero, suc, ◌+◌, ◌*◌, ◌%◌, ◌^◌, ◌<◌, ◌≤◌, ◌≡◌, refl, arith}
use native.Mathlib.Nat.{pow-suc}
use chammer.Buffer.{grow_loop}

double_pow : (c f : ℕ) → c * 2 * 2 ^ f ≡ c * 2 ^ suc f
double_pow c f = rw pow-suc (omega arith)

no_wrap : (c : ℕ) → c < 2 ^ 63 → c * 2 % 2 ^ 64 ≡ c * 2
no_wrap c h = omega arith

-- With room for `fuel` doublings to pass the length the loop passes it.
pub grow_loop_enough :
    (fuel min_len c : ℕ)
    → min_len < 2 ^ 63
    → min_len + 1 ≤ c * 2 ^ fuel
    → min_len + 1 ≤ grow_loop fuel min_len c
unfolding grow_loop
grow_loop_enough zero min_len c small h = omega arith
grow_loop_enough (suc fuel) min_len c small h =
    ground
      (arith, no_wrap c, double_pow c fuel, grow_loop_enough fuel min_len (c * 2 % 2 ^ 64) small)

pub grow_loop_le : (fuel min_len c : ℕ) → min_len < 2 ^ 63 → c ≤ grow_loop fuel min_len c
unfolding grow_loop
grow_loop_le zero min_len c small = omega arith
grow_loop_le (suc fuel) min_len c small =
    ground (arith, no_wrap c, grow_loop_le fuel min_len (c * 2 % 2 ^ 64) small)

-- A loop that starts with room does nothing.
pub grow_loop_done : (fuel min_len c : ℕ) → min_len + 1 ≤ c → grow_loop fuel min_len c ≡ c
unfolding grow_loop
grow_loop_done zero min_len c h = refl
grow_loop_done (suc fuel) min_len c h = ground arith

pub grow_loop_room :
    (min_len c : ℕ) → 0 < c → min_len < 2 ^ 63 → min_len + 1 ≤ grow_loop 64 min_len c
grow_loop_room min_len c h small = grow_loop_enough 64 min_len c small (omega arith)
