-- ===== src/Prelude/Word.antt =====
-- `uint64_t` arithmetic: the wrap-around is written out.
use Prim.Native.Nat.{ℕ, ◌+◌, ◌-◌, ◌%◌, ◌^◌, ◌≤◌, ◌<◌}
use mathlib.Core.Path.{◌≡◌}
use native.Mathlib.Omega.{arith}

abbrev pub add_64 : ℕ → ℕ → ℕ
add_64 a b = (a + b) % 2 ^ 64

abbrev pub sub_64 : ℕ → ℕ → ℕ
sub_64 a b = (a + 2 ^ 64 - b) % 2 ^ 64

-- The values of a `uint64_t`.
abbrev pub IsWord : ℕ → Type 0
IsWord a = a < 2 ^ 64

pub sub_64_of_le : (a b : ℕ) → b ≤ a → IsWord a → sub_64 a b ≡ a - b
sub_64_of_le a b h w = omega arith

pub sub_64_of_lt : (a b : ℕ) → a < b → IsWord b → sub_64 a b ≡ 2 ^ 64 - (b - a)
sub_64_of_lt a b h w = omega arith
