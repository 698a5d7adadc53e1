-- ===== src/Prelude/Bits.antt =====
-- Masking by `2 ^ k - 1`, as the source does to stay inside a table of a power of two.
use Prim.Native.Nat.{
  ℕ, zero, suc, ◌+◌, ◌-◌, ◌*◌, ◌/◌, ◌%◌, ◌^◌, ◌≤◌, ◌<◌, min, bit_and, digits, bit_and-bitwise,
}
use mathlib.Core.Path.{◌≡◌, refl, ap, ◌∙◌}
use native.Mathlib.Nat.{
  pow-suc, div-add-mod', mul-add-mod_self_right, mod-eq_of_lt, mod-lt, mod-one, le_refl, add-zero,
}
use native.Mathlib.Omega.{arith}

pub pow-pos : (k : ℕ) → 0 < 2 ^ k
pow-pos zero = omega arith
pow-pos (suc k) = omega (arith, pow-suc 2 k, pow-pos k)

-- A remainder is known by its quotient.
mod_of_parts : (a q r n : ℕ) → a ≡ q * n + r → r < n → a % n ≡ r
mod_of_parts a q r n e h = rw e (mul-add-mod_self_right q n r ∙ mod-eq_of_lt h)

mod-pow-suc : (k a : ℕ) → a % 2 ^ suc k ≡ (a / 2 % 2 ^ k) * 2 + a % 2
mod-pow-suc k a =
    mod_of_parts a (a / 2 / 2 ^ k) _ (2 ^ suc k)
      (rw pow-suc (omega (arith, div-add-mod' (a / 2) (2 ^ k))))
      (rw pow-suc (omega (arith, mod-lt (a / 2) (pow-pos k))))

digits-mask : (n k a : ℕ) → a ≤ n → digits (λ _. 0) min n a (2 ^ k - 1) ≡ a % 2 ^ k
digits-mask zero k zero h = omega (arith, mod-eq_of_lt (pow-pos k))
digits-mask zero k (suc a) h = absurd (omega arith)
digits-mask (suc n) k zero h = omega (arith, mod-eq_of_lt (pow-pos k))
digits-mask (suc n) zero (suc a) h =
    omega
      (arith, digits-mask n zero (suc a / 2) (omega arith), mod-one (suc a / 2), mod-one (suc a))
digits-mask (suc n) (suc k) (suc a) h = omega (
  arith,
  ap (λ b. digits (λ _. 0) min n (suc a / 2) b) half,
  odd,
  digits-mask n k (suc a / 2) (omega arith),
  mod-pow-suc k (suc a),
)
  where
    half : (2 ^ suc k - 1) / 2 ≡ 2 ^ k - 1
    half = rw pow-suc (omega (arith, pow-pos k))

    odd : (2 ^ suc k - 1) % 2 ≡ 1
    odd = rw pow-suc (omega (arith, pow-pos k))

pub bit_and-mask : (k a : ℕ) → bit_and a (2 ^ k - 1) ≡ a % 2 ^ k
bit_and-mask k a = bit_and-bitwise a (2 ^ k - 1) ∙ digits-mask a k a (le_refl a)

-- A larger power of two is a multiple of a smaller one.
pub pow-split : (k j n : ℕ) → k + j ≡ n → 2 ^ n ≡ 2 ^ j * 2 ^ k
pow-split k zero n e = rw (← e, add-zero) (omega arith)
pow-split k (suc j) n e =
    let e' : suc (k + j) ≡ n = omega arith in
    rw (← e', pow-suc 2 (k + j), pow-suc 2 j)
      (omega (arith, ap (λ x. x * 2) (pow-split k j (k + j) refl)))

-- The modulus of a 64-bit word is made up of whole tables of `2 ^ k` slots.
pub word-multiple : (k : ℕ) → k < 64 → (q : ℕ) × (2 ^ 64 ≡ q * 2 ^ k + 2 ^ k)
word-multiple k h = go (2 ^ (64 - k)) (pow-pos (64 - k)) (pow-split k (64 - k) 64 (omega arith))
  where
    go : (x : ℕ) → 0 < x → 2 ^ 64 ≡ x * 2 ^ k → (q : ℕ) × (2 ^ 64 ≡ q * 2 ^ k + 2 ^ k)
    go zero p e = absurd (omega arith)
    go (suc q) p e = (q, omega arith)
