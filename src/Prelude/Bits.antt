-- ===== src/Prelude/Bits.antt =====
-- `&` with a mask of low bits is a remainder, for every width.
use Prim.Native.Nat.{
  ℕ, zero, suc, ◌+◌, ◌-◌, ◌*◌, ◌/◌, ◌%◌, ◌^◌, ◌≤◌, ◌<◌, min, bit_and, digits, bit_and-bitwise,
}
use mathlib.Core.Path.{◌≡◌, sym, ap, ◌∙◌}
use native.Mathlib.Nat.{pow-suc, mod-eq_of_lt, mod-lt, div-add-mod, mul-add-mod_self_left}
use native.Mathlib.Omega.{arith}

pub pow_pos : (k : ℕ) → 0 < 2 ^ k
pow_pos zero = omega arith
pow_pos (suc k) = omega (arith, pow-suc 2 k, pow_pos k)

-- The remainder by `p * 2`, from the remainder of the half by `p`.
mod_double : (a p : ℕ) → 0 < p → a % (p * 2) ≡ a / 2 % p * 2 + a % 2
mod_double a p h =
    let r = a / 2 % p * 2 + a % 2 in
    let small : r < p * 2 = omega (arith, mod-lt (a / 2) h) in
    let split : a ≡ p * 2 * (a / 2 / p) + r = omega (arith, div-add-mod (a / 2) p) in
    ap (λ t. t % (p * 2)) split ∙ mul-add-mod_self_left (p * 2) (a / 2 / p) r ∙ mod-eq_of_lt small

-- what the native `bit_and` computes, digit by digit
abbrev meet : ℕ → ℕ → ℕ → ℕ
meet = digits (λ y. 0) min

-- A mask of k ones keeps the k low digits.
meet-mask : (fuel k x : ℕ) → x ≤ fuel → meet fuel x (2 ^ k - 1) ≡ x % 2 ^ k
meet-mask zero k x h = omega (arith, mod-eq_of_lt {n = x} {m = 2 ^ k} (omega (arith, pow_pos k)))
meet-mask (suc fuel) k zero h = sym (mod-eq_of_lt (pow_pos k))
meet-mask (suc fuel) zero (suc x) h = omega (arith, meet-mask fuel zero (suc x / 2) (omega arith))
meet-mask (suc fuel) (suc k) (suc x) h =
    let p = 2 ^ k in
    let half : (p * 2 - 1) / 2 ≡ p - 1 = omega (arith, pow_pos k) in
    let rest : meet fuel (suc x / 2) ((p * 2 - 1) / 2) ≡ suc x / 2 % p =
      rw half (meet-mask fuel k (suc x / 2) (omega arith)) in
    rw (pow-suc 2 k) (omega (arith, rest, pow_pos k, mod_double (suc x) p (pow_pos k)))

pub bit_and_mask : (k a : ℕ) → bit_and a (2 ^ k - 1) ≡ a % 2 ^ k
bit_and_mask k a = bit_and-bitwise a (2 ^ k - 1) ∙ meet-mask a k a (omega arith)
