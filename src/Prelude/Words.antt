-- ===== src/Prelude/Words.antt =====
-- Numbers of several bytes: the highest byte and the rest.
use native.Mathlib.Nat.{
  one-le-pow, pow-suc, div-lt_iff_lt-mul, mod-lt, div-add-mod, add-mul-mod_self_right, mod-eq_of_lt,
  mul-le-mul_right,
}
use mri.Prelude.{ℕ, suc, ◌+◌, ◌*◌, ◌/◌, ◌%◌, ◌^◌, ◌<◌, ◌≡◌, ap, ◌∙◌, subst, arith}

pub pow_pos : (n : ℕ) → 0 < 256 ^ n
pow_pos n = one-le-pow n 256 (omega arith)

pub top_byte-lt : (value n : ℕ) → value < 256 ^ suc n → value / 256 ^ n < 256
top_byte-lt value n h =
    (div-lt_iff_lt-mul (pow_pos n)).1 (
      subst (λ k. value < k) {x = 256 ^ suc n} {y = 256 * 256 ^ n} (omega (arith, pow-suc 256 n)) h)

pub lt_of_top_byte : (value n : ℕ) → value / 256 ^ n ≡ 0 → value < 256 ^ n
lt_of_top_byte value n h =
    omega (arith, (div-lt_iff_lt-mul {x = value} {y = 1} (pow_pos n)).0 (omega arith))

split_by : (value p : ℕ) → 0 < p → value % (256 * p) ≡ value / p % 256 * p + value % p
split_by value p h =
    let q : ℕ = value / p in
    let low : ℕ = q % 256 * p + value % p in
    let whole : value ≡ low + q / 256 * (256 * p) =
      omega (arith, div-add-mod value p, ap (λ (t : ℕ). t * p) (div-add-mod q 256)) in
    let small : low < 256 * p =
      omega (arith, mod-lt value h, mul-le-mul_right {m = q % 256} {n = 255} p (omega arith)) in
    ap (λ k. k % (256 * p)) whole
    ∙ add-mul-mod_self_right low (q / 256) (256 * p)
    ∙ mod-eq_of_lt small

-- The low bytes of a value are the highest of them and the others.
pub mod-pow_suc :
    (value n : ℕ) → value % 256 ^ suc n ≡ value / 256 ^ n % 256 * 256 ^ n + value % 256 ^ n
mod-pow_suc value n =
    ap (λ k. value % k) {x = 256 ^ suc n} {y = 256 * 256 ^ n} (omega (arith, pow-suc 256 n))
    ∙ split_by value (256 ^ n) (pow_pos n)
