-- ===== src/Aes/Galois.antt =====
-- `galois_mul2` is linear for `^`.
use arduino_spider_l3s_libra.Base.{
  ℕ, zero, suc, ap, ap₂, sym, ◌∙◌, ◌*◌, ◌%◌, ◌/◌, ◌^◌, ◌<◌, ◌==◌, bit_xor, ◌≡◌, refl, Bool, true,
}
use arduino_spider_l3s_libra.Base.{arith, u8, ◌>>>◌, if◌then◌else◌, not, ==_iff}
use arduino_spider_l3s_libra.Base.Table.{all_below, at_all_below}
use arduino_spider_l3s_libra.Base.Xor.{bit_xor_step, xor-IsByte}
use native.Mathlib.Nat.{mul_comm, mul_assoc, pow-suc, mod_def, div-div-eq-div-mul}

-- The parameter is a UINT8, and so is what `value << 1` is stored in.
unfoldable pub galois_mul2 : ℕ → ℕ
galois_mul2 v =
    let value = u8 v in
    if not (value >>> 7 == 0) then bit_xor (u8 (value * 2)) 0x1b else u8 (value * 2)

linear_at : ℕ → ℕ → Bool
linear_at a b = galois_mul2 (bit_xor a b) == bit_xor (galois_mul2 a) (galois_mul2 b)

linear_table : all_below 256 (λ a. all_below 256 (linear_at a)) ≡ true
unfolding all_below linear_at galois_mul2
linear_table = refl

half-mod : (m x : ℕ) → x % (m * 2) / 2 ≡ x / 2 % m
half-mod m x = omega (arith, mod_def x (m * 2), mod_def (x / 2) m, twice)
  where
    twice : m * 2 * (x / (m * 2)) ≡ 2 * (m * (x / 2 / m))
    twice = rw (mul_comm m 2, ← div-div-eq-div-mul x 2 m) (mul_assoc 2 m _)

mod_one : (x : ℕ) → x % 2 ^ 0 ≡ 0
mod_one x = omega arith

xor-mod-pow : (k a b : ℕ) → bit_xor a b % 2 ^ k ≡ bit_xor (a % 2 ^ k) (b % 2 ^ k)
xor-mod-pow zero a b = rw (mod_one a, mod_one b) (omega arith)
xor-mod-pow (suc k) a b = rw pow-suc (
    omega (
      arith,
      bit_xor_step a b,
      bit_xor_step (a % (2 ^ k * 2)) (b % (2 ^ k * 2)),
      halves,
      half-mod (2 ^ k) (bit_xor a b),
      ap (λ t. t % 2 ^ k) below,
      xor-mod-pow k (a / 2) (b / 2),
      parity a,
      parity b,
      parity (bit_xor a b),
    ))
  where
    below : bit_xor a b / 2 ≡ bit_xor (a / 2) (b / 2)
    below = omega (arith, bit_xor_step a b)

    parity : (x : ℕ) → x % (2 ^ k * 2) % 2 ≡ x % 2
    parity x = omega (arith, mod_def x (2 ^ k * 2))

    halves :
        bit_xor (a % (2 ^ k * 2) / 2) (b % (2 ^ k * 2) / 2)
        ≡ bit_xor (a / 2 % 2 ^ k) (b / 2 % 2 ^ k)
    halves = rw (half-mod (2 ^ k) a, half-mod (2 ^ k) b)

pub u8-xor : (a b : ℕ) → u8 (bit_xor a b) ≡ bit_xor (u8 a) (u8 b)
u8-xor a b = xor-mod-pow 8 a b

mul2_cast : (v : ℕ) → galois_mul2 v ≡ galois_mul2 (u8 v)
unfolding galois_mul2
mul2_cast v = let e : u8 (u8 v) ≡ u8 v = omega arith in rw e

pub mul2-xor : (a b : ℕ) → galois_mul2 (bit_xor a b) ≡ bit_xor (galois_mul2 a) (galois_mul2 b)
unfolding linear_at
mul2-xor a b =
    mul2_cast (bit_xor a b)
    ∙ (ap galois_mul2 (u8-xor a b)
        ∙ (on_bytes ∙ ap₂ bit_xor (sym (mul2_cast a)) (sym (mul2_cast b))))
  where
    row : all_below 256 (linear_at (u8 a)) ≡ true
    row = at_all_below (λ x. all_below 256 (linear_at x)) 256 (u8 a) (omega arith) linear_table

    on_bytes :
        galois_mul2 (bit_xor (u8 a) (u8 b)) ≡ bit_xor (galois_mul2 (u8 a)) (galois_mul2 (u8 b))
    on_bytes = (==_iff _ _).0 (at_all_below (linear_at (u8 a)) 256 (u8 b) (omega arith) row)

pub mul2-IsByte : (v : ℕ) → galois_mul2 v < 256
unfolding galois_mul2
mul2-IsByte v = ground (arith, xor-IsByte (u8 (u8 v * 2)) 0x1b)
