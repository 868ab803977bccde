-- ===== src/Base/Bits.antt =====
-- The binary digits of `&` and `|`.
use arduino_spider_l3s_libra.Base.Digits.{bitwise_halves}
use native.Mathlib.Omega.{arith}
use native.Mathlib.Nat.{pow-suc, div-div-eq-div-mul, mul_comm}
use mathlib.Core.Path.{◌≡◌, sym, ap, ◌∙◌}
use Prim.Native.Nat.{bit_and, bit_or, bit_and-bitwise, bit_or-bitwise}
use Prim.Native.Nat.{ℕ, zero, suc, min, max, ◌≤◌, ◌+◌, ◌*◌, ◌^◌, ◌/◌, ◌%◌}

-- One step of `|` and of `&`: the lowest digit, and the operation on the halves.
or_halves : (a b : ℕ) → bit_or a b ≡ max (a % 2) (b % 2) + 2 * bit_or (a / 2) (b / 2)
or_halves zero b = omega (arith, bit_or-bitwise zero b, bit_or-bitwise zero (b / 2))
or_halves (suc a) b = omega (
  arith,
  bit_or-bitwise (suc a) b,
  bit_or-bitwise (suc a / 2) (b / 2),
  bitwise_halves (λ rest. rest) max (suc a) b (omega arith),
)

and_halves : (a b : ℕ) → bit_and a b ≡ min (a % 2) (b % 2) + 2 * bit_and (a / 2) (b / 2)
and_halves zero b = omega (arith, bit_and-bitwise zero b, bit_and-bitwise zero (b / 2))
and_halves (suc a) b = omega (
  arith,
  bit_and-bitwise (suc a) b,
  bit_and-bitwise (suc a / 2) (b / 2),
  bitwise_halves (λ rest. 0) min (suc a) b (omega arith),
)

-- Digit `j` of a number.
abbrev pub digit : ℕ → ℕ → ℕ
digit j a = a / 2 ^ j % 2

pub digit-suc : (j a : ℕ) → digit (suc j) a ≡ digit j (a / 2)
digit-suc j a =
    ap (λ t. t % 2)
      (ap (λ t. a / t) (pow-suc 2 j ∙ mul_comm (2 ^ j) 2) ∙ sym (div-div-eq-div-mul a 2 (2 ^ j)))

pub digit-bit_and : (j a b : ℕ) → digit j (bit_and a b) ≡ min (digit j a) (digit j b)
digit-bit_and zero a b = omega (arith, and_halves a b)
digit-bit_and (suc j) a b =
    rw (digit-suc j (bit_and a b), digit-suc j a, digit-suc j b, half)
      (digit-bit_and j (a / 2) (b / 2))
  where
    half : bit_and a b / 2 ≡ bit_and (a / 2) (b / 2)
    half = omega (arith, and_halves a b)

pub digit-bit_or : (j a b : ℕ) → digit j (bit_or a b) ≡ max (digit j a) (digit j b)
digit-bit_or zero a b = omega (arith, or_halves a b)
digit-bit_or (suc j) a b =
    rw (digit-suc j (bit_or a b), digit-suc j a, digit-suc j b, half)
      (digit-bit_or j (a / 2) (b / 2))
  where
    half : bit_or a b / 2 ≡ bit_or (a / 2) (b / 2)
    half = omega (arith, or_halves a b)

zero_and : (a : ℕ) → bit_and 0 a ≡ 0
zero_and a = bit_and-bitwise 0 a

and-zero_fuel : (n a : ℕ) → a ≤ n → bit_and a 0 ≡ 0
and-zero_fuel zero a h = let e : a ≡ 0 = omega arith in rw e
and-zero_fuel (suc n) a h = omega (arith, and_halves a 0, and-zero_fuel n (a / 2) (omega arith))

-- A mask of one digit keeps that digit.
pub bit_and-pow : (j a : ℕ) → bit_and a (2 ^ j) ≡ digit j a * 2 ^ j
bit_and-pow zero a =
    omega (arith, and_halves a (2 ^ 0), and-zero_fuel (a / 2) (a / 2) (omega arith))
bit_and-pow (suc j) a = omega (
  arith,
  and_halves a (2 ^ suc j),
  pow-suc 2 j,
  halved,
  bit_and-pow j (a / 2),
  ap (λ t. t * 2 ^ suc j) (digit-suc j a),
  ap (λ t. digit j (a / 2) * t) (pow-suc 2 j),
)
  where
    halved : bit_and (a / 2) (2 ^ suc j / 2) ≡ bit_and (a / 2) (2 ^ j)
    halved = let e : 2 ^ suc j / 2 ≡ 2 ^ j = omega (arith, pow-suc 2 j) in rw e
