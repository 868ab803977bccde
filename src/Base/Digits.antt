-- ===== src/Base/Digits.antt =====
-- The recursion on binary digits that the native `^`, `&` and `|` stand for, without its fuel.
use Prim.Native.Nat.{ℕ, zero, suc, ◌+◌, ◌*◌, ◌/◌, ◌%◌, ◌≤◌, ◌<◌, digits, bitwise}
use mathlib.Core.Path.{◌≡◌, refl, ap, ◌∙◌}
use mathlib.Core.Logic.{◌⊎◌, inl, inr}
use native.Mathlib.Omega.{arith}

module _ (at_end : ℕ → ℕ) (combine : ℕ → ℕ → ℕ) where
  abbrev run : ℕ → ℕ → ℕ → ℕ
  run fuel a b = digits at_end combine fuel a b

  -- A unit of fuel more changes nothing once there is enough.
  run-suc : (a b fuel : ℕ) → a ≤ fuel → run (suc fuel) a b ≡ run fuel a b
  run-suc zero b zero enough = refl
  run-suc zero b (suc fuel) enough = refl
  run-suc (suc a) b zero enough = absurd (omega arith)
  run-suc (suc a) b (suc fuel) enough =
      ap (λ high. high * 2 + combine (suc a % 2) (b % 2))
        (run-suc (suc a / 2) (b / 2) fuel (omega arith))

  enough_or_exact : (a fuel : ℕ) → a ≤ suc fuel → (a ≤ fuel) ⊎ (a ≡ suc fuel)
  enough_or_exact a fuel h = ground arith

  run_exact : (fuel a b : ℕ) → a ≤ fuel → run fuel a b ≡ bitwise at_end combine a b
  run_exact zero zero b enough = refl
  run_exact zero (suc a) b enough = absurd (omega arith)
  run_exact (suc fuel) a b enough = elim (enough_or_exact a fuel enough) [
    | inl less ↦ run-suc a b fuel less ∙ run_exact fuel a b less
    | inr exact ↦ rw exact refl
  ]

  -- The lowest digits of the operands, and the operation on the others.
  pub bitwise_halves :
      (a b : ℕ)
      → 0 < a
      → bitwise at_end combine a b
        ≡ bitwise at_end combine (a / 2) (b / 2) * 2 + combine (a % 2) (b % 2)
  bitwise_halves zero b h = absurd (omega arith)
  bitwise_halves (suc a) b h =
      ap (λ high. high * 2 + combine (suc a % 2) (b % 2))
        (run_exact a (suc a / 2) (b / 2) (omega arith))
