-- ===== src/Base/Table.antt =====
-- Facts over all bytes, by evaluation.
use arduino_spider_l3s_libra.Base.Tests.{◌==◌, ==_iff}
use Prim.Native.Nat.{ℕ, zero, suc, ◌<◌}
use mathlib.Core.Path.{◌≡◌}
use mathlib.Core.Bool.{Bool, true, ◌&&◌}
use native.Mathlib.Omega.{arith}

unfoldable pub all_below : ℕ → (ℕ → Bool) → Bool
all_below zero p = true
all_below (suc n) p = p n && all_below n p

pub at_all_below : (p : ℕ → Bool) (n x : ℕ) → x < n → all_below n p ≡ true → p x ≡ true
unfolding all_below
at_all_below p zero x small table = absurd (omega arith)
at_all_below p (suc n) x small table = ground (arith, at_all_below p n x)

-- Two functions that agree on all values below `n`, by evaluation.
pub eq_below :
    (n : ℕ) (f g : ℕ → ℕ) → all_below n (λ x. f x == g x) ≡ true → (x : ℕ) → x < n → f x ≡ g x
eq_below n f g table x h = (==_iff _ _).0 (at_all_below _ n x h table)
