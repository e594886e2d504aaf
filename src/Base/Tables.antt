-- ===== src/Base/Tables.antt =====
-- A property of small numbers, checked by evaluation at each of them.
use Prim.Native.Nat.{ℕ, zero, suc, ◌<◌}
use mathlib.Core.Path.{◌≡◌}
use mathlib.Core.Bool.{Bool, true, ◌&&◌}
use native.Mathlib.Omega.{arith}

unfoldable pub all_below : ℕ → (ℕ → Bool) → Bool
all_below zero test = true
all_below (suc n) test = all_below n test && test n

pub all_below_sound :
    (n : ℕ) (test : ℕ → Bool) → all_below n test ≡ true → (j : ℕ) → j < n → test j ≡ true
unfolding all_below
all_below_sound (suc n) test all j h =
    let rest : all_below n test ≡ true → j < n → test j ≡ true =
      λ below. all_below_sound n test below j in
    ground (arith, rest, all)
all_below_sound zero test all j h = absurd (omega arith)
