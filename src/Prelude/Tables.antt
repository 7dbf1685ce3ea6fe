-- ===== src/Prelude/Tables.antt =====
-- Tests on all numbers below a bound, by evaluation.
use Prim.Native.Nat.{ℕ, zero, suc, ◌<◌}
use mathlib.Core.Path.{◌≡◌}
use mathlib.Core.Bool.{Bool, true, ◌&&◌}
use native.Mathlib.Omega.{arith}

-- Whether a test passes on every number under a bound: for tests on bytes, a table by evaluation.
unfoldable pub passes : (ℕ → Bool) → ℕ → Bool
passes test zero = true
passes test (suc bound) = passes test bound && test bound

pub passes-lt :
    (test : ℕ → Bool) (bound c : ℕ) → c < bound → passes test bound ≡ true → test c ≡ true
unfolding passes
passes-lt test zero c h e = absurd (omega arith)
passes-lt test (suc bound) c h e = ground (arith, passes-lt test bound c)
