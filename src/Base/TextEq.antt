-- ===== src/Base/TextEq.antt =====
-- Comparing texts: from the Boolean test to equations and back.
use Prim.Native.String.{String}
use mathlib.Core.Path.{◌≡◌}
use mathlib.Core.Logic.{◌≢◌}
use mathlib.Core.Bool.{true, false}
use native.Mathlib.Omega.{arith}
use text.Mathlib.Text.{◌==◌}
use text.Mathlib.TextEquality.{eq_iff}

pub ne_of_test : (s t : String) → (s == t) ≡ false → s ≢ t
ne_of_test s t h = ground (arith, eq_iff s t)

pub test_of_ne : (s t : String) → s ≢ t → (s == t) ≡ false
test_of_ne s t h = ground (arith, eq_iff s t)

pub eq_of_test : (s t : String) → (s == t) ≡ true → s ≡ t
eq_of_test s t h = (eq_iff s t).0 h
