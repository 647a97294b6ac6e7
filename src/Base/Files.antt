-- ===== src/Base/Files.antt =====
-- `fgets` of the C library.
use Prim.Native.Nat.{ℕ, zero, suc, ◌≤◌}
use mathlib.Core.List.{List, [], ◌∷◌}
use native.Mathlib.Omega.{arith}
use libcpr.Base.Tests.{◌==◌, if◌then◌else◌}
use libcpr.Base.Lists.{length}

-- At most so many bytes up to a newline, and the rest of the file.
unfoldable pub fgets : ℕ → List ℕ → List ℕ × List ℕ
fgets zero file = ([], file)
fgets (suc n) [] = ([], [])
fgets (suc n) (c ∷ file) =
    let more = fgets n file in if c == b'\n' then (c ∷ [], file) else (c ∷ more.0, more.1)

fgets_shorter : (n : ℕ) (file : List ℕ) → length (fgets n file).1 ≤ length file
unfolding fgets
fgets_shorter zero file = omega arith
fgets_shorter (suc n) [] = omega arith
fgets_shorter (suc n) (c ∷ file) = ground (arith, fgets_shorter n file)

pub fgets_takes : (n c : ℕ) (file : List ℕ) → length (fgets (suc n) (c ∷ file)).1 ≤ length file
unfolding fgets
fgets_takes n c file = ground (arith, fgets_shorter n file)
