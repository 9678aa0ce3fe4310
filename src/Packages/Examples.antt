-- ===== src/Packages/Examples.antt =====
-- The theorems on `detect_packages` at concrete inputs.
use uarch_configure.Common.{◌≡◌, arith, some, [], ◌∷◌}
use uarch_configure.Packages.{Packages, detect_packages}
use uarch_configure.Packages.Map.{IsDetected, detect_packages-IsDetected}

detect_packages-IsDetected_example :
    (st : Packages) × (detect_packages (0 ∷ 1 ∷ 0 ∷ []) ≡ some st) × IsDetected (0 ∷ 1 ∷ 0 ∷ []) st
detect_packages-IsDetected_example =
    detect_packages-IsDetected (0 ∷ 1 ∷ 0 ∷ []) (omega arith, (omega arith, (omega arith, tt)))
