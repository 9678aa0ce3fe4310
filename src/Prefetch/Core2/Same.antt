-- ===== src/Prefetch/Core2/Same.antt =====
-- The programs of core2-prefetch leave the registers as intel-prefetch-disable.c does.
use uarch_configure.Common.{List}
use uarch_configure.Prefetch.{Core, Outcome, returns, exits}

-- The cores at the end of a run.
abbrev pub cores_after {ℓ} : {A : Type ℓ} → Outcome A → List Core
cores_after (returns a m) = m.cores
cores_after (exits code m) = m.cores
