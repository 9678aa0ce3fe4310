-- ===== src/Wattsup/Better/Stuck.antt =====
-- The recovery of wattsup/wattsup-better.c does not end.
use uarch_configure.Wattsup.Device.{Device, Outcome, returns, fault, waiting, exhausted}

-- No result.
abbrev pub NoReturn {ℓ} : {A : Type ℓ} → Outcome A → Type 0
NoReturn (returns a d) = ⊥
NoReturn fault = Unit {0}
NoReturn waiting = Unit {0}
NoReturn exhausted = Unit {0}
