-- ===== src/Wattsup/Settings.antt =====
-- The commands of wattsup/wattsup.c that set a parameter of the meter, and the options that lead to
-- them. An option's value is a text, or `none` for `NULL`.
use uarch_configure.Common.{ℕ, ◌-◌, if◌then◌else◌, Option, none, some}
use uarch_configure.Common.{[], ◌∷◌, ◌++◌, take}
use uarch_configure.Common.Text.{Text, is_digit, print_unsigned}
use uarch_configure.Common.Strtol.{strtoul, strtol}
use uarch_configure.Wattsup.{Code, success, einval, wu_param_len}
use uarch_configure.Wattsup.Device.{M, fault, ◌>>=◌, return, wu_write}
use uarch_configure.Wattsup.Commands.{packet, failed}

-- `snprintf(str, wu_param_len, "%ud", n)`: the number and a `d`.
unfoldable pub param_text : ℕ → Text
unfolding print_unsigned
param_text n = take (wu_param_len - 1) (print_unsigned n ++ (b'd' ∷ []))

unfoldable pub wu_write_interval : ℕ → ℕ → M Code
wu_write_interval seconds interval = do
  (ret, _) ← wu_write (packet b'S' b'W' (param_text seconds ∷ param_text interval ∷ []) 2)
  if failed ret then return ret else return success

unfoldable pub wu_write_mode : ℕ → M Code
wu_write_mode mode = do (ret, _) ← wu_write (packet b'M' b'W' (param_text mode ∷ []) 1); return ret

-- The four texts are made, and stand as labels in the packet, which has no fields.
unfoldable pub wu_write_user : ℕ → ℕ → ℕ → ℕ → M Code
wu_write_user kwh_cost second_tier_cost second_tier_threshold duty_cycle_threshold = do
  (ret, _) ← wu_write (packet b'U' b'R' [] 0)
  return ret

-- `if (*end)`: only a text that is a number as a whole is taken.
unfoldable pub if_whole {ℓ} : {A : Type ℓ} → ℕ × Text → (ℕ → M A) → M A → M A
if_whole (n, []) k bad = k n
if_whole (n, c ∷ rest) k bad = bad

-- `wu_interval` beside the result. `strtol` is called on `NULL` where the option has no value.
unfoldable pub wu_store_interval : Option Text → M (Code × ℕ)
unfolding if_whole
wu_store_interval none = λ d. fault
wu_store_interval (some s) =
    if_whole (strtol s) (λ n. do ret ← wu_write_interval 1 n; return (ret, n))
      (return (einval, (strtol s).0))

unfoldable pub wu_store_mode : Option Text → M Code
unfolding if_whole
wu_store_mode none = λ d. fault
wu_store_mode (some s) = if_whole (strtol s) wu_write_mode (return einval)

-- `while (s && !isdigit(*s)) s++;`: no NUL stops it, so without a digit it leaves the text.
unfoldable pub skip_to_digit : Text → Option Text
skip_to_digit [] = none
skip_to_digit (c ∷ s) = if is_digit c then some (c ∷ s) else skip_to_digit s

-- One number of `wu_store_user` and the search for the next one.
unfoldable pub next_parameter : Text → M (Option (ℕ × Text))
next_parameter s = elim (strtoul s) [
  | none ↦ return none
  | some (n, next) ↦ elim (skip_to_digit next) [
    | none ↦ λ d. fault
    | some s' ↦ return (some (n, s'))
  ]
]

unfoldable pub with_parameter : Text → (ℕ → Text → M Code) → M Code
with_parameter s k = do
  r ← next_parameter s
  elim r [ none ↦ return einval | some (n, s') ↦ k n s' ]

unfoldable pub wu_store_user : Option Text → M Code
wu_store_user none = return einval
wu_store_user (some buf) = with_parameter buf λ kwh_cost s₁.
    with_parameter s₁ λ second_tier_cost s₂. with_parameter s₂ λ second_tier_threshold s₃.
      with_parameter s₃ λ duty_cycle_threshold s₄.
        wu_write_user kwh_cost second_tier_cost second_tier_threshold duty_cycle_threshold
