-- ===== src/Wattsup/Open/Paths.antt =====
-- How open_device of wattsup/wattsup.c ends, and how the line is set up.
use uarch_configure.Common.{
  ℕ, ◌-◌, ◌^◌, ◌<◌, ◌≡◌, refl, arith, ◌==◌, ==→eq, ◌||◌, if◌then◌else◌, Bool, true, false, Option,
  none, some, bit_and, passes_below, passes_below-at,
}
use uarch_configure.Common.Bits.{bit, bit-bit_and, bit-bit_or, bit-le-one}
use uarch_configure.Wattsup.Open.{
  start, sysfs, dev, Kind, directory, System, Opened, open_node, open_result, after_sysfs,
  open_device, better_open_device, Flags, better_serial_flags,
}

abbrev pub exists_as_other : Option Kind → Bool
exists_as_other none = false
exists_as_other (some directory) = false
exists_as_other (some _) = true

abbrev pub is_none : Option ℕ → Bool
is_none none = true
is_none (some n) = false

-- The result, in each case of what it depends on.
abbrev ended : Bool → Bool → Option Kind → Option ℕ → Opened
ended cwd_opens enters kind node =
    if cwd_opens
    then (if enters
        then after_sysfs kind (open_result node)
        else record { returned_0 = false; cwd = start; cur_fd_open = true; dev_fd = none })
    else record { returned_0 = false; cwd = start; cur_fd_open = false; dev_fd = none }

better_ended : (n : Option ℕ) → (open_result n).dev_fd ≡ n
better_ended none = refl
better_ended (some fd) = refl

-- Where the name is a directory of /sys/class/tty and /dev can be entered, wattsup.c opens what
-- wattsup-better.c and wattsup-simple.c open.
pub open_device-better_open_device :
    (s : System)
    → s.cwd_opens ≡ true
    → s.enters sysfs ≡ true
    → s.kind sysfs ≡ some directory
    → s.enters dev ≡ true
    → (open_device s).dev_fd ≡ better_open_device s
unfolding open_device better_open_device
open_device-better_open_device s c e k d = rw (c, e, k, d) (better_ended (open_node s dev))

parity_mask : passes_below 32 (λ k. bit (2 ^ 32 - 1 - 0x100) k == (if k == 8 then 0 else 1)) ≡ true
unfolding passes_below
parity_mask = refl

stop_mask : passes_below 32 (λ k. bit (2 ^ 32 - 1 - 0x40) k == (if k == 6 then 0 else 1)) ≡ true
unfolding passes_below
stop_mask = refl

size_mask :
    passes_below 32 (λ k. bit (2 ^ 32 - 1 - 0x30) k == (if k == 4 || k == 5 then 0 else 1)) ≡ true
unfolding passes_below
size_mask = refl

size_bits : passes_below 32 (λ k. bit 0x30 k == (if k == 4 || k == 5 then 1 else 0)) ≡ true
unfolding passes_below
size_bits = refl

from_table :
    (word : ℕ) (f : ℕ → ℕ) (k : ℕ)
    → passes_below 32 (λ k. bit word k == f k) ≡ true
    → k < 32
    → bit word k ≡ f k
from_table word f k table h = ==→eq _ _ (passes_below-at 32 _ table k h)

-- wattsup-better.c and wattsup-simple.c set up eight bits (bits 4 and 5 of the flags), no parity (8) and
-- one stop bit (6), whatever stood there, and leave the other flags.
pub better_serial_flags_bits :
    (t : Flags) (k : ℕ)
    → k < 32
    → bit (better_serial_flags t).c_cflag k
      ≡ (if k == 4 || k == 5 then 1 else if k == 6 || k == 8 then 0 else bit t.c_cflag k)
unfolding better_serial_flags
better_serial_flags_bits t k h =
    let no_parity = bit_and t.c_cflag (2 ^ 32 - 1 - 0x100) in
    let one_stop = bit_and no_parity (2 ^ 32 - 1 - 0x40) in
    let no_size = bit_and one_stop (2 ^ 32 - 1 - 0x30) in
    ground (
      arith,
      bit-bit_or no_size 0x30 k,
      bit-bit_and one_stop (2 ^ 32 - 1 - 0x30) k,
      bit-bit_and no_parity (2 ^ 32 - 1 - 0x40) k,
      bit-bit_and t.c_cflag (2 ^ 32 - 1 - 0x100) k,
      from_table (2 ^ 32 - 1 - 0x100) (λ k. if k == 8 then 0 else 1) k parity_mask h,
      from_table (2 ^ 32 - 1 - 0x40) (λ k. if k == 6 then 0 else 1) k stop_mask h,
      from_table (2 ^ 32 - 1 - 0x30) (λ k. if k == 4 || k == 5 then 0 else 1) k size_mask h,
      from_table 0x30 (λ k. if k == 4 || k == 5 then 1 else 0) k size_bits h,
      bit-le-one t.c_cflag k,
    )
