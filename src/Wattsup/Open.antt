-- ===== src/Wattsup/Open.antt =====
-- open_device and setup_serial_device of wattsup/wattsup.c, on what the system gives, and those of
-- wattsup/wattsup-better.c and wattsup/wattsup-simple.c.
pub mod Paths
use uarch_configure.Common.{
  ℕ, ◌-◌, ◌^◌, if◌then◌else◌, Bool, true, false, Option, none, some, bit_and, bit_or,
}

-- The directories that the program is in: the one it was started in, /sys/class/tty and /dev.
pub data Directory : Type 0 where
  start sysfs dev : Directory

pub data Kind : Type 0 where
  directory character_device other : Kind

-- `cwd_opens`: whether "." opens; `enters`: whether `chdir` to a directory works; for the name of the
-- device in each directory, what `stat` says, `access` and `open`.
pub record System : Type 0 where
  pub cwd_opens : Bool
  pub enters : Directory → Bool
  pub kind : Directory → Option Kind
  pub writable : Directory → Bool
  pub opens : Directory → Option ℕ

-- `returned_0`, the working directory, whether `cur_fd` is still open, and `*dev_fd`, `none` where it
-- is as it was.
pub record Opened : Type 0 where
  pub returned_0 : Bool
  pub cwd : Directory
  pub cur_fd_open : Bool
  pub dev_fd : Option ℕ

-- The label `Done`: back to the directory of `cur_fd`, and the result.
abbrev pub done : Bool → Option ℕ → Opened
done ret fd = record { returned_0 = ret; cwd = start; cur_fd_open = false; dev_fd = fd }

-- From `stat` to `Done` in the directory that `chdir("/dev")` left, and the part that the three
-- programs share: what opens, `none` for an error.
abbrev pub is_character_device : Option Kind → Bool
is_character_device (some character_device) = true
is_character_device _ = false

unfoldable pub open_node : System → Directory → Option ℕ
open_node s d =
    if is_character_device (s.kind d) then (if s.writable d then s.opens d else none) else none

abbrev pub open_result : Option ℕ → Opened
open_result none = done false none
open_result (some fd) = done true (some fd)

-- `stat` in /sys/class/tty: where it is no directory, `ret` is still the 0 of `stat`.
abbrev pub after_sysfs : Option Kind → Opened → Opened
after_sysfs none next = done false none
after_sysfs (some directory) next = next
after_sysfs (some other) next = done true none
after_sysfs (some character_device) next = done true none

unfoldable pub open_device : System → Opened
unfolding open_node
open_device s =
    if s.cwd_opens
    then (if s.enters sysfs
        then after_sysfs (s.kind sysfs)
            (open_result (open_node s (if s.enters dev then dev else start)))
        else record { returned_0 = false; cwd = start; cur_fd_open = true; dev_fd = none })
    else record { returned_0 = false; cwd = start; cur_fd_open = false; dev_fd = none }

-- open_device of wattsup-better.c and wattsup-simple.c: the name has "/dev/" in front.
unfoldable pub better_open_device : System → Option ℕ
unfolding open_node
better_open_device s = open_node s dev

-- `c_iflag` and `c_cflag`
pub record Flags : Type 0 where
  pub c_iflag : ℕ
  pub c_cflag : ℕ

-- The changes of wattsup.c on what `cfmakeraw` and the speeds left, as `unsigned int`s.
unfoldable pub serial_flags : Flags → Flags
serial_flags t = record {
  c_iflag = bit_or t.c_iflag 0x4;
  c_cflag = bit_and t.c_cflag (2 ^ 32 - 1 - 0x40);
}

-- The changes of wattsup-better.c and wattsup-simple.c.
unfoldable pub better_serial_flags : Flags → Flags
better_serial_flags t = record t {
  c_cflag =
      bit_or
        (bit_and (bit_and (bit_and t.c_cflag (2 ^ 32 - 1 - 0x100)) (2 ^ 32 - 1 - 0x40))
          (2 ^ 32 - 1 - 0x30))
        0x30;
}
