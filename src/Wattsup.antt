-- ===== src/Wattsup.antt =====
-- The Watts Up? meter of wattsup/wattsup.c: the packet, the device as the program meets it, and
-- what a call leaves behind.
pub mod Format
pub mod Parse
pub mod Fits
pub mod Bounds
pub mod RoundTrip
pub mod Device
pub mod Commands
pub mod ReadData
pub mod Reading
pub mod GivesUp
pub mod Ends
pub mod Overrun
pub mod Settings
pub mod Sends
pub mod Open
pub mod Options
pub mod Tables
pub mod Main
pub mod Whole
pub mod Better
pub mod Print
mod Examples
mod TableExamples
mod PrintExamples
use uarch_configure.Common.{ℕ, ◌^◌, List, [], Option}
use uarch_configure.Common.Text.{Text}

abbrev pub wu_strlen : ℕ
wu_strlen = 256

abbrev pub wu_num_fields : ℕ
wu_num_fields = 18

abbrev pub wu_param_len : ℕ
wu_param_len = 16

-- `struct wu_packet`, without the labels, which are only printed. `buf` holds the bytes in front of
-- `len`. A field is the text that its pointer leads to; fields that were never set are not listed.
pub record Packet : Type 0 where
  pub cmd : ℕ
  pub sub_cmd : ℕ
  pub count : ℕ
  pub buf : Text
  pub len : ℕ
  pub field : List Text

-- What an `int` function of the program returns, with the `errno` that it leaves.
pub data Code : Type 0 where
  success eoverflow efault etime einval io_error : Code
