-- ===== src/Wattsup/Overrun.antt =====
-- `wu_read` of wattsup/wattsup.c on a reply that fills its buffer.
use uarch_configure.Common.Text.{Text}
use uarch_configure.Wattsup.Device.{Device}
