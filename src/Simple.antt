-- ===== src/Simple.antt =====
-- wattsup/wattsup-simple.c: prints the time and the watts of a Watts Up? meter once per second.
pub mod Read
pub mod Meter
pub mod Lines
pub mod Sample
pub mod Overrun
pub mod Missed
pub mod Commands
mod Examples
