-- ===== src/RaspPi.antt =====
-- rasp-pi-serial: programs around the serial port of a Raspberry Pi and its flow control pins.
pub mod Board
pub mod Revision
pub mod Flow
pub mod Pins
pub mod Uart
pub mod Changes
pub mod Monitor
pub mod Watch
pub mod Toggle
pub mod Restored
pub mod Main
mod Examples
