-- ===== src/Daq.antt =====
-- mc1208fs-plus: the driver of the USB-1208FS-Plus data acquisition device (mccdevice.c), its
-- sample buffer (daqflex.c, databuffer.h) and the thread that fills it (poll_thread.c).
pub mod Device
pub mod Endpoints
pub mod PacketSize
pub mod Ends
pub mod Sizes
pub mod Search
pub mod Messages
pub mod Display
pub mod Start
pub mod Glitch
pub mod Recording
pub mod Traces
pub mod Poll
mod Examples
mod RecordingExamples
