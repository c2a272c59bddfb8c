-- ===== src/WebRtc.antt =====
-- The package nativewebrtc.
pub mod Wire
pub mod Stream
pub mod Link
pub mod Listener
pub mod Signaling
