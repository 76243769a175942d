-- ===== src/Console.antt =====
-- packages/cyberlegion/src/console: ringing a peer in its multiplexer pane, and guarding what a
-- person is typing there.
pub mod Ring
pub mod RingText
pub mod Doorbell
pub mod Trust
pub mod Prompt
pub mod Guard
mod Tests
