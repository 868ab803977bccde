-- ===== src/Events.antt =====
-- evnt_handler.c: unsolicited events, the replies to commands, and the loop that waits for them.
mod Tests
pub mod FlowControl
pub mod Unsolicited
pub mod Solicited
pub mod Patches
pub mod Loop
