-- ===== src/ProcessorV2.antt =====
-- message_processor_v2.c.
pub mod Gesture
pub mod Message
pub mod Handlers
pub mod Video
pub mod Readable
pub mod Drained
pub mod Tests
pub mod ReplyTests
