-- ===== src/RequestProcessor.antt =====
-- src/zippylog/request_processor.cpp: `RequestProcessor`, which answers the requests of clients. The
-- children hold its messages, its state with the operations on it, and its handlers, and the
-- children of those what they do.
pub mod Messages
pub mod State
pub mod Info
pub mod Segment
pub mod Subscriptions
pub mod Writes
pub mod Record
pub mod Dispatch
pub mod Pump
mod Examples
