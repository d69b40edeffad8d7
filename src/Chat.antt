-- ===== src/Chat.antt =====
-- The chat programs of examples/chat_server.rs and examples/chat_client.rs: the commands that are typed,
-- what is received, and the two threads.
pub mod Text
pub mod Console
pub mod Receiver
pub mod Setup
pub mod Threads
