-- ===== src/Loggers.antt =====
-- src/adapters/logging: the loggers that write text.
pub mod Line
pub mod Stdio
pub mod Threads
pub mod Lines
pub mod Colour
pub mod Spdlog
