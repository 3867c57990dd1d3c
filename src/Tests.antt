-- ===== src/Tests.antt =====
-- Sample engines, and the theorems of the library at them.
mod Codec
mod Encodings
mod Connection
mod Samples
mod Flow
mod Parts
mod Rules
mod Access
mod Bans
mod Sweep
mod Audit
mod Drain
mod Parsing
mod Shutdown
mod Schedule
mod Probing
