-- ===== src/Command.antt =====
-- cmd/ffstream: what the command makes of its arguments.
pub mod Options
pub mod Flags
pub mod Resources
pub mod Encoders
pub mod Context
pub mod Templates
pub mod Settings
pub mod ParseFlags
pub mod Main
pub mod Runtime
pub mod Printing
