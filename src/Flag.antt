-- ===== src/Flag.antt =====
-- pkg/ffflag: the command-line parser, its options and the values that they hold.
pub mod Value
pub mod Parser
