-- ===== src/Config.antt =====
-- The configuration loader, common/boot/cldr.c and boot/cldr.h: from bytes to tokens, from tokens to
-- a tree of groups and values, and look-ups by a dotted path.
pub mod Tokens
pub mod Parser
pub mod Nodes
mod Examples
