-- ===== src/LineChecks.antt =====
-- The checks of one line in build_support/cpplint.py, as functions from the cleansed lines to
-- reports.
pub mod Common
pub mod Simple
pub mod Constructs
pub mod Calls
pub mod Comments
pub mod Spacing
pub mod Operators
pub mod Types
pub mod BraceSpacing
pub mod Braces
pub mod Semicolons
pub mod EmptyBlocks
pub mod CheckMacros
pub mod AltTokens
pub mod Style
pub mod Proper
