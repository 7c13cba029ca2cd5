-- ===== src/Nesting.antt =====
-- `NestingState` of build_support/cpplint.py: the stack of blocks that a line stands in.
pub mod Blocks
pub mod Endings
pub mod State
pub mod Preprocessor
pub mod Template
pub mod Update
pub mod Sections
pub mod Shape
pub mod Invariant
pub mod Rounds
pub mod Places
pub mod Braces
