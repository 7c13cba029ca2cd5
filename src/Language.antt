-- ===== src/Language.antt =====
-- The checks of one line behind `CheckStyle` in build_support/cpplint.py: language rules, casts,
-- references, inheritance, features of C++11.
pub mod Casts
pub mod Statics
pub mod References
pub mod Inheritance
pub mod Features
pub mod Inside
pub mod Arrays
pub mod Rules
pub mod Line
pub mod Proper
