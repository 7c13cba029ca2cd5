-- ===== src/Includes.antt =====
-- The names of files and the include lines of build_support/cpplint.py: `FileInfo`,
-- `_ClassifyInclude`, `CheckIncludeLine`, and `CheckLanguage` with its branch for them.
pub mod Paths
pub mod FileInfo
pub mod Headers
pub mod Classify
pub mod Lines
